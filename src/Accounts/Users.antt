-- ===== src/Accounts/Users.antt =====
-- The users that the store has, and what the operations on them keep.
use mathlib.Core.Option.{some-injective, none-ne-some}
use travel_mcp.Prelude.{
  ℕ, ◌+◌, ◌<◌, ◌≡◌, refl, sym, ap, ◌∙◌, subst, inl, inr, String, Bool, true, false, ◌==◌, str_eq,
  none, some, arith, eq_iff, eq_refl, Bool-cases, Option-cases,
}
use travel_mcp.Jobs.Store.{get_row, get_text, put_row, put_text}
use travel_mcp.Accounts.{
  UserRow, Accounts, no_accounts, drop_row, drop_text, create_user, update_user, delete_user,
}
use travel_mcp.Accounts.Rows.{
  row_here, row_other, text_here, text_other, row_dropped, row_kept, text_dropped, text_kept,
}

-- Every user has its own number, under the next one, and is found by its e-mail address; every address
-- is that of a user.
unfoldable pub Consistent : Accounts → Type 0
Consistent a =
    ((id : ℕ) (u : UserRow)
      → get_row id a.users ≡ some u
      → (u.id ≡ id) × (id < a.next_id) × (get_text u.email a.users_by_email ≡ some id))
    × ((email : String) (id : ℕ)
        → get_text email a.users_by_email ≡ some id
        → (u : UserRow) × (get_row id a.users ≡ some u) × (u.email ≡ email))

pub no_accounts-Consistent : Consistent no_accounts
unfolding Consistent get_row get_text
no_accounts-Consistent =
    ((λ id u e. absurd (none-ne-some _ e)), (λ email id e. absurd (none-ne-some _ e)))

pub clash : {b : Bool} → b ≡ true → b ≡ false → ⊥
clash y n = ground arith

-- The store once the user is written.
abbrev pub with_user : UserRow → Accounts → Accounts
with_user u a = record a {
  users = put_row a.next_id u a.users;
  users_by_email = put_text u.email a.next_id a.users_by_email;
  next_id = a.next_id + 1;
}

with_user-Consistent :
    (u : UserRow) (a : Accounts)
    → u.id ≡ a.next_id
    → get_text u.email a.users_by_email ≡ none
    → Consistent a
    → Consistent (with_user u a)
unfolding Consistent
with_user-Consistent u a own fresh (rows, emails) = (
  (λ id v e. elim (Bool-cases (a.next_id == id)) [
    | inl y ↦ new_row id v y (some-injective _ _ (sym (row_here id a.next_id u a.users y) ∙ e))
    | inr n ↦ old_row id v (rows id v (sym (row_other id a.next_id u a.users n) ∙ e))
  ]),
  (λ email id e. elim (Bool-cases (str_eq u.email email)) [
    | inl y ↦
        new_email email id y
          (some-injective _ _ (sym (text_here email u.email a.next_id a.users_by_email y) ∙ e))
    | inr n ↦
        old_email email id
          (emails email id (sym (text_other email u.email a.next_id a.users_by_email n) ∙ e))
  ]),
)
  where
    new_row :
        (id : ℕ) (v : UserRow)
        → (a.next_id == id) ≡ true
        → u ≡ v
        → (v.id ≡ id)
          × (id < a.next_id + 1)
          × (get_text v.email (put_text u.email a.next_id a.users_by_email) ≡ some id)
    new_row id v y e =
        let same : a.next_id ≡ id = ground arith in
        let mine : get_text u.email (put_text u.email a.next_id a.users_by_email) ≡ some a.next_id =
          text_here u.email u.email a.next_id a.users_by_email (eq_refl u.email) in
        (
          ap (λ (w : UserRow). w.id) (sym e) ∙ own ∙ same,
          omega arith,
          subst
              (λ (w : UserRow).
                get_text w.email (put_text u.email a.next_id a.users_by_email) ≡ some id)
              e (mine ∙ ap some same),
        )

    old_row :
        (id : ℕ) (v : UserRow)
        → (v.id ≡ id) × (id < a.next_id) × (get_text v.email a.users_by_email ≡ some id)
        → (v.id ≡ id)
          × (id < a.next_id + 1)
          × (get_text v.email (put_text u.email a.next_id a.users_by_email) ≡ some id)
    old_row id v (h1, h2, h3) = elim (Bool-cases (str_eq u.email v.email)) [
      | inl y ↦ absurd (
          none-ne-some _
            (sym fresh ∙ ap (λ t. get_text t a.users_by_email) ((eq_iff u.email v.email).0 y) ∙ h3))
      | inr n ↦ (h1, omega arith, (text_other v.email u.email a.next_id a.users_by_email n) ∙ h3)
    ]

    new_email :
        (email : String) (id : ℕ)
        → str_eq u.email email ≡ true
        → a.next_id ≡ id
        → (v : UserRow) × (get_row id (put_row a.next_id u a.users) ≡ some v) × (v.email ≡ email)
    new_email email id y e =
        let same : (a.next_id == id) ≡ true = ground arith in
        (u, row_here id a.next_id u a.users same, (eq_iff u.email email).0 y)

    old_email :
        (email : String) (id : ℕ)
        → (v : UserRow) × (get_row id a.users ≡ some v) × (v.email ≡ email)
        → (v : UserRow) × (get_row id (put_row a.next_id u a.users) ≡ some v) × (v.email ≡ email)
    old_email email id (v, h, k) =
        let (_, low, _) = rows id v h in
        let other : (a.next_id == id) ≡ false = ground arith in
        (v, (row_other id a.next_id u a.users other) ∙ h, k)

-- A change of a user's row that leaves its number and its address.
pub update_user-Consistent :
    (f : UserRow → UserRow) (id : ℕ) (a : Accounts)
    → ((u : UserRow) → ((f u).id ≡ u.id) × ((f u).email ≡ u.email))
    → Consistent a
    → Consistent (update_user f id a).0
unfolding Consistent update_user
update_user-Consistent f id a keeps (rows, emails) = elim (Option-cases (get_row id a.users)) [
  | inl n ↦ rw (n, update_user) (rows, emails)
  | inr (u, e) ↦
      rw (e, update_user)
        (
          (λ k v at. elim (Bool-cases (id == k)) [
            | inl y ↦
                changed k v u e y (some-injective _ _ (sym (row_here k id (f u) a.users y) ∙ at))
            | inr n ↦ rows k v (sym (row_other k id (f u) a.users n) ∙ at)
          ]),
          (λ email k at. elim (Bool-cases (id == k)) [
            | inl y ↦ named email k u e y (emails email k at)
            | inr n ↦
                let (v, h, same) = emails email k at in
                (v, (row_other k id (f u) a.users n) ∙ h, same)
          ]),
        )
]
  where
    changed :
        (k : ℕ) (v u : UserRow)
        → get_row id a.users ≡ some u
        → (id == k) ≡ true
        → f u ≡ v
        → (v.id ≡ k) × (k < a.next_id) × (get_text v.email a.users_by_email ≡ some k)
    changed k v u e y h =
        let same : id ≡ k = ground arith in
        let (h1, h2, h3) = rows id u e in
        let (k1, k2) = keeps u in
        subst
          (λ (w : UserRow).
            (w.id ≡ k) × (k < a.next_id) × (get_text w.email a.users_by_email ≡ some k))
          h
          (
            k1 ∙ h1 ∙ same,
            omega arith,
            ap (λ t. get_text t a.users_by_email) k2 ∙ h3 ∙ ap some same,
          )

    named :
        (email : String) (k : ℕ) (u : UserRow)
        → get_row id a.users ≡ some u
        → (id == k) ≡ true
        → ((v : UserRow) × (get_row k a.users ≡ some v) × (v.email ≡ email))
        → (v : UserRow) × (get_row k (put_row id (f u) a.users) ≡ some v) × (v.email ≡ email)
    named email k u e y (v, h, same) =
        let equal : id ≡ k = ground arith in
        let (k1, k2) = keeps u in
        let one : u ≡ v = some-injective _ _ (sym e ∙ ap (λ j. get_row j a.users) equal ∙ h) in
        (f u, row_here k id (f u) a.users y, k2 ∙ ap (λ (w : UserRow). w.email) one ∙ same)

pub delete_user-Consistent :
    (id : ℕ) (a : Accounts) → Consistent a → Consistent (delete_user id a).0
unfolding Consistent delete_user
delete_user-Consistent id a (rows, emails) = elim (Option-cases (get_row id a.users)) [
  | inl n ↦ rw (n, delete_user) (rows, emails)
  | inr (u, e) ↦
      rw (e, delete_user) ((λ k v at. row k v u e at), (λ email k at. name email k u e at))
]
  where
    row :
        (k : ℕ) (v u : UserRow)
        → get_row id a.users ≡ some u
        → get_row k (drop_row id a.users) ≡ some v
        → (v.id ≡ k)
          × (k < a.next_id)
          × (get_text v.email (drop_text u.email a.users_by_email) ≡ some k)
    row k v u e at = elim (Bool-cases (id == k)) [
      | inl y ↦ absurd (none-ne-some _ (sym (row_dropped k id a.users y) ∙ at))
      | inr n ↦
          let (h1, h2, h3) = rows k v (sym (row_kept k id a.users n) ∙ at) in
          elim (Bool-cases (str_eq u.email v.email)) [
            | inl z ↦
                let (_, _, g) = rows id u e in
                let same : id ≡ k = some-injective _ _ (
                  sym g
                  ∙ ap (λ t. get_text t a.users_by_email) ((eq_iff u.email v.email).0 z)
                  ∙ h3) in
                ground arith
            | inr m ↦ (h1, h2, text_kept v.email u.email a.users_by_email m ∙ h3)
          ]
    ]

    name :
        (email : String) (k : ℕ) (u : UserRow)
        → get_row id a.users ≡ some u
        → get_text email (drop_text u.email a.users_by_email) ≡ some k
        → (v : UserRow) × (get_row k (drop_row id a.users) ≡ some v) × (v.email ≡ email)
    name email k u e at = elim (Bool-cases (str_eq u.email email)) [
      | inl y ↦ absurd (none-ne-some _ (sym (text_dropped email u.email a.users_by_email y) ∙ at))
      | inr n ↦
          let (v, h, same) =
            emails email k (sym (text_kept email u.email a.users_by_email n) ∙ at) in
          elim (Bool-cases (id == k)) [
            | inl y ↦
                let equal : id ≡ k = ground arith in
                let one : u ≡ v =
                  some-injective _ _ (sym e ∙ ap (λ j. get_row j a.users) equal ∙ h) in
                let named : u.email ≡ email = ap (λ (w : UserRow). w.email) one ∙ same in
                absurd (clash (subst (λ t. str_eq u.email t ≡ true) named (eq_refl u.email)) n)
            | inr m ↦ (v, row_kept k id a.users m ∙ h, same)
          ]
    ]

pub create_user-Consistent :
    (now : ℕ) (email pass_hash role : String) (a : Accounts)
    → Consistent a
    → Consistent (create_user now email pass_hash role a).0
unfolding create_user
create_user-Consistent now email pass_hash role a c =
    elim (Option-cases (get_text email a.users_by_email)) [
      | inl n ↦ rw (n, create_user) (with_user-Consistent _ a refl n c)
      | inr (id, e) ↦ rw (e, create_user) c
    ]
