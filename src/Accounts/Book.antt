-- ===== src/Accounts/Book.antt =====
-- The users as a book that maps an address to its user.
use mathlib.Core.Option.{some-injective}
use travel_mcp.Prelude.{
  ℕ, ◌<◌, ◌≡◌, refl, sym, ap, ◌∙◌, subst, inl, inr, String, true, false, ◌==◌, str_eq,
  if◌then◌else◌, Option, none, some, arith, eq_iff, eq_refl, Bool-cases, Option-cases,
}
use travel_mcp.Jobs.Store.{get_row, get_text, put_row}
use travel_mcp.Accounts.{
  UserRow, Accounts, drop_row, drop_text, create_user, get_user_by_email, update_user, delete_user,
}
use travel_mcp.Accounts.Rows.{
  row_here, row_other, text_here, text_other, row_kept, text_dropped, text_kept,
}
use travel_mcp.Accounts.Users.{Consistent, clash, with_user}

abbrev pub Book : Type 0
Book = String → Option UserRow

abbrev pub view : Accounts → Book
view a email = get_user_by_email email a

-- The book with another entry, or none, under an address.
abbrev pub entered : String → Option UserRow → Book → Book
entered email entry b e = if str_eq email e then entry else b e

-- A new user, unless the address is taken.
abbrev pub added : UserRow → Book → Book
added u b e = elim (b u.email) [ none ↦ entered u.email (some u) b e | some v ↦ b e ]

-- The entry of the user of that row is another one; without a row the book stays.
abbrev pub replaced : Option UserRow → (UserRow → Option UserRow) → Book → Book
replaced none f b e = b e
replaced (some u) f b e = entered u.email (f u) b e

added_free :
    (u : UserRow) (b : Book) (e : String)
    → b u.email ≡ none
    → added u b e ≡ entered u.email (some u) b e
added_free u b e n = rw (n, added) refl

added_taken : (u v : UserRow) (b : Book) (e : String) → b u.email ≡ some v → added u b e ≡ b e
added_taken u v b e n = rw (n, added) refl

module _ (a : Accounts) (c : Consistent a) where
  -- The user that an address has, and its row.
  named :
      (email : String) (id : ℕ)
      → get_text email a.users_by_email ≡ some id
      → (u : UserRow) × (get_row id a.users ≡ some u) × (u.email ≡ email) × (id < a.next_id)
  unfolding Consistent
  named email id e =
      let (rows, emails) = c in
      let (u, h, same) = emails email id e in let (_, low, _) = rows id u h in (u, h, same, low)

  found :
      (id : ℕ) (u : UserRow)
      → get_row id a.users ≡ some u
      → get_text u.email a.users_by_email ≡ some id
  unfolding Consistent
  found id u e = let (rows, _) = c in let (_, _, h) = rows id u e in h

  view_at :
      (email : String) (id : ℕ)
      → get_text email a.users_by_email ≡ some id
      → view a email ≡ get_row id a.users
  unfolding get_user_by_email
  view_at email id e = rw (e, get_user_by_email) refl

  view-none : (email : String) → get_text email a.users_by_email ≡ none → view a email ≡ none
  unfolding get_user_by_email
  view-none email e = rw (e, get_user_by_email) refl

  view-with_user :
      (u : UserRow) (e : String)
      → get_text u.email a.users_by_email ≡ none
      → view (with_user u a) e ≡ entered u.email (some u) (view a) e
  unfolding get_user_by_email
  view-with_user u e fresh = elim (Bool-cases (str_eq u.email e)) [
    | inl y ↦
        let same : (a.next_id == a.next_id) ≡ true = ground arith in
        rw (y, text_here e u.email a.next_id a.users_by_email y, get_user_by_email)
          (row_here a.next_id a.next_id u a.users same)
    | inr n ↦ elim (Option-cases (get_text e a.users_by_email)) [
      | inl z ↦ rw (n, text_other e u.email a.next_id a.users_by_email n, z, get_user_by_email) refl
      | inr (id, z) ↦
          let (_, _, _, low) = named e id z in
          let other : (a.next_id == id) ≡ false = ground arith in
          rw (n, text_other e u.email a.next_id a.users_by_email n, z, get_user_by_email)
            (row_other id a.next_id u a.users other)
    ]
  ]

  other_row :
      (id k : ℕ) (u : UserRow) (e : String)
      → get_row id a.users ≡ some u
      → str_eq u.email e ≡ false
      → get_text e a.users_by_email ≡ some k
      → (id == k) ≡ false
  other_row id k u e at n z = elim (Bool-cases (id == k)) [
    | inr m ↦ m
    | inl y ↦
        let equal : id ≡ k = ground arith in
        let (v, h, same, _) = named e k z in
        let one : u ≡ v = some-injective _ _ (sym at ∙ ap (λ j. get_row j a.users) equal ∙ h) in
        let mine : u.email ≡ e = ap (λ (w : UserRow). w.email) one ∙ same in
        absurd (clash (subst (λ t. str_eq u.email t ≡ true) mine (eq_refl u.email)) n)
  ]

  view-put_row :
      (id : ℕ) (u w : UserRow) (e : String)
      → get_row id a.users ≡ some u
      → view (record a { users = put_row id w a.users }) e ≡ entered u.email (some w) (view a) e
  unfolding get_user_by_email
  view-put_row id u w e at = elim (Bool-cases (str_eq u.email e)) [
    | inl y ↦
        let here : get_text e a.users_by_email ≡ some id =
          subst (λ t. get_text t a.users_by_email ≡ some id) ((eq_iff u.email e).0 y)
            (found id u at) in
        let same : (id == id) ≡ true = ground arith in
        rw (y, here, get_user_by_email) (row_here id id w a.users same)
    | inr n ↦ elim (Option-cases (get_text e a.users_by_email)) [
      | inl z ↦ rw (n, z, get_user_by_email) refl
      | inr (k, z) ↦
          rw (n, z, get_user_by_email) (row_other k id w a.users (other_row id k u e at n z))
    ]
  ]

  view-drop_row :
      (id : ℕ) (u : UserRow) (b : Accounts) (e : String)
      → get_row id a.users ≡ some u
      → b.users ≡ drop_row id a.users
      → b.users_by_email ≡ drop_text u.email a.users_by_email
      → view b e ≡ entered u.email none (view a) e
  unfolding get_user_by_email
  view-drop_row id u b e at us es = elim (Bool-cases (str_eq u.email e)) [
    | inl y ↦ rw (y, es, text_dropped e u.email a.users_by_email y, get_user_by_email) refl
    | inr n ↦ elim (Option-cases (get_text e a.users_by_email)) [
      | inl z ↦ rw (n, es, text_kept e u.email a.users_by_email n, z, get_user_by_email) refl
      | inr (k, z) ↦
          rw (n, es, text_kept e u.email a.users_by_email n, z, us, get_user_by_email)
            (row_kept k id a.users (other_row id k u e at n z))
    ]
  ]

  answer_free :
      (email : String)
      → get_text email a.users_by_email ≡ none
      → some a.next_id ≡ (elim (view a email) [ none ↦ some a.next_id | some v ↦ none ])
  answer_free email n =
      ap (λ (o : Option UserRow). elim o [ none ↦ some a.next_id | some v ↦ none ])
        (sym (view-none email n))

  answer_taken :
      (email : String) (u : UserRow)
      → view a email ≡ some u
      → none ≡ (elim (view a email) [ none ↦ some a.next_id | some v ↦ none ])
  answer_taken email u e =
      ap (λ (o : Option UserRow). elim o [ none ↦ some a.next_id | some v ↦ none ]) (sym e)

  -- The row of a new user.
  abbrev pub new_user : ℕ → String → String → String → UserRow
  new_user now email pass_hash role = record {
    id = a.next_id;
    email = email;
    pass_hash = pass_hash;
    status = if str_eq role "admin" then "active" else "pending";
    role = role;
    config = "";
    created_at = now;
  }

  -- On a store whose users are consistent, the operations are those of a book of users by address: a
  -- new user is entered, and gets the next number, exactly if the address is free; an update that leaves
  -- the address replaces the entry of the user with that number, a deletion takes it away, and without
  -- such a user the book stays.
  pub view-refines :
      ((now : ℕ) (email pass_hash role e : String)
        → (view (create_user now email pass_hash role a).0 e
            ≡ added (new_user now email pass_hash role) (view a) e)
          × ((create_user now email pass_hash role a).1
              ≡ (elim (view a email) [ none ↦ some a.next_id | some v ↦ none ])))
      × ((f : UserRow → UserRow) (id : ℕ) (e : String)
          → view (update_user f id a).0 e
            ≡ replaced (get_row id a.users) (λ u. some (f u)) (view a) e)
      × ((id : ℕ) (e : String)
          → view (delete_user id a).0 e ≡ replaced (get_row id a.users) (λ u. none) (view a) e)
  unfolding create_user update_user delete_user
  view-refines = (creates, updates, deletes)
    where
      creates :
          (now : ℕ) (email pass_hash role e : String)
          → (view (create_user now email pass_hash role a).0 e
              ≡ added (new_user now email pass_hash role) (view a) e)
            × ((create_user now email pass_hash role a).1
                ≡ (elim (view a email) [ none ↦ some a.next_id | some v ↦ none ]))
      creates now email pass_hash role e = elim (Option-cases (get_text email a.users_by_email)) [
        | inl n ↦
            let u = new_user now email pass_hash role in
            rw (n, create_user)
              (
                view-with_user u e n ∙ sym (added_free u (view a) e (view-none email n)),
                answer_free email n,
              )
        | inr (id, z) ↦
            let (u, h, _, _) = named email id z in
            let taken = view_at email id z ∙ h in
            rw (z, create_user)
              (
                sym (added_taken (new_user now email pass_hash role) u (view a) e taken),
                answer_taken email u taken,
              )
      ]

      updates :
          (f : UserRow → UserRow) (id : ℕ) (e : String)
          → view (update_user f id a).0 e
            ≡ replaced (get_row id a.users) (λ u. some (f u)) (view a) e
      updates f id e = elim (Option-cases (get_row id a.users)) [
        | inl n ↦ rw (n, update_user) refl
        | inr (u, at) ↦ rw (at, update_user) (view-put_row id u (f u) e at)
      ]

      deletes :
          (id : ℕ) (e : String)
          → view (delete_user id a).0 e ≡ replaced (get_row id a.users) (λ u. none) (view a) e
      deletes id e = elim (Option-cases (get_row id a.users)) [
        | inl n ↦ rw (n, delete_user) refl
        | inr (u, at) ↦ rw (at, delete_user) (view-drop_row id u _ e at refl refl)
      ]
