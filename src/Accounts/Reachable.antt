-- ===== src/Accounts/Reachable.antt =====
-- The operations on users and keys as steps of the store.
use travel_mcp.Prelude.{
  ℕ, ◌≤◌, ◌≡◌, refl, sym, ap, ◌∙◌, inl, inr, String, ◌==◌, arith, Bool-cases, Option-cases,
}
use travel_mcp.Jobs.Store.{get_row, get_text}
use travel_mcp.Accounts.{
  Accounts, no_accounts, create_user, update_user_status, update_user_role, update_user_config,
  delete_user, create_api_key, delete_api_key, touch_api_key,
}
use travel_mcp.Accounts.Users.{
  Consistent, no_accounts-Consistent, create_user-Consistent, update_user-Consistent,
  delete_user-Consistent,
}

-- The operations of the store on users and keys, whatever they answer.
pub data Step (a : Accounts) : Accounts → Type 0 where
  creates_user :
      (now : ℕ) (email pass_hash role : String) → Step a (create_user now email pass_hash role a).0
  sets_status : (id : ℕ) (status : String) → Step a (update_user_status id status a).0
  sets_role : (id : ℕ) (role : String) → Step a (update_user_role id role a).0
  sets_config : (id : ℕ) (config : String) → Step a (update_user_config id config a).0
  deletes_user : (id : ℕ) → Step a (delete_user id a).0
  creates_key :
      (now : ℕ) (key : String) (user_id : ℕ) (scopes : String)
      → Step a (create_api_key now key user_id scopes a).0
  deletes_key : (id user_id : ℕ) → Step a (delete_api_key id user_id a).0
  touches_key : (now : ℕ) (key : String) → Step a (touch_api_key now key a)

pub data Reachable : Accounts → Type 0 where
  empty : Reachable no_accounts
  next : {a b : Accounts} → Reachable a → Step a b → Reachable b

-- Keys leave the users, and only raise the next number.
same_users :
    (a b : Accounts)
    → b.users ≡ a.users
    → b.users_by_email ≡ a.users_by_email
    → a.next_id ≤ b.next_id
    → Consistent a
    → Consistent b
unfolding Consistent
same_users a b us es le (rows, emails) = (
  (λ id u e.
      let (h1, h2, h3) = rows id u (ap (get_row id) (sym us) ∙ e) in
      (h1, omega arith, ap (get_text u.email) es ∙ h3)),
  (λ email id e.
      let (u, h, k) = emails email id (ap (get_text email) (sym es) ∙ e) in
      (u, ap (get_row id) us ∙ h, k)),
)

delete_api_key-Consistent :
    (id user_id : ℕ) (a : Accounts) → Consistent a → Consistent (delete_api_key id user_id a).0
unfolding delete_api_key
delete_api_key-Consistent id user_id a c = elim (Option-cases (get_row id a.api_keys)) [
  | inl n ↦ rw (n, delete_api_key) c
  | inr (k, e) ↦ elim (Bool-cases (k.user_id == user_id)) [
    | inl y ↦ rw (e, y, delete_api_key) (same_users a _ refl refl (omega arith) c)
    | inr n ↦ rw (e, n, delete_api_key) c
  ]
]

touch_api_key-Consistent :
    (now : ℕ) (key : String) (a : Accounts) → Consistent a → Consistent (touch_api_key now key a)
unfolding touch_api_key
touch_api_key-Consistent now key a c = elim (Option-cases (get_text key a.api_keys_by_key)) [
  | inl n ↦ rw (n, touch_api_key) c
  | inr (id, e) ↦ rw (e, touch_api_key) (same_users a _ refl refl (omega arith) c)
]

Step-Consistent : {a b : Accounts} → Step a b → Consistent a → Consistent b
unfolding update_user_status update_user_role update_user_config create_api_key
Step-Consistent {a = a} (creates_user now email pass_hash role) c =
    create_user-Consistent now email pass_hash role a c
Step-Consistent {a = a} (sets_status id status) c =
    update_user-Consistent _ id a (λ u. (refl, refl)) c
Step-Consistent {a = a} (sets_role id role) c = update_user-Consistent _ id a (λ u. (refl, refl)) c
Step-Consistent {a = a} (sets_config id config) c =
    update_user-Consistent _ id a (λ u. (refl, refl)) c
Step-Consistent {a = a} (deletes_user id) c = delete_user-Consistent id a c
Step-Consistent {a = a} (creates_key now key user_id scopes) c =
    same_users a _ refl refl (omega arith) c
Step-Consistent {a = a} (deletes_key id user_id) c = delete_api_key-Consistent id user_id a c
Step-Consistent {a = a} (touches_key now key) c = touch_api_key-Consistent now key a c

-- However the operations on users and keys follow one another from the empty store on, every user has
-- its own number, which is under the next one, and is found by its address, and every address that is
-- known is that of a user.
pub Reachable-Consistent : {a : Accounts} → Reachable a → Consistent a
Reachable-Consistent empty = no_accounts-Consistent
Reachable-Consistent (next r s) = Step-Consistent s (Reachable-Consistent r)
