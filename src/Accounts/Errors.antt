-- ===== src/Accounts/Errors.antt =====
-- The errors of the operations on users and keys.
use travel_mcp.Prelude.{
  ℕ, ◌≡◌, refl, inl, inr, String, Bool, true, false, ◌==◌, if◌then◌else◌, Option, none, some,
  Bool-cases, Option-cases,
}
use travel_mcp.Jobs.Store.{get_row, get_text}
use travel_mcp.Accounts.{
  UserRow, ApiKeyRow, Accounts, create_user, update_user, update_user_status, update_user_role,
  update_user_config, delete_user, delete_api_key,
}

-- What an operation does that ends with an error if there is no such row: it succeeds exactly if there
-- is one, and an error leaves the store.
abbrev pub Guarded : {A : Type 0} → Option A → Accounts → Accounts × Bool → Type 0
Guarded none a (b, ok) = (b ≡ a) × (ok ≡ false)
Guarded (some u) a (b, ok) = ok ≡ true

update_user-Guarded :
    (f : UserRow → UserRow) (id : ℕ) (a : Accounts)
    → Guarded (get_row id a.users) a (update_user f id a)
unfolding update_user
update_user-Guarded f id a = elim (Option-cases (get_row id a.users)) [
  | inl n ↦ rw (n, update_user) (refl, refl)
  | inr (u, e) ↦ rw (e, update_user) refl
]

delete_user-Guarded : (id : ℕ) (a : Accounts) → Guarded (get_row id a.users) a (delete_user id a)
unfolding delete_user
delete_user-Guarded id a = elim (Option-cases (get_row id a.users)) [
  | inl n ↦ rw (n, delete_user) (refl, refl)
  | inr (u, e) ↦ rw (e, delete_user) refl
]

-- The key of that number, if it is the user's.
pub own_key : ℕ → ℕ → Accounts → Option ApiKeyRow
own_key id user_id a = elim (get_row id a.api_keys) [
  | none ↦ none
  | some k ↦ if k.user_id == user_id then some k else none
]

delete_api_key-Guarded :
    (id user_id : ℕ) (a : Accounts) → Guarded (own_key id user_id a) a (delete_api_key id user_id a)
unfolding delete_api_key own_key
delete_api_key-Guarded id user_id a = elim (Option-cases (get_row id a.api_keys)) [
  | inl n ↦ rw (n, delete_api_key, own_key) (refl, refl)
  | inr (k, e) ↦ elim (Bool-cases (k.user_id == user_id)) [
    | inl y ↦ rw (e, y, delete_api_key, own_key) refl
    | inr n ↦ rw (e, n, delete_api_key, own_key) (refl, refl)
  ]
]

-- The creation of a user answers with the next number if the address is free, else with an error that
-- leaves the store.
abbrev pub Entered : Option ℕ → Accounts → Accounts × Option ℕ → Type 0
Entered none a (b, id) = id ≡ some a.next_id
Entered (some holder) a (b, id) = (b ≡ a) × (id ≡ none)

create_user-Entered :
    (now : ℕ) (email pass_hash role : String) (a : Accounts)
    → Entered (get_text email a.users_by_email) a (create_user now email pass_hash role a)
unfolding create_user
create_user-Entered now email pass_hash role a =
    elim (Option-cases (get_text email a.users_by_email)) [
      | inl n ↦ rw (n, create_user) refl
      | inr (id, e) ↦ rw (e, create_user) (refl, refl)
    ]

-- The updates and deletions of the store answer with an error exactly if there is no such user, or no
-- such key of that user, and then they leave the store as it was; so does the creation of a user whose
-- address is taken.
pub errors_leave :
    (id user_id now : ℕ) (text pass_hash role : String) (a : Accounts)
    → Guarded (get_row id a.users) a (update_user_status id text a)
      × Guarded (get_row id a.users) a (update_user_role id text a)
      × Guarded (get_row id a.users) a (update_user_config id text a)
      × Guarded (get_row id a.users) a (delete_user id a)
      × Guarded (own_key id user_id a) a (delete_api_key id user_id a)
      × Entered (get_text text a.users_by_email) a (create_user now text pass_hash role a)
unfolding update_user_status update_user_role update_user_config
errors_leave id user_id now text pass_hash role a = (
  update_user-Guarded _ id a,
  update_user-Guarded _ id a,
  update_user-Guarded _ id a,
  delete_user-Guarded id a,
  delete_api_key-Guarded id user_id a,
  create_user-Entered now text pass_hash role a,
)
