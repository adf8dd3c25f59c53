-- ===== src/Accounts/Keys.antt =====
-- Which keys are known.
use travel_mcp.Prelude.{
  ℕ, ◌≡◌, ◌≢◌, refl, ap, ◌∙◌, arith, String, true, not, List, Option, none, some, ◌==◌,
  if◌then◌else◌, keep, In-keep_passes, eq_refl,
}
use travel_mcp.Jobs.Store.{get_row, get_text, put_text}
use travel_mcp.Jobs.Store.Claims.{get_row_put, get_row-In}
use travel_mcp.Jobs.Store.Quotas.{get_text-put_text, get_text-dropped}
use travel_mcp.Accounts.{
  UserRow, ApiKeyRow, Accounts, drop_text, drop_keys_of, delete_user, create_api_key, get_api_key,
  delete_api_key,
}

-- A key that is created is known, with its row.
pub get_api_key-create_api_key :
    (now user_id : ℕ) (key scopes : String) (a : Accounts)
    → get_api_key key (create_api_key now key user_id scopes a).0
      ≡ some (create_api_key now key user_id scopes a).1
unfolding get_api_key create_api_key
get_api_key-create_api_key now user_id key scopes a =
    let found : get_text key (put_text key a.next_id a.api_keys_by_key) ≡ some a.next_id =
      get_text-put_text key key a.next_id a.api_keys_by_key
      ∙ ap (λ b. if b then some a.next_id else get_text key a.api_keys_by_key) (eq_refl key) in
    rw (found, get_api_key) (get_row_put a.next_id _ a.api_keys)

-- Once a user is deleted, no key gives a row of that user.
pub get_api_key-delete_user :
    (id : ℕ) (key : String) (a : Accounts) (u : UserRow) (row : ApiKeyRow)
    → get_row id a.users ≡ some u
    → get_api_key key (delete_user id a).0 ≡ some row
    → row.user_id ≢ id
unfolding get_api_key delete_user
get_api_key-delete_user id key a u row known found =
    by_index _ refl (rw (known, delete_user) at found)
  where
    rest : List (ℕ × ApiKeyRow)
    rest = keep (λ (r : ℕ × ApiKeyRow). not (r.1.user_id == id)) a.api_keys

    by_index :
        (o : Option ℕ)
        → get_text key (drop_keys_of id a.api_keys a.api_keys_by_key) ≡ o
        → (elim o as (λ _. Option ApiKeyRow) [ none ↦ none | some k ↦ get_row k rest ]) ≡ some row
        → row.user_id ≢ id
    by_index none e h same = ground arith
    by_index (some k) e h same =
        let (j, m) = get_row-In k row rest h in
        let passes : not (row.user_id == id) ≡ true =
          In-keep_passes (λ (r : ℕ × ApiKeyRow). not (r.1.user_id == id)) (j, row) a.api_keys m in
        ground arith

-- A key that its user deletes is no longer known.
pub get_api_key-delete_api_key :
    (id user_id : ℕ) (a : Accounts) (k : ApiKeyRow)
    → get_row id a.api_keys ≡ some k
    → k.user_id ≡ user_id
    → get_api_key k.key (delete_api_key id user_id a).0 ≡ none
unfolding get_api_key delete_api_key drop_text
get_api_key-delete_api_key id user_id a k at own =
    let owner : (k.user_id == user_id) ≡ true = ground arith in
    rw (at, owner, delete_api_key) (rw (get_text-dropped k.key a.api_keys_by_key, get_api_key))
