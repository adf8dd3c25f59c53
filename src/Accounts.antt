-- ===== src/Accounts.antt =====
-- internal/store/memory/store.go: the users and their API keys. A map is an association list. The time
-- is the argument `now`, and a fresh key is the argument `key`, which the source draws at random.
pub mod Keys
pub mod Rows
pub mod Users
pub mod Reachable
pub mod Errors
pub mod Book
use travel_mcp.Prelude.{
  ℕ, ◌+◌, String, Bool, true, false, not, ◌&&◌, List, [], ◌∷◌, map, Option, none, some, ◌==◌,
  str_eq, if◌then◌else◌, keep,
}
use travel_mcp.Jobs.Store.{get_row, put_row, get_text, put_text}

pub record UserRow : Type 0 where
  pub id : ℕ
  pub email : String
  pub pass_hash : String
  pub status : String
  pub role : String
  pub config : String
  pub created_at : ℕ

pub record ApiKeyRow : Type 0 where
  pub id : ℕ
  pub user_id : ℕ
  pub key : String
  pub scopes : String
  pub created_at : ℕ
  pub last_used : ℕ

pub record Accounts : Type 0 where
  pub users : List (ℕ × UserRow)
  pub users_by_email : List (String × ℕ)
  pub api_keys : List (ℕ × ApiKeyRow)
  pub api_keys_by_key : List (String × ℕ)
  pub next_id : ℕ

abbrev pub no_accounts : Accounts
no_accounts = record {
  users = [];
  users_by_email = [];
  api_keys = [];
  api_keys_by_key = [];
  next_id = 1;
}

-- `delete` of a map.
unfoldable pub drop_row : {V : Type 0} → ℕ → List (ℕ × V) → List (ℕ × V)
drop_row k rows = keep (λ r. not (r.0 == k)) rows

unfoldable pub drop_text : {V : Type 0} → String → List (String × V) → List (String × V)
drop_text k rows = keep (λ r. not (str_eq r.0 k)) rows

-- `none` is the error "user exists".
unfoldable pub create_user : ℕ → String → String → String → Accounts → Accounts × Option ℕ
create_user now email pass_hash role a = elim (get_text email a.users_by_email) [
  | some id ↦ (a, none)
  | none ↦
      let row : UserRow = record {
        id = a.next_id;
        email = email;
        pass_hash = pass_hash;
        status = if str_eq role "admin" then "active" else "pending";
        role = role;
        config = "";
        created_at = now;
      } in
      (
        record a {
          users = put_row a.next_id row a.users;
          users_by_email = put_text email a.next_id a.users_by_email;
          next_id = a.next_id + 1;
        },
        some a.next_id,
      )
]

unfoldable pub get_user_by_id : ℕ → Accounts → Option UserRow
get_user_by_id id a = get_row id a.users

unfoldable pub get_user_by_email : String → Accounts → Option UserRow
get_user_by_email email a = elim (get_text email a.users_by_email) [
  | none ↦ none
  | some id ↦ get_row id a.users
]

pub list_users : Accounts → List UserRow
list_users a = map (λ r. r.1) a.users

-- The updates share their shape; `false` is the error "not found".
unfoldable pub update_user : (UserRow → UserRow) → ℕ → Accounts → Accounts × Bool
update_user f id a = elim (get_row id a.users) [
  | none ↦ (a, false)
  | some u ↦ (record a { users = put_row id (f u) a.users }, true)
]

unfoldable pub update_user_status : ℕ → String → Accounts → Accounts × Bool
update_user_status id status a = update_user (λ u. record u { status = status }) id a

unfoldable pub update_user_role : ℕ → String → Accounts → Accounts × Bool
update_user_role id role a = update_user (λ u. record u { role = role }) id a

unfoldable pub update_user_config : ℕ → String → Accounts → Accounts × Bool
update_user_config id config a = update_user (λ u. record u { config = config }) id a

-- The loop over the keys takes those of the user out of both maps.
unfoldable pub drop_keys_of : ℕ → List (ℕ × ApiKeyRow) → List (String × ℕ) → List (String × ℕ)
drop_keys_of id [] by_key = by_key
drop_keys_of id ((k, v) ∷ rows) by_key =
    drop_keys_of id rows (if v.user_id == id then drop_text v.key by_key else by_key)

unfoldable pub delete_user : ℕ → Accounts → Accounts × Bool
delete_user id a = elim (get_row id a.users) [
  | none ↦ (a, false)
  | some u ↦ (
    record a {
      users = drop_row id a.users;
      users_by_email = drop_text u.email a.users_by_email;
      api_keys = keep (λ r. not (r.1.user_id == id)) a.api_keys;
      api_keys_by_key = drop_keys_of id a.api_keys a.api_keys_by_key;
    },
    true,
  )
]

unfoldable pub create_api_key : ℕ → String → ℕ → String → Accounts → Accounts × ApiKeyRow
create_api_key now key user_id scopes a =
    let row : ApiKeyRow = record {
      id = a.next_id;
      user_id = user_id;
      key = key;
      scopes = if str_eq scopes "" then "mcp:read" else scopes;
      created_at = now;
      last_used = 0;
    } in
    (
      record a {
        api_keys = put_row a.next_id row a.api_keys;
        api_keys_by_key = put_text key a.next_id a.api_keys_by_key;
        next_id = a.next_id + 1;
      },
      row,
    )

unfoldable pub get_api_key : String → Accounts → Option ApiKeyRow
get_api_key key a = elim (get_text key a.api_keys_by_key) [
  | none ↦ none
  | some id ↦ get_row id a.api_keys
]

pub list_api_keys : ℕ → Accounts → List ApiKeyRow
list_api_keys user_id a = keep (λ k. k.user_id == user_id) (map (λ r. r.1) a.api_keys)

unfoldable pub delete_api_key : ℕ → ℕ → Accounts → Accounts × Bool
delete_api_key id user_id a = elim (get_row id a.api_keys) [
  | none ↦ (a, false)
  | some k ↦ if not (k.user_id == user_id) then (a, false) else (
    record a {
      api_keys = drop_row id a.api_keys;
      api_keys_by_key = drop_text k.key a.api_keys_by_key;
    },
    true,
  )
]

-- A key that is not known leaves the store as it is. A key without a row reads as the zero row, and
-- that is written.
unfoldable pub touch_api_key : ℕ → String → Accounts → Accounts
touch_api_key now key a = elim (get_text key a.api_keys_by_key) [
  | none ↦ a
  | some id ↦
      let row : ApiKeyRow = elim (get_row id a.api_keys) [
        | none ↦ record {
          id = 0;
          user_id = 0;
          key = "";
          scopes = "";
          created_at = 0;
          last_used = 0;
        }
        | some k ↦ k
      ] in
      record a { api_keys = put_row id (record row { last_used = now }) a.api_keys }
]
