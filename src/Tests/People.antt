-- ===== src/Tests/People.antt =====
-- Two users with a key each.
use travel_mcp.Prelude.{ℕ, ◌≡◌, ◌≢◌, refl, String, [], ◌∷◌, none, some, keep}
use travel_mcp.Jobs.Store.{get_row, get_text}
use travel_mcp.Accounts.{
  UserRow, ApiKeyRow, Accounts, drop_row, drop_text, drop_keys_of, delete_user, create_api_key,
  get_api_key, delete_api_key,
}
use travel_mcp.Accounts.Keys.{
  get_api_key-create_api_key, get_api_key-delete_user, get_api_key-delete_api_key,
}

abbrev user : ℕ → String → UserRow
user id email = record {
  id = id;
  email = email;
  pass_hash = "h";
  status = "active";
  role = "user";
  config = "";
  created_at = 1;
}

abbrev key_of : ℕ → ℕ → String → ApiKeyRow
key_of id user_id key = record {
  id = id;
  user_id = user_id;
  key = key;
  scopes = "mcp:read";
  created_at = 1;
  last_used = 0;
}

abbrev people : Accounts
people = record {
  users = (1, user 1 "a@x") ∷ (2, user 2 "b@x") ∷ [];
  users_by_email = ("a@x", 1) ∷ ("b@x", 2) ∷ [];
  api_keys = (3, key_of 3 1 "tm_a") ∷ (4, key_of 4 2 "tm_b") ∷ [];
  api_keys_by_key = ("tm_a", 3) ∷ ("tm_b", 4) ∷ [];
  next_id = 5;
}

get_api_key-create_api_key_example :
    get_api_key "tm_c" (create_api_key 9 "tm_c" 2 "" people).0
    ≡ some (create_api_key 9 "tm_c" 2 "" people).1
get_api_key-create_api_key_example = get_api_key-create_api_key 9 2 "tm_c" "" people

first_user : get_row 1 people.users ≡ some (user 1 "a@x")
unfolding get_row
first_user = refl

other_key : get_api_key "tm_b" (delete_user 1 people).0 ≡ some (key_of 4 2 "tm_b")
unfolding get_row get_text get_api_key delete_user drop_keys_of drop_text drop_row keep
other_key = refl

get_api_key-delete_user_example : (key_of 4 2 "tm_b").user_id ≢ 1
get_api_key-delete_user_example =
    get_api_key-delete_user 1 "tm_b" people (user 1 "a@x") (key_of 4 2 "tm_b") first_user other_key

first_key : get_row 3 people.api_keys ≡ some (key_of 3 1 "tm_a")
unfolding get_row
first_key = refl

get_api_key-delete_api_key_example : get_api_key "tm_a" (delete_api_key 3 1 people).0 ≡ none
get_api_key-delete_api_key_example =
    get_api_key-delete_api_key 3 1 people (key_of 3 1 "tm_a") first_key refl
