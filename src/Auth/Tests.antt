-- ===== src/Auth/Tests.antt =====
-- The theorems on users at a table with one user, and a Redis server that starts empty.
use facebook_clone.Prelude.{◌+◌, ◌≡◌, refl, arith, true, none, some, [], ◌∷◌, ◌++◌, ap}
use facebook_clone.Shared.Errors.{err, is_err, invalid_token}
use facebook_clone.Shared.EntityId.{Text}
use facebook_clone.Shared.Text.{codes}
use facebook_clone.Shared.Table.{count}
use facebook_clone.UnitOfWork.{endpoint}
use facebook_clone.Shared.Samples.{libs}
use facebook_clone.Auth.Samples.{jwt, hasher, server, empty}
use facebook_clone.Auth.Values.{is_valid_user_name, is_name_char}
use facebook_clone.Auth.Entities.{User}
use facebook_clone.Auth.Repository.{Users}
use facebook_clone.Auth.Tokens.{TokenSettings, create_access_token, create_refresh_token}
use facebook_clone.Auth.Accounts.{RegisterInput, sign_up, register_use_case}
use facebook_clone.Auth.Sessions.{logout, refresh, get_current_user_id}
use facebook_clone.Auth.Outcomes.{IsSound, sign_up-IsSound}
use facebook_clone.Auth.Editing.{endpoint-register}
use facebook_clone.Auth.Names.{all_name_chars, chomp, is_valid_user_name_lem}
use facebook_clone.Auth.Revocation.{refresh-logout, get_current_user_id-logout}

abbrev settings : TokenSettings
settings = record { jwt_access_token_expire_minutes = 15; jwt_refresh_token_expire_days = 7 }

abbrev ann : User
ann = record {
  id = 7;
  user_name = codes "ann";
  email = codes "ann@x.org";
  hashed_password = codes "old";
  first_name = codes "Ann";
  last_name = codes "Lee";
  display_name = codes "Ann Lee";
  is_active = true;
  date_of_birth = none;
  created_at = some 1;
  updated_at = some 1;
}

abbrev users : Users
users = ann ∷ []

abbrev input_of : Text → RegisterInput
input_of address = record {
  user_name = codes "bob";
  email = address;
  first_name = codes "Bob";
  last_name = codes "Ray";
  password = codes "secret";
  birthday = none;
}

abbrev bob : RegisterInput
bob = input_of (codes "bob@x.org")

sign_up-IsSound_example : IsSound (sign_up hasher 3 20 8 bob users).1
unfolding count
sign_up-IsSound_example = sign_up-IsSound hasher 3 20 8 bob users (refl, tt)

endpoint-register_example :
    (endpoint (register_use_case libs jwt settings hasher 3 20 8 bob) users).1 ≡ users
endpoint-register_example =
    ap (λ r. r.1) (endpoint-register libs jwt settings hasher 3 20 8 bob users)

is_valid_user_name_lem_example : is_valid_user_name (codes "bob" ++ 10 ∷ []) ≡ true
unfolding all_name_chars chomp is_name_char
is_valid_user_name_lem_example = is_valid_user_name_lem (codes "bob" ++ 10 ∷ [])

abbrev key : Text
key = create_access_token jwt settings 100 (7 ∷ []) (codes "a")

abbrev renewal : Text
renewal = create_refresh_token jwt settings 100 (7 ∷ [])

refresh-logout_example :
    refresh server libs jwt settings
      (150 + 700000)
      renewal
      (server.wait 700000 (logout server key renewal empty))
      users
    ≡ (err invalid_token, users)
refresh-logout_example =
    refresh-logout server jwt settings 100 150 700000 (7 ∷ []) (codes "a") empty libs users
      (omega arith) (omega arith)

get_current_user_id-logout_example :
    is_err (
      get_current_user_id server jwt
        (150 + 1000)
        (codes "Bearer " ++ key)
        (server.wait 1000 (logout server key renewal empty)))
    ≡ true
get_current_user_id-logout_example =
    get_current_user_id-logout server jwt settings 100 150 1000 (7 ∷ []) (codes "a") empty
      (omega arith) (omega arith)
