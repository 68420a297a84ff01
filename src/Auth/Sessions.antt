-- ===== src/Auth/Sessions.antt =====
-- src/fb/application/auth/login.py, refresh_token.py and logout.py, and `get_current_user_id` of
-- src/fb/presentation/dependencies.py, each at a time in seconds.
use facebook_clone.Prelude.{ℕ, ◌*◌, not, Option, none, some, if◌then◌else◌, take, drop}
use facebook_clone.Shared.Errors.{
  Result, ok, err, invalid_credentials, user_inactive, token_blacklisted, invalid_token,
  user_not_found, runtime_error, http_unauthorized,
}
use facebook_clone.Shared.Effects.{Effect, pure, lift, raise_if, or_raise, ◌>>=◌, ◌>>◌}
use facebook_clone.Shared.EntityId.{Text, Libraries, from_str}
use facebook_clone.Shared.Text.{codes, text_eq, is_empty}
use facebook_clone.Cache.KeyValue.{KeyValue}
use facebook_clone.Cache.TokenBlacklist.{blacklist, is_blacklisted}
use facebook_clone.Auth.Repository.{Users, find_by_id, find_by_user_name}
use facebook_clone.Auth.Tokens.{
  Jwt, Hasher, TokenSettings, decode_access_token, decode_refresh_token,
}
use facebook_clone.Auth.Accounts.{TokenOutput, token_pair}

pub record LoginInput : Type 0 where
  pub user_name : Text
  pub password : Text

-- `LoginUseCase.execute`
unfoldable pub login :
    Libraries → Jwt → TokenSettings → Hasher → ℕ → LoginInput → Effect Users TokenOutput
login libs jwt settings hasher now input = do
  found ← find_by_user_name input.user_name
  user ← or_raise found invalid_credentials
  raise_if (not user.is_active) user_inactive
  raise_if (not (hasher.verify input.password user.hashed_password)) invalid_credentials
  pure (token_pair libs jwt settings now user)

-- The payload of a refresh token, where every exception of the decoding, a missing subject and an
-- empty one are an invalid token
unfoldable pub subject_of : Result (Option Text) → Result Text
subject_of (err e) = err invalid_token
subject_of (ok none) = err invalid_token
subject_of (ok (some sub)) = if is_empty sub then err invalid_token else ok sub

-- `_REFRESH_EXPIRY_SECONDS` and `_ACCESS_EXPIRY_SECONDS`
abbrev pub refresh_expiry_seconds : ℕ
refresh_expiry_seconds = 7 * 24 * 60 * 60

abbrev pub access_expiry_seconds : ℕ
access_expiry_seconds = 15 * 60

module _ {S : Type 0} (redis : KeyValue S) where
  -- `RefreshTokenUseCase.execute`, with what Redis holds
  unfoldable pub refresh : Libraries → Jwt → TokenSettings → ℕ → Text → S → Effect Users TokenOutput
  refresh libs jwt settings now refresh_token s = do
    raise_if (is_blacklisted redis refresh_token s) token_blacklisted
    sub ← lift (subject_of (decode_refresh_token jwt now refresh_token))
    user_id ← lift (from_str libs sub)
    found ← find_by_id user_id
    user ← or_raise found user_not_found
    raise_if (not user.is_active) invalid_token
    pure (token_pair libs jwt settings now user)

  -- `LogoutUseCase.execute`
  unfoldable pub logout : Text → Text → S → S
  logout access_token refresh_token s =
      blacklist redis refresh_token refresh_expiry_seconds
        (blacklist redis access_token access_expiry_seconds s)

  -- `get_current_user_id`: the subject of the bearer token, or status 401; a token without the keys
  -- that it should have is an exception that nobody handles.
  unfoldable pub get_current_user_id : Jwt → ℕ → Text → S → Result Text
  get_current_user_id jwt now header s =
      let token = drop 7 header in
      if text_eq (take 7 header) (codes "Bearer ")
      then if is_blacklisted redis token s
        then err http_unauthorized
        else elim (decode_access_token jwt now token) [
          | err e ↦ err http_unauthorized
          | ok none ↦ err runtime_error
          | ok (some payload) ↦ ok payload.0
        ]
      else err http_unauthorized
