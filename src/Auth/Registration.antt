-- ===== src/Auth/Registration.antt =====
-- Registration and login together: what is left of a registration in the session and in the database.
use facebook_clone.Prelude.{ℕ}
use facebook_clone.Shared.EntityId.{Libraries}
use facebook_clone.Auth.Repository.{Users}
use facebook_clone.Auth.Tokens.{Jwt, Hasher, TokenSettings}
use facebook_clone.Auth.Accounts.{RegisterInput}
use facebook_clone.Auth.Sessions.{LoginInput}

module _ (libs : Libraries) (jwt : Jwt) (settings : TokenSettings) (hasher : Hasher)
    (salt now later new_id : ℕ) (input : RegisterInput) (users : Users) where
  -- The login of the user who registers
  abbrev pub own_login : LoginInput
  own_login = record { user_name = input.user_name; password = input.password }
