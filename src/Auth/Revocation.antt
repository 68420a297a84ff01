-- ===== src/Auth/Revocation.antt =====
-- That a token is not accepted any more after a logout, and that a refresh works before.
use facebook_clone.Prelude.{
  ℕ, ◌+◌, ◌*◌, ◌≤◌, ◌≡◌, arith, true, ◌++◌, ltb, if◌then◌else◌, take, drop,
}
use facebook_clone.Shared.Errors.{err, is_err, token_blacklisted, invalid_token}
use facebook_clone.Shared.EntityId.{Text, Libraries}
use facebook_clone.Shared.Text.{codes, text_eq}
use facebook_clone.Shared.TextEquality.{text_eq_refl}
use facebook_clone.Cache.KeyValue.{KeyValue}
use facebook_clone.Cache.TokenBlacklist.{blacklist, is_blacklisted-blacklist}
use facebook_clone.Auth.Repository.{Users}
use facebook_clone.Auth.Tokens.{Jwt, TokenSettings, create_access_token, create_refresh_token}
use facebook_clone.Auth.Signing.{token_kinds_lem}
use facebook_clone.Auth.Sessions.{
  refresh, logout, get_current_user_id, refresh_expiry_seconds, access_expiry_seconds, subject_of,
}

module _ {S : Type 0} (redis : KeyValue S) (jwt : Jwt) (settings : TokenSettings)
    (made now pause : ℕ) (user_id address : Text) (s : S) where
  abbrev pub access : Text
  access = create_access_token jwt settings made user_id address

  abbrev pub renewal : Text
  renewal = create_refresh_token jwt settings made user_id

  -- What Redis holds some time after the logout
  abbrev pub after : S
  after = redis.wait pause (logout redis access renewal s)

  -- A refresh token that lives for at most 7 days is refused at any time after the logout: while it
  -- is on the blacklist for that reason, and from then on since it has expired.
  pub refresh-logout :
      (libs : Libraries) (users : Users)
      → settings.jwt_refresh_token_expire_days ≤ 7
      → made ≤ now
      → refresh redis libs jwt settings (now + pause) renewal after users ≡ (
          if ltb pause (7 * 24 * 60 * 60)
          then (err token_blacklisted, users)
          else (err invalid_token, users))
  unfolding refresh logout subject_of
  refresh-logout libs users week earlier = ground (
    arith,
    is_blacklisted-blacklist redis renewal renewal refresh_expiry_seconds pause
        (blacklist redis access access_expiry_seconds s) (omega arith),
    text_eq_refl renewal,
    (token_kinds_lem jwt settings made (now + pause) user_id address (omega arith)).1,
  )

  -- An access token that lives for at most 15 minutes is refused at any time after the logout.
  pub get_current_user_id-logout :
      settings.jwt_access_token_expire_minutes ≤ 15
      → made ≤ now
      → is_err (get_current_user_id redis jwt (now + pause) (codes "Bearer " ++ access) after)
        ≡ true
  unfolding get_current_user_id logout text_eq take drop
  get_current_user_id-logout quarter earlier = ground (
    arith,
    is_blacklisted-blacklist redis renewal access refresh_expiry_seconds pause
        (blacklist redis access access_expiry_seconds s) (omega arith),
    is_blacklisted-blacklist redis access access access_expiry_seconds pause s (omega arith),
    text_eq_refl access,
    (token_kinds_lem jwt settings made (now + pause) user_id address (omega arith)).0,
  )
