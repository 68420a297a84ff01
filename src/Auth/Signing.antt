-- ===== src/Auth/Signing.antt =====
-- What the tokens of the program are accepted for, and how long.
use facebook_clone.Prelude.{ℕ, ◌≤◌, ◌+◌, ◌*◌, ◌≡◌, arith, some, ltb, if◌then◌else◌}
use facebook_clone.Shared.Errors.{ok, err, invalid_token}
use facebook_clone.Shared.EntityId.{Text}
use facebook_clone.Shared.Text.{text_eq}
use facebook_clone.Auth.Tokens.{
  Jwt, TokenSettings, access_payload, refresh_payload, create_access_token, create_refresh_token,
  decode_access_token, decode_refresh_token,
}

module _ (jwt : Jwt) (settings : TokenSettings) (now later : ℕ) (user_id address : Text) where
  -- From the time of its issue on, an access token gives its user and address until it expires, and a
  -- refresh token its user until it expires; neither is accepted in place of the other.
  pub token_kinds_lem :
      now ≤ later
      → (decode_access_token jwt later (create_access_token jwt settings now user_id address) ≡ (
          if ltb later (now + settings.jwt_access_token_expire_minutes * 60)
          then ok (some (user_id, address))
          else err invalid_token))
        × (decode_refresh_token jwt later (create_refresh_token jwt settings now user_id) ≡ (
            if ltb later (now + settings.jwt_refresh_token_expire_days * 24 * 60 * 60)
            then ok (some user_id)
            else err invalid_token))
        × (decode_access_token jwt later (create_refresh_token jwt settings now user_id)
            ≡ err invalid_token)
        × (decode_refresh_token jwt later (create_access_token jwt settings now user_id address)
            ≡ err invalid_token)
  unfolding decode_access_token decode_refresh_token create_access_token create_refresh_token
      text_eq
  token_kinds_lem issued =
      let a = access_payload settings now user_id address in
      let r = refresh_payload settings now user_id in
      (
        ground (arith, jwt.decode-encode later a, jwt.decode-expired later a),
        ground (arith, jwt.decode-encode later r, jwt.decode-expired later r),
        ground (arith, jwt.decode-encode later r, jwt.decode-expired later r),
        ground (arith, jwt.decode-encode later a, jwt.decode-expired later a),
      )
