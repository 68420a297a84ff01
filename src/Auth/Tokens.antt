-- ===== src/Auth/Tokens.antt =====
-- src/fb/infrastructure/auth/jwt_service.py. What PyJWT does for the program's key is a parameter,
-- and so is bcrypt. Times are in seconds.
use facebook_clone.Prelude.{
  ◌≤◌, ℕ, ◌+◌, ◌*◌, ◌<◌, ◌≤◌, ◌≡◌, Bool, true, false, Option, none, some, if◌then◌else◌,
}
use facebook_clone.Shared.Errors.{Result, ok, err, invalid_token}
use facebook_clone.Shared.EntityId.{Text}
use facebook_clone.Shared.Text.{codes, text_eq, is_empty}

-- The keys of a token; those that are not there are none.
pub record Payload : Type 0 where
  pub sub : Option Text
  pub address : Option Text
  pub kind : Option Text
  pub iat : ℕ
  pub exp : ℕ

pub record Jwt : Type 0 where
  pub encode : Payload → Text
  -- at a time; none where PyJWT raises
  pub decode : ℕ → Text → Option Payload
  -- a token is read back from the time that it was issued at until it expires, and not from then on
  pub decode-encode :
      (now : ℕ) (p : Payload) → p.iat ≤ now → now < p.exp → decode now (encode p) ≡ some p
  pub decode-expired : (now : ℕ) (p : Payload) → p.exp ≤ now → decode now (encode p) ≡ none

pub record Hasher : Type 0 where
  -- with a salt
  pub hash : ℕ → Text → Text
  pub verify : Text → Text → Bool
  pub verify-hash : (salt : ℕ) (password : Text) → verify password (hash salt password) ≡ true
  pub is_empty-hash : (salt : ℕ) (password : Text) → is_empty (hash salt password) ≡ false

pub record TokenSettings : Type 0 where
  pub jwt_access_token_expire_minutes : ℕ
  pub jwt_refresh_token_expire_days : ℕ

abbrev pub access_payload : TokenSettings → ℕ → Text → Text → Payload
access_payload settings now user_id address = record {
  sub = some user_id;
  address = some address;
  kind = some (codes "access");
  iat = now;
  exp = now + settings.jwt_access_token_expire_minutes * 60;
}

abbrev pub refresh_payload : TokenSettings → ℕ → Text → Payload
refresh_payload settings now user_id = record {
  sub = some user_id;
  address = none;
  kind = some (codes "refresh");
  iat = now;
  exp = now + settings.jwt_refresh_token_expire_days * 24 * 60 * 60;
}

-- `payload.get("type") == kind`
abbrev pub is_kind : Text → Option Text → Bool
is_kind kind none = false
is_kind kind (some k) = text_eq k kind

module _ (jwt : Jwt) (settings : TokenSettings) (now : ℕ) where
  unfoldable pub create_access_token : Text → Text → Text
  create_access_token user_id address = jwt.encode (access_payload settings now user_id address)

  unfoldable pub create_refresh_token : Text → Text
  create_refresh_token user_id = jwt.encode (refresh_payload settings now user_id)

module _ (jwt : Jwt) (now : ℕ) where
  -- A payload of the right kind; a key that is then missing is a KeyError, which is none too.
  unfoldable pub decode_access_token : Text → Result (Option (Text × Text))
  decode_access_token token = elim (jwt.decode now token) [
    | none ↦ err invalid_token
    | some p ↦
        if is_kind (codes "access") p.kind
        then ok (elim p.sub [
          | none ↦ none
          | some sub ↦ elim p.address [ none ↦ none | some address ↦ some (sub, address) ]
        ])
        else err invalid_token
  ]

  unfoldable pub decode_refresh_token : Text → Result (Option Text)
  decode_refresh_token token = elim (jwt.decode now token) [
    | none ↦ err invalid_token
    | some p ↦ if is_kind (codes "refresh") p.kind then ok p.sub else err invalid_token
  ]
