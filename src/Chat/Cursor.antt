-- ===== src/Chat/Cursor.antt =====
-- The cursors of src/fb/domain/shared/pagination.py.
use facebook_clone.Prelude.{
  ℕ, ◌≡◌, ◌<◌, ◌^◌, refl, false, Option, none, some, [], ◌∷◌, ◌++◌, ◌==◌, if◌then◌else◌, arith,
}
use facebook_clone.Shared.Errors.{Result, ok, err, value_error, index_error}
use facebook_clone.Shared.EntityId.{EntityId, Text, Libraries}
use facebook_clone.Shared.Text.{is_empty}
use facebook_clone.Shared.Table.{exists}

-- What the cursors take from libraries: ISO 8601 texts of time stamps, base64 of the bytes of a
-- text, and that the text of a UUID has no colon.
pub record Codec (libs : Libraries) : Type 0 where
  pub isoformat : ℕ → Text
  pub fromisoformat : Text → Option ℕ
  pub fromisoformat-isoformat : (t : ℕ) → fromisoformat (isoformat t) ≡ some t
  pub urlsafe_b64encode : Text → Text
  pub urlsafe_b64decode : Text → Option Text
  pub urlsafe_b64decode-urlsafe_b64encode :
      (raw : Text) → urlsafe_b64decode (urlsafe_b64encode raw) ≡ some raw
  pub is_empty-urlsafe_b64encode : (raw : Text) → is_empty (urlsafe_b64encode raw) ≡ is_empty raw
  pub print_uuid-no_colon :
      (i : EntityId) → i < 2 ^ 128 → exists (λ c. c == 58) (libs.print_uuid i) ≡ false

-- `raw.rsplit(":", 1)`, none where there is no colon
unfoldable pub rsplit_colon : Text → Option (Text × Text)
rsplit_colon [] = none
rsplit_colon (c ∷ text) =
    let rest = rsplit_colon text in
    elim rest [
      | none ↦ if c == 58 then some ([], text) else none
      | some parts ↦ some (c ∷ parts.0, parts.1)
    ]

module _ {libs : Libraries} (codec : Codec libs) where
  unfoldable pub encode_cursor : ℕ → Text → Text
  encode_cursor created_at entity_id =
      codec.urlsafe_b64encode (codec.isoformat created_at ++ 58 ∷ entity_id)

  -- The parts are read in turn, so that a wrong time is met before a missing part.
  abbrev pub read_parts : Text → Option (Text × Text) → Result (ℕ × Text)
  read_parts raw none = elim (codec.fromisoformat raw) [
    | none ↦ err value_error
    | some t ↦ err index_error
  ]
  read_parts raw (some parts) = elim (codec.fromisoformat parts.0) [
    | none ↦ err value_error
    | some t ↦ ok (t, parts.1)
  ]

  unfoldable pub decode_cursor : Text → Result (ℕ × Text)
  decode_cursor cursor = elim (codec.urlsafe_b64decode cursor) [
    | none ↦ err value_error
    | some raw ↦ read_parts raw (rsplit_colon raw)
  ]

no_parts : (text : Text) → exists (λ c. c == 58) text ≡ false → rsplit_colon text ≡ none
unfolding rsplit_colon exists
no_parts [] n = refl
no_parts (c ∷ text) n = ground (arith, no_parts text)

rsplit_colon_lem :
    (a b : Text) → exists (λ c. c == 58) b ≡ false → rsplit_colon (a ++ 58 ∷ b) ≡ some (a, b)
unfolding rsplit_colon
rsplit_colon_lem [] b n = ground (arith, no_parts b n)
rsplit_colon_lem (c ∷ a) b n = ground (arith, rsplit_colon_lem a b n)

module _ {libs : Libraries} (codec : Codec libs) where
  -- A cursor is decoded to the time and the identifier that it was made of, where the identifier's
  -- text has no colon; the text of the time may have some.
  pub decode_cursor-encode_cursor :
      (t : ℕ) (id : Text)
      → exists (λ c. c == 58) id ≡ false
      → decode_cursor codec (encode_cursor codec t id) ≡ ok (t, id)
  unfolding decode_cursor encode_cursor
  decode_cursor-encode_cursor t id n = ground (
    arith,
    codec.urlsafe_b64decode-urlsafe_b64encode (codec.isoformat t ++ 58 ∷ id),
    rsplit_colon_lem (codec.isoformat t) id n,
    codec.fromisoformat-isoformat t,
  )
