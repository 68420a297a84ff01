-- ===== src/Cache/KeyValue.antt =====
-- The strings of Redis, as its documentation says of GET, SETEX, DEL and of expiry.
use facebook_clone.Prelude.{ℕ, ◌<◌, ◌≡◌, Option, none, some, if◌then◌else◌}
use facebook_clone.Shared.EntityId.{Text}
use facebook_clone.Shared.Text.{text_eq}
use facebook_clone.Shared.Expiry.{is_over, left_after}

pub record KeyValue (S : Type 0) : Type 0 where
  pub get : Text → S → Option Text
  -- the seconds that a key has left
  pub lifetime : Text → S → Option ℕ
  pub setex : Text → ℕ → Text → S → S
  pub delete : Text → S → S
  pub wait : ℕ → S → S
  pub get-setex :
      (k j : Text) (seconds : ℕ) (v : Text) (s : S)
      → 0 < seconds
      → get k (setex j seconds v s) ≡ (if text_eq j k then some v else get k s)
  pub lifetime-setex :
      (k j : Text) (seconds : ℕ) (v : Text) (s : S)
      → 0 < seconds
      → lifetime k (setex j seconds v s) ≡ (if text_eq j k then some seconds else lifetime k s)
  pub get-delete :
      (k j : Text) (s : S) → get k (delete j s) ≡ (if text_eq j k then none else get k s)
  pub lifetime-delete :
      (k j : Text) (s : S) → lifetime k (delete j s) ≡ (if text_eq j k then none else lifetime k s)
  pub get-wait :
      (k : Text) (seconds : ℕ) (s : S)
      → get k (wait seconds s) ≡ (if is_over seconds (lifetime k s) then none else get k s)
  pub lifetime-wait :
      (k : Text) (seconds : ℕ) (s : S)
      → lifetime k (wait seconds s) ≡ left_after seconds (lifetime k s)
