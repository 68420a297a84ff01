-- ===== src/RateLimiter/Counters.antt =====
-- The counters of Redis, as its documentation says of INCR and EXPIRE. A server is a parameter.
use facebook_clone.Prelude.{ℕ, ◌+◌, ◌<◌, ◌≡◌, Option, some, indicator, if◌then◌else◌}
use facebook_clone.Shared.EntityId.{Text}
use facebook_clone.Shared.Text.{text_eq}
use facebook_clone.Shared.Expiry.{is_over, left_after}

pub record Counters (S : Type 0) : Type 0 where
  -- the number that a key holds, 0 where there is no key, and the seconds that it has left
  pub number : Text → S → ℕ
  pub lifetime : Text → S → Option ℕ
  pub incr : Text → S → S
  pub expire : Text → ℕ → S → S
  pub wait : ℕ → S → S
  pub number-incr :
      (k j : Text) (s : S) → number k (incr j s) ≡ number k s + indicator (text_eq j k)
  pub lifetime-incr : (k j : Text) (s : S) → lifetime k (incr j s) ≡ lifetime k s
  pub number-expire :
      (k j : Text) (seconds : ℕ) (s : S) → 0 < seconds → number k (expire j seconds s) ≡ number k s
  pub lifetime-expire :
      (k j : Text) (seconds : ℕ) (s : S)
      → 0 < seconds
      → 0 < number j s
      → lifetime k (expire j seconds s) ≡ (if text_eq j k then some seconds else lifetime k s)
  pub number-wait :
      (k : Text) (seconds : ℕ) (s : S)
      → number k (wait seconds s) ≡ (if is_over seconds (lifetime k s) then 0 else number k s)
  pub lifetime-wait :
      (k : Text) (seconds : ℕ) (s : S)
      → lifetime k (wait seconds s) ≡ left_after seconds (lifetime k s)
