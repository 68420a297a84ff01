-- ===== src/RateLimiter/Middleware.antt =====
-- `dispatch` and `_check_rate_limit` of src/fb/presentation/middleware/rate_limiter.py. The handler
-- behind the middleware, `call_next`, is a parameter, and so is which calls of Redis raise.
use facebook_clone.Prelude.{ℕ, ◌+◌, ◌-◌, ◌*◌, ◌/◌, Bool, true, ◌||◌, ◌++◌, ◌==◌, if◌then◌else◌, leb}
use facebook_clone.Shared.EntityId.{Text}
use facebook_clone.Shared.Decimal.{str}
use facebook_clone.Shared.Text.{codes, text_eq}
use facebook_clone.RateLimiter.Counters.{Counters}
use facebook_clone.RateLimiter.Identity.{
  Request, Role, guest, user, premium, resolve_role, resolve_identifier,
}

pub record Limits : Type 0 where
  pub guest_limit : ℕ
  pub user_limit : ℕ
  pub premium_limit : ℕ

-- `self._limits[role]`
unfoldable pub limit_of : Limits → Role → ℕ
limit_of limits guest = limits.guest_limit
limit_of limits user = limits.user_limit
limit_of limits premium = limits.premium_limit

-- `self._window`
abbrev pub window : ℕ
window = 60

unfoldable pub redis_key : Text → ℕ → Text
redis_key identifier window_key = codes "rate_limit:" ++ identifier ++ codes ":" ++ str window_key

-- Which of the two calls of Redis do not raise
pub record Reachable : Type 0 where
  pub incr_works : Bool
  pub expire_works : Bool

pub record Verdict : Type 0 where
  pub allowed : Bool
  pub remaining : ℕ
  pub reset_at : ℕ

-- `_SKIP_PATHS`
abbrev pub is_skipped : Text → Bool
is_skipped path = text_eq path (codes "/health") || text_eq path (codes "/ready")

-- The headers of an answer, and what is answered: the handler's response, or status 429
pub data Response (A : Type 0) : Type 0 where
  passed : A → Response A
  limited : A → ℕ → ℕ → ℕ → Response A
  refused : ℕ → ℕ → ℕ → Response A

module _ {S : Type 0} (redis : Counters S) where
  -- `_check_rate_limit`, at a time in seconds
  unfoldable pub check_rate_limit : Reachable → ℕ → Text → ℕ → S → Verdict × S
  check_rate_limit reach now identifier limit s =
      let window_key = now / window in
      let reset = (window_key + 1) * window in
      let key = redis_key identifier window_key in
      let fail_open : Verdict = record { allowed = true; remaining = limit; reset_at = reset } in
      let counted = redis.incr key s in
      let current = redis.number key counted in
      let verdict : Verdict = record {
        allowed = leb current limit;
        remaining = limit - current;
        reset_at = reset;
      } in
      if reach.incr_works
      then if current == 1
        then if reach.expire_works
          then (verdict, redis.expire key (window + 1) counted)
          else (fail_open, counted)
        else (verdict, counted)
      else (fail_open, s)

  -- `dispatch`: the headers of a limited answer are the limit, what remains and the time of the
  -- reset; a refusal has the limit, the time of the reset and the seconds until then.
  unfoldable pub dispatch :
      {A : Type 0} → Limits → Reachable → ℕ → Request → (Request → A) → S → Response A × S
  dispatch limits reach now request call_next s =
      let role = resolve_role request in
      let limit = limit_of limits role in
      let (verdict, t) = check_rate_limit reach now (resolve_identifier request role) limit s in
      if is_skipped request.path
      then (passed (call_next request), s)
      else if verdict.allowed
      then (limited (call_next request) limit verdict.remaining verdict.reset_at, t)
      else (refused limit verdict.reset_at (verdict.reset_at - now), t)
