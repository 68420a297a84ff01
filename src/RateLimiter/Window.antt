-- ===== src/RateLimiter/Window.antt =====
-- How many requests a minute lets through.
use facebook_clone.Prelude.{
  ℕ, ◌+◌, ◌-◌, ◌*◌, ◌/◌, ◌≤◌, ◌<◌, min, ◌≡◌, ap, arith, Bool, true, false, ◌&&◌, none, some, List,
  [], ◌∷◌, ◌++◌, ◌==◌, if◌then◌else◌, ltb, leb, indicator, ◌∙◌,
}
use facebook_clone.Shared.EntityId.{Text}
use facebook_clone.Shared.Text.{codes, text_eq}
use facebook_clone.Shared.TextEquality.{text_eq-prefix, text_eq-suffix, text_eq_refl, eq_of_text_eq}
use facebook_clone.RateLimiter.Counters.{Counters}
use facebook_clone.RateLimiter.Middleware.{Reachable, Verdict, check_rate_limit, redis_key, window}
use facebook_clone.Shared.Decimal.{str, text_eq-str}

-- In one window the keys differ as the identifiers do.
pub text_eq-redis_key : (a b : Text) (w : ℕ) → text_eq (redis_key a w) (redis_key b w) ≡ text_eq a b
unfolding redis_key
text_eq-redis_key a b w =
    text_eq-suffix (codes "rate_limit:" ++ a ++ codes ":") (codes "rate_limit:" ++ b ++ codes ":")
      (str w)
    ∙ (text_eq-suffix (codes "rate_limit:" ++ a) (codes "rate_limit:" ++ b) (codes ":")
        ∙ text_eq-prefix (codes "rate_limit:") a b)

-- Keys of different windows differ.
redis_key-apart :
    (who : Text) (v w : ℕ) → (v == w) ≡ false → text_eq (redis_key who v) (redis_key who w) ≡ false
unfolding redis_key
redis_key-apart who v w d =
    text_eq-prefix (codes "rate_limit:" ++ who ++ codes ":") (str v) (str w) ∙ text_eq-str v w d

window_lem : (w t : ℕ) → w * window ≤ t → t < (w + 1) * window → t / window ≡ w
window_lem w t l u = omega arith

abbrev pub both_work : Reachable
both_work = record { incr_works = true; expire_works = true }

-- A request: the seconds since the one before, and who makes it
pub record Arrival : Type 0 where
  pub delay : ℕ
  pub identifier : Text

-- When the last of the requests comes
abbrev pub end_of : List Arrival → ℕ → ℕ
end_of [] now = now
end_of (a ∷ arrivals) now = end_of arrivals (now + a.delay)

end_lem : (arrivals : List Arrival) (now bound : ℕ) → end_of arrivals now < bound → now < bound
end_lem [] now bound h = h
end_lem (a ∷ arrivals) now bound h = ground (arith, end_lem arrivals (now + a.delay) bound h)

-- How many requests somebody makes
abbrev pub asked : Text → List Arrival → ℕ
asked who [] = 0
asked who (a ∷ arrivals) = indicator (text_eq a.identifier who) + asked who arrivals

module _ {S : Type 0} (redis : Counters S) (limit : Text → ℕ) where
  -- A request after its delay
  abbrev pub arrive : Arrival → ℕ → S → Verdict × S
  arrive a now s =
      check_rate_limit redis both_work (now + a.delay) a.identifier (limit a.identifier)
        (redis.wait a.delay s)

  -- How many of somebody's requests are let through
  abbrev pub admitted : Text → List Arrival → ℕ → S → ℕ
  admitted who [] now s = 0
  admitted who (a ∷ arrivals) now s =
      indicator (text_eq a.identifier who && (arrive a now s).0.allowed)
      + admitted who arrivals (now + a.delay) (arrive a now s).1

  -- The number under a key outlives the window, or is 0.
  abbrev pub is_kept : ℕ → ℕ → Text → S → Bool
  is_kept w now key s = if redis.number key s == 0 then true else elim (redis.lifetime key s) [
    | none ↦ true
    | some left ↦ ltb ((w + 1) * window) (now + left)
  ]

  wait_lem :
      (w now delay : ℕ) (key : Text) (s : S)
      → now + delay < (w + 1) * window
      → is_kept w now key s ≡ true
      → (redis.number key (redis.wait delay s) ≡ redis.number key s)
        × (is_kept w (now + delay) key (redis.wait delay s) ≡ true)
  wait_lem w now delay key s u k =
      rw (redis.number-wait key delay s) rw (redis.lifetime-wait key delay s) (ground arith)

  same_number :
      (w : ℕ) (who id : Text) (s : S)
      → text_eq id who ≡ true
      → redis.number (redis_key id w) s ≡ redis.number (redis_key who w) s
  same_number w who id s e = ap (λ i. redis.number (redis_key i w) s) (eq_of_text_eq id who e)

  same_verdict :
      (w : ℕ) (who id : Text) (s : S)
      → text_eq id who ≡ true
      → leb (redis.number (redis_key id w) s + 1) (limit id)
        ≡ leb (redis.number (redis_key who w) s + 1) (limit who)
  same_verdict w who id s e =
      ap (λ i. leb (redis.number (redis_key i w) s + 1) (limit i)) (eq_of_text_eq id who e)

  check_lem :
      (w t : ℕ) (who id : Text) (s : S)
      → w * window ≤ t
      → t < (w + 1) * window
      → is_kept w t (redis_key who w) s ≡ true
      → (redis.number (redis_key who w) (check_rate_limit redis both_work t id (limit id) s).1
          ≡ redis.number (redis_key who w) s + indicator (text_eq id who))
        × (is_kept w t (redis_key who w) (check_rate_limit redis both_work t id (limit id) s).1
            ≡ true)
        × ((check_rate_limit redis both_work t id (limit id) s).0.allowed
            ≡ leb (redis.number (redis_key id w) s + 1) (limit id))
  unfolding check_rate_limit
  check_lem w t who id s l u k = rw (window_lem w t l u) (
      ground (
        arith,
        redis.number-incr (redis_key who w) (redis_key id w) s,
        redis.number-incr (redis_key id w) (redis_key id w) s,
        text_eq_refl (redis_key id w),
        redis.lifetime-incr (redis_key who w) (redis_key id w) s,
        redis.number-expire (redis_key who w) (redis_key id w) 61 (redis.incr (redis_key id w) s),
        redis.lifetime-expire (redis_key who w) (redis_key id w) 61 (redis.incr (redis_key id w) s),
        text_eq-redis_key id who w,
        same_number w who id s,
      ))

  -- With the calls of Redis working, requests of one window, by anybody in any order, that find the
  -- counter at some number are let through as long as it is below the limit: somebody's admitted
  -- requests are the smaller of those that they make and what the limit leaves.
  pub admitted_lem :
      (w : ℕ) (who : Text) (arrivals : List Arrival) (now : ℕ) (s : S)
      → w * window ≤ now
      → end_of arrivals now < (w + 1) * window
      → is_kept w now (redis_key who w) s ≡ true
      → admitted who arrivals now s + min (redis.number (redis_key who w) s) (limit who)
        ≡ min (redis.number (redis_key who w) s + asked who arrivals) (limit who)
  admitted_lem w who [] now s l u k = omega arith
  admitted_lem w who (a ∷ arrivals) now s l u k =
      let t = now + a.delay in
      let waited = redis.wait a.delay s in
      let e : t < (w + 1) * window = end_lem arrivals t ((w + 1) * window) u in
      let m = wait_lem w now a.delay (redis_key who w) s e k in
      let c = check_lem w t who a.identifier waited (omega arith) e m.1 in
      let v : text_eq a.identifier who ≡ true
          → (arrive a now s).0.allowed
            ≡ leb (redis.number (redis_key who w) waited + 1) (limit who) =
        λ x. c.2 ∙ same_verdict w who a.identifier waited x in
      let rest = admitted_lem w who arrivals t (arrive a now s).1 (omega arith) u c.1 in
      ground (arith, m.0, c.0, v, rest)

  -- The same request again, at the time of the reset
  abbrev pub again : ℕ → Text → S → Verdict
  again t who s =
      let first = check_rate_limit redis both_work t who (limit who) s in
      let pause = (t / window + 1) * window - t in
      let second =
        check_rate_limit redis both_work (t + pause) who (limit who) (redis.wait pause first.1) in
      second.0

  fresh_lem :
      (t pause : ℕ) (who : Text) (s : S)
      → redis.number (redis_key who (t / window + 1)) s ≡ 0
      → redis.number
          (redis_key who (t / window + 1))
          (redis.wait pause (check_rate_limit redis both_work t who (limit who) s).1)
        ≡ 0
  unfolding check_rate_limit
  fresh_lem t pause who s fresh =
      let w = t / window in
      let next = redis_key who (w + 1) in
      let counted = redis.incr (redis_key who w) s in
      ground (
        arith,
        redis_key-apart who w (w + 1) (ground arith),
        redis.number-wait next pause counted,
        redis.number-wait next pause (redis.expire (redis_key who w) 61 counted),
        redis.number-incr next (redis_key who w) s,
        redis.number-incr (redis_key who w) (redis_key who w) s,
        text_eq_refl (redis_key who w),
        redis.number-expire next (redis_key who w) 61 counted,
      )

  -- Once the window of a request is over, the next request of the same identifier is let through:
  -- where the limit is at least 1, and no request has been counted in the new window.
  pub again_lem :
      (t : ℕ) (who : Text) (s : S)
      → 1 ≤ limit who
      → redis.number (redis_key who (t / window + 1)) s ≡ 0
      → (again t who s).allowed ≡ true
  again_lem t who s one fresh =
      let w = t / window in
      let pause = (w + 1) * window - t in
      let waited = redis.wait pause (check_rate_limit redis both_work t who (limit who) s).1 in
      let c =
        check_lem (w + 1) (t + pause) who who waited (omega arith) (omega arith)
          (ground (arith, fresh_lem t pause who s fresh)) in
      ground (arith, c.2, fresh_lem t pause who s fresh)
