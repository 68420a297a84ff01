-- ===== src/RateLimiter/Bucket.antt =====
-- Who shares a counter, and what is answered when Redis is not there.
use mathlib.Core.Path.{subst}
use facebook_clone.Prelude.{
  ◌&&◌, ltb, indicator, ◌<◌, ℕ, ◌+◌, ◌*◌, ◌/◌, ◌≡◌, arith, false, some, ◌++◌, if◌then◌else◌, length,
  take, drop, ap, ◌∙◌, sym,
}
use facebook_clone.Shared.EntityId.{Text}
use facebook_clone.Shared.Text.{codes, text_eq}
use facebook_clone.Shared.TextEquality.{text_eq-prefix}
use facebook_clone.RateLimiter.Window.{both_work, text_eq-redis_key}
use facebook_clone.RateLimiter.Counters.{Counters}
use facebook_clone.RateLimiter.Identity.{
  Request, user, guest, startswith, or_empty, resolve_role, resolve_identifier,
}
use facebook_clone.RateLimiter.Middleware.{
  redis_key, Limits, Reachable, passed, limited, limit_of, is_skipped, window, check_rate_limit,
  dispatch,
}

bearer_role :
    (token : Text) (r : Request)
    → 0 < length token
    → r.authorization ≡ some (codes "Bearer " ++ token)
    → resolve_role r ≡ user
unfolding resolve_role startswith take text_eq
bearer_role token r h e =
    subst
      (λ o.
        (if startswith (codes "Bearer ") (or_empty o) && ltb 7 (length (or_empty o))
          then user
          else guest)
        ≡ user)
      (sym e) (ground arith)

bearer_identifier :
    (token : Text) (r : Request)
    → r.authorization ≡ some (codes "Bearer " ++ token)
    → resolve_identifier r user ≡ codes "user:" ++ take 32 token
unfolding resolve_identifier drop
bearer_identifier token r e = ap (λ o. codes "user:" ++ take 32 (drop 7 (or_empty o))) e

-- Who a request is counted for
abbrev pub identifier_of : Request → Text
identifier_of r = resolve_identifier r (resolve_role r)

identifier_lem :
    (token : Text) (r : Request)
    → 0 < length token
    → r.authorization ≡ some (codes "Bearer " ++ token)
    → identifier_of r ≡ codes "user:" ++ take 32 token
identifier_lem token r h e =
    ap (λ role. resolve_identifier r role) (bearer_role token r h e) ∙ bearer_identifier token r e

-- A request raises the number under its own key by one, and no other.
number-dispatch :
    {S A : Type 0} (redis : Counters S) (limits : Limits) (now : ℕ) (r : Request)
    (call_next : Request → A) (key : Text) (s : S)
    → is_skipped r.path ≡ false
    → redis.number key (dispatch redis limits both_work now r call_next s).1
      ≡ redis.number key s + indicator (text_eq (redis_key (identifier_of r) (now / window)) key)
unfolding dispatch check_rate_limit
number-dispatch redis limits now r call_next key s h =
    let own = redis_key (identifier_of r) (now / window) in
    ground (
      arith,
      redis.number-incr key own s,
      redis.number-expire key own (window + 1) (redis.incr own s) (omega arith),
    )

-- With the calls of Redis working, a request with a bearer token, to a path that is not skipped,
-- raises the number that another bearer token is counted by, in the same window, exactly if the two
-- tokens begin with the same 32 characters.
pub dispatch-shared :
    {S A : Type 0} (redis : Counters S) (limits : Limits) (now : ℕ) (call_next : Request → A)
    (token other : Text) (r q : Request) (s : S)
    → is_skipped r.path ≡ false
    → 0 < length token
    → 0 < length other
    → r.authorization ≡ some (codes "Bearer " ++ token)
    → q.authorization ≡ some (codes "Bearer " ++ other)
    → (let key = redis_key (resolve_identifier q (resolve_role q)) (now / window) in
        redis.number key (dispatch redis limits both_work now r call_next s).1
        ≡ redis.number key s + indicator (text_eq (take 32 token) (take 32 other)))
dispatch-shared redis limits now call_next token other r q s p h k e f =
    let w = now / window in
    let same : text_eq (redis_key (identifier_of r) w) (redis_key (identifier_of q) w)
        ≡ text_eq (take 32 token) (take 32 other) =
      text_eq-redis_key (identifier_of r) (identifier_of q) w
      ∙ (ap (λ i. text_eq i (identifier_of q)) (identifier_lem token r h e)
          ∙ (ap (λ i. text_eq (codes "user:" ++ take 32 token) i) (identifier_lem other q k f)
              ∙ text_eq-prefix (codes "user:") (take 32 token) (take 32 other))) in
    number-dispatch redis limits now r call_next (redis_key (identifier_of q) w) s p
    ∙ ap (λ b. redis.number (redis_key (identifier_of q) w) s + indicator b) same

-- If the first call of Redis raises, every request is let through, nothing is counted, and the
-- answer says that the whole limit is left.
pub dispatch-unreachable :
    {S A : Type 0} (redis : Counters S) (limits : Limits) (reach : Reachable) (now : ℕ)
    (request : Request) (call_next : Request → A) (s : S)
    → reach.incr_works ≡ false
    → dispatch redis limits reach now request call_next s ≡ (
      if is_skipped request.path
          then passed (call_next request)
          else limited
              (call_next request)
              (limit_of limits (resolve_role request))
              (limit_of limits (resolve_role request))
              ((now / window + 1) * window),
      s,
    )
unfolding dispatch check_rate_limit
dispatch-unreachable redis limits reach now request call_next s down = ground arith
