-- ===== src/Cache/RedisCache.antt =====
-- src/fb/infrastructure/cache/redis_cache.py, and cache_service.py over it. JSON is a parameter, and
-- so is whether a call of Redis raises.
use facebook_clone.Prelude.{
  ℕ, ◌<◌, ◌≡◌, arith, Bool, true, Option, none, some, List, map, ltb, if◌then◌else◌,
}
use facebook_clone.Shared.EntityId.{Text}
use facebook_clone.Shared.Text.{text_eq}
use facebook_clone.Cache.KeyValue.{KeyValue}

-- `json.dumps` and `json.loads` of the values that are cached
pub record Json (V : Type 0) : Type 0 where
  pub dumps : V → Text
  pub loads : Text → Option V
  pub loads-dumps : (v : V) → loads (dumps v) ≡ some v

-- `raw` is none, or does not parse
abbrev pub parsed : {V : Type 0} → Json V → Option Text → Option V
parsed json none = none
parsed json (some raw) = json.loads raw

module _ {S V : Type 0} (redis : KeyValue S) (json : Json V) where
  unfoldable pub get : Bool → Text → S → Option V
  get works key s = if works then parsed json (redis.get key s) else none

  unfoldable pub set : Bool → Text → V → ℕ → S → S
  set works key value ttl s = if works then redis.setex key ttl (json.dumps value) s else s

  unfoldable pub delete : Bool → Text → S → S
  delete works key s = if works then redis.delete key s else s

  unfoldable pub mget : Bool → List Text → S → List (Option V)
  mget works keys s =
      if works then map (λ key. parsed json (redis.get key s)) keys else map (λ key. none) keys

  -- `get_or_set`, where the loader's value is handed over
  unfoldable pub get_or_set : Bool → Text → Option V → ℕ → S → Option V × S
  unfolding get set
  get_or_set works key loaded ttl s = elim (get works key s) [
    | some cached ↦ (some cached, s)
    | none ↦ elim loaded [ none ↦ (none, s) | some value ↦ (some value, set works key value ttl s) ]
  ]

module _ {S V : Type 0} (redis : KeyValue S) (json : Json V) (key other : Text) (value : V)
    (ttl seconds : ℕ) (s : S) where
  -- A value that is set is read for the seconds given and not longer, and other keys are read as
  -- before.
  pub get-set :
      0 < ttl
      → get redis json true other (redis.wait seconds (set redis json true key value ttl s)) ≡ (
          if text_eq key other
          then (if ltb seconds ttl then some value else none)
          else get redis json true other (redis.wait seconds s))
  unfolding get set
  get-set h = ground (
    arith,
    redis.get-wait other seconds (redis.setex key ttl (json.dumps value) s),
    redis.get-wait other seconds s,
    redis.get-setex other key ttl (json.dumps value) s h,
    redis.lifetime-setex other key ttl (json.dumps value) s h,
    json.loads-dumps value,
  )

  -- A key that is deleted is not read any more, and other keys are read as before.
  pub get-delete :
      get redis json true other (redis.wait seconds (delete redis json true key s))
      ≡ (if text_eq key other then none else get redis json true other (redis.wait seconds s))
  unfolding get delete
  get-delete = ground (
    arith,
    redis.get-wait other seconds (redis.delete key s),
    redis.get-wait other seconds s,
    redis.get-delete other key s,
    redis.lifetime-delete other key s,
  )
