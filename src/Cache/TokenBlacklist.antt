-- ===== src/Cache/TokenBlacklist.antt =====
-- src/fb/infrastructure/cache/token_blacklist.py
use facebook_clone.Prelude.{ℕ, ◌<◌, ◌≡◌, arith, Bool, ◌++◌, is_some, ltb, if◌then◌else◌}
use facebook_clone.Shared.EntityId.{Text}
use facebook_clone.Shared.Text.{codes, text_eq}
use facebook_clone.Shared.TextEquality.{text_eq-prefix}
use facebook_clone.Cache.KeyValue.{KeyValue}

-- `f"{self._PREFIX}{token}"`
unfoldable pub blacklist_key : Text → Text
blacklist_key token = codes "blacklist:" ++ token

module _ {S : Type 0} (redis : KeyValue S) where
  unfoldable pub blacklist : Text → ℕ → S → S
  blacklist token expires_in s = redis.setex (blacklist_key token) expires_in (codes "1") s

  unfoldable pub is_blacklisted : Text → S → Bool
  is_blacklisted token s = is_some (redis.get (blacklist_key token) s)

text_eq-blacklist_key : (a b : Text) → text_eq (blacklist_key a) (blacklist_key b) ≡ text_eq a b
unfolding blacklist_key
text_eq-blacklist_key a b = text_eq-prefix (codes "blacklist:") a b

module _ {S : Type 0} (redis : KeyValue S) where
  -- A token that has been put on the list is on it for the seconds given and not longer; all other
  -- tokens are on it as they were.
  pub is_blacklisted-blacklist :
      (token other : Text) (expires_in seconds : ℕ) (s : S)
      → 0 < expires_in
      → is_blacklisted redis other (redis.wait seconds (blacklist redis token expires_in s)) ≡ (
          if text_eq token other
          then ltb seconds expires_in
          else is_blacklisted redis other (redis.wait seconds s))
  unfolding is_blacklisted blacklist
  is_blacklisted-blacklist token other expires_in seconds s h = ground (
    arith,
    redis.get-wait (blacklist_key other) seconds
        (redis.setex (blacklist_key token) expires_in (codes "1") s),
    redis.get-wait (blacklist_key other) seconds s,
    redis.get-setex (blacklist_key other) (blacklist_key token) expires_in (codes "1") s h,
    redis.lifetime-setex (blacklist_key other) (blacklist_key token) expires_in (codes "1") s h,
    text_eq-blacklist_key token other,
  )
