-- ===== src/RateLimiter/Identity.antt =====
-- Who makes a request, for `_resolve_role` and `_resolve_identifier` of
-- src/fb/presentation/middleware/rate_limiter.py.
use facebook_clone.Prelude.{
  Bool, ◌&&◌, Option, none, some, [], ◌∷◌, ◌++◌, ◌==◌, if◌then◌else◌, length, ltb, take, drop,
}
use facebook_clone.Shared.EntityId.{Text}
use facebook_clone.Shared.Text.{codes, text_eq, is_empty, strip}

-- What is read of a request
pub record Request : Type 0 where
  pub path : Text
  -- the headers `Authorization` and `X-Forwarded-For`
  pub authorization : Option Text
  pub forwarded_for : Option Text
  -- `request.client.host`
  pub client_host : Option Text

pub data Role : Type 0 where
  guest user premium : Role

-- `text.startswith(prefix)`
unfoldable pub startswith : Text → Text → Bool
startswith prefix text = text_eq (take (length prefix) text) prefix

abbrev pub or_empty : Option Text → Text
or_empty none = []
or_empty (some header) = header

-- `headers.get("Authorization", "")`
abbrev pub auth_header : Request → Text
auth_header request = or_empty request.authorization

-- `_resolve_role`
unfoldable pub resolve_role : Request → Role
unfolding startswith
resolve_role request =
    if startswith (codes "Bearer ") (auth_header request) && ltb 7 (length (auth_header request))
    then user
    else guest

-- `text.split(",")[0]`
unfoldable pub before_comma : Text → Text
before_comma [] = []
before_comma (c ∷ text) = let rest = before_comma text in if c == 44 then [] else c ∷ rest

abbrev pub or_unknown : Option Text → Text
or_unknown none = codes "unknown"
or_unknown (some host) = host

-- The address of a guest, where an empty header counts as none
unfoldable pub guest_ip : Request → Text
unfolding before_comma
guest_ip request = elim request.forwarded_for [
  | none ↦ or_unknown request.client_host
  | some forwarded ↦
      if is_empty forwarded then or_unknown request.client_host else strip (before_comma forwarded)
]

-- `_resolve_identifier`
unfoldable pub resolve_identifier : Request → Role → Text
unfolding guest_ip
resolve_identifier request guest = codes "guest:" ++ guest_ip request
resolve_identifier request _ = codes "user:" ++ take 32 (drop 7 (auth_header request))
