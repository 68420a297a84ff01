-- ===== src/Cache/Tests.antt =====
-- The theorem on the entries of the cache, with a server that is a function and numbers as values.
use facebook_clone.Prelude.{true, ◌≡◌, some, [], ◌∷◌}
use facebook_clone.Auth.Samples.{json, server, empty}
use facebook_clone.Cache.Keys.{friend_count_entry, same_entry}
use facebook_clone.Cache.CacheService.{get_entry, set_entry, ttl_of, entries_lem}

entries_lem_example :
    get_entry server json true
      (friend_count_entry (7 ∷ []))
      (server.wait 5 (set_entry server json true (friend_count_entry (7 ∷ [])) 3 empty))
    ≡ some 3
unfolding same_entry ttl_of facebook_clone.Shared.Text.text_eq
entries_lem_example =
    (entries_lem server json (friend_count_entry (7 ∷ [])) (friend_count_entry (7 ∷ [])) 3 5
      empty).0
