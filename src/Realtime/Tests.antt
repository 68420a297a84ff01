-- ===== src/Realtime/Tests.antt =====
-- The theorems on connections at a few events: user "a" has two tabs, one of which dies.
use facebook_clone.Prelude.{ℕ, ◌≡◌, false, not, Bool, List, [], ◌∷◌, ◌==◌}
use facebook_clone.Shared.Text.{codes, text_eq}
use facebook_clone.Shared.Table.{exists}
use facebook_clone.Realtime.Connections.{lookup, get_online_users, is_online}
use facebook_clone.Realtime.Events.{Event, joined, sent, run, connected, connected-run}
use facebook_clone.Realtime.Online.{get_online_users-run}

abbrev alive : ℕ → Bool
alive w = not (w == 2)

abbrev events : List Event
events = joined (codes "a") 1 ∷ joined (codes "a") 2 ∷ sent (codes "a") alive ∷ []

connected-run_example : connected (run events []) (codes "a") 2 ≡ false
unfolding text_eq exists lookup
connected-run_example = connected-run events (codes "a") 2 []

get_online_users-run_example :
    exists (λ k. text_eq k (codes "a")) (get_online_users (run events []))
    ≡ is_online (codes "a") (run events [])
get_online_users-run_example = get_online_users-run events (codes "a")
