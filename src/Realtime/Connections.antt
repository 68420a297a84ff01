-- ===== src/Realtime/Connections.antt =====
-- src/fb/infrastructure/realtime/connection_manager.py. A socket is a number; `alive` says of which
-- sockets `send_json` succeeds. The sets keep the order of their insertions.
use facebook_clone.Prelude.{
  ℕ, Bool, false, not, Option, none, some, List, [], ◌∷◌, ◌++◌, ◌==◌, if◌then◌else◌, map, length,
  ltb,
}
use facebook_clone.Shared.EntityId.{Text}
use facebook_clone.Shared.Text.{text_eq, is_empty}
use facebook_clone.Shared.Table.{exists, select, delete_where, insert}

-- `dict[str, set[WebSocket]]`
abbrev pub Connections : Type 0
Connections = List (Text × List ℕ)

unfoldable pub lookup : Text → Connections → Option (List ℕ)
lookup u [] = none
lookup u (entry ∷ d) = let rest = lookup u d in if text_eq entry.0 u then some entry.1 else rest

-- `d[u] = sockets`
unfoldable pub put : Text → List ℕ → Connections → Connections
put u sockets [] = (u, sockets) ∷ []
put u sockets (entry ∷ d) =
    let rest = put u sockets d in if text_eq entry.0 u then (entry.0, sockets) ∷ d else entry ∷ rest

-- `del d[u]`
unfoldable pub remove : Text → Connections → Connections
remove u [] = []
remove u (entry ∷ d) = let rest = remove u d in if text_eq entry.0 u then rest else entry ∷ rest

abbrev pub member : ℕ → List ℕ → Bool
member socket sockets = exists (λ x. x == socket) sockets

-- `sockets.add(socket)`
abbrev pub add : ℕ → List ℕ → List ℕ
add socket sockets = if member socket sockets then sockets else insert socket sockets

-- `sockets.discard(socket)`
abbrev pub discard : ℕ → List ℕ → List ℕ
discard socket sockets = delete_where (λ x. x == socket) sockets

-- The sockets of a user, none where there is no entry
abbrev pub or_no_sockets : Option (List ℕ) → List ℕ
or_no_sockets none = []
or_no_sockets (some sockets) = sockets

-- `connect`, after the handshake
unfoldable pub connect : Text → ℕ → Connections → Connections
connect user_id websocket d = put user_id (add websocket (or_no_sockets (lookup user_id d))) d

-- The sockets that are left are stored, and an empty entry is deleted.
abbrev pub put_or_delete : Text → List ℕ → Connections → Connections
put_or_delete user_id sockets d =
    if is_empty sockets then remove user_id d else put user_id sockets d

unfoldable pub disconnect : Text → ℕ → Connections → Connections
disconnect user_id websocket d = elim (lookup user_id d) [
  | none ↦ d
  | some sockets ↦ put_or_delete user_id (discard websocket sockets) d
]

-- `for ws in dead: …discard(ws)`
unfoldable pub discard_all : List ℕ → List ℕ → List ℕ
discard_all [] sockets = sockets
discard_all (socket ∷ dead) sockets = discard_all dead (discard socket sockets)

module _ (alive : ℕ → Bool) where
  -- `send_to_user`, with the sockets that the message reaches
  unfoldable pub send_to_user : Text → Connections → List ℕ × Connections
  unfolding discard_all
  send_to_user user_id d = elim (lookup user_id d) [
    | none ↦ ([], d)
    | some sockets ↦ (
      select alive sockets,
      put_or_delete user_id (discard_all (select (λ s. not (alive s)) sockets) sockets) d,
    )
  ]

  unfoldable pub broadcast : List Text → Connections → List ℕ × Connections
  unfolding send_to_user
  broadcast [] d = ([], d)
  broadcast (user_id ∷ user_ids) d =
      let (reached, e) = send_to_user user_id d in
      let (others, f) = broadcast user_ids e in (reached ++ others, f)

unfoldable pub get_online_users : Connections → List Text
get_online_users d = map (λ (entry : Text × List ℕ). entry.0) d

abbrev is_nonempty : Option (List ℕ) → Bool
is_nonempty none = false
is_nonempty (some sockets) = ltb 0 (length sockets)

unfoldable pub is_online : Text → Connections → Bool
is_online user_id d = is_nonempty (lookup user_id d)
