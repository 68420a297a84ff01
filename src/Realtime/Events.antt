-- ===== src/Realtime/Events.antt =====
-- What sequences of connections, disconnections and messages leave.
use facebook_clone.Prelude.{
  ap, sym, ℕ, Bool, true, false, ◌&&◌, ◌||◌, not, none, some, List, [], ◌∷◌, ◌==◌, if◌then◌else◌,
  ◌≡◌, refl, arith, Bool-cases, Option-cases, inl, inr, ◌∙◌,
}
use facebook_clone.Shared.EntityId.{Text}
use facebook_clone.Shared.Text.{text_eq}
use facebook_clone.Shared.Table.{exists, select}
use facebook_clone.Realtime.Connections.{
  Connections, lookup, put, member, add, discard, discard_all, or_no_sockets, put_or_delete,
  connect, disconnect, send_to_user,
}
use facebook_clone.Realtime.Dictionary.{
  lookup_same, lookup-put, lookup-remove, member-add, member-discard, member-discard_all,
  member-select,
}

-- Whether a socket is registered for a user
abbrev pub connected : Connections → Text → ℕ → Bool
connected d u w = member w (or_no_sockets (lookup u d))

connected-put :
    (u v : Text) (x : ℕ) (s : List ℕ) (d : Connections)
    → connected (put u s d) v x ≡ (if text_eq u v then member x s else connected d v x)
connected-put u v x s d = rw (lookup-put u v s d) (ground arith)

connected-put_or_delete :
    (u v : Text) (x : ℕ) (s : List ℕ) (d : Connections)
    → connected (put_or_delete u s d) v x ≡ (if text_eq u v then member x s else connected d v x)
unfolding exists
connected-put_or_delete u v x [] d = rw (lookup-remove u v d) (ground arith)
connected-put_or_delete u v x (y ∷ s) d = connected-put u v x (y ∷ s) d

entry_lem :
    (u v : Text) (x : ℕ) (s : List ℕ) (d : Connections)
    → lookup u d ≡ some s
    → text_eq u v ≡ true
    → connected d v x ≡ member x s
entry_lem u v x s d f e = ap (λ o. member x (or_no_sockets o)) (sym (lookup_same u v d e) ∙ f)

no_entry :
    (u v : Text) (x : ℕ) (d : Connections)
    → lookup u d ≡ none
    → text_eq u v ≡ true
    → connected d v x ≡ false
unfolding exists
no_entry u v x d f e = ap (λ o. member x (or_no_sockets o)) (sym (lookup_same u v d e) ∙ f)

module _ (u v : Text) (w x : ℕ) (d : Connections) where
  -- A connection registers the socket for the user, and changes nothing else.
  pub connected-connect :
      connected (connect u w d) v x ≡ (connected d v x || (text_eq u v && w == x))
  unfolding connect
  connected-connect = elim (Bool-cases (text_eq u v)) [
    | inl h ↦ ground (
      arith,
      connected-put u v x (add w (or_no_sockets (lookup u d))) d,
      member-add x w (or_no_sockets (lookup u d)),
      ap (λ o. member x (or_no_sockets o)) (lookup_same u v d h),
    )
    | inr h ↦ ground (arith, connected-put u v x (add w (or_no_sockets (lookup u d))) d)
  ]

  -- A disconnection takes the socket from the user, and changes nothing else.
  pub connected-disconnect :
      connected (disconnect u w d) v x ≡ (connected d v x && not (text_eq u v && w == x))
  unfolding disconnect
  connected-disconnect = elim (Option-cases (lookup u d)) [
    | inl f ↦ ground (arith, no_entry u v x d f)
    | inr (s, f) ↦ ground (
      arith,
      connected-put_or_delete u v x (discard w s) d,
      member-discard x w s,
      entry_lem u v x s d f,
    )
  ]

module _ (alive : ℕ → Bool) (u v : Text) (x : ℕ) (d : Connections) where
  -- A message prunes the user's sockets on which it fails, and changes nothing else.
  pub connected-send_to_user :
      connected (send_to_user alive u d).1 v x ≡ (connected d v x && (not (text_eq u v) || alive x))
  unfolding send_to_user
  connected-send_to_user = elim (Option-cases (lookup u d)) [
    | inl f ↦ ground (arith, no_entry u v x d f)
    | inr (s, f) ↦ ground (
      arith,
      connected-put_or_delete u v x (discard_all (select (λ s. not (alive s)) s) s) d,
      member-discard_all x (select (λ s. not (alive s)) s) s,
      member-select (λ s. not (alive s)) x s,
      entry_lem u v x s d f,
    )
  ]

module _ (alive : ℕ → Bool) (u : Text) (x : ℕ) (d : Connections) where
  -- A message reaches a socket exactly if it is registered for the user and alive.
  pub member-send_to_user : member x (send_to_user alive u d).0 ≡ (connected d u x && alive x)
  unfolding send_to_user exists
  member-send_to_user = elim (Option-cases (lookup u d)) [
    | inl f ↦ ground arith
    | inr (s, f) ↦ ground (arith, member-select alive x s)
  ]

-- What happens to the registry
pub data Event : Type 0 where
  joined left : Text → ℕ → Event
  sent : Text → (ℕ → Bool) → Event

abbrev pub step : Event → Connections → Connections
step (joined u w) d = connect u w d
step (left u w) d = disconnect u w d
step (sent u alive) d = (send_to_user alive u d).1

abbrev pub run : List Event → Connections → Connections
run [] d = d
run (e ∷ events) d = run events (step e d)

-- Whether a socket stays registered, by the events alone
abbrev pub after : List Event → Text → ℕ → Bool → Bool
after [] v x b = b
after (joined u w ∷ events) v x b = after events v x (b || (text_eq u v && w == x))
after (left u w ∷ events) v x b = after events v x (b && not (text_eq u v && w == x))
after (sent u alive ∷ events) v x b = after events v x (b && (not (text_eq u v) || alive x))

-- After any events a socket is registered for a user as the events say: since it joined, it has not
-- left, and no message to the user has failed on it; without such a join, as it was before.
pub connected-run :
    (events : List Event) (v : Text) (x : ℕ) (d : Connections)
    → connected (run events d) v x ≡ after events v x (connected d v x)
connected-run [] v x d = refl
connected-run (joined u w ∷ events) v x d =
    connected-run events v x (connect u w d) ∙ ap (after events v x) (connected-connect u v w x d)
connected-run (left u w ∷ events) v x d =
    connected-run events v x (disconnect u w d)
    ∙ ap (after events v x) (connected-disconnect u v w x d)
connected-run (sent u alive ∷ events) v x d =
    connected-run events v x (send_to_user alive u d).1
    ∙ ap (after events v x) (connected-send_to_user alive u v x d)
