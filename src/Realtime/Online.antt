-- ===== src/Realtime/Online.antt =====
-- The users who are online.
use facebook_clone.Prelude.{
  ltb, length, ℕ, true, false, not, ◌≡◌, refl, arith, Bool-cases, Option-cases, inl, inr, List, [],
  ◌∷◌, All,
}
use facebook_clone.Shared.EntityId.{Text}
use facebook_clone.Shared.Text.{text_eq, is_empty}
use facebook_clone.Shared.Table.{exists, select}
use facebook_clone.Realtime.Connections.{
  Connections, lookup, put, remove, member, add, discard, discard_all, or_no_sockets, put_or_delete,
  connect, disconnect, send_to_user, is_online, get_online_users,
}
use facebook_clone.Realtime.Events.{Event, joined, left, sent, step, run}

-- No entry is empty.
abbrev pub IsTidy : Connections → Type 0
IsTidy d = All (λ entry. is_empty entry.1 ≡ false) d

put-IsTidy :
    (u : Text) (s : List ℕ) (d : Connections) → is_empty s ≡ false → IsTidy d → IsTidy (put u s d)
unfolding put
put-IsTidy u s [] n t = (n, tt)
put-IsTidy u s (entry ∷ d) n t = elim (Bool-cases (text_eq entry.0 u)) [
  | inl y ↦ rw y (n, t.1)
  | inr y ↦ rw y (t.0, put-IsTidy u s d n t.1)
]

remove-IsTidy : (u : Text) (d : Connections) → IsTidy d → IsTidy (remove u d)
unfolding remove
remove-IsTidy u [] t = tt
remove-IsTidy u (entry ∷ d) t = elim (Bool-cases (text_eq entry.0 u)) [
  | inl y ↦ rw y (remove-IsTidy u d t.1)
  | inr y ↦ rw y (t.0, remove-IsTidy u d t.1)
]

put_or_delete-IsTidy :
    (u : Text) (s : List ℕ) (d : Connections) → IsTidy d → IsTidy (put_or_delete u s d)
put_or_delete-IsTidy u [] d t = remove-IsTidy u d t
put_or_delete-IsTidy u (x ∷ s) d t = put-IsTidy u (x ∷ s) d refl t

is_empty-add : (w : ℕ) (s : List ℕ) → is_empty (add w s) ≡ false
unfolding exists
is_empty-add w [] = refl
is_empty-add w (x ∷ s) = elim (Bool-cases (member w (x ∷ s))) [
  | inl y ↦ ground arith
  | inr y ↦ ground arith
]

step-IsTidy : (e : Event) (d : Connections) → IsTidy d → IsTidy (step e d)
unfolding connect disconnect send_to_user
step-IsTidy (joined u w) d t =
    put-IsTidy u (add w (or_no_sockets (lookup u d))) d
      (is_empty-add w (or_no_sockets (lookup u d))) t
step-IsTidy (left u w) d t = elim (Option-cases (lookup u d)) [
  | inl f ↦ rw (disconnect, f) t
  | inr (s, f) ↦ rw (disconnect, f) (put_or_delete-IsTidy u (discard w s) d t)
]
step-IsTidy (sent u alive) d t = elim (Option-cases (lookup u d)) [
  | inl f ↦ rw (step, send_to_user, f) t
  | inr (s, f) ↦
      rw (step, send_to_user, f)
        (put_or_delete-IsTidy u (discard_all (select (λ x. not (alive x)) s) s) d t)
]

pub run-IsTidy : (events : List Event) (d : Connections) → IsTidy d → IsTidy (run events d)
run-IsTidy [] d t = t
run-IsTidy (e ∷ events) d t = run-IsTidy events (step e d) (step-IsTidy e d t)

length_pos : (s : List ℕ) → is_empty s ≡ false → ltb 0 (length s) ≡ true
length_pos [] e = cc
length_pos (x ∷ s) e = ground arith

listed_lem :
    (u : Text) (d : Connections)
    → IsTidy d
    → exists (λ k. text_eq k u) (get_online_users d) ≡ is_online u d
unfolding get_online_users is_online lookup exists
listed_lem u [] t = refl
listed_lem u (entry ∷ d) t = ground (arith, listed_lem u d t.1, length_pos entry.1 t.0)

-- After any events on an empty registry, the list of online users has exactly the users who are
-- online: no entry without a connection is left behind.
pub get_online_users-run :
    (events : List Event) (u : Text)
    → exists (λ k. text_eq k u) (get_online_users (run events [])) ≡ is_online u (run events [])
get_online_users-run events u = listed_lem u (run events []) (run-IsTidy events [] tt)
