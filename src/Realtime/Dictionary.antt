-- ===== src/Realtime/Dictionary.antt =====
-- Lookups after writes, and members after additions and removals.
use mathlib.Core.Path.{subst}
use facebook_clone.Prelude.{
  ap, eq_of_==, ℕ, Bool, true, ◌&&◌, ◌||◌, not, none, some, List, [], ◌∷◌, ◌==◌, if◌then◌else◌, ◌≡◌,
  refl, arith, Bool-cases, inl, inr,
}
use facebook_clone.Shared.EntityId.{Text}
use facebook_clone.Shared.Text.{text_eq}
use facebook_clone.Shared.TextEquality.{text_eq_same, text_eq_symm}
use facebook_clone.Shared.Table.{exists, select}
use facebook_clone.Shared.Table.Existence.{exists-inserted, exists-kept, exists-deleted}
use facebook_clone.Realtime.Connections.{
  Connections, lookup, put, remove, member, add, discard, discard_all,
}

-- The same texts are equal to equal texts.
text_eq_match : (a b c : Text) → text_eq a b ≡ true → text_eq c a ≡ text_eq c b
text_eq_match a b c e = ground (arith, text_eq_same a b c, text_eq_symm c a, text_eq_symm c b)

-- Equal texts have the same entry.
pub lookup_same : (u v : Text) (d : Connections) → text_eq u v ≡ true → lookup u d ≡ lookup v d
unfolding lookup
lookup_same u v [] e = refl
lookup_same u v (entry ∷ d) e = ground (arith, text_eq_match u v entry.0 e, lookup_same u v d e)

pub lookup-put :
    (u v : Text) (s : List ℕ) (d : Connections)
    → lookup v (put u s d) ≡ (if text_eq u v then some s else lookup v d)
unfolding lookup put
lookup-put u v s [] = ground arith
lookup-put u v s (entry ∷ d) =
    ground (arith, text_eq_same entry.0 u v, text_eq_match u v entry.0, lookup-put u v s d)

pub lookup-remove :
    (u v : Text) (d : Connections)
    → lookup v (remove u d) ≡ (if text_eq u v then none else lookup v d)
unfolding lookup remove
lookup-remove u v [] = ground arith
lookup-remove u v (entry ∷ d) =
    ground (arith, text_eq_same entry.0 u v, text_eq_match u v entry.0, lookup-remove u v d)

pub member-add : (x w : ℕ) (s : List ℕ) → member x (add w s) ≡ (member x s || w == x)
member-add x w s = elim (Bool-cases (member w s)) [
  | inl h ↦ rw h (elim (Bool-cases (w == x)) [
    | inl e ↦
        let here : member x s ≡ true = subst (λ z. member z s ≡ true) (eq_of_== w x e) h in
        ground arith
    | inr e ↦ ground arith
  ])
  | inr h ↦ rw h (exists-inserted (λ y. y == x) w s)
]

pub member-discard : (x w : ℕ) (s : List ℕ) → member x (discard w s) ≡ (member x s && not (w == x))
member-discard x w s = elim (Bool-cases (w == x)) [
  | inl h ↦ ground (arith, exists-deleted (λ y. y == x) (λ y. y == w) s (λ y e. ground arith))
  | inr h ↦ ground (arith, exists-kept (λ y. y == x) (λ y. y == w) s (λ y e. ground arith))
]

pub member-discard_all :
    (x : ℕ) (dead s : List ℕ) → member x (discard_all dead s) ≡ (member x s && not (member x dead))
unfolding discard_all exists
member-discard_all x [] s = ground arith
member-discard_all x (w ∷ dead) s =
    ground (arith, member-discard_all x dead (discard w s), member-discard x w s)

pub member-select :
    (p : ℕ → Bool) (x : ℕ) (s : List ℕ) → member x (select p s) ≡ (member x s && p x)
unfolding exists select
member-select p x [] = refl
member-select p x (y ∷ s) =
    ground (arith, member-select p x s, λ (e : (y == x) ≡ true). ap p (eq_of_== y x e))
