-- ===== src/Shared/Table/Order.antt =====
-- Queries in an order, and the rows after a cursor.
use mathlib.Core.Path.{subst}
use facebook_clone.Prelude.{
  length, ℕ, zero, suc, ◌≡◌, refl, Bool, true, false, ◌||◌, List, [], ◌∷◌, arith, take, drop, All,
  Bool-cases, inl, inr, none, some, ap, ◌∙◌, Option-cases,
}
use facebook_clone.Shared.Table.{select, place, order_by, last}
use facebook_clone.Shared.Table.Counting.{All-mono}

module _ {R : Type 0} (before : R → R → Bool) where
  -- One of the two comes first.
  abbrev pub AreApart : R → R → Type 0
  AreApart x y = (before x y || before y x) ≡ true

  -- The rows are in order, and no two of them are level.
  abbrev pub IsOrdered : List R → Type 0
  IsOrdered [] = Unit
  IsOrdered (x ∷ rows) = All (λ y. before x y ≡ true) rows × IsOrdered rows

  -- No two rows are level.
  abbrev pub AreAllApart : List R → Type 0
  AreAllApart [] = Unit
  AreAllApart (x ∷ rows) = All (AreApart x) rows × AreAllApart rows

  All-place :
      (P : R → Type 0) (r : R) (rows : List R) → P r → All P rows → All P (place before r rows)
  unfolding place
  All-place P r [] p a = (p, tt)
  All-place P r (x ∷ rows) p a = elim (Bool-cases (before x r)) [
    | inl y ↦ rw y (a.0, All-place P r rows p a.1)
    | inr n ↦ rw n (p, a)
  ]

  pub All-order_by : (P : R → Type 0) (rows : List R) → All P rows → All P (order_by before rows)
  unfolding order_by
  All-order_by P [] a = tt
  All-order_by P (x ∷ rows) a = All-place P x (order_by before rows) a.0 (All-order_by P rows a.1)

  module _ (transitive : (x y z : R) → before x y ≡ true → before y z ≡ true → before x z ≡ true)
      (asymmetric : (x y : R) → before x y ≡ true → before y x ≡ false) where
    place-IsOrdered :
        (r : R) (rows : List R)
        → All (AreApart r) rows
        → IsOrdered rows
        → IsOrdered (place before r rows)
    unfolding place
    place-IsOrdered r [] a o = (tt, tt)
    place-IsOrdered r (x ∷ rows) a o = elim (Bool-cases (before x r)) [
      | inl y ↦
          rw y (All-place (λ z. before x z ≡ true) r rows y o.0, place-IsOrdered r rows a.1 o.1)
      | inr n ↦
          let first : before r x ≡ true = ground (arith, a.0) in
          rw n (
            (
              first,
              All-mono (λ z. before x z ≡ true) (λ z. before r z ≡ true) rows
                  (λ z. transitive r x z first) o.0,
            ),
            o,
          )
    ]

    pub order_by-IsOrdered : (rows : List R) → AreAllApart rows → IsOrdered (order_by before rows)
    unfolding order_by
    order_by-IsOrdered [] a = tt
    order_by-IsOrdered (x ∷ rows) a =
        place-IsOrdered x (order_by before rows) (All-order_by (AreApart x) rows a.0)
          (order_by-IsOrdered rows a.1)

    select_none :
        (q : R → Bool) (r : R) (rows : List R)
        → q r ≡ false
        → select q (place before r rows) ≡ select q rows
    unfolding place select
    select_none q r [] n = ground arith
    select_none q r (x ∷ rows) n = ground (arith, select_none q r rows n)

    place_front :
        (r : R) (rows : List R) → All (λ y. before r y ≡ true) rows → place before r rows ≡ r ∷ rows
    unfolding place
    place_front r [] a = refl
    place_front r (x ∷ rows) a = ground (arith, a.0, asymmetric r x)

    pub All-select :
        (P : R → Type 0) (q : R → Bool) (rows : List R) → All P rows → All P (select q rows)
    unfolding select
    All-select P q [] a = tt
    All-select P q (x ∷ rows) a = elim (Bool-cases (q x)) [
      | inl y ↦ rw y (a.0, All-select P q rows a.1)
      | inr n ↦ rw n (All-select P q rows a.1)
    ]

    select-place :
        (q : R → Bool) (r : R) (rows : List R)
        → q r ≡ true
        → All (AreApart r) rows
        → IsOrdered rows
        → select q (place before r rows) ≡ place before r (select q rows)
    unfolding place select
    select-place q r [] y a o = ground arith
    select-place q r (x ∷ rows) y a o = elim (Bool-cases (before x r)) [
      | inl e ↦ ground (arith, select-place q r rows y a.1 o.1)
      | inr e ↦
          let first : before r x ≡ true = ground (arith, a.0) in
          let all_after =
            All-mono (λ z. before x z ≡ true) (λ z. before r z ≡ true) rows
              (λ z. transitive r x z first) o.0 in
          ground (
            arith,
            place_front r (select q rows) (All-select (λ z. before r z ≡ true) q rows all_after),
          )
    ]

    -- A filter and the order of a query do not depend on which is first.
    pub select-order_by :
        (q : R → Bool) (rows : List R)
        → AreAllApart rows
        → select q (order_by before rows) ≡ order_by before (select q rows)
    unfolding order_by select
    select-order_by q [] a = refl
    select-order_by q (x ∷ rows) a = elim (Bool-cases (q x)) [
      | inl y ↦ rw y (
          select-place q x (order_by before rows) y (All-order_by (AreApart x) rows a.0)
            (order_by-IsOrdered rows a.1)
          ∙ ap (place before x) (select-order_by q rows a.1))
      | inr n ↦ rw n (select_none q x (order_by before rows) n ∙ select-order_by q rows a.1)
    ]

    select_whole :
        (q : R → Bool) (rows : List R) → All (λ y. q y ≡ true) rows → select q rows ≡ rows
    unfolding select
    select_whole q [] a = refl
    select_whole q (x ∷ rows) a = ground (arith, a.0, select_whole q rows a.1)

    drop-all : (n : ℕ) (rows : List R) → last (take n rows) ≡ none → drop n rows ≡ rows
    unfolding take drop last
    drop-all zero rows e = refl
    drop-all (suc n) [] e = refl
    drop-all (suc n) (x ∷ rows) e = elim (Option-cases (last (take n rows))) [
      | inl f ↦ ground arith
      | inr (l, f) ↦ ground arith
    ]

    pub All-last :
        (P : R → Type 0) (n : ℕ) (rows : List R) {c : R}
        → All P rows
        → last (take n rows) ≡ some c
        → P c
    unfolding take last
    All-last P zero rows a e = cc
    All-last P (suc n) [] a e = cc
    All-last P (suc n) (x ∷ rows) {c} a e = elim (Option-cases (last (take n rows))) [
      | inl f ↦ let g : x ≡ c = ground arith in subst P g a.0
      | inr (l, f) ↦ let g : l ≡ c = ground arith in subst P g (All-last P n rows a.1 f)
    ]

    -- The rows after the last one of a page are the rest.
    pub select_after_last :
        (n : ℕ) (rows : List R) {c : R}
        → IsOrdered rows
        → last (take n rows) ≡ some c
        → select (before c) rows ≡ drop n rows
    unfolding select take drop last
    select_after_last zero rows o e = cc
    select_after_last (suc n) [] o e = cc
    select_after_last (suc n) (x ∷ rows) {c} o e = elim (Option-cases (last (take n rows))) [
      | inl f ↦
          let g : x ≡ c = ground arith in
          subst (λ z. select (before z) (x ∷ rows) ≡ drop n rows) g
            (ground (arith, asymmetric x x, select_whole (before x) rows o.0, drop-all n rows f))
      | inr (l, f) ↦
          let g : l ≡ c = ground arith in
          subst (λ z. select (before z) (x ∷ rows) ≡ drop n rows) g
            (ground (
              arith,
              asymmetric x l (All-last (λ z. before x z ≡ true) n rows o.0 f),
              select_after_last n rows o.1 f,
            ))
    ]

  length-place : (r : R) (rows : List R) → length (place before r rows) ≡ suc (length rows)
  unfolding place
  length-place r [] = refl
  length-place r (x ∷ rows) = ground (arith, length-place r rows)

  pub length-order_by : (rows : List R) → length (order_by before rows) ≡ length rows
  unfolding order_by
  length-order_by [] = refl
  length-order_by (x ∷ rows) = length-place x (order_by before rows) ∙ ap suc (length-order_by rows)
