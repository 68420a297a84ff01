-- ===== src/Shared/Table/Holding.antt =====
-- What holds of all rows of a query, and what a query of rows in an order holds.
use facebook_clone.Prelude.{
  ℕ, zero, suc, ◌≡◌, refl, arith, Bool, true, ◌&&◌, ◌||◌, List, [], ◌∷◌, take, drop, map, All,
  Bool-cases, inl, inr,
}
use facebook_clone.Shared.Table.{select, exists, order_by_desc, place_desc, page}
use facebook_clone.Shared.Table.Paging.{All-place_desc}

module _ {R : Type 0} where
  exists-place_desc :
      (p : R → Bool) (key : R → ℕ) (r : R) (rows : List R)
      → exists p (place_desc key r rows) ≡ (p r || exists p rows)
  unfolding exists place_desc
  exists-place_desc p key r [] = ground arith
  exists-place_desc p key r (x ∷ rows) = ground (arith, exists-place_desc p key r rows)

  pub exists-order_by_desc :
      (p : R → Bool) (key : R → ℕ) (rows : List R)
      → exists p (order_by_desc key rows) ≡ exists p rows
  unfolding exists order_by_desc
  exists-order_by_desc p key [] = refl
  exists-order_by_desc p key (x ∷ rows) =
      ground
        (arith, exists-place_desc p key x (order_by_desc key rows), exists-order_by_desc p key rows)

  pub exists-take :
      (p : R → Bool) (n : ℕ) (rows : List R) → exists p (take n rows) ≡ true → exists p rows ≡ true
  unfolding exists take
  exists-take p zero rows h = absurd cc
  exists-take p (suc n) [] h = h
  exists-take p (suc n) (x ∷ rows) h = ground (arith, exists-take p n rows)

  exists-drop :
      (p : R → Bool) (n : ℕ) (rows : List R) → exists p (drop n rows) ≡ true → exists p rows ≡ true
  unfolding exists drop
  exists-drop p zero rows h = h
  exists-drop p (suc n) [] h = h
  exists-drop p (suc n) (x ∷ rows) h = ground (arith, exists-drop p n rows)

  pub exists-page :
      (p : R → Bool) (limit offset : ℕ) (rows : List R)
      → exists p (page limit offset rows) ≡ true
      → exists p rows ≡ true
  exists-page p limit offset rows h =
      exists-drop p offset rows (exists-take p limit (drop offset rows) h)

  pub exists-select :
      (p q : R → Bool) (rows : List R) → exists p (select q rows) ≡ exists (λ r. p r && q r) rows
  unfolding exists select
  exists-select p q [] = refl
  exists-select p q (x ∷ rows) = ground (arith, exists-select p q rows)

  -- A query gives rows of its condition.
  pub All-selected :
      (p q : R → Bool) (rows : List R)
      → All (λ r. p r ≡ true → q r ≡ true) rows
      → All (λ r. q r ≡ true) (select p rows)
  unfolding select
  All-selected p q [] a = tt
  All-selected p q (x ∷ rows) a = elim (Bool-cases (p x)) [
    | inl y ↦ rw y (a.0 y, All-selected p q rows a.1)
    | inr n ↦ rw n (All-selected p q rows a.1)
  ]

  module _ (P : R → Type 0) where
    pub All-take : (n : ℕ) (rows : List R) → All P rows → All P (take n rows)
    unfolding take
    All-take zero rows a = tt
    All-take (suc n) [] a = tt
    All-take (suc n) (x ∷ rows) a = (a.0, All-take n rows a.1)

    pub All-order_by_desc :
        (key : R → ℕ) (rows : List R) → All P rows → All P (order_by_desc key rows)
    unfolding order_by_desc
    All-order_by_desc key [] a = tt
    All-order_by_desc key (x ∷ rows) a =
        All-place_desc P key x (order_by_desc key rows) a.0 (All-order_by_desc key rows a.1)

module _ {R Q : Type 0} where
  pub exists-map :
      (p : Q → Bool) (f : R → Q) (rows : List R)
      → exists p (map f rows) ≡ exists (λ r. p (f r)) rows
  unfolding exists
  exists-map p f [] = refl
  exists-map p f (x ∷ rows) = ground (arith, exists-map p f rows)

  pub All-map :
      (P : Q → Type 0) (f : R → Q) (rows : List R) → All (λ r. P (f r)) rows → All P (map f rows)
  All-map P f [] a = tt
  All-map P f (x ∷ rows) a = (a.0, All-map P f rows a.1)
