-- ===== src/Shared/Table/Paging.antt =====
-- Pages of a query, and its order.
use native.Mathlib.Numerals.{unary_clauses}
use facebook_clone.Prelude.{
  indicator, ◌&&◌, true, sym, ◌∙◌, inl, inr, Bool-cases, ℕ, zero, suc, ◌+◌, ◌-◌, min, ◌≤◌, ◌≡◌,
  refl, Bool, List, [], ◌∷◌, ◌++◌, arith, length, take, drop, map, ap, ltb, All,
}
use facebook_clone.Shared.Table.Counting.{All-mono}
use facebook_clone.Shared.Table.{select, count, page, place_desc, order_by_desc}

module _ {R : Type 0} where
  take_nil : (n : ℕ) → take {A = R} n [] ≡ []
  unfolding take
  take_nil zero = refl
  take_nil (suc n) = refl

  pub take_add : (m n : ℕ) (rows : List R) → take m rows ++ take n (drop m rows) ≡ take (m + n) rows
  unfolding take drop
  take_add zero n rows = ap (λ k. take k rows) (omega arith)
  take_add (suc m) n [] = take_nil n ∙ sym (take_nil (suc m + n))
  take_add (suc m) n (x ∷ rows) =
      let e : suc (m + n) ≡ suc m + n = omega arith in
      ap (λ t. x ∷ t) (take_add m n rows) ∙ ap (λ k. take k (x ∷ rows)) e

  drop_add : (m k : ℕ) (rows : List R) → drop m (drop k rows) ≡ drop (m + k) rows
  unfolding drop
  drop_add m zero rows = simp unary_clauses refl
  drop_add zero (suc k) [] = simp unary_clauses refl
  drop_add (suc m) (suc k) [] = simp unary_clauses refl
  drop_add m (suc k) (x ∷ rows) = simp unary_clauses (drop_add m k rows)

  -- One row more than a page, which tells whether there is a next page, does not change the page.
  pub take-take : (n : ℕ) (rows : List R) → take n (take (suc n) rows) ≡ take n rows
  unfolding take
  take-take zero rows = refl
  take-take (suc n) [] = refl
  take-take (suc n) (x ∷ rows) = ap (λ t. x ∷ t) (take-take n rows)

  pub ltb-length-take :
      (n : ℕ) (rows : List R) → ltb n (length (take (suc n) rows)) ≡ ltb n (length rows)
  unfolding take
  ltb-length-take zero [] = refl
  ltb-length-take zero (x ∷ rows) = ground arith
  ltb-length-take (suc n) [] = refl
  ltb-length-take (suc n) (x ∷ rows) = ground (arith, ltb-length-take n rows)

  pub ltb-length-drop :
      (n m : ℕ) (rows : List R) → ltb m (length (drop n rows)) ≡ ltb (n + m) (length rows)
  unfolding drop
  ltb-length-drop zero m rows = ground arith
  ltb-length-drop (suc n) m [] = ground arith
  ltb-length-drop (suc n) m (x ∷ rows) = ground (arith, ltb-length-drop n m rows)

  pub select-true : (rows : List R) → select (λ x. true) rows ≡ rows
  unfolding select
  select-true [] = refl
  select-true (x ∷ rows) = ap (λ t. x ∷ t) (select-true rows)

  -- Two pages that follow each other are one.
  pub page-append :
      (m n k : ℕ) (rows : List R) → page m k rows ++ page n (m + k) rows ≡ page (m + n) k rows
  page-append m n k rows =
      ap (λ xs. take m (drop k rows) ++ take n xs) (sym (drop_add m k rows))
      ∙ take_add m n (drop k rows)

  pub length-select : (p : R → Bool) (rows : List R) → length (select p rows) ≡ count p rows
  unfolding select count
  length-select p [] = refl
  length-select p (x ∷ rows) = ground (arith, length-select p rows)

  length-place_desc :
      (key : R → ℕ) (r : R) (rows : List R) → length (place_desc key r rows) ≡ suc (length rows)
  unfolding place_desc
  length-place_desc key r [] = refl
  length-place_desc key r (x ∷ rows) = ground (arith, length-place_desc key r rows)

  pub length-order_by_desc :
      (key : R → ℕ) (rows : List R) → length (order_by_desc key rows) ≡ length rows
  unfolding order_by_desc
  length-order_by_desc key [] = refl
  length-order_by_desc key (x ∷ rows) =
      length-place_desc key x (order_by_desc key rows) ∙ ap suc (length-order_by_desc key rows)

  pub page-all : (n : ℕ) (rows : List R) → length rows ≤ n → page n 0 rows ≡ rows
  unfolding take drop
  page-all zero [] h = refl
  page-all zero (x ∷ rows) h = ground arith
  page-all (suc n) [] h = refl
  page-all (suc n) (x ∷ rows) h = ground (arith, page-all n rows)

  -- The keys fall.
  abbrev pub IsDescending : (R → ℕ) → List R → Type 0
  IsDescending key [] = Unit
  IsDescending key (x ∷ rows) = All (λ y. key y ≤ key x) rows × IsDescending key rows

  pub All-place_desc :
      (P : R → Type 0) (key : R → ℕ) (r : R) (rows : List R)
      → P r
      → All P rows
      → All P (place_desc key r rows)
  unfolding place_desc
  All-place_desc P key r [] p a = (p, tt)
  All-place_desc P key r (x ∷ rows) p a = elim (Bool-cases (ltb (key r) (key x))) [
    | inl y ↦ rw y (a.0, All-place_desc P key r rows p a.1)
    | inr n ↦ rw n (p, a)
  ]

  place_desc-IsDescending :
      (key : R → ℕ) (r : R) (rows : List R)
      → IsDescending key rows
      → IsDescending key (place_desc key r rows)
  unfolding place_desc
  place_desc-IsDescending key r [] d = (tt, tt)
  place_desc-IsDescending key r (x ∷ rows) d = elim (Bool-cases (ltb (key r) (key x))) [
    | inl y ↦ rw y (
      All-place_desc (λ z. key z ≤ key x) key r rows (ground arith) d.0,
      place_desc-IsDescending key r rows d.1,
    )
    | inr n ↦ rw n (
      (
        ground arith,
        All-mono (λ z. key z ≤ key x) (λ z. key z ≤ key r) rows (λ z h. ground arith) d.0,
      ),
      d,
    )
  ]

  pub order_by_desc-IsDescending :
      (key : R → ℕ) (rows : List R) → IsDescending key (order_by_desc key rows)
  unfolding order_by_desc
  order_by_desc-IsDescending key [] = tt
  order_by_desc-IsDescending key (x ∷ rows) =
      place_desc-IsDescending key x (order_by_desc key rows) (order_by_desc-IsDescending key rows)

  count-place_desc :
      (p : R → Bool) (key : R → ℕ) (r : R) (rows : List R)
      → count p (place_desc key r rows) ≡ indicator (p r) + count p rows
  unfolding count place_desc
  count-place_desc p key r [] = refl
  count-place_desc p key r (x ∷ rows) = ground (arith, count-place_desc p key r rows)

  -- The order of a query neither drops nor adds a row.
  pub count-order_by_desc :
      (p : R → Bool) (key : R → ℕ) (rows : List R) → count p (order_by_desc key rows) ≡ count p rows
  unfolding count order_by_desc
  count-order_by_desc p key [] = refl
  count-order_by_desc p key (x ∷ rows) =
      ground
        (arith, count-place_desc p key x (order_by_desc key rows), count-order_by_desc p key rows)

  pub count-select :
      (p q : R → Bool) (rows : List R) → count p (select q rows) ≡ count (λ x. q x && p x) rows
  unfolding count select
  count-select p q [] = refl
  count-select p q (x ∷ rows) = ground (arith, count-select p q rows)

module _ {R S : Type 0} (f : R → S) where
  pub map_append : (xs ys : List R) → map f (xs ++ ys) ≡ map f xs ++ map f ys
  map_append [] ys = refl
  map_append (x ∷ xs) ys = ap (λ t. f x ∷ t) (map_append xs ys)

  pub length-map : (xs : List R) → length (map f xs) ≡ length xs
  length-map [] = refl
  length-map (x ∷ xs) = ap suc (length-map xs)

module _ {R : Type 0} where
  ltb-length-first :
      (n : ℕ) (rows : List R) → ltb (length (take n rows)) (length rows) ≡ ltb n (length rows)
  unfolding take
  ltb-length-first zero rows = refl
  ltb-length-first (suc n) [] = ground arith
  ltb-length-first (suc n) (x ∷ rows) = ground (arith, ltb-length-first n rows)

  -- A page that ends before the last row is one whose bounds do.
  pub ltb-length-page :
      (n k : ℕ) (rows : List R)
      → ltb (k + length (page n k rows)) (length rows) ≡ ltb (n + k) (length rows)
  unfolding drop
  ltb-length-page n zero rows = ground (arith, ltb-length-first n rows)
  ltb-length-page n (suc k) [] = ground arith
  ltb-length-page n (suc k) (x ∷ rows) = ground (arith, ltb-length-page n k rows)

  pub length-take : (n : ℕ) (rows : List R) → length (take n rows) ≡ min n (length rows)
  unfolding take
  length-take zero rows = omega arith
  length-take (suc n) [] = omega arith
  length-take (suc n) (x ∷ rows) = ground (arith, length-take n rows)

  pub length-drop : (n : ℕ) (rows : List R) → length (drop n rows) ≡ length rows - n
  unfolding drop
  length-drop zero rows = omega arith
  length-drop (suc n) [] = omega arith
  length-drop (suc n) (x ∷ rows) = ground (arith, length-drop n rows)

  pub length-page :
      (limit offset : ℕ) (rows : List R)
      → length (page limit offset rows) ≡ min limit (length rows - offset)
  length-page limit offset rows =
      ground (arith, length-take limit (drop offset rows), length-drop offset rows)
