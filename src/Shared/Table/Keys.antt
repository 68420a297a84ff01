-- ===== src/Shared/Table/Keys.antt =====
-- Unique constraints: no two rows of a table are the `same` in the key's columns.
use facebook_clone.Prelude.{◌≤◌, ◌≡◌, refl, Bool, true, List, [], ◌∷◌, arith}
use facebook_clone.Shared.Table.{count, delete_where, update_where, insert}
use facebook_clone.Shared.Table.Counting.{
  count-insert, count-delete_where, count-update_where, count_mono, count_congr,
}

module _ {R : Type 0} where
  abbrev pub Unique : (R → R → Bool) → List R → Type 0
  Unique same [] = Unit
  Unique same (r ∷ rows) = (count (same r) rows ≡ 0) × Unique same rows

  -- At most one row of a table with a unique constraint matches a test that fixes the key.
  pub count-le_of_Unique :
      (same : R → R → Bool) (p : R → Bool) (rows : List R)
      → ((x y : R) → p x ≡ true → p y ≡ true → same x y ≡ true)
      → Unique same rows
      → count p rows ≤ 1
  unfolding count
  count-le_of_Unique same p [] h u = omega arith
  count-le_of_Unique same p (x ∷ rows) h u = ground (
    arith,
    count-le_of_Unique same p rows h u.1,
    λ (e : p x ≡ true). count_mono p (same x) rows (λ y. h x y e),
  )

  pub Unique-insert :
      (same : R → R → Bool) (r : R) (rows : List R)
      → ((x y : R) → same x y ≡ same y x)
      → count (same r) rows ≡ 0
      → Unique same rows
      → Unique same (insert r rows)
  unfolding count
  Unique-insert same r [] s c u = (refl, tt)
  Unique-insert same r (x ∷ rows) s c u = (
    ground (arith, count-insert (same x) r rows, s r x),
    Unique-insert same r rows s (ground arith) u.1,
  )

  pub Unique-delete_where :
      (same : R → R → Bool) (p : R → Bool) (rows : List R)
      → Unique same rows
      → Unique same (delete_where p rows)
  unfolding delete_where
  Unique-delete_where same p [] u = tt
  Unique-delete_where same p (x ∷ rows) u =
      ground (arith, count-delete_where (same x) p rows, Unique-delete_where same p rows u.1)

  -- An update keeps the constraint if it leaves the key's columns alone.
  pub Unique-update_where :
      (same : R → R → Bool) (p : R → Bool) (f : R → R) (rows : List R)
      → ((x y : R) → same (f x) y ≡ same x y)
      → ((x y : R) → same x (f y) ≡ same x y)
      → Unique same rows
      → Unique same (update_where p f rows)
  unfolding update_where
  Unique-update_where same p f [] l r u = tt
  Unique-update_where same p f (x ∷ rows) l r u = (
    ground (
      arith,
      count-update_where (same x) p f rows (r x),
      count-update_where (same (f x)) p f rows (r (f x)),
      count_congr (same (f x)) (same x) rows (l x),
    ),
    Unique-update_where same p f rows l r u.1,
  )
