-- ===== src/Shared/Table/Counting.antt =====
-- How many rows a statement leaves, and what it finds.
use mathlib.Core.Path.{subst}
use facebook_clone.Prelude.{
  inl, inr, Bool-cases, All, ◌+◌, ◌≤◌, ◌≡◌, refl, Bool, true, false, ◌&&◌, none, some, List, [],
  ◌∷◌, arith, indicator,
}
use facebook_clone.Shared.Errors.{ok}
use facebook_clone.Shared.Table.{
  select, count, exists, delete_where, update_where, insert, find, scalar_one_or_none,
}

module _ {R : Type 0} where
  pub count-insert :
      (p : R → Bool) (r : R) (rows : List R)
      → count p (insert r rows) ≡ count p rows + indicator (p r)
  unfolding count
  count-insert p r [] = omega arith
  count-insert p r (x ∷ rows) = omega (arith, count-insert p r rows)

  pub count-delete_where :
      (p q : R → Bool) (rows : List R)
      → count p (delete_where q rows) + count (λ x. p x && q x) rows ≡ count p rows
  unfolding count delete_where
  count-delete_where p q [] = omega arith
  count-delete_where p q (x ∷ rows) = ground (arith, count-delete_where p q rows)

  -- An update that the test does not see leaves the count alone.
  pub count-update_where :
      (p q : R → Bool) (f : R → R) (rows : List R)
      → ((x : R) → p (f x) ≡ p x)
      → count p (update_where q f rows) ≡ count p rows
  unfolding count update_where
  count-update_where p q f [] h = refl
  count-update_where p q f (x ∷ rows) h = ground (arith, h x, count-update_where p q f rows h)

  pub count_mono :
      (p q : R → Bool) (rows : List R)
      → ((x : R) → p x ≡ true → q x ≡ true)
      → count p rows ≤ count q rows
  unfolding count
  count_mono p q [] h = omega arith
  count_mono p q (x ∷ rows) h = ground (arith, h x, count_mono p q rows h)

  pub count_congr :
      (p q : R → Bool) (rows : List R) → ((x : R) → p x ≡ q x) → count p rows ≡ count q rows
  unfolding count
  count_congr p q [] h = refl
  count_congr p q (x ∷ rows) h = ground (arith, h x, count_congr p q rows h)

  pub count-and_le : (p q : R → Bool) (rows : List R) → count (λ x. p x && q x) rows ≤ count q rows
  count-and_le p q rows = count_mono (λ x. p x && q x) q rows (λ x h. ground arith)

  pub count-of_not_exists :
      (p : R → Bool) (rows : List R) → exists p rows ≡ false → count p rows ≡ 0
  unfolding exists count
  count-of_not_exists p [] h = refl
  count-of_not_exists p (x ∷ rows) h = ground (arith, count-of_not_exists p rows)

  pub find-some :
      (p : R → Bool) (rows : List R) {r : R}
      → find p rows ≡ some r
      → (p r ≡ true) × (1 ≤ count p rows)
  unfolding find count
  find-some p [] h = ground arith
  find-some p (x ∷ rows) {r} h = ground (arith, find-some p rows {r = r})

  pub find-none : (p : R → Bool) (rows : List R) → find p rows ≡ none → count p rows ≡ 0
  unfolding find count
  find-none p [] h = refl
  find-none p (x ∷ rows) h = ground (arith, find-none p rows)

  select_of_count :
      (p : R → Bool) (rows : List R)
      → count p rows ≡ 0
      → (select p rows ≡ []) × (find p rows ≡ none)
  unfolding count select find
  select_of_count p [] h = (refl, refl)
  select_of_count p (x ∷ rows) h = ground (arith, select_of_count p rows)

  -- Where at most one row matches, `scalar_one_or_none` is the first match, and does not raise.
  pub scalar_one_or_none-select :
      (p : R → Bool) (rows : List R)
      → count p rows ≤ 1
      → scalar_one_or_none (select p rows) ≡ ok (find p rows)
  unfolding count select find scalar_one_or_none
  scalar_one_or_none-select p [] h = refl
  scalar_one_or_none-select p (x ∷ rows) h =
      ground (arith, scalar_one_or_none-select p rows, select_of_count p rows)

  -- What the one match counts for.
  pub count_of_find :
      (p q : R → Bool) (rows : List R) {r : R}
      → find q rows ≡ some r
      → count q rows ≤ 1
      → count (λ x. p x && q x) rows ≡ indicator (p r)
  unfolding count find
  count_of_find p q [] h u = ground arith
  count_of_find p q (x ∷ rows) {r} h u =
      ground (arith, count_of_find p q rows {r = r}, count-and_le p q rows)

  pub exists_of_find :
      (p : R → Bool) (rows : List R) {r : R} → find p rows ≡ some r → exists p rows ≡ true
  unfolding exists find
  exists_of_find p [] e = cc
  exists_of_find p (x ∷ rows) {r} e = ground (arith, exists_of_find p rows {r = r})

  pub not_exists_of_find :
      (p : R → Bool) (rows : List R) → find p rows ≡ none → exists p rows ≡ false
  unfolding exists find
  not_exists_of_find p [] e = refl
  not_exists_of_find p (x ∷ rows) e = ground (arith, not_exists_of_find p rows)

  pub not_exists-delete_where :
      (p q : R → Bool) (rows : List R) → find p rows ≡ none → exists p (delete_where q rows) ≡ false
  unfolding exists find delete_where
  not_exists-delete_where p q [] e = refl
  not_exists-delete_where p q (x ∷ rows) e = ground (arith, not_exists-delete_where p q rows)

  pub exists-insert :
      (p : R → Bool) (r : R) (rows : List R)
      → exists p rows ≡ true
      → exists p (insert r rows) ≡ true
  unfolding exists
  exists-insert p r [] e = cc
  exists-insert p r (x ∷ rows) e = ground (arith, exists-insert p r rows)

  pub none_of_count : (p : R → Bool) (rows : List R) → count p rows ≡ 0 → find p rows ≡ none
  none_of_count p rows h = (select_of_count p rows h).1

  pub find-delete_where :
      (p q : R → Bool) (rows : List R) → find p rows ≡ none → find p (delete_where q rows) ≡ none
  unfolding find delete_where
  find-delete_where p q [] e = refl
  find-delete_where p q (x ∷ rows) e = ground (arith, find-delete_where p q rows)

  -- Once the only match is deleted there is none.
  pub find-delete_found :
      (p q : R → Bool) (rows : List R) {r : R}
      → find p rows ≡ some r
      → count p rows ≤ 1
      → q r ≡ true
      → find p (delete_where q rows) ≡ none
  unfolding find delete_where count
  find-delete_found p q [] e u g = refl
  find-delete_found p q (x ∷ rows) {r} e u g =
      ground (
        arith,
        find-delete_found p q rows {r = r},
        none_of_count p rows,
        find-delete_where p q rows,
      )

  pub count_of_found-pos :
      (f q : R → Bool) (rows : List R) {r : R}
      → find f rows ≡ some r
      → q r ≡ true
      → 1 ≤ count q rows
  unfolding find count
  count_of_found-pos f q [] e g = cc
  count_of_found-pos f q (x ∷ rows) {r} e g = ground (arith, count_of_found-pos f q rows {r = r})

  -- Where one row alone has the key of a row that was found, the rows with the key count for it.
  pub count_of_found :
      (f p q : R → Bool) (rows : List R) {r : R}
      → find f rows ≡ some r
      → q r ≡ true
      → count q rows ≤ 1
      → count (λ x. p x && q x) rows ≡ indicator (p r)
  unfolding find count
  count_of_found f p q [] e g u = cc
  count_of_found f p q (x ∷ rows) {r} e g u = ground (
    arith,
    count_of_found f p q rows {r = r},
    count_of_found-pos f q rows {r = r},
    count-and_le p q rows,
  )

  module _ (P : R → Type 0) where
    pub All-find : (p : R → Bool) (rows : List R) {r : R} → All P rows → find p rows ≡ some r → P r
    unfolding find
    All-find p [] a e = cc
    All-find p (x ∷ rows) {r} a e = elim (Bool-cases (p x)) [
      | inl here ↦ let e' : x ≡ r = ground arith in subst P e' a.0
      | inr later ↦ All-find p rows a.1 (ground arith)
    ]

    pub All-insert : (r : R) (rows : List R) → P r → All P rows → All P (insert r rows)
    All-insert r [] p a = (p, tt)
    All-insert r (x ∷ rows) p a = (a.0, All-insert r rows p a.1)

    pub All-delete_where : (q : R → Bool) (rows : List R) → All P rows → All P (delete_where q rows)
    unfolding delete_where
    All-delete_where q [] a = tt
    All-delete_where q (x ∷ rows) a = elim (Bool-cases (q x)) [
      | inl y ↦ rw y (All-delete_where q rows a.1)
      | inr n ↦ rw n (a.0, All-delete_where q rows a.1)
    ]

  module _ (P Q : R → Type 0) where
    -- An update that turns `P` into `Q` on the rows it meets, where the others have `Q` too.
    pub All-update_where :
        (p : R → Bool) (f : R → R) (rows : List R)
        → ((x : R) → P x → p x ≡ true → Q (f x))
        → ((x : R) → P x → p x ≡ false → Q x)
        → All P rows
        → All Q (update_where p f rows)
    unfolding update_where
    All-update_where p f [] t e a = tt
    All-update_where p f (x ∷ rows) t e a = elim (Bool-cases (p x)) [
      | inl y ↦ rw y (t x a.0 y, All-update_where p f rows t e a.1)
      | inr n ↦ rw n (e x a.0 n, All-update_where p f rows t e a.1)
    ]

    pub All-mono : (rows : List R) → ((x : R) → P x → Q x) → All P rows → All Q rows
    All-mono [] h a = tt
    All-mono (x ∷ rows) h a = (h x a.0, All-mono rows h a.1)
