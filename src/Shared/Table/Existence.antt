-- ===== src/Shared/Table/Existence.antt =====
-- Whether a row is there, after each statement.
use facebook_clone.Prelude.{
  ◌≡◌, refl, Bool, true, false, ◌||◌, ◌&&◌, List, [], ◌∷◌, arith, is_some, take, some, ◌≤◌,
}
use facebook_clone.Shared.Errors.{ok}
use facebook_clone.Shared.Table.Counting.{count_of_found-pos}
use facebook_clone.Shared.Table.{
  select, count, exists, delete_where, update_where, insert, find, scalar_one_or_none,
}

module _ {R : Type 0} where
  -- The `LIMIT 1` of a query keeps `scalar_one_or_none` from raising.
  pub scalar_one_or_none-take :
      (p : R → Bool) (rows : List R)
      → scalar_one_or_none (take 1 (select p rows)) ≡ ok (find p rows)
  unfolding select find scalar_one_or_none take
  scalar_one_or_none-take p [] = refl
  scalar_one_or_none-take p (x ∷ rows) = ground (arith, scalar_one_or_none-take p rows)

  pub is_some-find : (p : R → Bool) (rows : List R) → is_some (find p rows) ≡ exists p rows
  unfolding find exists
  is_some-find p [] = refl
  is_some-find p (x ∷ rows) = ground (arith, is_some-find p rows)

  pub exists-inserted :
      (p : R → Bool) (r : R) (rows : List R) → exists p (insert r rows) ≡ (exists p rows || p r)
  unfolding exists
  exists-inserted p r [] = ground arith
  exists-inserted p r (x ∷ rows) = ground (arith, exists-inserted p r rows)

  -- A deletion that the test does not see.
  pub exists-kept :
      (p q : R → Bool) (rows : List R)
      → ((x : R) → p x ≡ true → q x ≡ false)
      → exists p (delete_where q rows) ≡ exists p rows
  unfolding exists delete_where
  exists-kept p q [] h = refl
  exists-kept p q (x ∷ rows) h = ground (arith, h x, exists-kept p q rows h)

  pub exists-deleted :
      (p q : R → Bool) (rows : List R)
      → ((x : R) → p x ≡ true → q x ≡ true)
      → exists p (delete_where q rows) ≡ false
  unfolding exists delete_where
  exists-deleted p q [] h = refl
  exists-deleted p q (x ∷ rows) h = ground (arith, h x, exists-deleted p q rows h)

  pub exists-update_where :
      (p q : R → Bool) (f : R → R) (rows : List R)
      → ((x : R) → p (f x) ≡ p x)
      → exists p (update_where q f rows) ≡ exists p rows
  unfolding exists update_where
  exists-update_where p q f [] h = refl
  exists-update_where p q f (x ∷ rows) h = ground (arith, h x, exists-update_where p q f rows h)

  pub exists_congr :
      (p q : R → Bool) (rows : List R) → ((x : R) → p x ≡ q x) → exists p rows ≡ exists q rows
  unfolding exists
  exists_congr p q [] h = refl
  exists_congr p q (x ∷ rows) h = ground (arith, h x, exists_congr p q rows h)

  pub exists_mono :
      (p q : R → Bool) (rows : List R)
      → ((x : R) → p x ≡ true → q x ≡ true)
      → exists q rows ≡ false
      → exists p rows ≡ false
  unfolding exists
  exists_mono p q [] h n = refl
  exists_mono p q (x ∷ rows) h n = ground (arith, h x, exists_mono p q rows h)

  pub count-none_of_exists :
      (p : R → Bool) (rows : List R) → count p rows ≡ 0 → exists p rows ≡ false
  unfolding exists count
  count-none_of_exists p [] h = refl
  count-none_of_exists p (x ∷ rows) h = ground (arith, count-none_of_exists p rows)

  -- The row that was inserted last is the one that is deleted.
  pub delete_where-insert :
      (q : R → Bool) (r : R) (rows : List R)
      → q r ≡ true
      → exists q rows ≡ false
      → delete_where q (insert r rows) ≡ rows
  unfolding exists delete_where
  delete_where-insert q r [] y n = ground arith
  delete_where-insert q r (x ∷ rows) y n = ground (arith, delete_where-insert q r rows y)

  pub exists_of_found :
      (f p : R → Bool) (rows : List R) {r : R}
      → find f rows ≡ some r
      → p r ≡ true
      → exists p rows ≡ true
  unfolding exists find
  exists_of_found f p [] e g = cc
  exists_of_found f p (x ∷ rows) {r} e g = ground (arith, exists_of_found f p rows {r = r})

  exists-unkeyed :
      (f p key : R → Bool) (u : R → R) (rows : List R)
      → ((x : R) → p x ≡ true → key x ≡ true)
      → ((x : R) → p (u x) ≡ true → key x ≡ true)
      → count key rows ≡ 0
      → exists p (update_where f u rows) ≡ false
  unfolding exists count update_where
  exists-unkeyed f p key u [] h h' c = refl
  exists-unkeyed f p key u (x ∷ rows) h h' c =
      ground (arith, h x, h' x, exists-unkeyed f p key u rows h h')

  -- Where an update takes a test from the one row with the test's key, no row has the test.
  pub exists-updated :
      (f p key : R → Bool) (u : R → R) (rows : List R) {r : R}
      → find f rows ≡ some r
      → key r ≡ true
      → count key rows ≤ 1
      → ((x : R) → p x ≡ true → key x ≡ true)
      → ((x : R) → p (u x) ≡ true → key x ≡ true)
      → ((x : R) → f x ≡ true → p (u x) ≡ false)
      → exists p (update_where f u rows) ≡ false
  unfolding exists find count update_where
  exists-updated f p key u [] e k c h h' n = refl
  exists-updated f p key u (x ∷ rows) {r} e k c h h' n = ground (
    arith,
    h x,
    n x,
    exists-unkeyed f p key u rows h h',
    count_of_found-pos f key rows {r = r},
    exists-updated f p key u rows {r = r},
  )

  -- An update that gives the test to no row.
  pub exists-update_le :
      (p q : R → Bool) (u : R → R) (rows : List R)
      → ((x : R) → p (u x) ≡ true → p x ≡ true)
      → exists p (update_where q u rows) ≡ true
      → exists p rows ≡ true
  unfolding exists update_where
  exists-update_le p q u [] h e = cc
  exists-update_le p q u (x ∷ rows) h e = ground (arith, h x, exists-update_le p q u rows h)

  -- Where the one row with a key fails a test, no row has both.
  pub exists_of_one :
      (key p : R → Bool) (rows : List R) {r : R}
      → find key rows ≡ some r
      → count key rows ≤ 1
      → p r ≡ false
      → exists (λ x. key x && p x) rows ≡ false
  unfolding exists find count
  exists_of_one key p [] e c n = refl
  exists_of_one key p (x ∷ rows) {r} e c n = ground (
    arith,
    exists_of_one key p rows {r = r},
    count-none_of_exists key rows,
    exists_mono (λ y. key y && p y) key rows (λ y h. ground arith),
  )

  -- A query for a row that was not there before it was inserted
  pub scalar_one_or_none-insert :
      (p : R → Bool) (r : R) (rows : List R)
      → exists p rows ≡ false
      → p r ≡ true
      → scalar_one_or_none (select p (insert r rows)) ≡ ok (some r)
  unfolding select exists scalar_one_or_none
  scalar_one_or_none-insert p r [] n e = ground arith
  scalar_one_or_none-insert p r (x ∷ rows) n e = ground (arith, scalar_one_or_none-insert p r rows)

  -- A query for the row that was updated
  pub find-update_where :
      (p : R → Bool) (f : R → R) (rows : List R) {r : R}
      → ((x : R) → p (f x) ≡ p x)
      → find p rows ≡ some r
      → find p (update_where p f rows) ≡ some (f r)
  unfolding find update_where
  find-update_where p f [] k e = cc
  find-update_where p f (x ∷ rows) {r} k e =
      ground (arith, k x, find-update_where p f rows {r = r} k)

  -- The rows that a statement is not about
  pub select-insert :
      (p : R → Bool) (r : R) (rows : List R)
      → p r ≡ false
      → select p (insert r rows) ≡ select p rows
  unfolding select
  select-insert p r [] e = ground arith
  select-insert p r (x ∷ rows) e = ground (arith, select-insert p r rows)

  pub select-update_where :
      (p q : R → Bool) (f : R → R) (rows : List R)
      → ((x : R) → q x ≡ true → (p x ≡ false) × (p (f x) ≡ false))
      → select p (update_where q f rows) ≡ select p rows
  unfolding select update_where
  select-update_where p q f [] h = refl
  select-update_where p q f (x ∷ rows) h = ground (arith, h x, select-update_where p q f rows h)

  update-none :
      (p : R → Bool) (f g : R → R) (rows : List R)
      → count p rows ≡ 0
      → update_where p f rows ≡ update_where p g rows
  unfolding count update_where
  update-none p f g [] u = refl
  update-none p f g (x ∷ rows) u = ground (arith, update-none p f g rows)

  -- Two updates of one row are the same if they make the same of it.
  pub update_where_congr :
      (p : R → Bool) (f g : R → R) (rows : List R) {r : R}
      → find p rows ≡ some r
      → count p rows ≤ 1
      → f r ≡ g r
      → update_where p f rows ≡ update_where p g rows
  unfolding find count update_where
  update_where_congr p f g [] e u h = refl
  update_where_congr p f g (x ∷ rows) {r} e u h =
      ground (arith, update_where_congr p f g rows {r = r}, update-none p f g rows)
