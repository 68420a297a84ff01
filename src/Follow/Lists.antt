-- ===== src/Follow/Lists.antt =====
-- The lists of follows: src/fb/infrastructure/repositories/follow_repo.py.
use facebook_clone.Prelude.{ℕ, ◌≡◌, ◌≤◌, refl, arith, ◌+◌, ◌++◌, List, ap, map, length, sym, ◌∙◌}
use facebook_clone.Shared.EntityId.{EntityId}
use facebook_clone.Shared.Table.{count, select, page, order_by_desc}
use facebook_clone.Shared.Table.Paging.{
  page-append, map_append, length-map, length-select, length-order_by_desc, page-all,
  order_by_desc-IsDescending, IsDescending,
}
use facebook_clone.Follow.Repository.{
  Follow, FollowTables, is_by, time_of, get_following, get_following_count,
}

module _ (user_id : EntityId) (d : FollowTables) where
  -- The follows of the user, newest first
  abbrev pub newest : List Follow
  newest = order_by_desc time_of (select (is_by user_id) d.follows)

  -- The pages of the list of those that a user follows fit together: a page and the page that begins
  -- where it ends are one longer page.
  pub get_following-append :
      (m n offset : ℕ)
      → get_following user_id m offset d ++ get_following user_id n (m + offset) d
        ≡ get_following user_id (m + n) offset d
  unfolding get_following
  get_following-append m n offset =
      sym (map_append (λ f. f.following_id) (page m offset newest) (page n (m + offset) newest))
      ∙ ap (map (λ f. f.following_id)) (page-append m n offset newest)

  -- A page as long as the count holds everyone that the user follows, newest first.
  pub get_following-all :
      (n : ℕ)
      → get_following_count user_id d ≤ n
      → (length (get_following user_id n 0 d) ≡ get_following_count user_id d)
        × (get_following user_id n 0 d ≡ map (λ f. f.following_id) newest)
        × IsDescending time_of newest
  unfolding get_following get_following_count
  get_following-all n h =
      let rows = select (is_by user_id) d.follows in
      let c : length newest ≡ count (is_by user_id) d.follows =
        length-order_by_desc time_of rows ∙ length-select (is_by user_id) d.follows in
      let e = page-all n newest (ground arith) in
      rw e
        (length-map (λ f. f.following_id) newest ∙ c, refl, order_by_desc-IsDescending time_of rows)
