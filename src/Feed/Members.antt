-- ===== src/Feed/Members.antt =====
-- Which posts a feed shows, and whether it says that there are more.
use facebook_clone.Prelude.{
  ◌&&◌, is_some, ℕ, ◌+◌, ◌*◌, ◌≡◌, refl, arith, Bool, true, false, ◌&&◌, Option, List, [], ◌∷◌,
  ◌==◌, take, map, ◌≤◌, All, length, ltb, if◌then◌else◌, Bool-cases, inl, inr, ◌∙◌, sym,
}
use facebook_clone.Shared.Errors.{Result, ok, err, type_error}
use facebook_clone.Shared.EntityId.{EntityId, Text, Libraries}
use facebook_clone.Shared.Text.{is_empty}
use facebook_clone.Shared.Table.{select, exists, count, order_by_desc, page}
use facebook_clone.Shared.Table.Keys.{Unique}
use facebook_clone.Shared.Table.Counting.{All-mono}
use facebook_clone.Shared.Table.Paging.{
  length-page, length-order_by_desc, length-select, length-map,
}
use facebook_clone.Shared.Table.Holding.{
  exists-order_by_desc, exists-take, exists-page, exists-select, exists-map, All-selected,
}
use facebook_clone.Shared.Table.Existence.{exists_mono, count-none_of_exists}
use facebook_clone.Follow.Repository.{FollowTables, get_following}
use facebook_clone.Post.Entities.{Post}
use facebook_clone.Post.Tables.{PostTables}
use facebook_clone.Post.Invariant.{same_post}
use facebook_clone.Feed.Repository.{
  time_of, is_among, is_in_feed, feed_page, get_feed_post_ids, get_feed_posts, get_feed_total_count,
}
use facebook_clone.Feed.Scoring.{Exponential, ScoredPost, score_single}
use facebook_clone.Feed.Reading.{FeedOutput, clamp, feed, affinities_of}

-- A row with the key of a row of a query is a row of the query.
owned_lem :
    (q : Post → Bool) (x : Post) (whole part : List Post)
    → count (same_post x) part ≡ 0
    → All (λ p. exists (λ r. r.id == p.id && q r) whole ≡ true → q p ≡ true) part
    → All (λ p. exists (λ r. r.id == p.id && q r) (x ∷ whole) ≡ true → q p ≡ true) part
unfolding count exists
owned_lem q x whole [] n a = tt
owned_lem q x whole (p ∷ part) n a =
    (λ h. a.0 (ground arith), owned_lem q x whole part (ground arith) a.1)

first_lem :
    (q : Post → Bool) (x : Post) (rows : List Post)
    → count (same_post x) rows ≡ 0
    → exists (λ r. r.id == x.id && q r) (x ∷ rows) ≡ true
    → q x ≡ true
unfolding exists
first_lem q x rows n h = ground (
  arith,
  exists_mono (λ r. r.id == x.id && q r) (same_post x) rows (λ r e. ground arith)
      (count-none_of_exists (same_post x) rows n),
)

owned :
    (q : Post → Bool) (rows : List Post)
    → Unique same_post rows
    → All (λ p. exists (λ r. r.id == p.id && q r) rows ≡ true → q p ≡ true) rows
owned q [] u = tt
owned q (x ∷ rows) u = (first_lem q x rows u.0, owned_lem q x rows rows u.0 (owned q rows u.1))

module _ (d : PostTables) (u : Unique same_post d.posts) (user_id : EntityId)
    (friend_ids : List EntityId) where
  listed_lem :
      (limit offset : ℕ) (i : EntityId)
      → is_among (get_feed_post_ids user_id friend_ids limit offset d) i ≡ true
      → exists (λ r. r.id == i && is_in_feed user_id friend_ids r) d.posts ≡ true
  unfolding get_feed_post_ids
  listed_lem limit offset i h =
      let rows = select (is_in_feed user_id friend_ids) d.posts in
      sym (exists-select (λ r. r.id == i) (is_in_feed user_id friend_ids) d.posts)
      ∙ (sym (exists-order_by_desc (λ r. r.id == i) time_of rows)
          ∙ exists-page (λ r. r.id == i) limit offset (order_by_desc time_of rows)
              (sym (
                  exists-map (λ x. x == i) (λ p. p.id)
                    (feed_page user_id friend_ids limit offset d))
                ∙ h))

  -- The posts of identifiers that the feed's query gives are posts of the feed.
  posts_lem :
      (ids : List EntityId) (limit offset : ℕ)
      → ((i : EntityId)
          → is_among ids i ≡ true
          → is_among (get_feed_post_ids user_id friend_ids limit offset d) i ≡ true)
      → All (λ p. is_in_feed user_id friend_ids p ≡ true) (get_feed_posts ids d)
  unfolding get_feed_posts
  posts_lem ids limit offset h =
      All-selected (λ p. is_among ids p.id) (is_in_feed user_id friend_ids) d.posts
        (All-mono
          (λ p.
            exists (λ r. r.id == p.id && is_in_feed user_id friend_ids r) d.posts ≡ true
            → is_in_feed user_id friend_ids p ≡ true)
          (λ p. is_among ids p.id ≡ true → is_in_feed user_id friend_ids p ≡ true) d.posts
          (λ p f e. f (listed_lem limit offset p.id (h p.id e)))
          (owned (is_in_feed user_id friend_ids) d.posts u))

is_empty_lem : (ids : List EntityId) → is_empty ids ≡ (length ids == 0)
is_empty_lem [] = refl
is_empty_lem (i ∷ ids) = ground arith

-- Those that the use cases read: the last thousand that a user follows
abbrev pub sources : EntityId → FollowTables → List EntityId
sources user_id follows = get_following user_id 1000 0 follows

module _ (follows : FollowTables) (d : PostTables) (u : Unique same_post d.posts)
    (user_id : EntityId) where
  -- Where the keys of posts are unique, the feed shows published posts of the user and of the last
  -- thousand that they follow only.
  pub feed_members :
      (limit offset : ℕ)
      → All
          (λ p. is_in_feed user_id (sources user_id follows) p ≡ true)
          (feed user_id limit offset follows d).posts
  unfolding feed
  feed_members limit offset =
      let ids = get_feed_post_ids user_id (sources user_id follows) (clamp limit + 1) offset d in
      elim (Bool-cases (is_empty ids)) [
        | inl e ↦ rw e tt
        | inr e ↦ rw e (
            posts_lem d u user_id (sources user_id follows) (take (clamp limit) ids)
              (clamp limit + 1) offset (λ i h. exists-take (λ x. x == i) (clamp limit) ids h))
      ]

  -- The feed says that there are more posts exactly if there are: published ones of the user and of
  -- those that they follow, beyond the page.
  pub feed_has_next :
      (limit offset : ℕ)
      → (feed user_id limit offset follows d).has_next_page
        ≡ ltb (clamp limit + offset) (get_feed_total_count user_id (sources user_id follows) d)
  unfolding feed get_feed_post_ids get_feed_total_count
  feed_has_next limit offset =
      let rows = select (is_in_feed user_id (sources user_id follows)) d.posts in
      let newest = order_by_desc time_of rows in
      let n = clamp limit in
      ground (
        arith,
        is_empty_lem (map (λ p. p.id) (page (n + 1) offset newest)),
        length-map (λ p. p.id) (page (n + 1) offset newest),
        length-page (n + 1) offset newest,
        length-order_by_desc time_of rows,
        length-select (is_in_feed user_id (sources user_id follows)) d.posts,
      )

module _ (follows : FollowTables) (d : PostTables) (u : Unique same_post d.posts)
    (user_id : EntityId) (exponential : Exponential) (libs : Libraries)
    (history : Option (Text → ℕ × ℕ)) (now limit : ℕ) where
  abbrev candidates : List Post
  candidates =
      get_feed_posts (get_feed_post_ids user_id (sources user_id follows) (clamp limit * 3) 0 d) d

  abbrev rows : List ScoredPost
  rows =
      order_by_desc (λ (sp : ScoredPost). sp.score)
        (map (score_single exponential libs now (affinities_of exponential libs history candidates))
          candidates)

  abbrev final : Bool → List Post
  final is_chronological =
      if is_chronological
      then take (clamp limit) (order_by_desc time_of candidates)
      else map (λ sp. sp.post) (take (clamp limit) rows)

  -- Posts of the feed, and at most 50
  abbrev pub AreShown : List Post → Type 0
  AreShown posts =
      All (λ p. is_in_feed user_id (sources user_id follows) p ≡ true) posts × (length posts ≤ 50)

  -- A feed of such posts, or the TypeError of times with a time zone, by score and with candidates
  abbrev pub IsFeedAnswer : Bool → Bool → Result FeedOutput → Type 0
  IsFeedAnswer is_aware is_chronological (err e) =
      (e ≡ type_error)
      × (is_aware ≡ true)
      × (is_chronological ≡ false)
      × (exists (λ p. is_some p.created_at) candidates ≡ true)
  IsFeedAnswer is_aware is_chronological (ok out) = AreShown out.posts

  abbrev has_times : Bool
  has_times = exists (λ p. is_some p.created_at) candidates
