-- ===== src/Feed/Reading.antt =====
-- src/fb/application/post/get_feed.py. The repositories are called on the tables of the follows and
-- of the posts; the interaction history is a parameter.
use facebook_clone.Prelude.{
  ℕ, ◌+◌, ◌*◌, Bool, false, Option, none, some, List, [], ◌∷◌, ◌==◌, ltb, leb, length, map, take,
  min, if◌then◌else◌,
}
use facebook_clone.Shared.Errors.{Result, ok, err}
use facebook_clone.Shared.EntityId.{EntityId, Text, Libraries, from_str}
use facebook_clone.Shared.Text.{is_empty}
use facebook_clone.Shared.Table.{order_by_desc}
use facebook_clone.Chat.Cursor.{Codec}
use facebook_clone.Follow.Repository.{FollowTables, get_following}
use facebook_clone.Post.Entities.{Post}
use facebook_clone.Post.Tables.{PostTables}
use facebook_clone.Feed.Repository.{
  FeedCursorPage, time_of, is_among, get_feed_post_ids, get_feed_posts, get_feed_posts_cursor,
}
use facebook_clone.Feed.Scoring.{Exponential, Affinities, compute_affinities, score_posts}

-- The posts of an answer, before `_to_output` writes them out
pub record FeedOutput : Type 0 where
  pub posts : List Post
  pub total_count : ℕ
  pub has_next_page : Bool

-- `min(max(limit, 1), 50)` of a number that is not negative; a negative one is taken as 0 is.
abbrev pub clamp : ℕ → ℕ
clamp limit = min (if limit == 0 then 1 else limit) 50

abbrev pub empty_feed : FeedOutput
empty_feed = record { posts = []; total_count = 0; has_next_page = false }

-- `execute` for a parsed user
unfoldable pub feed : EntityId → ℕ → ℕ → FollowTables → PostTables → FeedOutput
feed user_id limit offset follows d =
    let n = clamp limit in
    let friend_ids = get_following user_id 1000 0 follows in
    let post_ids = get_feed_post_ids user_id friend_ids (n + 1) offset d in
    let posts = get_feed_posts (take n post_ids) d in
    if is_empty post_ids then empty_feed else record {
      posts = posts;
      total_count = length posts;
      has_next_page = ltb n (length post_ids);
    }

-- `list({p.author_id for p in posts})`
unfoldable pub unique_authors : List Post → List EntityId
unique_authors [] = []
unique_authors (p ∷ posts) =
    let rest = unique_authors posts in
    if is_among rest p.author_id then rest else p.author_id ∷ rest

-- `_compute_affinities`, where there may be no history
abbrev pub affinities_of : Exponential → Libraries → Option (Text → ℕ × ℕ) → List Post → Affinities
affinities_of exponential libs none posts = []
affinities_of exponential libs (some counts) posts =
    compute_affinities exponential libs counts (unique_authors posts)

-- The posts of an answer in their order
abbrev pub ranked_output : List Post → Bool → FeedOutput
ranked_output posts has_more = record {
  posts = posts;
  total_count = length posts;
  has_next_page = has_more;
}

-- `execute_ranked` for a parsed user: by time, or by score, where the times of posts may have a time
-- zone
unfoldable pub ranked_feed :
    Exponential
    → Libraries
    → Bool
    → Option (Text → ℕ × ℕ)
    → ℕ
    → EntityId
    → ℕ
    → Bool
    → FollowTables
    → PostTables
    → Result FeedOutput
ranked_feed exponential libs is_aware history now user_id limit is_chronological follows d =
    let n = clamp limit in
    let friend_ids = get_following user_id 1000 0 follows in
    let post_ids = get_feed_post_ids user_id friend_ids (n * 3) 0 d in
    let candidates = get_feed_posts post_ids d in
    let has_more = leb (n * 3) (length candidates) in
    let by_score =
      score_posts exponential libs is_aware now candidates
        (affinities_of exponential libs history candidates) in
    if is_empty post_ids
    then ok empty_feed
    else if is_chronological
    then ok (ranked_output (take n (order_by_desc time_of candidates)) has_more)
    else elim by_score [
      | err e ↦ err e
      | ok scored ↦ ok (ranked_output (map (λ sp. sp.post) (take n scored)) has_more)
    ]

-- `execute_cursor` for a parsed user
unfoldable pub cursor_feed :
    {libs : Libraries}
    → Codec libs
    → EntityId
    → ℕ
    → Option Text
    → FollowTables
    → PostTables
    → Result FeedCursorPage
cursor_feed codec user_id n after follows d =
    get_feed_posts_cursor codec user_id (get_following user_id 1000 0 follows) (clamp n) after d

-- `execute`
unfoldable pub get_feed : Libraries → Text → ℕ → ℕ → FollowTables → PostTables → Result FeedOutput
get_feed libs user_id limit offset follows d = elim (from_str libs user_id) [
  | err e ↦ err e
  | ok i ↦ ok (feed i limit offset follows d)
]

-- `execute_ranked`
unfoldable pub get_ranked_feed :
    Exponential
    → Libraries
    → Bool
    → Option (Text → ℕ × ℕ)
    → ℕ
    → Text
    → ℕ
    → Bool
    → FollowTables
    → PostTables
    → Result FeedOutput
get_ranked_feed exponential libs is_aware history now user_id limit is_chronological follows d =
    elim (from_str libs user_id) [
      | err e ↦ err e
      | ok i ↦ ranked_feed exponential libs is_aware history now i limit is_chronological follows d
    ]
