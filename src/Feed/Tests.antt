-- ===== src/Feed/Tests.antt =====
-- The theorems on the feed at three posts: user 1 follows user 2, and not user 3.
use facebook_clone.Prelude.{ℕ, ◌-◌, ◌≤◌, arith, true, some, [], ◌∷◌}
use facebook_clone.Shared.Samples.{libs}
use facebook_clone.Shared.EntityId.{EntityId}
use facebook_clone.Follow.Repository.{FollowTables}
use facebook_clone.Post.Entities.{Post}
use facebook_clone.Post.Tables.{PostTables}
use facebook_clone.Feed.Scoring.{Exponential, compute_affinities, score_single, ScoredPost}
use facebook_clone.Feed.Ranking.{score_single_le}

-- Straight lines in place of the exponential function
abbrev lines : Exponential
lines = record {
  decay = λ s. 1000 - s;
  decay_le = λ s. omega arith;
  decay_anti = λ s t h. omega arith;
  saturation = λ w. w;
  saturation_mono = λ v w h. h;
}

abbrev post_of : EntityId → EntityId → ℕ → Post
post_of i author time = record {
  id = i;
  author_id = author;
  content = [];
  media_urls = [];
  like_count = 2;
  comment_count = 1;
  is_published = true;
  created_at = some time;
}

abbrev follows : FollowTables
follows = record {
  users = 1 ∷ 2 ∷ 3 ∷ [];
  follows = record { id = 90; follower_id = 1; following_id = 2; created_at = some 1 } ∷ [];
}

abbrev tables : PostTables
tables = record {
  users = 1 ∷ 2 ∷ 3 ∷ [];
  posts = post_of 50 2 4 ∷ post_of 51 3 5 ∷ post_of 52 1 6 ∷ [];
  likes = [];
  reactions = [];
  comments = [];
  shares = [];
}

abbrev scored : ScoredPost
scored =
    score_single lines libs 9 (compute_affinities lines libs (λ k. (2, 1)) (2 ∷ []))
      (post_of 50 2 4)

score_single_le_example : scored.breakdown.recency_score ≤ 40000
score_single_le_example = (score_single_le lines libs (λ k. (2, 1)) (2 ∷ []) 9 (post_of 50 2 4)).0

-- A later post with one like more
abbrev better : Post
better = record (post_of 53 2 6) { like_count = 3 }
