-- ===== src/Feed/Scoring.antt =====
-- src/fb/domain/post/feed_scoring.py and affinity.py, in thousandths of a point in place of
-- floating point numbers. `math.exp` is a parameter: what is left of 1 at an age, and how near an
-- amount of interaction is to 1.
use facebook_clone.Prelude.{
  Bool, ◌&&◌, is_some, ℕ, ◌+◌, ◌-◌, ◌*◌, ◌≤◌, min, none, some, List, [], ◌∷◌, ltb, leb, length, map,
  if◌then◌else◌,
}
use facebook_clone.Shared.Errors.{Result, ok, err, type_error}
use facebook_clone.Shared.EntityId.{EntityId, Text, Libraries}
use facebook_clone.Shared.Text.{text_eq, is_empty}
use facebook_clone.Shared.Table.{exists, order_by_desc}
use facebook_clone.Post.Entities.{Post}

pub record Exponential : Type 0 where
  -- 1000 exp(-seconds / 86400), which falls
  pub decay : ℕ → ℕ
  pub decay_le : (seconds : ℕ) → decay seconds ≤ 1000
  pub decay_anti : (s t : ℕ) → s ≤ t → decay t ≤ decay s
  -- 1000 (1 - exp(-weight / 50)), which rises
  pub saturation : ℕ → ℕ
  pub saturation_mono : (v w : ℕ) → v ≤ w → saturation v ≤ saturation w

pub record ScoreBreakdown : Type 0 where
  pub recency_score : ℕ
  pub engagement_score : ℕ
  pub affinity_score : ℕ
  pub content_score : ℕ

pub record ScoredPost : Type 0 where
  pub post : Post
  pub score : ℕ
  pub breakdown : ScoreBreakdown

-- `affinities`, by the text of an author's identifier
abbrev pub Affinities : Type 0
Affinities = List (Text × ℕ)

-- `affinities.get(author_key, _DEFAULT_AFFINITY)`
unfoldable pub affinity_of : Text → Affinities → ℕ
affinity_of key [] = 100
affinity_of key (entry ∷ rest) =
    let others = affinity_of key rest in if text_eq entry.0 key then entry.1 else others

module _ (exponential : Exponential) where
  -- `calculate_affinity`
  unfoldable pub calculate_affinity : ℕ → ℕ → ℕ
  calculate_affinity likes comments =
      let weighted = likes + comments * 3 in
      if leb weighted 0 then 0 else min 1000 (exponential.saturation weighted)

  -- `compute_affinities`, for the counts that the provider has of each author
  unfoldable pub compute_affinities : Libraries → (Text → ℕ × ℕ) → List EntityId → Affinities
  compute_affinities libs counts [] = []
  compute_affinities libs counts (aid ∷ author_ids) =
      let key = libs.print_uuid aid in
      let (likes, comments) = counts key in
      (key, calculate_affinity likes comments) ∷ compute_affinities libs counts author_ids

  -- `_recency_score` of a time without a time zone, where an age below 0 is 0; a time with one never
  -- comes here, since `score_posts` raises at it
  unfoldable pub recency_score : Post → ℕ → ℕ
  recency_score post now = elim post.created_at [
    | none ↦ 0
    | some t ↦ 40 * exponential.decay (now - t)
  ]

  -- `_engagement_score`
  unfoldable pub engagement_score : Post → ℕ
  engagement_score post = min 30000 ((post.like_count + post.comment_count * 3) * 300)

  -- `_affinity_score`
  unfoldable pub affinity_score : Libraries → Post → Affinities → ℕ
  affinity_score libs post affinities = 20 * affinity_of (libs.print_uuid post.author_id) affinities

  -- `_content_score`
  unfoldable pub content_score : Post → ℕ
  content_score post = min 10000 (
      (if is_empty post.media_urls then 0 else 5000)
      + (if ltb 100 (length post.content) then 5000 else 0))

  -- `_score_single`
  unfoldable pub score_single : Libraries → ℕ → Affinities → Post → ScoredPost
  score_single libs now affinities post =
      let recency = recency_score post now in
      let engagement = engagement_score post in
      let affinity = affinity_score libs post affinities in
      let content = content_score post in
      record {
        post = post;
        score = recency + engagement + affinity + content;
        breakdown = record {
          recency_score = recency;
          engagement_score = engagement;
          affinity_score = affinity;
          content_score = content;
        };
      }

  -- `score_posts`. The difference of `datetime.utcnow()`, which has no time zone, and a time that
  -- has one (`is_aware`) is a TypeError.
  unfoldable pub score_posts :
      Libraries → Bool → ℕ → List Post → Affinities → Result (List ScoredPost)
  score_posts libs is_aware now posts affinities =
      if is_aware && exists (λ p. is_some p.created_at) posts
      then err type_error
      else ok (
          order_by_desc (λ (sp : ScoredPost). sp.score)
            (map (score_single libs now affinities) posts))
