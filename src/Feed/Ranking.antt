-- ===== src/Feed/Ranking.antt =====
-- The order and the bounds of scores.
use facebook_clone.Prelude.{
  ℕ, ◌+◌, ◌*◌, ◌≤◌, ◌≡◌, refl, arith, List, [], ◌∷◌, Option-cases, inl, inr, ◌-◌,
}
use facebook_clone.Shared.EntityId.{EntityId, Text, Libraries}
use facebook_clone.Post.Entities.{Post}
use facebook_clone.Feed.Scoring.{
  Exponential, affinity_of, calculate_affinity, compute_affinities, recency_score, engagement_score,
  affinity_score, content_score, score_single,
}

module _ (exponential : Exponential) (libs : Libraries) where
  -- An affinity is at most 1, and no more of it comes of fewer likes and comments.
  pub calculate_affinity_le :
      (likes comments more_likes more_comments : ℕ)
      → likes ≤ more_likes
      → comments ≤ more_comments
      → (calculate_affinity exponential likes comments ≤ 1000)
        × (calculate_affinity exponential likes comments
            ≤ calculate_affinity exponential more_likes more_comments)
  unfolding calculate_affinity
  calculate_affinity_le l c m n p q = (
    ground arith,
    ground (arith, exponential.saturation_mono (l + c * 3) (m + n * 3) (omega arith)),
  )

  affinity_of_le :
      (counts : Text → ℕ × ℕ) (ids : List EntityId) (key : Text)
      → affinity_of key (compute_affinities exponential libs counts ids) ≤ 1000
  unfolding affinity_of compute_affinities calculate_affinity
  affinity_of_le counts [] key = omega arith
  affinity_of_le counts (i ∷ ids) key = ground (arith, affinity_of_le counts ids key)

  recency_le : (now : ℕ) (post : Post) → recency_score exponential post now ≤ 40000
  unfolding recency_score
  recency_le now post = elim (Option-cases post.created_at) [
    | inl n ↦ ground arith
    | inr (t, e) ↦ ground (arith, exponential.decay_le (now - t))
  ]

  -- With affinities that the program computes, each part of a score keeps to its maximum, 40, 30,
  -- 20 and 10 points, and the score is their sum.
  pub score_single_le :
      (counts : Text → ℕ × ℕ) (ids : List EntityId) (now : ℕ) (post : Post)
      → (let sp =
            score_single exponential libs now
              (compute_affinities exponential libs counts ids)
              post in
          (sp.breakdown.recency_score ≤ 40000)
          × (sp.breakdown.engagement_score ≤ 30000)
          × (sp.breakdown.affinity_score ≤ 20000)
          × (sp.breakdown.content_score ≤ 10000)
          × (sp.score
              ≡ sp.breakdown.recency_score + sp.breakdown.engagement_score
                + sp.breakdown.affinity_score + sp.breakdown.content_score))
  unfolding score_single engagement_score affinity_score content_score
  score_single_le counts ids now post = (
    recency_le now post,
    omega arith,
    ground (arith, affinity_of_le counts ids (libs.print_uuid post.author_id)),
    omega arith,
    refl,
  )
