-- ===== src/Post/Counters/Likes.antt =====
-- Likes: the counter of the post follows the table of likes.
use mathlib.Core.Path.{subst}
use facebook_clone.Prelude.{
  ◌≢◌, Bool-cases, ◌∙◌, ◌≡◌, ◌+◌, true, none, some, List, arith, All, ◌==◌, ==_refl, ==_symm,
  eq_of_==, inl, inr, Option-cases, indicator,
}
use facebook_clone.Shared.EntityId.{Libraries, EntityId}
use facebook_clone.Shared.Table.{count, exists, find, delete_where, insert}
use facebook_clone.Shared.Table.Counting.{
  find-some, find-none, count-insert, count-delete_where, count_of_found, exists_of_find,
  not_exists_of_find, All-find, All-mono, All-insert, All-delete_where,
}
use facebook_clone.Shared.Table.Keys.{Unique-insert, Unique-delete_where}
use facebook_clone.Post.Entities.{Datetime, Post, Like, increment_like_count, decrement_like_count}
use facebook_clone.Post.Tables.{PostTables, has_user, has_post}
use facebook_clone.Post.PostRepository
use facebook_clone.Post.LikeRepository
use facebook_clone.Post.Invariant.{IsConsistent, IsCounted, Counts, same_like, like_pair}
use facebook_clone.Post.Invariant.Queries.{count_likes-le}
use facebook_clone.Post.Invariant.Rows.{with_post, Unique-update_post, exists-update_post}
use facebook_clone.Post.Invariant.Recount.{recount}
use facebook_clone.Post.Likes.{like, unlike}
use facebook_clone.Post.Outcomes.Likes.{new_like, like_written, taken_back, unlike_outcome}
use facebook_clone.Post.Counters.{Kept}

-- What a post that was found holds
pub tallied_of_found :
    (d : PostTables) (i : EntityId) (post : Post)
    → IsConsistent d
    → find (PostRepository.has_id i) d.posts ≡ some post
    → (post.id ≡ i) × Counts d i post.like_count post.comment_count
tallied_of_found d i post h found =
    let e : post.id ≡ i =
      eq_of_== post.id i ((find-some (PostRepository.has_id i) d.posts found).0) in
    (
      e,
      subst (λ j. Counts d j post.like_count post.comment_count) e
          (All-find (IsCounted d) (PostRepository.has_id i) d.posts h.counted found),
    )

-- References stay good when a post is written.
pub references_kept :
    {R : Type 0} (i : EntityId) (post : Post) (posts : List Post) (of : R → EntityId)
    (rows : List R)
    → All (λ r. exists (PostRepository.has_id (of r)) posts ≡ true) rows
    → All (λ r. exists (PostRepository.has_id (of r)) (with_post i post posts) ≡ true) rows
references_kept i post posts of rows =
    All-mono _ _ rows (λ r e. exists-update_post i (of r) post posts ∙ e)

module _ {d : PostTables} (h : IsConsistent d) (now : Datetime) (new_id i u : EntityId)
    (post : Post) (found : find (PostRepository.has_id i) d.posts ≡ some post) where
  liked : PostTables
  liked = record d {
    likes = insert (new_like now new_id i u) d.likes;
    posts = with_post i (increment_like_count post) d.posts;
  }

  liked-IsConsistent :
      find (LikeRepository.has_id new_id) d.likes ≡ none
      → find (LikeRepository.is_by i u) d.likes ≡ none
      → IsConsistent liked
  unfolding liked
  liked-IsConsistent fresh unliked = record {
    post_ids = Unique-update_post i (increment_like_count post) d.posts h.post_ids;
    like_ids =
        Unique-insert same_like (new_like now new_id i u) d.likes (λ x y. ==_symm y.id x.id)
          (find-none (LikeRepository.has_id new_id) d.likes fresh) h.like_ids;
    like_pairs =
        Unique-insert like_pair (new_like now new_id i u) d.likes (λ x y. ground arith)
          (find-none (LikeRepository.is_by i u) d.likes unliked) h.like_pairs;
    reaction_ids = h.reaction_ids;
    reaction_pairs = h.reaction_pairs;
    comment_ids = h.comment_ids;
    share_ids = h.share_ids;
    like_posts =
        references_kept i (increment_like_count post) d.posts (λ l. l.post_id) _
          (All-insert _ (new_like now new_id i u) d.likes
            (exists_of_find (PostRepository.has_id i) d.posts found) h.like_posts);
    reaction_posts =
        references_kept i (increment_like_count post) d.posts (λ r. r.post_id) d.reactions
          h.reaction_posts;
    comment_posts =
        references_kept i (increment_like_count post) d.posts (λ c. c.post_id) d.comments
          h.comment_posts;
    counted =
        recount d liked i (increment_like_count post) d.posts
          (ground (
            arith,
            tallied_of_found d i post h found,
            count-insert (LikeRepository.is_of i) (new_like now new_id i u) d.likes,
            ==_refl i,
          ))
          (λ j e. ground (
            arith,
            count-insert (LikeRepository.is_of j) (new_like now new_id i u) d.likes,
            ==_symm i j,
          ))
          h.counted;
  }

-- A like that returns keeps the tables consistent.
pub like-Kept :
    (libs : Libraries) (now : Datetime) (new_id post_id user_id : EntityId) (d : PostTables)
    → IsConsistent d
    → find (LikeRepository.has_id new_id) d.likes ≡ none
    → Kept (like libs now new_id post_id user_id d)
like-Kept libs now new_id post_id user_id d h fresh =
    rw (like_written libs now new_id post_id user_id d h fresh)
      (elim (Option-cases (find (PostRepository.has_id post_id) d.posts)) [
        | inl missing ↦ rw missing tt
        | inr (post, found) ↦
            rw found (elim (Option-cases (find (LikeRepository.is_by post_id user_id) d.likes)) [
              | inl unliked ↦ rw unliked (elim (Bool-cases libs.init_takes_id) [
                | inl made ↦ rw made (elim (Bool-cases (has_user d user_id)) [
                  | inl known ↦ rw known (
                      unfold liked in
                      liked-IsConsistent h now new_id post_id user_id post found fresh unliked)
                  | inr unknown ↦ rw unknown tt
                ])
                | inr refused ↦ rw refused tt
              ])
              | inr (l, e) ↦ rw e tt
            ])
      ])

module _ {d : PostTables} (h : IsConsistent d) (i u : EntityId) (l : Like)
    (liked_by : find (LikeRepository.is_by i u) d.likes ≡ some l) where
  -- What is liked is there.
  liked_post : find (PostRepository.has_id i) d.posts ≢ none
  liked_post missing = ground (
    arith,
    find-some (LikeRepository.is_by i u) d.likes liked_by,
    subst (λ j. has_post d j ≡ true)
        (eq_of_== l.post_id i
          (ground (arith, find-some (LikeRepository.is_by i u) d.likes liked_by)))
        (All-find (λ x. has_post d x.post_id ≡ true) (LikeRepository.is_by i u) d.likes h.like_posts
          liked_by),
    not_exists_of_find (PostRepository.has_id i) d.posts missing,
  )

  unliked : Post → PostTables
  unliked post = record d {
    likes = delete_where (LikeRepository.has_id l.id) d.likes;
    posts = with_post i (decrement_like_count post) d.posts;
  }

  count-unliked :
      (j : EntityId)
      → count (LikeRepository.is_of j) (delete_where (LikeRepository.has_id l.id) d.likes)
          + indicator (i == j)
        ≡ count (LikeRepository.is_of j) d.likes
  count-unliked j = ground (
    arith,
    count-delete_where (LikeRepository.is_of j) (LikeRepository.has_id l.id) d.likes,
    count_of_found (LikeRepository.is_by i u) (LikeRepository.is_of j) (LikeRepository.has_id l.id)
        d.likes liked_by (==_refl l.id) (count_likes-le h l.id 0),
    find-some (LikeRepository.is_by i u) d.likes liked_by,
  )

  unliked-IsConsistent :
      (post : Post)
      → find (PostRepository.has_id i) d.posts ≡ some post
      → IsConsistent (unliked post)
  unfolding unliked
  unliked-IsConsistent post found = record {
    post_ids = Unique-update_post i (decrement_like_count post) d.posts h.post_ids;
    like_ids = Unique-delete_where same_like (LikeRepository.has_id l.id) d.likes h.like_ids;
    like_pairs = Unique-delete_where like_pair (LikeRepository.has_id l.id) d.likes h.like_pairs;
    reaction_ids = h.reaction_ids;
    reaction_pairs = h.reaction_pairs;
    comment_ids = h.comment_ids;
    share_ids = h.share_ids;
    like_posts =
        references_kept i (decrement_like_count post) d.posts (λ l. l.post_id) _
          (All-delete_where _ (LikeRepository.has_id l.id) d.likes h.like_posts);
    reaction_posts =
        references_kept i (decrement_like_count post) d.posts (λ r. r.post_id) d.reactions
          h.reaction_posts;
    comment_posts =
        references_kept i (decrement_like_count post) d.posts (λ c. c.post_id) d.comments
          h.comment_posts;
    counted =
        recount d (unliked post) i (decrement_like_count post) d.posts
          (ground (arith, tallied_of_found d i post h found, count-unliked i, ==_refl i))
          (λ j e. ground (arith, count-unliked j, ==_symm i j)) h.counted;
  }

-- To take a like back keeps the tables consistent.
pub unlike-Kept :
    (post_id user_id : EntityId) (d : PostTables) → IsConsistent d → Kept (unlike post_id user_id d)
unlike-Kept post_id user_id d h =
    rw (unlike_outcome post_id user_id d h)
      (elim (Option-cases (find (LikeRepository.is_by post_id user_id) d.likes)) [
        | inl none_yet ↦ rw none_yet tt
        | inr (l, e) ↦ rw e (elim (Option-cases (find (PostRepository.has_id post_id) d.posts)) [
          | inl missing ↦ absurd (liked_post h post_id user_id l e missing)
          | inr (post, found) ↦
              rw (found, taken_back)
                (unfold unliked in unliked-IsConsistent h post_id user_id l e post found)
        ])
      ])
