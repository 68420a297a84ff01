-- ===== src/Post/Counters/Comments.antt =====
-- Comments: the counter of the post follows the table of comments.
use facebook_clone.Prelude.{
  ◌≡◌, ◌≢◌, ◌+◌, ◌||◌, ltb, length, sym, true, none, some, arith, ◌==◌, ==_refl, ==_symm, eq_of_==,
  inl, inr, Bool-cases, Option-cases, indicator,
}
use facebook_clone.Shared.EntityId.{Libraries, EntityId, Text}
use facebook_clone.Shared.Text.{is_blank}
use facebook_clone.Shared.Table.{count, find, delete_where, insert}
use facebook_clone.Shared.Table.Counting.{
  find-some, find-none, count-insert, count-delete_where, count_of_found, exists_of_find,
  not_exists_of_find, All-find, All-insert, All-delete_where,
}
use facebook_clone.Shared.Table.Keys.{Unique-insert, Unique-delete_where}
use facebook_clone.Post.Entities.{
  Datetime, Post, Comment, increment_comment_count, decrement_comment_count,
}
use facebook_clone.Post.Tables.{PostTables, has_user, has_post}
use facebook_clone.Post.PostRepository
use facebook_clone.Post.CommentRepository
use facebook_clone.Post.Invariant.{IsConsistent, same_comment}
use facebook_clone.Post.Invariant.Queries.{count_comments-le}
use facebook_clone.Post.Invariant.Rows.{with_post, Unique-update_post}
use facebook_clone.Post.Invariant.Recount.{recount}
use facebook_clone.Post.Comments.{comment, uncomment}
use facebook_clone.Post.Outcomes.Comments.{
  new_comment, comment_outcome, taken_back, uncomment_outcome,
}
use facebook_clone.Post.Counters.{Kept}
use facebook_clone.Post.Counters.Likes.{tallied_of_found, references_kept}

module _ {d : PostTables} (h : IsConsistent d) (now : Datetime) (new_id i u : EntityId)
    (content : Text) (post : Post)
    (found : find (PostRepository.has_id i) d.posts ≡ some post) where
  commented : PostTables
  commented = record d {
    comments = insert (new_comment now new_id i u content) d.comments;
    posts = with_post i (increment_comment_count post) d.posts;
  }

  commented-IsConsistent :
      find (CommentRepository.has_id new_id) d.comments ≡ none → IsConsistent commented
  unfolding commented
  commented-IsConsistent fresh = record {
    post_ids = Unique-update_post i (increment_comment_count post) d.posts h.post_ids;
    like_ids = h.like_ids;
    like_pairs = h.like_pairs;
    reaction_ids = h.reaction_ids;
    reaction_pairs = h.reaction_pairs;
    share_ids = h.share_ids;
    comment_ids =
        Unique-insert same_comment (new_comment now new_id i u content) d.comments
          (λ x y. ==_symm y.id x.id) (find-none (CommentRepository.has_id new_id) d.comments fresh)
          h.comment_ids;
    like_posts =
        references_kept i (increment_comment_count post) d.posts (λ l. l.post_id) d.likes
          h.like_posts;
    reaction_posts =
        references_kept i (increment_comment_count post) d.posts (λ r. r.post_id) d.reactions
          h.reaction_posts;
    comment_posts =
        references_kept i (increment_comment_count post) d.posts (λ c. c.post_id) _
          (All-insert _ (new_comment now new_id i u content) d.comments
            (exists_of_find (PostRepository.has_id i) d.posts found) h.comment_posts);
    counted =
        recount d commented i (increment_comment_count post) d.posts
          (ground (
            arith,
            tallied_of_found d i post h found,
            count-insert (CommentRepository.is_of i) (new_comment now new_id i u content)
                d.comments,
            ==_refl i,
          ))
          (λ j e. ground (
            arith,
            count-insert (CommentRepository.is_of j) (new_comment now new_id i u content)
                d.comments,
            ==_symm i j,
          ))
          h.counted;
  }

-- A comment that is stored keeps the tables consistent.
pub comment-Kept :
    (libs : Libraries) (now : Datetime) (new_id post_id author_id : EntityId) (content : Text)
    (d : PostTables)
    → IsConsistent d
    → find (CommentRepository.has_id new_id) d.comments ≡ none
    → Kept (comment libs now new_id post_id author_id content d)
comment-Kept libs now new_id post_id author_id content d h fresh =
    rw (comment_outcome libs now new_id post_id author_id content d h fresh)
      (elim (Option-cases (find (PostRepository.has_id post_id) d.posts)) [
        | inl missing ↦ rw missing tt
        | inr (post, found) ↦
            rw found (elim (Bool-cases (is_blank content || ltb 2000 (length content))) [
              | inl bad ↦ rw bad tt
              | inr good ↦ rw good (elim (Bool-cases libs.init_takes_id) [
                | inl made ↦ rw made (elim (Bool-cases (has_user d author_id)) [
                  | inl known ↦ rw known (
                      unfold commented in
                      commented-IsConsistent h now new_id post_id author_id content post found
                        fresh)
                  | inr unknown ↦ rw unknown tt
                ])
                | inr refused ↦ rw refused tt
              ])
            ])
      ])

module _ {d : PostTables} (h : IsConsistent d) (c : Comment)
    (by : find (CommentRepository.has_id c.id) d.comments ≡ some c) where
  -- What is commented on is there.
  commented_post : find (PostRepository.has_id c.post_id) d.posts ≢ none
  commented_post missing = ground (
    arith,
    All-find (λ x. has_post d x.post_id ≡ true) (CommentRepository.has_id c.id) d.comments
        h.comment_posts by,
    not_exists_of_find (PostRepository.has_id c.post_id) d.posts missing,
  )

  count-uncommented :
      (j : EntityId)
      → count (CommentRepository.is_of j) (delete_where (CommentRepository.has_id c.id) d.comments)
          + indicator (c.post_id == j)
        ≡ count (CommentRepository.is_of j) d.comments
  count-uncommented j = ground (
    arith,
    count-delete_where (CommentRepository.is_of j) (CommentRepository.has_id c.id) d.comments,
    count_of_found (CommentRepository.has_id c.id) (CommentRepository.is_of j)
        (CommentRepository.has_id c.id) d.comments by (==_refl c.id) (count_comments-le h c.id 0),
  )

  uncommented : Post → PostTables
  uncommented post = record d {
    comments = delete_where (CommentRepository.has_id c.id) d.comments;
    posts = with_post c.post_id (decrement_comment_count post) d.posts;
  }

  uncommented-IsConsistent :
      (post : Post)
      → find (PostRepository.has_id c.post_id) d.posts ≡ some post
      → IsConsistent (uncommented post)
  unfolding uncommented
  uncommented-IsConsistent post found = record {
    post_ids = Unique-update_post c.post_id (decrement_comment_count post) d.posts h.post_ids;
    like_ids = h.like_ids;
    like_pairs = h.like_pairs;
    reaction_ids = h.reaction_ids;
    reaction_pairs = h.reaction_pairs;
    share_ids = h.share_ids;
    comment_ids =
        Unique-delete_where same_comment (CommentRepository.has_id c.id) d.comments h.comment_ids;
    like_posts =
        references_kept c.post_id (decrement_comment_count post) d.posts (λ l. l.post_id) d.likes
          h.like_posts;
    reaction_posts =
        references_kept c.post_id (decrement_comment_count post) d.posts (λ r. r.post_id)
          d.reactions h.reaction_posts;
    comment_posts =
        references_kept c.post_id (decrement_comment_count post) d.posts (λ r. r.post_id) _
          (All-delete_where _ (CommentRepository.has_id c.id) d.comments h.comment_posts);
    counted =
        recount d (uncommented post) c.post_id (decrement_comment_count post) d.posts
          (ground (
            arith,
            tallied_of_found d c.post_id post h found,
            count-uncommented c.post_id,
            ==_refl c.post_id,
          ))
          (λ j e. ground (arith, count-uncommented j, ==_symm c.post_id j)) h.counted;
  }

uncomment_found-Kept :
    (comment_id user_id : EntityId) (d : PostTables) (c : Comment)
    → IsConsistent d
    → comment_id ≡ c.id
    → find (CommentRepository.has_id comment_id) d.comments ≡ some c
    → Kept (uncomment comment_id user_id d)
uncomment_found-Kept comment_id user_id d c h same e =
    rw (uncomment_outcome comment_id user_id d h, e)
      (elim (Bool-cases (c.author_id == user_id)) [
        | inl own ↦
            rw (own, same)
              (elim (Option-cases (find (PostRepository.has_id c.post_id) d.posts)) [
                | inl missing ↦ absurd (commented_post h c (rw same at e) missing)
                | inr (post, found) ↦
                    rw (found, taken_back)
                      (unfold uncommented in uncommented-IsConsistent h c (rw same at e) post found)
              ])
        | inr other ↦ rw other tt
      ])

-- The deletion of a comment keeps the tables consistent.
pub uncomment-Kept :
    (comment_id user_id : EntityId) (d : PostTables)
    → IsConsistent d
    → Kept (uncomment comment_id user_id d)
uncomment-Kept comment_id user_id d h =
    elim (Option-cases (find (CommentRepository.has_id comment_id) d.comments)) [
      | inl none_yet ↦ rw (uncomment_outcome comment_id user_id d h, none_yet) tt
      | inr (c, e) ↦
          uncomment_found-Kept comment_id user_id d c h
            (sym (
              eq_of_== c.id comment_id
                ((find-some (CommentRepository.has_id comment_id) d.comments e).0)))
            e
    ]
