-- ===== src/Post/Counters/Posts.antt =====
-- Posts: an edit and a removal leave the counters alone, and a new post starts at zero.
use facebook_clone.Prelude.{
  ◌≡◌, ◌∙◌, sym, refl, true, false, Option, none, some, List, [], ◌∷◌, arith, All, ◌==◌, ==_symm,
  eq_of_==, inl, inr, Bool-cases, Option-cases,
}
use mathlib.Core.Path.{subst}
use mathlib.Core.Bool.{false≢true}
use facebook_clone.Shared.EntityId.{EntityId, Text, Libraries}
use facebook_clone.Shared.Table.{count, exists, find, insert}
use facebook_clone.Shared.Table.Counting.{
  find-none, exists-insert, not_exists_of_find, All-insert, All-mono,
}
use facebook_clone.Shared.Table.Keys.{Unique-insert}
use facebook_clone.Post.Entities.{
  Datetime, Post, Like, Reaction, Comment, update_content, unpublish,
}
use facebook_clone.Post.Tables.{PostTables, has_user, has_post}
use facebook_clone.Post.PostRepository
use facebook_clone.Post.Invariant.{IsConsistent, IsCounted, same_post}
use facebook_clone.Post.Invariant.Rows.{with_post, Unique-update_post}
use facebook_clone.Post.Invariant.Recount.{recount}
use facebook_clone.Post.Posts.{CreatePostInput, publish, edit, remove}
use facebook_clone.Post.Outcomes.Posts.{
  is_bad_content, new_post, publish_outcome, edit_outcome, remove_outcome,
}
use facebook_clone.Post.Counters.{Kept}
use facebook_clone.Post.Counters.Likes.{tallied_of_found, references_kept}

-- A write that leaves key and counters alone
written-IsConsistent :
    (d : PostTables) (i : EntityId) (post found : Post)
    → IsConsistent d
    → find (PostRepository.has_id i) d.posts ≡ some found
    → found.like_count ≡ post.like_count
    → found.comment_count ≡ post.comment_count
    → IsConsistent (record d { posts = with_post i post d.posts })
written-IsConsistent d i post found h e likes comments = record {
  post_ids = Unique-update_post i post d.posts h.post_ids;
  like_ids = h.like_ids;
  like_pairs = h.like_pairs;
  reaction_ids = h.reaction_ids;
  reaction_pairs = h.reaction_pairs;
  comment_ids = h.comment_ids;
  share_ids = h.share_ids;
  like_posts = references_kept i post d.posts (λ l. l.post_id) d.likes h.like_posts;
  reaction_posts = references_kept i post d.posts (λ r. r.post_id) d.reactions h.reaction_posts;
  comment_posts = references_kept i post d.posts (λ c. c.post_id) d.comments h.comment_posts;
  counted =
      recount d (record d { posts = with_post i post d.posts }) i post d.posts
        (ground (arith, tallied_of_found d i found h e))
        (λ j n. record { likes = refl; reactions = refl; comments = refl }) h.counted;
}

-- The calls of an edit leave consistent tables consistent if they return.
pub edit-Kept :
    (post_id user_id : EntityId) (content : Option Text) (d : PostTables)
    → IsConsistent d
    → Kept (edit post_id user_id content d)
edit-Kept post_id user_id none d h =
    rw (edit_outcome post_id user_id none d h)
      (elim (Option-cases (find (PostRepository.has_id post_id) d.posts)) [
        | inl missing ↦ rw missing tt
        | inr (post, found) ↦ rw found (elim (Bool-cases (post.author_id == user_id)) [
          | inl own ↦ rw own (written-IsConsistent d post_id post post h found refl refl)
          | inr other ↦ rw other tt
        ])
      ])
edit-Kept post_id user_id (some text) d h =
    rw (edit_outcome post_id user_id (some text) d h)
      (elim (Option-cases (find (PostRepository.has_id post_id) d.posts)) [
        | inl missing ↦ rw missing tt
        | inr (post, found) ↦ rw found (elim (Bool-cases (post.author_id == user_id)) [
          | inl own ↦ rw own (elim (Bool-cases (is_bad_content text)) [
            | inl bad ↦ rw bad tt
            | inr good ↦
                rw good
                  (written-IsConsistent d post_id (update_content text post) post h found refl refl)
          ])
          | inr other ↦ rw other tt
        ])
      ])

-- The calls of a post's removal leave consistent tables consistent if they return.
pub remove-Kept :
    (post_id user_id : EntityId) (d : PostTables) → IsConsistent d → Kept (remove post_id user_id d)
remove-Kept post_id user_id d h =
    rw (remove_outcome post_id user_id d h)
      (elim (Option-cases (find (PostRepository.has_id post_id) d.posts)) [
        | inl missing ↦ rw missing tt
        | inr (post, found) ↦ rw found (elim (Bool-cases (post.author_id == user_id)) [
          | inl own ↦
              rw own (written-IsConsistent d post_id (unpublish post) post h found refl refl)
          | inr other ↦ rw other tt
        ])
      ])

-- Nothing refers to a post that is not there.
count_of_missing :
    {R : Type 0} (posts : List Post) (i : EntityId) (of : R → EntityId) (rows : List R)
    → exists (PostRepository.has_id i) posts ≡ false
    → All (λ r. exists (PostRepository.has_id (of r)) posts ≡ true) rows
    → count (λ r. of r == i) rows ≡ 0
unfolding count
count_of_missing posts i of [] e a = refl
count_of_missing posts i of (r ∷ rows) e a = elim (Bool-cases (of r == i)) [
  | inl y ↦ absurd (
      false≢true (
        sym e
        ∙ subst (λ j. exists (PostRepository.has_id j) posts ≡ true) (eq_of_== (of r) i y) a.0))
  | inr n ↦ rw n (omega (arith, count_of_missing posts i of rows e a.1))
]

-- The table of posts with a new row
module _ {d : PostTables} (h : IsConsistent d) (row : Post)
    (fresh : find (PostRepository.has_id row.id) d.posts ≡ none) (unliked : row.like_count ≡ 0)
    (silent : row.comment_count ≡ 0) where
  published : PostTables
  published = record d { posts = insert row d.posts }

  still_there :
      {R : Type 0} (of : R → EntityId) (rows : List R)
      → All (λ r. has_post d (of r) ≡ true) rows
      → All (λ r. has_post published (of r) ≡ true) rows
  unfolding published
  still_there of rows =
      All-mono _ _ rows (λ r e. exists-insert (PostRepository.has_id (of r)) row d.posts e)

  published-IsConsistent : IsConsistent published
  unfolding published
  published-IsConsistent = record {
    post_ids =
        Unique-insert same_post row d.posts (λ x y. ==_symm y.id x.id)
          (find-none (PostRepository.has_id row.id) d.posts fresh) h.post_ids;
    like_ids = h.like_ids;
    like_pairs = h.like_pairs;
    reaction_ids = h.reaction_ids;
    reaction_pairs = h.reaction_pairs;
    comment_ids = h.comment_ids;
    share_ids = h.share_ids;
    like_posts = still_there (λ l. l.post_id) d.likes h.like_posts;
    reaction_posts = still_there (λ r. r.post_id) d.reactions h.reaction_posts;
    comment_posts = still_there (λ c. c.post_id) d.comments h.comment_posts;
    counted =
        All-insert _ row d.posts
          (let gone = not_exists_of_find (PostRepository.has_id row.id) d.posts fresh in
            ground (
              arith,
              count_of_missing d.posts row.id (λ (l : Like). l.post_id) d.likes gone h.like_posts,
              count_of_missing d.posts row.id (λ (r : Reaction). r.post_id) d.reactions gone
                  h.reaction_posts,
              count_of_missing d.posts row.id (λ (c : Comment). c.post_id) d.comments gone
                  h.comment_posts,
            ))
          (All-mono (IsCounted d) _ d.posts
            (λ x c. record { of_likes = c.of_likes; of_comments = c.of_comments }) h.counted);
  }

-- The calls of a post's creation, with a new identifier, leave consistent tables consistent if they
-- return.
pub publish-Kept :
    (libs : Libraries) (now : Datetime) (new_id : EntityId) (input : CreatePostInput)
    (d : PostTables)
    → IsConsistent d
    → find (PostRepository.has_id new_id) d.posts ≡ none
    → Kept (publish libs now new_id input d)
publish-Kept libs now new_id input d h fresh =
    rw (publish_outcome libs now new_id input d fresh)
      (elim (Bool-cases (is_bad_content input.content)) [
        | inl bad ↦ rw bad tt
        | inr good ↦ rw good (elim (Option-cases (libs.parse_uuid input.author_id)) [
          | inl malformed ↦ rw malformed tt
          | inr (a, parsed) ↦
              rw parsed
                (elim (Bool-cases (PostRepository.is_too_long (new_post now new_id a input))) [
                  | inl long ↦ rw long tt
                  | inr short ↦ rw short (elim (Bool-cases (has_user d a)) [
                    | inl known ↦ rw known (
                        unfold published in
                        published-IsConsistent h (new_post now new_id a input) fresh refl refl)
                    | inr unknown ↦ rw unknown tt
                  ])
                ])
        ])
      ])
