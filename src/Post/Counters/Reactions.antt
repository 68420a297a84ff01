-- ===== src/Post/Counters/Reactions.antt =====
-- Reactions: a first reaction counts, one that takes another's place does not.
mod First
use facebook_clone.Prelude.{
  ◌≡◌, ◌≢◌, ◌+◌, true, none, some, arith, ◌==◌, ==_refl, ==_symm, eq_of_==, inl, inr, Bool-cases,
  Option-cases, indicator,
}
use mathlib.Core.Path.{subst}
use facebook_clone.Shared.EntityId.{EntityId}
use facebook_clone.Shared.Table.{count, find, delete_where, insert}
use facebook_clone.Shared.Table.Counting.{
  find-some, find-none, count-insert, count-delete_where, count_of_found, exists_of_find,
  not_exists_of_find, All-find, All-insert, All-delete_where, find-delete_found, find-delete_where,
}
use facebook_clone.Shared.Table.Keys.{Unique-insert, Unique-delete_where}
use facebook_clone.Post.Entities.{
  Datetime, Post, Reaction, ReactionType, same_type, increment_like_count, decrement_like_count,
}
use facebook_clone.Post.Tables.{PostTables, has_user, has_post}
use facebook_clone.Post.PostRepository
use facebook_clone.Post.ReactionRepository
use facebook_clone.Post.Invariant.{IsConsistent, same_reaction, reaction_pair}
use facebook_clone.Post.Invariant.Queries.{count_reactions-le, count_reaction_pairs-le}
use facebook_clone.Post.Invariant.Rows.{with_post, Unique-update_post}
use facebook_clone.Post.Invariant.Recount.{recount, recount_same}
use facebook_clone.Post.Reactions.{react, unreact}
use facebook_clone.Post.Outcomes.Likes.{taken_back}
use facebook_clone.Post.Outcomes.Reactions.{new_reaction, react_outcome, unreact_outcome}
use facebook_clone.Post.Counters.{Kept}
use facebook_clone.Post.Counters.Likes.{tallied_of_found, references_kept}
use facebook_clone.Post.Counters.Reactions.First.{reacted, reacted-IsConsistent}

module _ {d : PostTables} (h : IsConsistent d) (i u : EntityId) (r : Reaction)
    (by : find (ReactionRepository.is_by i u) d.reactions ≡ some r) where
  -- What has a reaction is there.
  reacted_post : find (PostRepository.has_id i) d.posts ≢ none
  reacted_post missing = ground (
    arith,
    subst (λ j. has_post d j ≡ true)
        (eq_of_== r.post_id i
          (ground (arith, find-some (ReactionRepository.is_by i u) d.reactions by)))
        (All-find (λ x. has_post d x.post_id ≡ true) (ReactionRepository.is_by i u) d.reactions
          h.reaction_posts by),
    not_exists_of_find (PostRepository.has_id i) d.posts missing,
  )

  count-unreacted :
      (j : EntityId)
      → count
            (ReactionRepository.is_of j)
            (delete_where (ReactionRepository.has_id r.id) d.reactions)
          + indicator (i == j)
        ≡ count (ReactionRepository.is_of j) d.reactions
  count-unreacted j = ground (
    arith,
    count-delete_where (ReactionRepository.is_of j) (ReactionRepository.has_id r.id) d.reactions,
    count_of_found (ReactionRepository.is_by i u) (ReactionRepository.is_of j)
        (ReactionRepository.has_id r.id) d.reactions by (==_refl r.id)
        (count_reactions-le h r.id 0),
    find-some (ReactionRepository.is_by i u) d.reactions by,
  )

  unreacted : Post → PostTables
  unreacted post = record d {
    reactions = delete_where (ReactionRepository.has_id r.id) d.reactions;
    posts = with_post i (decrement_like_count post) d.posts;
  }

  unreacted-IsConsistent :
      (post : Post)
      → find (PostRepository.has_id i) d.posts ≡ some post
      → IsConsistent (unreacted post)
  unfolding unreacted
  unreacted-IsConsistent post found = record {
    post_ids = Unique-update_post i (decrement_like_count post) d.posts h.post_ids;
    like_ids = h.like_ids;
    like_pairs = h.like_pairs;
    reaction_ids =
        Unique-delete_where same_reaction (ReactionRepository.has_id r.id) d.reactions
          h.reaction_ids;
    reaction_pairs =
        Unique-delete_where reaction_pair (ReactionRepository.has_id r.id) d.reactions
          h.reaction_pairs;
    comment_ids = h.comment_ids;
    share_ids = h.share_ids;
    like_posts =
        references_kept i (decrement_like_count post) d.posts (λ l. l.post_id) d.likes h.like_posts;
    reaction_posts =
        references_kept i (decrement_like_count post) d.posts (λ r. r.post_id) _
          (All-delete_where _ (ReactionRepository.has_id r.id) d.reactions h.reaction_posts);
    comment_posts =
        references_kept i (decrement_like_count post) d.posts (λ c. c.post_id) d.comments
          h.comment_posts;
    counted =
        recount d (unreacted post) i (decrement_like_count post) d.posts
          (ground (arith, tallied_of_found d i post h found, count-unreacted i, ==_refl i))
          (λ j e. ground (arith, count-unreacted j, ==_symm i j)) h.counted;
  }

  -- The old reaction makes way for the new one.
  replaced : Datetime → EntityId → ReactionType → PostTables
  replaced now new_id type = record d {
    reactions =
        insert (new_reaction now new_id i u type)
          (delete_where (ReactionRepository.has_id r.id) d.reactions);
  }

  replaced-IsConsistent :
      (now : Datetime) (new_id : EntityId) (type : ReactionType)
      → find (ReactionRepository.has_id new_id) d.reactions ≡ none
      → has_post d i ≡ true
      → IsConsistent (replaced now new_id type)
  unfolding replaced
  replaced-IsConsistent now new_id type fresh known =
      let rest = delete_where (ReactionRepository.has_id r.id) d.reactions in
      record {
        post_ids = h.post_ids;
        like_ids = h.like_ids;
        like_pairs = h.like_pairs;
        reaction_ids =
            Unique-insert same_reaction (new_reaction now new_id i u type) rest
              (λ x y. ==_symm y.id x.id)
              (find-none (ReactionRepository.has_id new_id) rest (
                find-delete_where (ReactionRepository.has_id new_id)
                  (ReactionRepository.has_id r.id) d.reactions fresh))
              (Unique-delete_where same_reaction (ReactionRepository.has_id r.id) d.reactions
                h.reaction_ids);
        reaction_pairs =
            Unique-insert reaction_pair (new_reaction now new_id i u type) rest
              (λ x y. ground arith)
              (find-none (ReactionRepository.is_by i u) rest (
                find-delete_found (ReactionRepository.is_by i u) (ReactionRepository.has_id r.id)
                  d.reactions by (count_reaction_pairs-le h i u) (==_refl r.id)))
              (Unique-delete_where reaction_pair (ReactionRepository.has_id r.id) d.reactions
                h.reaction_pairs);
        comment_ids = h.comment_ids;
        share_ids = h.share_ids;
        like_posts = h.like_posts;
        reaction_posts =
            All-insert _ (new_reaction now new_id i u type) rest known
              (All-delete_where _ (ReactionRepository.has_id r.id) d.reactions h.reaction_posts);
        comment_posts = h.comment_posts;
        counted =
            recount_same d (replaced now new_id type) d.posts
              (λ j. ground (
                arith,
                count-unreacted j,
                count-insert (ReactionRepository.is_of j) (new_reaction now new_id i u type) rest,
              ))
              h.counted;
      }

-- A reaction that returns keeps the tables consistent.
pub react-Kept :
    (now : Datetime) (new_id post_id user_id : EntityId) (type : ReactionType) (d : PostTables)
    → IsConsistent d
    → find (ReactionRepository.has_id new_id) d.reactions ≡ none
    → Kept (react now new_id post_id user_id type d)
react-Kept now new_id post_id user_id type d h fresh =
    rw (react_outcome now new_id post_id user_id type d h fresh)
      (elim (Option-cases (find (PostRepository.has_id post_id) d.posts)) [
        | inl missing ↦ rw missing tt
        | inr (post, found) ↦
            rw found
              (elim (Option-cases (find (ReactionRepository.is_by post_id user_id) d.reactions)) [
                | inl first ↦ rw first (elim (Bool-cases (has_user d user_id)) [
                  | inl known ↦ rw known (
                      unfold reacted in
                      reacted-IsConsistent h now new_id post_id user_id type post found fresh first)
                  | inr unknown ↦ rw unknown tt
                ])
                | inr (r, e) ↦ rw e (elim (Bool-cases (same_type r.reaction_type type)) [
                  | inl same ↦ rw same tt
                  | inr other ↦ rw other (elim (Bool-cases (has_user d user_id)) [
                    | inl known ↦ rw known (
                        unfold replaced in
                        replaced-IsConsistent h post_id user_id r e now new_id type fresh
                          (exists_of_find (PostRepository.has_id post_id) d.posts found))
                    | inr unknown ↦ rw unknown tt
                  ])
                ])
              ])
      ])

-- To remove a reaction keeps the tables consistent.
pub unreact-Kept :
    (post_id user_id : EntityId) (d : PostTables)
    → IsConsistent d
    → Kept (unreact post_id user_id d)
unreact-Kept post_id user_id d h =
    rw (unreact_outcome post_id user_id d h)
      (elim (Option-cases (find (ReactionRepository.is_by post_id user_id) d.reactions)) [
        | inl none_yet ↦ rw none_yet tt
        | inr (r, e) ↦ rw e (elim (Option-cases (find (PostRepository.has_id post_id) d.posts)) [
          | inl missing ↦ absurd (reacted_post h post_id user_id r e missing)
          | inr (post, found) ↦
              rw (found, taken_back)
                (unfold unreacted in unreacted-IsConsistent h post_id user_id r e post found)
        ])
      ])
