-- ===== src/Post/Counters/Reactions/First.antt =====
-- A first reaction to a post counts.
use facebook_clone.Prelude.{◌≡◌, none, some, arith, ==_refl, ==_symm}
use facebook_clone.Shared.EntityId.{EntityId}
use facebook_clone.Shared.Table.{find, insert}
use facebook_clone.Shared.Table.Counting.{find-none, count-insert, exists_of_find, All-insert}
use facebook_clone.Shared.Table.Keys.{Unique-insert}
use facebook_clone.Post.Entities.{Datetime, Post, ReactionType, increment_like_count}
use facebook_clone.Post.Tables.{PostTables}
use facebook_clone.Post.PostRepository
use facebook_clone.Post.ReactionRepository
use facebook_clone.Post.Invariant.{IsConsistent, same_reaction, reaction_pair}
use facebook_clone.Post.Invariant.Rows.{with_post, Unique-update_post}
use facebook_clone.Post.Invariant.Recount.{recount}
use facebook_clone.Post.Outcomes.Reactions.{new_reaction}
use facebook_clone.Post.Counters.Likes.{tallied_of_found, references_kept}

module _ {d : PostTables} (h : IsConsistent d) (now : Datetime) (new_id i u : EntityId)
    (type : ReactionType) (post : Post) (found : find (PostRepository.has_id i) d.posts ≡ some post)
    (fresh : find (ReactionRepository.has_id new_id) d.reactions ≡ none) where
  -- The tables after a first reaction
  unfoldable pub reacted : PostTables
  reacted = record d {
    reactions = insert (new_reaction now new_id i u type) d.reactions;
    posts = with_post i (increment_like_count post) d.posts;
  }

  pub reacted-IsConsistent :
      find (ReactionRepository.is_by i u) d.reactions ≡ none → IsConsistent reacted
  unfolding reacted
  reacted-IsConsistent first = record {
    post_ids = Unique-update_post i (increment_like_count post) d.posts h.post_ids;
    like_ids = h.like_ids;
    like_pairs = h.like_pairs;
    reaction_ids =
        Unique-insert same_reaction (new_reaction now new_id i u type) d.reactions
          (λ x y. ==_symm y.id x.id)
          (find-none (ReactionRepository.has_id new_id) d.reactions fresh) h.reaction_ids;
    reaction_pairs =
        Unique-insert reaction_pair (new_reaction now new_id i u type) d.reactions
          (λ x y. ground arith) (find-none (ReactionRepository.is_by i u) d.reactions first)
          h.reaction_pairs;
    comment_ids = h.comment_ids;
    share_ids = h.share_ids;
    like_posts =
        references_kept i (increment_like_count post) d.posts (λ l. l.post_id) d.likes h.like_posts;
    reaction_posts =
        references_kept i (increment_like_count post) d.posts (λ r. r.post_id) _
          (All-insert _ (new_reaction now new_id i u type) d.reactions
            (exists_of_find (PostRepository.has_id i) d.posts found) h.reaction_posts);
    comment_posts =
        references_kept i (increment_like_count post) d.posts (λ c. c.post_id) d.comments
          h.comment_posts;
    counted =
        recount d reacted i (increment_like_count post) d.posts
          (ground (
            arith,
            tallied_of_found d i post h found,
            count-insert (ReactionRepository.is_of i) (new_reaction now new_id i u type)
                d.reactions,
            ==_refl i,
          ))
          (λ j e. ground (
            arith,
            count-insert (ReactionRepository.is_of j) (new_reaction now new_id i u type)
                d.reactions,
            ==_symm i j,
          ))
          h.counted;
  }
