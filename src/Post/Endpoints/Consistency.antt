-- ===== src/Post/Endpoints/Consistency.antt =====
-- Whatever is asked of the endpoints, keys, references and counters stay right.
use facebook_clone.Prelude.{inl, inr, Option-cases, ◌≡◌, sym, none}
use mathlib.Core.Path.{subst}
use facebook_clone.Shared.Errors.{Result-cases, Result, ok, err}
use facebook_clone.Shared.Effects.{Effect}
use facebook_clone.Shared.EntityId.{EntityId, Libraries}
use facebook_clone.Shared.Table.{find}
use facebook_clone.UnitOfWork.{endpoint, committing, rolling_back, async_with}
use facebook_clone.UnitOfWork.Transactions.{
  all_or_nothing, endpoint-committing, endpoint-rolling_back,
}
use facebook_clone.Post.Entities.{Datetime, reaction_type}
use facebook_clone.Post.Tables.{PostTables}
use facebook_clone.Post.LikeRepository
use facebook_clone.Post.ReactionRepository
use facebook_clone.Post.CommentRepository
use facebook_clone.Post.ShareRepository
use facebook_clone.Post.Invariant.{IsConsistent}
use facebook_clone.Post.Posts.{
  publish, create_post_use_case, update_post_use_case, delete_post_use_case,
}
use facebook_clone.Post.Posts
use facebook_clone.Post.Likes
use facebook_clone.Post.Likes.{LikePostInput}
use facebook_clone.Post.Reactions
use facebook_clone.Post.Reactions.{ReactToPostInput, RemoveReactionInput}
use facebook_clone.Post.Comments
use facebook_clone.Post.Comments.{CreateCommentInput, DeleteCommentInput}
use facebook_clone.Post.Shares
use facebook_clone.Post.Shares.{SharePostInput, DeleteShareInput}
use facebook_clone.Post.Counters.{Kept}
use facebook_clone.Post.Counters.Likes.{like-Kept, unlike-Kept}
use facebook_clone.Post.Counters.Reactions.{react-Kept, unreact-Kept}
use facebook_clone.Post.Counters.Comments.{comment-Kept, uncomment-Kept}
use facebook_clone.Post.Counters.Shares.{share-Kept, unshare-Kept}
use facebook_clone.Post.Endpoints.{
  Request, create_post, update_post, delete_post, like_post, unlike_post, add_reaction,
  remove_reaction, create_comment, delete_comment, share_post, delete_share, serve, IsNew, Served,
  here, next,
}

module _ {A B : Type 0} where
  -- The output is made of what a call returns.
  Kept-map :
      (f : A → B) (x : Result A × PostTables)
      → Kept x
      → Kept {A = B} (let (r, t) = x in elim r [ ok a ↦ (ok (f a), t) | err e ↦ (err e, t) ])
  Kept-map f (ok a, t) k = k
  Kept-map f (err e, t) k = tt

module _ {A : Type 0} where
  -- A transaction whose calls keep the tables consistent
  endpoint-IsConsistent :
      (rows : Effect PostTables A) (d : PostTables)
      → IsConsistent d
      → Kept (rows d)
      → IsConsistent (endpoint (committing rows) d).1
  endpoint-IsConsistent rows d h k = rw (endpoint-committing rows d) (go (rows d) k)
    where
      go : (x : Result A × PostTables) → Kept x → IsConsistent (all_or_nothing d x).1
      go (ok a, e) k = k
      go (err e, _) k = h

  -- A use case that enters the unit of work once more changes nothing.
  endpoint_again-IsConsistent :
      (rows : Effect PostTables A) (d : PostTables)
      → IsConsistent d
      → IsConsistent (endpoint (async_with (rolling_back (committing rows))) d).1
  endpoint_again-IsConsistent rows d h = rw (endpoint-rolling_back rows d) h

module _ (libs : Libraries) (d : PostTables) (h : IsConsistent d) where
  like_post-Kept :
      (now : Datetime) (new_id : EntityId) (input : LikePostInput)
      → find (LikeRepository.has_id new_id) d.likes ≡ none
      → Kept (Likes.like_post libs now new_id input d)
  unfolding Likes.like_post
  like_post-Kept now new_id input fresh = elim (Option-cases (libs.parse_uuid input.post_id)) [
    | inl malformed ↦ rw malformed tt
    | inr (i, p) ↦ rw p (elim (Option-cases (libs.parse_uuid input.user_id)) [
      | inl malformed ↦ rw malformed tt
      | inr (u, q) ↦
          rw q (Kept-map (Likes.like_output libs) _ (like-Kept libs now new_id i u d h fresh))
    ])
  ]

  unlike_post-Kept : (input : LikePostInput) → Kept (Likes.unlike_post libs input d)
  unfolding Likes.unlike_post
  unlike_post-Kept input = elim (Option-cases (libs.parse_uuid input.post_id)) [
    | inl malformed ↦ rw malformed tt
    | inr (i, p) ↦ rw p (elim (Option-cases (libs.parse_uuid input.user_id)) [
      | inl malformed ↦ rw malformed tt
      | inr (u, q) ↦ rw q (unlike-Kept i u d h)
    ])
  ]

  react_to_post-Kept :
      (now : Datetime) (new_id : EntityId) (input : ReactToPostInput)
      → find (ReactionRepository.has_id new_id) d.reactions ≡ none
      → Kept (Reactions.react_to_post libs now new_id input d)
  unfolding Reactions.react_to_post
  react_to_post-Kept now new_id input fresh = elim (Option-cases (libs.parse_uuid input.post_id)) [
    | inl malformed ↦ rw malformed tt
    | inr (i, p) ↦ rw p (elim (Option-cases (libs.parse_uuid input.user_id)) [
      | inl malformed ↦ rw malformed tt
      | inr (u, q) ↦ rw q (elim (Result-cases (reaction_type input.reaction_type)) [
        | inl (e, q) ↦ rw q tt
        | inr (type, q) ↦
            rw q (
              Kept-map (Reactions.reaction_output libs) _
                (react-Kept now new_id i u type d h fresh))
      ])
    ])
  ]

  remove_reaction-Kept :
      (input : RemoveReactionInput) → Kept (Reactions.remove_reaction libs input d)
  unfolding Reactions.remove_reaction
  remove_reaction-Kept input = elim (Option-cases (libs.parse_uuid input.post_id)) [
    | inl malformed ↦ rw malformed tt
    | inr (i, p) ↦ rw p (elim (Option-cases (libs.parse_uuid input.user_id)) [
      | inl malformed ↦ rw malformed tt
      | inr (u, q) ↦ rw q (unreact-Kept i u d h)
    ])
  ]

  comment_on_post-Kept :
      (now : Datetime) (new_id : EntityId) (input : CreateCommentInput)
      → find (CommentRepository.has_id new_id) d.comments ≡ none
      → Kept (Comments.comment_on_post libs now new_id input d)
  unfolding Comments.comment_on_post
  comment_on_post-Kept now new_id input fresh =
      elim (Option-cases (libs.parse_uuid input.post_id)) [
        | inl malformed ↦ rw malformed tt
        | inr (i, p) ↦ rw p (elim (Option-cases (libs.parse_uuid input.author_id)) [
          | inl malformed ↦ rw malformed tt
          | inr (u, q) ↦ rw q (
              Kept-map (Comments.comment_output libs) _
                (comment-Kept libs now new_id i u input.content d h fresh))
        ])
      ]

  delete_comment-Kept : (input : DeleteCommentInput) → Kept (Comments.delete_comment libs input d)
  unfolding Comments.delete_comment
  delete_comment-Kept input = elim (Option-cases (libs.parse_uuid input.comment_id)) [
    | inl malformed ↦ rw malformed tt
    | inr (i, p) ↦ rw p (elim (Option-cases (libs.parse_uuid input.user_id)) [
      | inl malformed ↦ rw malformed tt
      | inr (u, q) ↦ rw q (uncomment-Kept i u d h)
    ])
  ]

  share_post-Kept :
      (now : Datetime) (new_id : EntityId) (input : SharePostInput)
      → find (ShareRepository.has_id new_id) d.shares ≡ none
      → Kept (Shares.share_post libs now new_id input d)
  unfolding Shares.share_post
  share_post-Kept now new_id input fresh = elim (Option-cases (libs.parse_uuid input.post_id)) [
    | inl malformed ↦ rw malformed tt
    | inr (i, p) ↦ rw p (elim (Option-cases (libs.parse_uuid input.user_id)) [
      | inl malformed ↦ rw malformed tt
      | inr (u, q) ↦ rw q (
          Kept-map (Shares.share_output libs) _ (share-Kept now new_id i u input.content d h fresh))
    ])
  ]

  delete_share-Kept : (input : DeleteShareInput) → Kept (Shares.delete_share libs input d)
  unfolding Shares.delete_share
  delete_share-Kept input = elim (Option-cases (libs.parse_uuid input.share_id)) [
    | inl malformed ↦ rw malformed tt
    | inr (i, p) ↦ rw p (elim (Option-cases (libs.parse_uuid input.user_id)) [
      | inl malformed ↦ rw malformed tt
      | inr (u, q) ↦ rw q (unshare-Kept i u d h)
    ])
  ]

  -- One request keeps the committed tables consistent.
  pub serve-IsConsistent : (r : Request) → IsNew libs r d → IsConsistent (serve libs r d)
  unfolding serve create_post_use_case update_post_use_case delete_post_use_case
      Likes.like_post_use_case Likes.unlike_post_use_case Reactions.react_to_post_use_case
      Reactions.remove_reaction_use_case Comments.create_comment_use_case
      Comments.delete_comment_use_case Shares.share_post_use_case Shares.delete_share_use_case
  serve-IsConsistent (create_post now new_id input) fresh =
      endpoint_again-IsConsistent (publish libs now new_id input) d h
  serve-IsConsistent (update_post input) _ =
      endpoint_again-IsConsistent (Posts.update_post libs input) d h
  serve-IsConsistent (delete_post input) _ =
      endpoint_again-IsConsistent (Posts.delete_post libs input) d h
  serve-IsConsistent (like_post now new_id input) fresh =
      endpoint-IsConsistent _ d h (like_post-Kept now new_id input fresh)
  serve-IsConsistent (unlike_post input) _ = endpoint-IsConsistent _ d h (unlike_post-Kept input)
  serve-IsConsistent (add_reaction now new_id input) fresh =
      endpoint-IsConsistent _ d h (react_to_post-Kept now new_id input fresh)
  serve-IsConsistent (remove_reaction input) _ =
      endpoint-IsConsistent _ d h (remove_reaction-Kept input)
  serve-IsConsistent (create_comment now new_id input) fresh =
      endpoint-IsConsistent _ d h (comment_on_post-Kept now new_id input fresh)
  serve-IsConsistent (delete_comment input) _ =
      endpoint-IsConsistent _ d h (delete_comment-Kept input)
  serve-IsConsistent (share_post now new_id input) fresh =
      endpoint-IsConsistent _ d h (share_post-Kept now new_id input fresh)
  serve-IsConsistent (delete_share input) _ = endpoint-IsConsistent _ d h (delete_share-Kept input)

-- From consistent tables, every sequence of requests with new identifiers leads to consistent
-- tables: keys stay unique, no like, reaction or comment dangles, a user likes a post at most once
-- and has one reaction to it, and every counter is what the tables hold.
pub Served-IsConsistent :
    (libs : Libraries) {d e : PostTables} → IsConsistent d → Served libs d e → IsConsistent e
Served-IsConsistent libs h here = h
Served-IsConsistent libs h (next {e} s r fresh p) =
    subst IsConsistent (sym p) (serve-IsConsistent libs e (Served-IsConsistent libs h s) r fresh)
