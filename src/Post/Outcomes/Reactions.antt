-- ===== src/Post/Outcomes/Reactions.antt =====
-- `ReactToPostUseCase` and `RemoveReactionUseCase` on every branch.
use facebook_clone.Prelude.{
  ◌≡◌, true, none, some, arith, ==_refl, inl, inr, Option-cases, if◌then◌else◌,
}
use facebook_clone.Shared.EntityId.{EntityId}
use facebook_clone.Shared.Table.{find, delete_where, insert}
use facebook_clone.Shared.Table.Counting.{
  find-some, exists_of_find, not_exists-delete_where, find-delete_where, find-delete_found,
}
use facebook_clone.Post.Tables.{PostTables, has_user, has_post}
use facebook_clone.Post.PostRepository
use facebook_clone.Post.Invariant.{IsConsistent}
use facebook_clone.Post.Invariant.Queries.{
  find_post_lem, find_reaction_lem, count_posts-le, count_reaction_pairs-le,
}
use facebook_clone.Post.Invariant.Rows.{with_post, update_lem, exists-update_post}
use facebook_clone.Shared.Errors.{
  Result, ok, err, integrity_error, post_not_found, already_reacted, reaction_not_found,
}
use facebook_clone.Post.Entities.{
  Datetime, Post, Reaction, ReactionType, same_type, create_reaction, increment_like_count,
}
use facebook_clone.Post.ReactionRepository
use facebook_clone.Post.Reactions.{react, unreact}
use facebook_clone.Post.Outcomes.Likes.{taken_back, take_back_lem}

-- The row of a new reaction
abbrev pub new_reaction : Datetime → EntityId → EntityId → EntityId → ReactionType → Reaction
new_reaction now new_id post_id user_id type = record {
  id = new_id;
  post_id = post_id;
  user_id = user_id;
  reaction_type = type;
  created_at = some now;
}

-- A save of a reaction with a new key, on a post that is there and that the user has no reaction to
pub save_reaction_lem :
    (now : Datetime) (new_id post_id user_id : EntityId) (type : ReactionType) (d : PostTables)
    → find (ReactionRepository.has_id new_id) d.reactions ≡ none
    → find (ReactionRepository.is_by post_id user_id) d.reactions ≡ none
    → has_post d post_id ≡ true
    → ReactionRepository.save now (create_reaction new_id post_id user_id type) d ≡ (
        if has_user d user_id
        then (
          ok (new_reaction now new_id post_id user_id type),
          record d {
            reactions = insert (new_reaction now new_id post_id user_id type) d.reactions;
          },
        )
        else (err integrity_error, d))
unfolding ReactionRepository.save create_reaction
save_reaction_lem now new_id post_id user_id type d fresh none_yet known = ground (
  arith,
  not_exists-delete_where (ReactionRepository.is_by post_id user_id)
      (ReactionRepository.has_id new_id) d.reactions,
)

-- The session after the writes of a reaction: of a first one, and of one of another type
abbrev pub first_reaction : EntityId → Post → PostTables → PostTables
first_reaction post_id post d = record d {
  posts = with_post post_id (increment_like_count post) d.posts;
}

abbrev pub without_reaction : Reaction → PostTables → PostTables
without_reaction r d = record d {
  reactions = delete_where (ReactionRepository.has_id r.id) d.reactions;
}

-- Stores a reaction if there is such a user.
abbrev pub store_reaction :
    Datetime
    → EntityId
    → EntityId
    → EntityId
    → ReactionType
    → PostTables
    → Result Reaction × PostTables
store_reaction now new_id post_id user_id type d =
    if has_user d user_id
    then (
      ok (new_reaction now new_id post_id user_id type),
      record d { reactions = insert (new_reaction now new_id post_id user_id type) d.reactions },
    )
    else (err integrity_error, d)

-- On consistent tables a reaction with a new identifier is refused if the post is missing, or if
-- the user has that reaction to it already. A first reaction raises the post's counter; one of
-- another type takes the place of the old one and leaves the counter alone. Either is stored if
-- there is such a user.
pub react_outcome :
    (now : Datetime) (new_id post_id user_id : EntityId) (type : ReactionType) (d : PostTables)
    → IsConsistent d
    → find (ReactionRepository.has_id new_id) d.reactions ≡ none
    → react now new_id post_id user_id type d
      ≡ elim (find (PostRepository.has_id post_id) d.posts) [
        | none ↦ (err post_not_found, d)
        | some post ↦ elim (find (ReactionRepository.is_by post_id user_id) d.reactions) [
          | none ↦ store_reaction now new_id post_id user_id type (first_reaction post_id post d)
          | some old ↦
              if same_type old.reaction_type type
              then (err already_reacted, d)
              else store_reaction now new_id post_id user_id type (without_reaction old d)
        ]
      ]
unfolding react ReactionRepository.delete
react_outcome now new_id post_id user_id type d h fresh =
    elim (Option-cases (find (PostRepository.has_id post_id) d.posts)) [
      | inl missing ↦ ground (arith, find_post_lem h post_id user_id)
      | inr (post, found) ↦
          elim (Option-cases (find (ReactionRepository.is_by post_id user_id) d.reactions)) [
            | inl first ↦ ground (
              arith,
              find_post_lem h post_id user_id,
              find_reaction_lem h post_id user_id,
              exists_of_find (PostRepository.has_id post_id) d.posts found,
              update_lem d post_id (increment_like_count post) post (count_posts-le h post_id 0)
                  found,
              find-some (PostRepository.has_id post_id) d.posts found,
              save_reaction_lem now new_id post_id user_id type (first_reaction post_id post d)
                  fresh first,
              exists-update_post post_id post_id (increment_like_count post) d.posts,
            )
            | inr (old, e) ↦ ground (
              arith,
              find_post_lem h post_id user_id,
              find_reaction_lem h post_id user_id,
              save_reaction_lem now new_id post_id user_id type (without_reaction old d)
                  (find-delete_where (ReactionRepository.has_id new_id)
                    (ReactionRepository.has_id old.id) d.reactions fresh)
                  (find-delete_found (ReactionRepository.is_by post_id user_id)
                    (ReactionRepository.has_id old.id) d.reactions e
                    (count_reaction_pairs-le h post_id user_id) (==_refl old.id))
                  (exists_of_find (PostRepository.has_id post_id) d.posts found),
            )
          ]
    ]

-- On consistent tables, to remove a reaction is refused if there is none; otherwise the reaction is
-- deleted and the post's counter is lowered.
pub unreact_outcome :
    (post_id user_id : EntityId) (d : PostTables)
    → IsConsistent d
    → unreact post_id user_id d
      ≡ elim (find (ReactionRepository.is_by post_id user_id) d.reactions) [
        | none ↦ (err reaction_not_found, d)
        | some r ↦ (
          ok tt,
          record d {
            reactions = delete_where (ReactionRepository.has_id r.id) d.reactions;
            posts = taken_back post_id d.posts;
          },
        )
      ]
unfolding unreact ReactionRepository.delete
unreact_outcome post_id user_id d h =
    elim (Option-cases (find (ReactionRepository.is_by post_id user_id) d.reactions)) [
      | inl missing ↦ ground (arith, find_reaction_lem h post_id user_id)
      | inr (r, found) ↦ ground (
        arith,
        find_reaction_lem h post_id user_id,
        find_post_lem h post_id user_id,
        take_back_lem post_id d h,
      )
    ]
