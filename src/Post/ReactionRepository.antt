-- ===== src/Post/ReactionRepository.antt =====
-- src/fb/infrastructure/repositories/reaction_repo.py
use facebook_clone.Prelude.{ℕ, Bool, ◌&&◌, not, Option, some, ◌==◌}
use facebook_clone.Shared.Effects.{Effect, gets, modify}
use facebook_clone.Shared.EntityId.{EntityId}
use facebook_clone.Shared.Table.{
  select, count, exists, delete_where, scalar_one_or_none, merge, stored,
}
use facebook_clone.Post.Entities.{Datetime, Reaction}
use facebook_clone.Post.Tables.{PostTables, has_user, has_post}

abbrev pub has_id : EntityId → Reaction → Bool
has_id i r = r.id == i

abbrev pub is_of : EntityId → Reaction → Bool
is_of post_id r = r.post_id == post_id

abbrev pub is_by : EntityId → EntityId → Reaction → Bool
is_by post_id user_id r = r.post_id == post_id && r.user_id == user_id

unfoldable pub find_by_post_and_user : EntityId → EntityId → Effect PostTables (Option Reaction)
find_by_post_and_user post_id user_id =
    gets (λ d. scalar_one_or_none (select (is_by post_id user_id) d.reactions))

-- The values that a merge copies
abbrev pub copy : Reaction → Reaction → Reaction
copy r old = record old {
  post_id = r.post_id;
  user_id = r.user_id;
  reaction_type = r.reaction_type;
}

-- What the foreign keys and the unique constraint on post and user permit
abbrev pub is_permitted : PostTables → Reaction → Bool
is_permitted d row =
    has_post d row.post_id
    && has_user d row.user_id
    && not (exists (is_by row.post_id row.user_id) (delete_where (has_id row.id) d.reactions))

unfoldable pub save : Datetime → Reaction → Effect PostTables Reaction
unfolding merge
save now reaction d =
    let row = record reaction { created_at = some now } in
    stored (λ rows t. record t { reactions = rows })
      (merge (is_permitted d row) (has_id row.id) (copy row) row d.reactions) d

unfoldable pub delete : EntityId → Effect PostTables Unit
delete i = modify (λ d. record d { reactions = delete_where (has_id i) d.reactions })

unfoldable pub count_by_post : EntityId → PostTables → ℕ
count_by_post post_id d = count (is_of post_id) d.reactions
