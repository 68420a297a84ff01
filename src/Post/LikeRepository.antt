-- ===== src/Post/LikeRepository.antt =====
-- src/fb/infrastructure/repositories/like_repo.py
use facebook_clone.Prelude.{ℕ, Bool, ◌&&◌, not, Option, some, ◌==◌}
use facebook_clone.Shared.Effects.{Effect, gets, modify}
use facebook_clone.Shared.Errors.{err, type_error}
use facebook_clone.Prelude.{if◌then◌else◌}
use facebook_clone.Shared.EntityId.{Libraries, EntityId}
use facebook_clone.Shared.Table.{
  select, count, exists, delete_where, scalar_one_or_none, merge, stored,
}
use facebook_clone.Post.Entities.{Datetime, Like}
use facebook_clone.Post.Tables.{PostTables, has_user, has_post}

abbrev pub has_id : EntityId → Like → Bool
has_id i r = r.id == i

abbrev pub is_of : EntityId → Like → Bool
is_of post_id r = r.post_id == post_id

abbrev pub is_by : EntityId → EntityId → Like → Bool
is_by post_id user_id r = r.post_id == post_id && r.user_id == user_id

unfoldable pub find_by_post_and_user : EntityId → EntityId → Effect PostTables (Option Like)
find_by_post_and_user post_id user_id =
    gets (λ d. scalar_one_or_none (select (is_by post_id user_id) d.likes))

-- The values that a merge copies
abbrev pub copy : Like → Like → Like
copy r old = record old { post_id = r.post_id; user_id = r.user_id }

-- What the foreign keys and the unique constraint on post and user permit
abbrev pub is_permitted : PostTables → Like → Bool
is_permitted d row =
    has_post d row.post_id
    && has_user d row.user_id
    && not (exists (is_by row.post_id row.user_id) (delete_where (has_id row.id) d.likes))

-- `LikeModel(id=…, …)` is refused where the constructor takes no `id`.
unfoldable pub save : Libraries → Datetime → Like → Effect PostTables Like
unfolding merge
save libs now like d =
    let row = record like { created_at = some now } in
    if libs.init_takes_id
    then stored (λ rows t. record t { likes = rows })
        (merge (is_permitted d row) (has_id row.id) (copy row) row d.likes) d
    else (err type_error, d)

unfoldable pub delete : EntityId → Effect PostTables Unit
delete i = modify (λ d. record d { likes = delete_where (has_id i) d.likes })

unfoldable pub count_by_post : EntityId → PostTables → ℕ
count_by_post post_id d = count (is_of post_id) d.likes
