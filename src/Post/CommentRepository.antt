-- ===== src/Post/CommentRepository.antt =====
-- src/fb/infrastructure/repositories/comment_repo.py
use facebook_clone.Prelude.{ℕ, Bool, ◌&&◌, Option, some, ◌==◌}
use facebook_clone.Shared.Effects.{Effect, gets, modify}
use facebook_clone.Shared.Errors.{err, type_error}
use facebook_clone.Prelude.{if◌then◌else◌}
use facebook_clone.Shared.EntityId.{Libraries, EntityId}
use facebook_clone.Shared.Table.{select, count, delete_where, scalar_one_or_none, merge, stored}
use facebook_clone.Post.Entities.{Datetime, Comment}
use facebook_clone.Post.Tables.{PostTables, has_user, has_post}

abbrev pub has_id : EntityId → Comment → Bool
has_id i r = r.id == i

abbrev pub is_of : EntityId → Comment → Bool
is_of post_id r = r.post_id == post_id

unfoldable pub find_by_id : EntityId → Effect PostTables (Option Comment)
find_by_id i = gets (λ d. scalar_one_or_none (select (has_id i) d.comments))

-- The values that a merge copies
abbrev pub copy : Comment → Comment → Comment
copy r old = record old { post_id = r.post_id; author_id = r.author_id; content = r.content }

-- What the foreign keys permit
abbrev pub is_permitted : PostTables → Comment → Bool
is_permitted d row = has_post d row.post_id && has_user d row.author_id

-- `CommentModel(id=…, …)` is refused where the constructor takes no `id`.
unfoldable pub save : Libraries → Datetime → Comment → Effect PostTables Comment
unfolding merge
save libs now comment d =
    let row = record comment { created_at = some now } in
    if libs.init_takes_id
    then stored (λ rows t. record t { comments = rows })
        (merge (is_permitted d row) (has_id row.id) (copy row) row d.comments) d
    else (err type_error, d)

unfoldable pub delete : EntityId → Effect PostTables Unit
delete i = modify (λ d. record d { comments = delete_where (has_id i) d.comments })

unfoldable pub count_by_post : EntityId → PostTables → ℕ
count_by_post post_id d = count (is_of post_id) d.comments
