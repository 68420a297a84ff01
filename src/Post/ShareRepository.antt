-- ===== src/Post/ShareRepository.antt =====
-- src/fb/infrastructure/repositories/share_repo.py
use facebook_clone.Prelude.{ℕ, Bool, ◌&&◌, Option, some, ◌==◌}
use facebook_clone.Shared.Effects.{Effect, gets, modify}
use facebook_clone.Shared.EntityId.{EntityId}
use facebook_clone.Shared.Table.{select, count, delete_where, scalar_one_or_none, merge, stored}
use facebook_clone.Post.Entities.{Datetime, Share}
use facebook_clone.Post.Tables.{PostTables, has_user, has_post}

abbrev pub has_id : EntityId → Share → Bool
has_id i r = r.id == i

abbrev pub is_of : EntityId → Share → Bool
is_of post_id r = r.post_id == post_id

unfoldable pub find_by_id : EntityId → Effect PostTables (Option Share)
find_by_id i = gets (λ d. scalar_one_or_none (select (has_id i) d.shares))

-- The values that a merge copies
abbrev pub copy : Share → Share → Share
copy r old = record old { post_id = r.post_id; user_id = r.user_id; content = r.content }

-- What the foreign keys permit
abbrev pub is_permitted : PostTables → Share → Bool
is_permitted d row = has_post d row.post_id && has_user d row.user_id

unfoldable pub save : Datetime → Share → Effect PostTables Share
unfolding merge
save now share d =
    let row = record share { created_at = some now } in
    stored (λ rows t. record t { shares = rows })
      (merge (is_permitted d row) (has_id row.id) (copy row) row d.shares) d

unfoldable pub delete : EntityId → Effect PostTables Unit
delete i = modify (λ d. record d { shares = delete_where (has_id i) d.shares })

unfoldable pub count_by_post : EntityId → PostTables → ℕ
count_by_post post_id d = count (is_of post_id) d.shares
