-- ===== src/Media/Repository.antt =====
-- src/fb/infrastructure/repositories/media_repo.py
use facebook_clone.Prelude.{
  ℕ, Bool, ◌&&◌, ◌||◌, Option, none, some, List, ◌==◌, ltb, length, if◌then◌else◌,
}
use facebook_clone.Shared.Errors.{ok, err, data_error}
use facebook_clone.Shared.Effects.{Effect, gets, modify}
use facebook_clone.Shared.EntityId.{EntityId, Text}
use facebook_clone.Shared.Text.{text_eq}
use facebook_clone.Shared.Table.{
  select, delete_where, update_where, scalar_one_or_none, merge, stored, order_by_desc, order_by,
  page,
}
use facebook_clone.Media.Entities.{Media, MediaStatus, MediaTables, has_user, time_of}

abbrev pub has_id : EntityId → Media → Bool
has_id i m = m.id == i

-- The values that a merge copies
abbrev pub copy : Media → Media → Media
copy m old = record m { created_at = old.created_at }

-- `String(255)`, `String(50)` and `String(100)`
abbrev pub is_too_long : Media → Bool
is_too_long m =
    ltb 255 (length m.entity_id) || ltb 50 (length m.entity_type) || ltb 100 (length m.content_type)

unfoldable pub save : ℕ → Media → Effect MediaTables Media
save now media d =
    let row = record media { created_at = some now } in
    if is_too_long row
    then (err data_error, d)
    else stored (λ rows t. record t { media = rows })
        (merge (has_user d row.owner_id) (has_id row.id) (copy row) row d.media) d

unfoldable pub find_by_id : EntityId → Effect MediaTables (Option Media)
find_by_id media_id = gets (λ d. scalar_one_or_none (select (has_id media_id) d.media))

unfoldable pub find_by_owner : EntityId → ℕ → ℕ → MediaTables → List Media
find_by_owner owner_id limit offset d =
    page limit offset (order_by_desc time_of (select (λ m. m.owner_id == owner_id) d.media))

-- Oldest first
unfoldable pub find_by_entity : Text → Text → MediaTables → List Media
find_by_entity entity_type entity_id d =
    order_by (λ x y. ltb (time_of x) (time_of y))
      (select (λ m. text_eq m.entity_type entity_type && text_eq m.entity_id entity_id) d.media)

-- What an update of the status sets; values that are none are left alone.
pub record Change : Type 0 where
  pub status : MediaStatus
  pub processed_url : Option Text
  pub thumbnail_url : Option Text
  pub width : Option ℕ
  pub height : Option ℕ
  pub duration_seconds : Option ℕ

abbrev pub or_kept {ℓ} : {A : Type ℓ} → Option A → Option A → Option A
or_kept none old = old
or_kept (some new) old = some new

abbrev pub changed : Change → Media → Media
changed change m = record m {
  status = change.status;
  processed_url = or_kept change.processed_url m.processed_url;
  thumbnail_url = or_kept change.thumbnail_url m.thumbnail_url;
  width = or_kept change.width m.width;
  height = or_kept change.height m.height;
  duration_seconds = or_kept change.duration_seconds m.duration_seconds;
}

abbrev pub only : MediaStatus → Change
only status = record {
  status = status;
  processed_url = none;
  thumbnail_url = none;
  width = none;
  height = none;
  duration_seconds = none;
}

unfoldable pub update_status : EntityId → Change → Effect MediaTables Unit
update_status media_id change =
    modify (λ d. record d { media = update_where (has_id media_id) (changed change) d.media })

-- The row that the key finds is deleted.
abbrev pub without : EntityId → Option Media → Effect MediaTables Unit
without media_id none d = (ok tt, d)
without media_id (some m) d = (ok tt, record d { media = delete_where (has_id media_id) d.media })

unfoldable pub delete : EntityId → Effect MediaTables Unit
delete media_id d = elim (scalar_one_or_none (select (has_id media_id) d.media)) [
  | err e ↦ (err e, d)
  | ok found ↦ without media_id found d
]
