-- ===== src/Media/Entities.antt =====
-- src/fb/domain/media/entities.py, and the table of src/fb/infrastructure/database/models/media.py.
-- Durations are numbers.
use facebook_clone.Prelude.{ℕ, Bool, true, false, ◌==◌, Option, none, some, List, if◌then◌else◌}
use facebook_clone.Shared.EntityId.{EntityId, Text}
use facebook_clone.Shared.Text.{codes, is_empty}
use facebook_clone.Shared.Table.{exists}

pub data MediaType : Type 0 where
  image video audio : MediaType

pub data MediaStatus : Type 0 where
  pending processing ready failed : MediaStatus

-- `media_type.value` and `status.value`
unfoldable pub type_value : MediaType → Text
type_value image = codes "image"
type_value video = codes "video"
type_value audio = codes "audio"

unfoldable pub status_value : MediaStatus → Text
status_value pending = codes "pending"
status_value processing = codes "processing"
status_value ready = codes "ready"
status_value failed = codes "failed"

abbrev pub is_image : MediaType → Bool
is_image image = true
is_image _ = false

pub record Media : Type 0 where
  pub id : EntityId
  pub owner_id : EntityId
  pub entity_id : Text
  pub entity_type : Text
  pub original_url : Text
  pub thumbnail_url : Option Text
  pub processed_url : Option Text
  pub media_type : MediaType
  pub content_type : Text
  pub file_size : ℕ
  pub width : Option ℕ
  pub height : Option ℕ
  pub duration_seconds : Option ℕ
  pub status : MediaStatus
  pub created_at : Option ℕ

-- `Media.create`, for an upload of no known size in pixels
unfoldable pub create_media :
    EntityId → EntityId → Text → Text → Text → MediaType → Text → ℕ → Media
create_media new_id owner_id entity_id entity_type original_url media_type content_type file_size =
    record {
      id = new_id;
      owner_id = owner_id;
      entity_id = entity_id;
      entity_type = entity_type;
      original_url = original_url;
      thumbnail_url = none;
      processed_url = none;
      media_type = media_type;
      content_type = content_type;
      file_size = file_size;
      width = none;
      height = none;
      duration_seconds = none;
      status = pending;
      created_at = none;
    }

-- `new or old`, where an empty text and the number 0 count as none
abbrev pub or_text : Option Text → Option Text → Option Text
or_text none old = old
or_text (some new) old = if is_empty new then old else some new

abbrev pub or_number : Option ℕ → Option ℕ → Option ℕ
or_number none old = old
or_number (some new) old = if new == 0 then old else some new

-- `Media.mark_processing`, `Media.mark_ready` and `Media.mark_failed`
unfoldable pub mark_processing : Media → Media
mark_processing media = record media { status = processing }

unfoldable pub mark_ready : Option Text → Option Text → Option ℕ → Option ℕ → Media → Media
mark_ready processed_url thumbnail_url width height media = record media {
  thumbnail_url = or_text thumbnail_url media.thumbnail_url;
  processed_url = or_text processed_url media.processed_url;
  width = or_number width media.width;
  height = or_number height media.height;
  status = ready;
}

unfoldable pub mark_failed : Media → Media
mark_failed media = record media { status = failed }

pub record MediaTables : Type 0 where
  -- the primary keys of the table `users`
  pub users : List EntityId
  pub media : List Media

abbrev pub has_user : MediaTables → EntityId → Bool
has_user d i = exists (λ u. u == i) d.users

-- The time of a row, which is never null
abbrev pub time_of : Media → ℕ
time_of m = elim m.created_at [ none ↦ 0 | some t ↦ t ]
