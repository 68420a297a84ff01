-- ===== src/Media/Outcomes.antt =====
-- What uploads and deletions do, on every branch, and which files are accepted.
use facebook_clone.Prelude.{
  ◌||◌, ◌++◌, ◌*◌, ℕ, ◌≤◌, ◌≡◌, arith, Bool, some, none, if◌then◌else◌, ltb, length, ◌==◌, is_some,
}
use facebook_clone.Shared.Errors.{
  Result, ok, err, invalid_media_type, media_too_large, media_not_found, media_ownership,
  data_error, integrity_error,
}
use facebook_clone.Shared.EntityId.{EntityId, Text, Libraries, from_str}
use facebook_clone.Shared.Text.{codes, text_eq}
use facebook_clone.Shared.Table.{find, insert, delete_where, count, exists, merge}
use facebook_clone.Shared.Table.Counting.{scalar_one_or_none-select}
use facebook_clone.Shared.Table.Keys.{Unique, count-le_of_Unique}
use facebook_clone.Media.Entities.{
  image, video, pending, type_value, status_value, Media, MediaType, MediaTables, create_media,
}
use facebook_clone.Media.Repository.{has_id, save, find_by_id, delete}
use facebook_clone.Media.Uploads.{
  get_ext, FileStorage, UploadInput, MediaOutput, mime_to_type, upload, delete_media, is_allowed,
}

abbrev pub same_id : Media → Media → Bool
same_id m n = m.id == n.id

id_le_one : (i : EntityId) (d : MediaTables) → Unique same_id d.media → count (has_id i) d.media ≤ 1
id_le_one i d s = count-le_of_Unique same_id (has_id i) d.media (λ x y p q. ground arith) s

-- The types that a post's attachment may have are those that an upload may have.
pub is_allowed_lem :
    (content_type : Text) → is_allowed content_type ≡ is_some (mime_to_type content_type)
unfolding is_allowed mime_to_type exists
is_allowed_lem content_type = ground arith

-- The types of images and of videos
abbrev pub is_image_type : Text → Bool
is_image_type text =
    text_eq text (codes "image/jpeg")
    || text_eq text (codes "image/png")
    || text_eq text (codes "image/gif")
    || text_eq text (codes "image/webp")

abbrev pub is_video_type : Text → Bool
is_video_type text =
    text_eq text (codes "video/mp4")
    || text_eq text (codes "video/quicktime")
    || text_eq text (codes "video/webm")

mime_lem :
    (text : Text)
    → mime_to_type text
      ≡ (if is_image_type text then some image else if is_video_type text then some video else none)
unfolding mime_to_type
mime_lem text = ground arith

module _ (libs : Libraries) (storage : FileStorage) (now file_id new_id : ℕ) (input : UploadInput)
    (d : MediaTables) where
  -- The row of an upload
  abbrev pub new_media : EntityId → MediaType → Text → Media
  new_media owner media_type url = record {
    id = new_id;
    owner_id = owner;
    entity_id = input.entity_id;
    entity_type = input.entity_type;
    original_url = url;
    thumbnail_url = none;
    processed_url = none;
    media_type = media_type;
    content_type = input.content_type;
    file_size = length input.file_data;
    width = none;
    height = none;
    duration_seconds = none;
    status = pending;
    created_at = some now;
  }

  -- The answer that describes the row
  abbrev pub new_output : EntityId → Text → Text → MediaOutput
  new_output owner kind url = record {
    id = libs.print_uuid new_id;
    owner_id = libs.print_uuid owner;
    entity_id = input.entity_id;
    entity_type = input.entity_type;
    original_url = url;
    thumbnail_url = none;
    processed_url = none;
    media_type = kind;
    content_type = input.content_type;
    file_size = length input.file_data;
    width = none;
    height = none;
    duration_seconds = none;
    status = codes "pending";
    created_at = some now;
  }

  -- What becomes of a file of a type, in a folder
  abbrev pub upload_to : Text → MediaType → Text → Result MediaOutput × MediaTables
  upload_to folder media_type kind =
      elim (storage.upload input.file_data
        (folder ++ libs.print_uuid file_id ++ get_ext input.filename) input.content_type) [
          | err e ↦ (err e, d)
          | ok url ↦ elim (from_str libs input.owner_id) [
            | err e ↦ (err e, d)
            | ok owner ↦
                if ltb 255 (length input.entity_id)
                  || ltb 50 (length input.entity_type)
                  || ltb 100 (length input.content_type)
                then (err data_error, d)
                else if exists (λ u. u == owner) d.users
                then (
                  ok (new_output owner kind url),
                  record d { media = insert (new_media owner media_type url) d.media },
                )
                else (err integrity_error, d)
          ]
        ]

  -- An upload with a new key is refused for a type that is neither one of the four types of images
  -- nor one of the three of videos, and for an image of more than 10 MiB or a video of more than 50
  -- MiB, before anything is stored; then for what the storage raises, for an owner that is no
  -- identifier, for texts that are longer than their columns and for an owner that is not there.
  -- Else the file is stored in the folder of its type, and the row is the last one and pending.
  pub upload_outcome :
      find (has_id new_id) d.media ≡ none
      → upload libs storage now file_id new_id input d ≡ (
          if is_image_type input.content_type
          then if ltb (10 * 1024 * 1024) (length input.file_data)
            then (err media_too_large, d)
            else upload_to (codes "images/") image (codes "image")
          else if is_video_type input.content_type
          then if ltb (50 * 1024 * 1024) (length input.file_data)
            then (err media_too_large, d)
            else upload_to (codes "videos/") video (codes "video")
          else (err invalid_media_type, d))
  unfolding upload save create_media merge type_value status_value
  upload_outcome fresh = ground (arith, mime_lem input.content_type)

-- On tables with unique keys a medium is deleted for the text of its owner only, and no other row
-- is touched.
pub delete_media_outcome :
    (libs : Libraries) (i : EntityId) (owner_id : Text) (d : MediaTables)
    → Unique same_id d.media
    → delete_media libs i owner_id d ≡ (elim (find (has_id i) d.media) [
      | none ↦ (err media_not_found, d)
      | some m ↦
          if text_eq (libs.print_uuid m.owner_id) owner_id
          then (ok tt, record d { media = delete_where (has_id i) d.media })
          else (err media_ownership, d)
    ])
unfolding delete_media find_by_id delete
delete_media_outcome libs i owner_id d s =
    ground (arith, scalar_one_or_none-select (has_id i) d.media (id_le_one i d s))
