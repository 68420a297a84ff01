-- ===== src/Media/Uploads.antt =====
-- src/fb/application/media/upload.py, get_media.py and delete_media.py, and the attachments of
-- src/fb/domain/post/media.py and src/fb/application/post/upload_media.py. File storage is a
-- parameter.
use facebook_clone.Prelude.{
  ℕ, ◌*◌, Bool, not, Option, none, some, List, [], ◌∷◌, ◌++◌, ◌==◌, ltb, length, if◌then◌else◌, map,
}
use facebook_clone.Shared.Errors.{
  Result, ok, err, invalid_media_type, media_too_large, media_not_found, media_ownership,
  invalid_attachment_type, attachment_too_large,
}
use facebook_clone.Shared.Effects.{Effect, pure, lift, raise_if, or_raise, ◌>>=◌, ◌>>◌}
use facebook_clone.Shared.EntityId.{EntityId, Text, Libraries, from_str}
use facebook_clone.Shared.Text.{codes, text_eq}
use facebook_clone.Shared.Table.{exists}
use facebook_clone.UnitOfWork.{UnitOfWork, committing}
use facebook_clone.Media.Entities.{
  Media, MediaType, image, video, MediaTables, create_media, is_image, type_value, status_value,
}
use facebook_clone.Media.Repository.{save, find_by_id, find_by_entity, delete}

-- `FileStorage`: the URL of a file that is stored under a name, or an exception
pub record FileStorage : Type 0 where
  pub upload : List ℕ → Text → Text → Result Text

pub record UploadInput : Type 0 where
  pub owner_id : Text
  pub entity_id : Text
  pub entity_type : Text
  pub file_data : List ℕ
  pub filename : Text
  pub content_type : Text

pub record MediaOutput : Type 0 where
  pub id : Text
  pub owner_id : Text
  pub entity_id : Text
  pub entity_type : Text
  pub original_url : Text
  pub thumbnail_url : Option Text
  pub processed_url : Option Text
  pub media_type : Text
  pub content_type : Text
  pub file_size : ℕ
  pub width : Option ℕ
  pub height : Option ℕ
  pub duration_seconds : Option ℕ
  pub status : Text
  pub created_at : Option ℕ

-- `_to_output`
abbrev pub media_output : Libraries → Media → MediaOutput
media_output libs m = record {
  id = libs.print_uuid m.id;
  owner_id = libs.print_uuid m.owner_id;
  entity_id = m.entity_id;
  entity_type = m.entity_type;
  original_url = m.original_url;
  thumbnail_url = m.thumbnail_url;
  processed_url = m.processed_url;
  media_type = type_value m.media_type;
  content_type = m.content_type;
  file_size = m.file_size;
  width = m.width;
  height = m.height;
  duration_seconds = m.duration_seconds;
  status = status_value m.status;
  created_at = m.created_at;
}

-- `_MIME_TO_TYPE.get(content_type)`
unfoldable pub mime_to_type : Text → Option MediaType
mime_to_type text =
    if text_eq text (codes "image/jpeg")
    then some image
    else if text_eq text (codes "image/png")
    then some image
    else if text_eq text (codes "image/gif")
    then some image
    else if text_eq text (codes "image/webp")
    then some image
    else if text_eq text (codes "video/mp4")
    then some video
    else if text_eq text (codes "video/quicktime")
    then some video
    else if text_eq text (codes "video/webm")
    then some video
    else none

-- `IMAGE_MAX_SIZE` and `VIDEO_MAX_SIZE`
abbrev pub max_size : MediaType → ℕ
max_size media_type = if is_image media_type then 10 * 1024 * 1024 else 50 * 1024 * 1024

-- The part of a text from its last dot on
abbrev pub last_dot : Text → Option Text
last_dot [] = none
last_dot (c ∷ text) =
    let rest = last_dot text in
    elim rest [ none ↦ if c == 46 then some (c ∷ text) else none | some ext ↦ some ext ]

-- `_get_ext`
unfoldable pub get_ext : Text → Text
get_ext filename = elim (last_dot filename) [ none ↦ [] | some ext ↦ ext ]

-- `f"{folder}/{uuid.uuid4()}{ext}"`
abbrev pub unique_filename : Libraries → EntityId → MediaType → Text → Text
unique_filename libs file_id media_type filename =
    (if is_image media_type then codes "images/" else codes "videos/")
    ++ libs.print_uuid file_id
    ++ get_ext filename

-- The repository calls of `UploadUseCase.execute`
unfoldable pub upload :
    Libraries → FileStorage → ℕ → EntityId → EntityId → UploadInput → Effect MediaTables MediaOutput
upload libs storage now file_id new_id input = do
  media_type ← or_raise (mime_to_type input.content_type) invalid_media_type
  raise_if (ltb (max_size media_type) (length input.file_data)) media_too_large
  original_url ← lift (
      storage.upload input.file_data (unique_filename libs file_id media_type input.filename)
        input.content_type)
  owner_id ← lift (from_str libs input.owner_id)
  saved ← save now (
      create_media new_id owner_id input.entity_id input.entity_type original_url media_type
        input.content_type (length input.file_data))
  pure (media_output libs saved)

-- `UploadUseCase.execute`
unfoldable pub upload_use_case :
    Libraries
    → FileStorage
    → ℕ
    → EntityId
    → EntityId
    → UploadInput
    → Effect (UnitOfWork MediaTables) MediaOutput
upload_use_case libs storage now file_id new_id input =
    committing (upload libs storage now file_id new_id input)

-- `GetMediaUseCase.execute` and `GetEntityMediaUseCase.execute`
unfoldable pub get_media : Libraries → Text → Effect MediaTables MediaOutput
get_media libs media_id = do
  i ← lift (from_str libs media_id)
  found ← find_by_id i
  media ← or_raise found media_not_found
  pure (media_output libs media)

unfoldable pub get_entity_media : Libraries → Text → Text → MediaTables → List MediaOutput
get_entity_media libs entity_type entity_id d =
    map (media_output libs) (find_by_entity entity_type entity_id d)

-- The repository calls of `DeleteMediaUseCase.execute`; that the file itself is deleted or not
-- changes nothing here.
unfoldable pub delete_media : Libraries → EntityId → Text → Effect MediaTables Unit
delete_media libs media_id owner_id = do
  found ← find_by_id media_id
  media ← or_raise found media_not_found
  raise_if (not (text_eq (libs.print_uuid media.owner_id) owner_id)) media_ownership
  delete media_id

-- `DeleteMediaUseCase.execute`
unfoldable pub delete_media_use_case :
    Libraries → Text → Text → Effect (UnitOfWork MediaTables) Unit
delete_media_use_case libs media_id owner_id =
    committing (do i ← lift (from_str libs media_id); delete_media libs i owner_id)

-- `ALLOWED_MEDIA_TYPES`
abbrev pub allowed_media_types : List Text
allowed_media_types =
    codes "image/jpeg"
    ∷ codes "image/png"
    ∷ codes "image/gif"
    ∷ codes "image/webp"
    ∷ codes "video/mp4"
    ∷ codes "video/quicktime"
    ∷ codes "video/webm"
    ∷ []

-- `content_type in ALLOWED_MEDIA_TYPES`
unfoldable pub is_allowed : Text → Bool
is_allowed content_type = exists (λ t. text_eq content_type t) allowed_media_types

-- `MAX_MEDIA_FILE_SIZE`
abbrev pub max_media_file_size : ℕ
max_media_file_size = 50 * 1024 * 1024

pub record MediaAttachment : Type 0 where
  pub id : EntityId
  pub post_id : EntityId
  pub url : Text
  pub content_type : Text
  pub file_size : ℕ

-- `MediaAttachment.create`
unfoldable pub create_attachment : EntityId → EntityId → Text → Text → ℕ → Result MediaAttachment
create_attachment new_id post_id url content_type file_size =
    if is_allowed content_type
    then if ltb max_media_file_size file_size
      then err attachment_too_large
      else ok (record {
        id = new_id;
        post_id = post_id;
        url = url;
        content_type = content_type;
        file_size = file_size;
      })
    else err invalid_attachment_type

-- `UploadMediaUseCase.execute`: the URL, the type and the size
unfoldable pub upload_attachment :
    Libraries → FileStorage → EntityId → List ℕ → Text → Text → Result (Text × Text × ℕ)
upload_attachment libs storage file_id file_data filename content_type =
    if is_allowed content_type
    then if ltb max_media_file_size (length file_data)
      then err attachment_too_large
      else elim (storage.upload file_data (libs.print_uuid file_id ++ get_ext filename)
          content_type) [ err e ↦ err e | ok url ↦ ok (url, content_type, length file_data) ]
    else err invalid_attachment_type
