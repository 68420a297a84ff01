-- ===== src/Media/Processing.antt =====
-- src/fb/application/media/process_image.py, process_video.py and pipeline.py. What Pillow, ffmpeg
-- and the storage make of a file is a parameter, with none for an exception.
use facebook_clone.Prelude.{ℕ, Bool, true, false, Option, none, some, List, ◌++◌, if◌then◌else◌}
use facebook_clone.Shared.Errors.{Result, ok, err, runtime_error}
use facebook_clone.Shared.Effects.{Effect, pure, lift, or_raise, ◌>>=◌, ◌>>◌}
use facebook_clone.Shared.EntityId.{EntityId, Text, Libraries, from_str}
use facebook_clone.Shared.Text.{codes, text_eq, is_empty}
use facebook_clone.UnitOfWork.{endpoint, committing}
use facebook_clone.Media.Entities.{MediaTables, ready, processing, failed}
use facebook_clone.Media.Repository.{Change, only, update_status}
use facebook_clone.Media.Uploads.{FileStorage}

pub record Processed : Type 0 where
  pub file_data : List ℕ
  pub content_type : Text
  pub width : ℕ
  pub height : ℕ

pub record ImageProcessor : Type 0 where
  pub is_available : Bool
  pub process : List ℕ → Text → Option Processed
  pub generate_thumbnail : List ℕ → Text → Option Processed

pub record VideoMetadata : Type 0 where
  pub width : Option ℕ
  pub height : Option ℕ
  pub duration_seconds : Option ℕ

-- The outer option is an exception, the inner one a missing result.
pub record VideoProcessor : Type 0 where
  pub is_available : Bool
  pub get_metadata : List ℕ → Option (Option VideoMetadata)
  pub extract_thumbnail : List ℕ → Option (Option Processed)

pub record ProcessInput : Type 0 where
  pub media_id : Text
  pub file_data : List ℕ
  pub content_type : Text

-- `await self._file_storage.upload(…)`
abbrev pub store : FileStorage → Processed → Text → Result Text
store storage file filename = storage.upload file.file_data filename file.content_type

-- The block under `try` of an image: what the update of the record sets
unfoldable pub process_image :
    FileStorage → ImageProcessor → ProcessInput → Effect MediaTables Change
process_image storage processor inp = do
  processed ← or_raise (processor.process inp.file_data inp.content_type) runtime_error
  thumbnail ← or_raise (processor.generate_thumbnail inp.file_data inp.content_type) runtime_error
  processed_url ←
      lift (store storage processed (codes "images/processed/" ++ inp.media_id ++ codes ".webp"))
  thumbnail_url ←
      lift (store storage thumbnail (codes "images/thumbnails/" ++ inp.media_id ++ codes ".webp"))
  pure (record {
    status = ready;
    processed_url = some processed_url;
    thumbnail_url = some thumbnail_url;
    width = some processed.width;
    height = some processed.height;
    duration_seconds = none;
  })

-- `if thumbnail is not None and thumbnail.file_data: …`
abbrev pub store_thumbnail : FileStorage → Text → Option Processed → Result (Option Text)
store_thumbnail storage media_id none = ok none
store_thumbnail storage media_id (some thumbnail) =
    let ext =
      if text_eq thumbnail.content_type (codes "image/webp") then codes ".webp" else codes ".jpg" in
    if is_empty thumbnail.file_data
    then ok none
    else elim (store storage thumbnail (codes "videos/thumbnails/" ++ media_id ++ ext)) [
      | err e ↦ err e
      | ok url ↦ ok (some url)
    ]

-- `metadata.… if metadata else None`
abbrev pub of_metadata : Option Text → Option VideoMetadata → Change
of_metadata thumbnail_url none = record (only ready) { thumbnail_url = thumbnail_url }
of_metadata thumbnail_url (some metadata) = record {
  status = ready;
  processed_url = none;
  thumbnail_url = thumbnail_url;
  width = metadata.width;
  height = metadata.height;
  duration_seconds = metadata.duration_seconds;
}

-- The block under `try` of a video
unfoldable pub process_video :
    FileStorage → VideoProcessor → ProcessInput → Effect MediaTables Change
process_video storage processor inp = do
  metadata ← or_raise (processor.get_metadata inp.file_data) runtime_error
  thumbnail ← or_raise (processor.extract_thumbnail inp.file_data) runtime_error
  thumbnail_url ← lift (store_thumbnail storage inp.media_id thumbnail)
  pure (of_metadata thumbnail_url metadata)

-- `try: … update_status(READY, …) except Exception: update_status(FAILED)`
unfoldable pub or_failed : EntityId → Effect MediaTables Change → Effect MediaTables Unit
or_failed media_id body d =
    let (r, t) = body d in
    elim r [
      | ok change ↦ update_status media_id change t
      | err e ↦ update_status media_id (only failed) t
    ]

-- After the parse: without the program that processes the file, it is ready as it is.
abbrev pub attempt : Bool → EntityId → Effect MediaTables Change → Effect MediaTables Unit
attempt true i body = do update_status i (only processing); or_failed i body
attempt false i body = update_status i (only ready)

-- `execute` of both use cases
unfoldable pub execute :
    Libraries → Bool → Effect MediaTables Change → Text → Effect MediaTables Unit
execute libs is_available body media_id = do
  i ← lift (from_str libs media_id)
  attempt is_available i body

-- `trigger_image_processing` and `trigger_video_processing`: a session of its own, a commit, and
-- every exception is logged only
unfoldable pub trigger : Effect MediaTables Unit → MediaTables → MediaTables
trigger use_case d = (endpoint (committing use_case) d).1

unfoldable pub trigger_image_processing :
    Libraries → FileStorage → ImageProcessor → ProcessInput → MediaTables → MediaTables
unfolding trigger
trigger_image_processing libs storage processor inp d =
    trigger (execute libs processor.is_available (process_image storage processor inp) inp.media_id)
      d

unfoldable pub trigger_video_processing :
    Libraries → FileStorage → VideoProcessor → ProcessInput → MediaTables → MediaTables
unfolding trigger
trigger_video_processing libs storage processor inp d =
    trigger (execute libs processor.is_available (process_video storage processor inp) inp.media_id)
      d
