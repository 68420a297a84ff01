-- ===== src/Media/Tests.antt =====
-- The theorems on uploads at tables with one image.
use facebook_clone.Prelude.{take, drop, ◌≡◌, refl, false, none, some, [], ◌∷◌}
use facebook_clone.Shared.Errors.{ok}
use facebook_clone.Shared.Samples.{libs}
use facebook_clone.Shared.Text.{codes, text_eq}
use facebook_clone.Shared.Table.{find, exists}
use facebook_clone.Media.Entities.{Media, MediaTables, image, pending}
use facebook_clone.Media.Uploads.{FileStorage, UploadInput, upload, get_ext}
use facebook_clone.Media.Processing.{ProcessInput, trigger_video_processing, VideoProcessor}
use facebook_clone.Media.Ranges.{stream_bounds, stream_local_file}
use facebook_clone.Media.Streaming.{sent, stream_bounds_lem}
use facebook_clone.Media.Outcomes.{upload_outcome}
use facebook_clone.Media.Settled.{Settles, trigger_video_processing-Settles}

abbrev storage : FileStorage
storage = record { upload = λ bytes name type. ok name }

abbrev picture : Media
picture = record {
  id = 5;
  owner_id = 1;
  entity_id = [];
  entity_type = codes "post";
  original_url = codes "u";
  thumbnail_url = none;
  processed_url = none;
  media_type = image;
  content_type = codes "image/png";
  file_size = 3;
  width = none;
  height = none;
  duration_seconds = none;
  status = pending;
  created_at = some 2;
}

abbrev tables : MediaTables
tables = record { users = 1 ∷ []; media = picture ∷ [] }

abbrev input : UploadInput
input = record {
  owner_id = 1 ∷ [];
  entity_id = [];
  entity_type = codes "post";
  file_data = 1 ∷ 2 ∷ [];
  filename = codes "a.jpg";
  content_type = codes "image/jpeg";
}

upload_outcome_example : upload libs storage 9 70 6 input tables ≡ (
  ok (record {
    id = 6 ∷ [];
    owner_id = 1 ∷ [];
    entity_id = [];
    entity_type = codes "post";
    original_url = codes "images/F.jpg";
    thumbnail_url = none;
    processed_url = none;
    media_type = codes "image";
    content_type = codes "image/jpeg";
    file_size = 2;
    width = none;
    height = none;
    duration_seconds = none;
    status = codes "pending";
    created_at = some 9;
  }),
  record tables {
    media =
        picture
        ∷ record {
          id = 6;
          owner_id = 1;
          entity_id = [];
          entity_type = codes "post";
          original_url = codes "images/F.jpg";
          thumbnail_url = none;
          processed_url = none;
          media_type = image;
          content_type = codes "image/jpeg";
          file_size = 2;
          width = none;
          height = none;
          duration_seconds = none;
          status = pending;
          created_at = some 9;
        }
        ∷ [];
  },
)
unfolding find text_eq exists get_ext
upload_outcome_example = upload_outcome libs storage 9 70 6 input tables refl

abbrev no_ffmpeg : VideoProcessor
no_ffmpeg = record {
  is_available = false;
  get_metadata = λ bytes. none;
  extract_thumbnail = λ bytes. none;
}

abbrev file : ProcessInput
file = record { media_id = 5 ∷ []; file_data = []; content_type = codes "image/png" }

trigger_video_processing-Settles_example :
    Settles 5 tables (trigger_video_processing libs storage no_ffmpeg file tables)
trigger_video_processing-Settles_example =
    trigger_video_processing-Settles libs storage file 5 tables no_ffmpeg refl

-- The second and the third of four bytes
stream_bounds_lem_example :
    (sent (stream_local_file (5 ∷ 6 ∷ 7 ∷ 8 ∷ []) none) ≡ some (5 ∷ 6 ∷ 7 ∷ 8 ∷ []))
    × (sent (stream_bounds (5 ∷ 6 ∷ 7 ∷ 8 ∷ []) (some (1, 2))) ≡ some (6 ∷ 7 ∷ []))
unfolding take drop
stream_bounds_lem_example = stream_bounds_lem (5 ∷ 6 ∷ 7 ∷ 8 ∷ []) 1 2
