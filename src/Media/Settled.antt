-- ===== src/Media/Settled.antt =====
-- That the processing of a file ends, whatever the programs that it calls do.
use mathlib.Core.Path.{subst}
use facebook_clone.Prelude.{
  sym, ◌≡◌, refl, arith, Bool, true, false, ◌&&◌, not, List, [], ◌∷◌, inl, inr, ap, ◌∙◌,
}
use facebook_clone.Shared.Errors.{Result, ok, err, Result-cases}
use facebook_clone.Shared.Effects.{Effect}
use facebook_clone.Shared.EntityId.{EntityId, Libraries, from_str}
use facebook_clone.Shared.Table.{count, select, update_where}
use facebook_clone.UnitOfWork.Transactions.{endpoint-committing}
use facebook_clone.Media.Entities.{Media, MediaStatus, MediaTables, processing, ready, failed}
use facebook_clone.Media.Repository.{Change, changed, only, has_id, update_status}
use facebook_clone.Media.Uploads.{FileStorage}
use facebook_clone.Media.Processing.{
  ImageProcessor, VideoProcessor, ProcessInput, process_image, process_video, or_failed, attempt,
  execute, trigger, trigger_image_processing, trigger_video_processing,
}

-- The states in which a file stays
abbrev pub is_settled : MediaStatus → Bool
is_settled ready = true
is_settled failed = true
is_settled _ = false

settled_lem :
    (i : EntityId) (c : Change) (rows : List Media)
    → is_settled c.status ≡ true
    → count
        (λ m. has_id i m && not (is_settled m.status))
        (update_where (has_id i) (changed c) rows)
      ≡ 0
unfolding count update_where
settled_lem i c [] e = refl
settled_lem i c (m ∷ rows) e = ground (arith, settled_lem i c rows e)

others_lem :
    (i : EntityId) (c : Change) (rows : List Media)
    → select (λ m. not (has_id i m)) (update_where (has_id i) (changed c) rows)
      ≡ select (λ m. not (has_id i m)) rows
unfolding select update_where
others_lem i c [] = refl
others_lem i c (m ∷ rows) = ground (arith, others_lem i c rows)

-- The file's rows are settled, and the others are as they were.
abbrev pub Settles : EntityId → MediaTables → MediaTables → Type 0
Settles i d after =
    (count (λ m. has_id i m && not (is_settled m.status)) after.media ≡ 0)
    × (select (λ m. not (has_id i m)) after.media ≡ select (λ m. not (has_id i m)) d.media)

update_lem :
    (i : EntityId) (c : Change) (d : MediaTables)
    → is_settled c.status ≡ true
    → Settles i d (update_status i c d).1
unfolding update_status
update_lem i c d e = (settled_lem i c d.media e, others_lem i c d.media)

update_others :
    (i : EntityId) (c : Change) (d : MediaTables)
    → select (λ m. not (has_id i m)) (update_status i c d).1.media
      ≡ select (λ m. not (has_id i m)) d.media
unfolding update_status
update_others i c d = others_lem i c d.media

-- A block that reads and writes no table, and answers with the state ready
abbrev pub IsCalm : Effect MediaTables Change → Type 0
IsCalm body =
    (d : MediaTables)
    → ((body d).1 ≡ d) × ((c : Change) → (body d).0 ≡ ok c → is_settled c.status ≡ true)

-- What the block under `try` comes to
outcome_of : Result Change → Change
outcome_of (ok c) = c
outcome_of (err e) = only failed

or_failed-update_status :
    (i : EntityId) (body : Effect MediaTables Change) (d : MediaTables)
    → IsCalm body
    → or_failed i body d ≡ update_status i (outcome_of (body d).0) d
unfolding or_failed outcome_of
or_failed-update_status i body d calm = elim (Result-cases (body d).0) [
  | inl (e, p) ↦ ground (arith, p, (calm d).0)
  | inr (c, p) ↦ ground (arith, p, (calm d).0)
]

outcome_lem :
    (body : Effect MediaTables Change) (d : MediaTables)
    → IsCalm body
    → is_settled (outcome_of (body d).0).status ≡ true
unfolding outcome_of
outcome_lem body d calm = elim (Result-cases (body d).0) [
  | inl (e, p) ↦ rw p refl
  | inr (c, p) ↦ rw p ((calm d).1 c p)
]

or_failed_lem :
    (i : EntityId) (body : Effect MediaTables Change) (d : MediaTables)
    → IsCalm body
    → Settles i d (or_failed i body d).1
or_failed_lem i body d calm =
    subst (λ r. Settles i d r.1) (sym (or_failed-update_status i body d calm))
      (update_lem i (outcome_of (body d).0) d (outcome_lem body d calm))

attempt_ok :
    (b : Bool) (i : EntityId) (body : Effect MediaTables Change) (d : MediaTables)
    → IsCalm body
    → (attempt b i body d).0 ≡ ok tt
unfolding update_status
attempt_ok false i body d calm = refl
attempt_ok true i body d calm =
    ap (λ r. r.0) (or_failed-update_status i body (update_status i (only processing) d).1 calm)

attempt_lem :
    (b : Bool) (i : EntityId) (body : Effect MediaTables Change) (d : MediaTables)
    → IsCalm body
    → Settles i d (attempt b i body d).1
unfolding update_status
attempt_lem false i body d calm = update_lem i (only ready) d refl
attempt_lem true i body d calm =
    let d' = (update_status i (only processing) d).1 in
    let rest = or_failed_lem i body d' calm in
    (rest.0, rest.1 ∙ update_others i (only processing) d)

process_image-IsCalm :
    (storage : FileStorage) (processor : ImageProcessor) (inp : ProcessInput)
    → IsCalm (process_image storage processor inp)
unfolding process_image
process_image-IsCalm storage processor inp d = (ground arith, λ c e. ground arith)

process_video-IsCalm :
    (storage : FileStorage) (processor : VideoProcessor) (inp : ProcessInput)
    → IsCalm (process_video storage processor inp)
unfolding process_video
process_video-IsCalm storage processor inp d = (ground arith, λ c e. ground arith)

module _ (libs : Libraries) (storage : FileStorage) (inp : ProcessInput) (i : EntityId)
    (d : MediaTables) where
  triggered_lem :
      (b : Bool) (body : Effect MediaTables Change)
      → IsCalm body
      → from_str libs inp.media_id ≡ ok i
      → trigger (execute libs b body inp.media_id) d ≡ (attempt b i body d).1
  unfolding trigger execute
  triggered_lem b body calm p =
      let run = execute libs b body inp.media_id in
      ground (arith, p, attempt_ok b i body d calm, endpoint-committing run d)

  trigger_lem :
      (b : Bool) (body : Effect MediaTables Change)
      → IsCalm body
      → from_str libs inp.media_id ≡ ok i
      → Settles i d (trigger (execute libs b body inp.media_id) d)
  trigger_lem b body calm p =
      subst (Settles i d) (sym (triggered_lem b body calm p)) (attempt_lem b i body d calm)

  -- Whatever Pillow and the storage do, the processing of an image leaves the image ready or
  -- failed, and the rows of all other files as they were.
  pub trigger_image_processing-Settles :
      (processor : ImageProcessor)
      → from_str libs inp.media_id ≡ ok i
      → Settles i d (trigger_image_processing libs storage processor inp d)
  unfolding trigger_image_processing
  trigger_image_processing-Settles processor p =
      trigger_lem processor.is_available (process_image storage processor inp)
        (process_image-IsCalm storage processor inp) p

  -- Whatever ffmpeg and the storage do, the processing of a video, for an identifier that is read,
  -- leaves the video ready or failed, and the rows of all other files as they were.
  pub trigger_video_processing-Settles :
      (processor : VideoProcessor)
      → from_str libs inp.media_id ≡ ok i
      → Settles i d (trigger_video_processing libs storage processor inp d)
  unfolding trigger_video_processing
  trigger_video_processing-Settles processor p =
      trigger_lem processor.is_available (process_video storage processor inp)
        (process_video-IsCalm storage processor inp) p
