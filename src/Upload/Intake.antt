-- ===== src/Upload/Intake.antt =====
-- internal/service/media_upload.go: starting and completing an upload.
pub mod Completion
pub mod Start
use api_calixio.Prelude.{
  ℕ, Bool, true, false, not, ◌||◌, Option, none, some, List, [], ◌∷◌, ◌++◌, if◌then◌else◌, length,
  ltb,
}
use api_calixio.Text.{Text, codes, text_eq, is_empty, trim_space}
use api_calixio.Integer.{ℤ, is_pos, at_most}
use api_calixio.Hex.{hex}
use api_calixio.Records.{
  Media, MediaStatus, media_uploading, media_uploaded, media_processing, media_failed,
}
use api_calixio.External.{External, ObjectHead}
use api_calixio.Exec.{
  Exec, World, Error, Result, ok, err, not_found, invalid_upload_input, forbidden_media,
  uploaded_object_not_found, job_without_id, queue_full, pure, raise, gets, modify, attempt, call,
  observe, ◌>>=◌, ◌>>◌,
}
use api_calixio.Repository.MediaRows.{create, get_by_id, update_upload_state, update_status}
use api_calixio.Storage.Objects.{presign_put_object, head, generate_object_url}
use api_calixio.Upload.{
  UploadService, lower, normalize_mime, is_allowed_mime, sanitize_filename,
  build_title_from_filename, has_blank, object_key,
}

pub record InitUploadInput : Type 0 where
  pub owner_user_id : Text
  pub file_name : Text
  pub content_type : Text
  pub size_bytes : ℤ

pub record InitUploadOutput : Type 0 where
  pub media_id : Text
  pub storage_key : Text
  pub upload_url : Text

-- `errors.Is(err, repository.ErrNotFound)`, which HeadObject answers for an object that is missing
abbrev head_error : Error → Error
head_error not_found = uploaded_object_not_found
head_error e = e

module _ (ext : External) (s : UploadService) where
  open ext use {X, random, now, to_lower}

  unfoldable pub new_media_id : Exec X Text
  new_media_id = do bytes ← call (random 12); pure (codes "media_" ++ hex bytes)

  abbrev pub new_media : InitUploadInput → Text → Text → Text → ℕ → Media
  new_media req id safe key t = record {
    id = id;
    owner_user_id = req.owner_user_id;
    title = build_title_from_filename safe;
    original_name = req.file_name;
    storage_key = key;
    playback_url = generate_object_url s.storage key;
    preview_url = none;
    duration_sec = none;
    file_size_bytes = req.size_bytes;
    mime_type = lower to_lower (trim_space req.content_type);
    status = media_uploading;
    created_at = t;
    deleted_at = none;
  }

  -- From `newMediaID` on.
  unfoldable pub start_upload : InitUploadInput → Exec X InitUploadOutput
  start_upload req = do
    id ← new_media_id
    let safe = sanitize_filename req.file_name
    let key = object_key req.owner_user_id id (codes "original") safe
    url ← presign_put_object ext s.storage key req.content_type s.presign_ttl
    t ← observe now
    create ext (new_media req id safe key t)
    pure (record { media_id = id; storage_key = key; upload_url = url })

  unfoldable pub init_upload : InitUploadInput → Exec X InitUploadOutput
  init_upload req =
      if has_blank req.owner_user_id req.file_name
      then raise invalid_upload_input
      else if not (is_pos req.size_bytes) || not (at_most req.size_bytes s.max_size_bytes)
      then raise invalid_upload_input
      else if not (is_allowed_mime to_lower s req.content_type)
      then raise invalid_upload_input
      else start_upload req

  -- `Enqueue` of the transcoder: a send to a channel of this capacity that does not wait.
  unfoldable pub enqueue : ℕ → Text → Exec X (Unit {0})
  enqueue capacity id = do
    jobs ← gets (λ w. w.jobs)
    if is_empty (trim_space id)
        then raise job_without_id
        else if not (ltb (length jobs) capacity)
        then raise queue_full
        else modify (λ w. record w { jobs = w.jobs ++ (trim_space id ∷ []) })

  abbrev head_or_error : Result ObjectHead → Exec X ObjectHead
  head_or_error (ok h) = pure h
  head_or_error (err e) = raise (head_error e)

  -- `HeadObject` with the handling of its error.
  unfoldable pub uploaded_head : Text → Exec X ObjectHead
  uploaded_head key = do r ← attempt (head ext s.storage key); head_or_error r

  -- What follows the error of `Enqueue`: the error of the UPDATE is dropped.
  abbrev give_up_on_error : Text → Result (Unit {0}) → Exec X (Unit {0})
  give_up_on_error id (ok a) = pure a
  give_up_on_error id (err e) = do attempt (update_status ext id media_failed); raise e

  -- From the test of `s.transcoder` on.
  unfoldable pub hand_over : Text → Option ℕ → Exec X MediaStatus
  hand_over id none = pure media_uploaded
  hand_over id (some capacity) = do
    update_status ext id media_processing
    r ← attempt (enqueue capacity id)
    give_up_on_error id r
    pure media_processing

  -- What is done with the object that was found.
  unfoldable pub accept_object : Media → ObjectHead → Exec X (Text × MediaStatus)
  accept_object media h =
      if not (is_pos h.content_length)
      then raise invalid_upload_input
      else if not (is_allowed_mime to_lower s h.content_type)
      then raise invalid_upload_input
      else do
        update_upload_state ext media.id media_uploaded h.content_length
            (normalize_mime to_lower h.content_type)
        status ← hand_over media.id s.transcoder
        pure (media.id, status)

  unfoldable pub complete_upload : Text → Text → Exec X (Text × MediaStatus)
  complete_upload owner media_id =
      if has_blank owner media_id then raise invalid_upload_input else do
        media ← get_by_id ext media_id
        if not (text_eq media.owner_user_id owner)
            then raise forbidden_media
            else do h ← uploaded_head media.storage_key; accept_object media h
