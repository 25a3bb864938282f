-- ===== src/Tests/Uploads.antt =====
-- Uploads, playlists, deletion and the cleanup.
use api_calixio.Prelude.{
  Bool, true, false, none, some, List, [], ◌∷◌, ◌++◌, ◌≡◌, refl, find, any, all,
}
use api_calixio.Text.{Text, codes, text_eq, split, join, is_space, trim_space, has_prefix, before}
use api_calixio.Text.FilePath.{path_join, clean, resolve, dir}
use api_calixio.Integer.{pos, is_pos, at_most}
use api_calixio.Records.{
  Media, MediaStatus, media_uploading, media_processing, media_ready, is_media_ready,
}
use api_calixio.External.{ObjectHead}
use api_calixio.Exec.{World, ok, got}
use api_calixio.Repository.MediaRows.{
  is_kept, get_by_id, update_kept, update_status, update_upload_state,
}
use api_calixio.Storage.Objects.{StorageService, head, presign_get_object, get_object_bytes}
use api_calixio.Upload.{UploadService, normalize_mime, is_allowed_mime, object_key}
use api_calixio.Upload.Intake.{complete_upload, uploaded_head, accept_object, hand_over, enqueue}
use api_calixio.Upload.Intake.Completion.{IsHandedOver, complete_upload-ok}
use api_calixio.Upload.Playback.{
  CacheFormats, PlaybackCacheRecord, PlaybackOutput, is_kept_line, line_feed, sign_line, sign_lines,
  sign_manifest, build_playback, build_manifest_proxy_url, cached_record, fresh_playback,
  get_playback,
}
use api_calixio.Upload.Playback.Manifest.{IsSigned, sign_manifest-IsSigned}
use api_calixio.Upload.Playback.Cached.{get_playback-owner}
use api_calixio.Upload.Intake.{
  InitUploadInput, InitUploadOutput, new_media_id, start_upload, init_upload,
}
use api_calixio.Upload.Intake.Start.{init_upload-ok}
use api_calixio.Upload.{sanitize_filename}
use api_calixio.Repository.MediaRows.{create, media_conflicts}
use api_calixio.Storage.Objects.{presign_put_object}
use api_calixio.Text.FilePath.{base}
use api_calixio.Hex.{hex}
use api_calixio.Tests.Outside.{Outside, ext, start}

abbrev pub film : MediaStatus → Media
film status = record {
  id = codes "m1";
  owner_user_id = codes "u1";
  title = codes "film";
  original_name = codes "film.mp4";
  storage_key = codes "k";
  playback_url = [];
  preview_url = none;
  duration_sec = none;
  file_size_bytes = pos 9;
  mime_type = codes "video/mp4";
  status = status;
  created_at = 3;
  deleted_at = none;
}

abbrev pub world : MediaStatus → World Outside
world status = record {
  users = [];
  sessions = [];
  rooms = [];
  media = film status ∷ [];
  jobs = [];
  outside = start;
}

abbrev pub storage : StorageService
storage = record { bucket = codes "b"; region = []; endpoint = []; public_url = [] }

abbrev pub service : Bool → UploadService
service cached = record {
  storage = storage;
  transcoder = some 2;
  has_cache = cached;
  max_size_bytes = 1000;
  allowed_mime_types = codes "video/mp4" ∷ [];
  presign_ttl = pos 5;
  playback_ttl = pos 5;
}

abbrev after_complete : World Outside
after_complete =
    (complete_upload ext (service true) (codes "u1") (codes "m1") (world media_uploading)).1

complete_run :
    complete_upload ext (service true) (codes "u1") (codes "m1") (world media_uploading)
    ≡ (ok (codes "m1", media_processing), after_complete)
unfolding complete_upload uploaded_head accept_object hand_over enqueue head get_by_id
    update_upload_state update_status update_kept is_allowed_mime normalize_mime before trim_space
    is_space text_eq
complete_run = refl

complete_upload-ok_example :
    (m : Media) × (h : ObjectHead) × (find (is_kept (codes "m1")) (world media_uploading).media
      ≡ some m)
    × (m.owner_user_id ≡ codes "u1")
    × ((uploaded_head ext
          (service true)
          m.storage_key
          (get_by_id ext (codes "m1") (world media_uploading)).1).0
        ≡ ok h)
    × (is_pos h.content_length ≡ true)
    × (is_allowed_mime ext.to_lower (service true) h.content_type ≡ true)
    × (codes "m1" ≡ m.id)
    × IsHandedOver ext (service true) (some 2) m.id [] after_complete.jobs media_processing
complete_upload-ok_example =
    complete_upload-ok ext (service true) (codes "u1") (codes "m1") (world media_uploading)
      after_complete (codes "m1") media_processing complete_run

abbrev playlist : Text
playlist = codes "#E" ++ (line_feed ∷ codes "s.ts")

abbrev signed_playlist : Text
signed_playlist = codes "#E" ++ (line_feed ∷ codes "d/s.ts")

abbrev after_sign : World Outside
after_sign = (sign_manifest ext (service true) (codes "d") playlist (pos 5) (world media_ready)).1

sign_run :
    sign_manifest ext (service true) (codes "d") playlist (pos 5) (world media_ready)
    ≡ (ok signed_playlist, after_sign)
unfolding sign_manifest sign_lines sign_line is_kept_line presign_get_object split join trim_space
    is_space has_prefix path_join clean resolve text_eq
sign_run = refl

sign_manifest-IsSigned_example :
    (lines : List Text) × (signed_playlist ≡ join lines line_feed)
    × IsSigned ext (service true) (codes "d") (pos 5) (split playlist line_feed) lines
sign_manifest-IsSigned_example =
    sign_manifest-IsSigned ext (service true) (codes "d") playlist (pos 5) (world media_ready)
      after_sign signed_playlist sign_run

all_kept : all is_kept_line (split (codes "#E") line_feed) ≡ true
unfolding is_kept_line split trim_space is_space has_prefix
all_kept = refl

-- A cache whose records are all read as this one.
abbrev pub hit : PlaybackCacheRecord
hit = record {
  media_id = codes "m1";
  status = codes "ready";
  manifest = codes "x";
  preview_url = none;
  expires_at = [];
}

abbrev pub formats : CacheFormats
formats = record {
  encode = λ r. got (codes "r");
  decode = λ p. got hit;
  format_time = λ t. t ∷ [];
  parse_time = λ p. got 105;
}

abbrev pub played : PlaybackOutput
played = record {
  media_id = codes "m1";
  status = codes "ready";
  manifest = codes "#EXTM3U";
  manifest_url = none;
  preview_url = some (codes "users/u1/media/m1/preview/preview.jpg");
  expires_at = 105;
}

abbrev after_play : World Outside
after_play =
    (get_playback ext (service false) formats (codes "u1") (codes "m1") (world media_ready)).1

play_run :
    get_playback ext (service false) formats (codes "u1") (codes "m1") (world media_ready)
    ≡ (ok played, after_play)
unfolding get_playback cached_record fresh_playback build_playback build_manifest_proxy_url
    get_by_id get_object_bytes presign_get_object sign_manifest sign_lines sign_line is_kept_line
    object_key split join trim_space is_space has_prefix path_join clean resolve dir text_eq
play_run = refl

no_hit : (cached_record ext (service false) formats (codes "m1") (world media_ready)).0 ≡ ok none
unfolding cached_record
no_hit = refl

get_playback-owner_example :
    (m : Media) × (find (is_kept (codes "m1")) (world media_ready).media ≡ some m)
    × (m.owner_user_id ≡ codes "u1")
    × (is_media_ready m.status ≡ true)
get_playback-owner_example =
    get_playback-owner ext (service false) formats (codes "u1") (codes "m1") (world media_ready)
      after_play played no_hit play_run

abbrev pub owned : World Outside
owned = record (world media_uploading) {
  users =
      record {
        id = codes "u1";
        name = codes "ann";
        email = codes "a@b";
        email_confirmed = false;
        password_hash = [];
        created_at = 1;
      }
      ∷ [];
}

abbrev pub upload : InitUploadInput
upload = record {
  owner_user_id = codes "u1";
  file_name = codes "my film.mp4";
  content_type = codes "video/mp4";
  size_bytes = pos 12;
}

abbrev pub started : InitUploadOutput
started = record {
  media_id = codes "media_64";
  storage_key = codes "users/u1/media/media_64/original/my_film.mp4";
  upload_url = codes "users/u1/media/media_64/original/my_film.mp4";
}

abbrev pub after_start : World Outside
after_start = (init_upload ext (service true) upload owned).1

pub start_run : init_upload ext (service true) upload owned ≡ (ok started, after_start)
unfolding init_upload start_upload new_media_id presign_put_object create sanitize_filename
    object_key is_allowed_mime normalize_mime before trim_space is_space base path_join clean
    resolve split join hex text_eq
start_run = refl

init_upload-ok_example :
    (m : Media) × (is_pos upload.size_bytes ≡ true)
    × (at_most upload.size_bytes (service true).max_size_bytes ≡ true)
    × (is_allowed_mime ext.to_lower (service true) upload.content_type ≡ true)
    × (any (media_conflicts m) owned.media ≡ false)
    × (after_start.media ≡ owned.media ++ (m ∷ []))
    × (m.owner_user_id ≡ codes "u1")
    × (m.status ≡ media_uploading)
    × (m.id ≡ started.media_id)
    × (m.storage_key ≡ started.storage_key)
    × (started.storage_key
        ≡ object_key
            (codes "u1")
            started.media_id
            (codes "original")
            (sanitize_filename (codes "my film.mp4")))
init_upload-ok_example =
    init_upload-ok ext (service true) upload owned after_start started start_run
