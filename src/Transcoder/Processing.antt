-- ===== src/Transcoder/Processing.antt =====
-- One attempt to transcode a file in a workspace: internal/service/media_transcoder.go.
pub mod Frame
use api_calixio.Prelude.{
  ℕ, Bool, true, false, Option, none, some, List, [], ◌∷◌, ◌++◌, if◌then◌else◌,
}
use api_calixio.Text.{Text, codes, has_suffix}
use api_calixio.Text.FilePath.{path_join, extension}
use api_calixio.Integer.{ℤ}
use api_calixio.Records.{Media, media_ready}
use api_calixio.External.{External}
use api_calixio.Machine.{Machine}
use api_calixio.Exec.{
  Exec, World, Error, Result, ok, err, context_done, context_done_after, pure, call, ◌>>=◌, ◌>>◌,
}
use api_calixio.Repository.MediaRows.{update_transcode_result}
use api_calixio.Storage.Objects.{generate_object_url}
use api_calixio.Storage.Files.{download_object_to_file, upload_file_public}
use api_calixio.Transcoder.Retry.{Outcome, finished, gave_up, interrupted, with_retry}
use api_calixio.Transcoder.Commands.{
  TranscoderService, run_ffmpeg, run_ffmpeg_hls, preview_args, probe_duration_sec,
  is_context_failure,
}

abbrev pub content_type_of : Text → Text
content_type_of name =
    if has_suffix name (codes ".m3u8")
    then codes "application/vnd.apple.mpegurl"
    else if has_suffix name (codes ".ts")
    then codes "video/mp2t"
    else codes "application/octet-stream"

abbrev media_path : Media → List Text → Text
media_path media rest =
    path_join (codes "users" ∷ media.owner_user_id ∷ codes "media" ∷ media.id ∷ rest)

module _ (ext : External) (m : Machine ext.X) where
  open ext use {X}
  open m use {done, sleep, mkdir_all, mkdir_temp, read_dir}

  unfoldable pub make_temp_workspace : Text → Exec X Text
  make_temp_workspace base_dir = do
    call (mkdir_all base_dir)
    call (mkdir_temp base_dir (codes "calixio-transcode-*"))

  -- `wrapContextOpError`, of the last error if there was one
  abbrev wrap_context_op_error : Option Error → Error
  wrap_context_op_error none = context_done
  wrap_context_op_error (some e) =
      if is_context_failure ext m e then context_done else context_done_after e

  abbrev outcome_result : Outcome Error → Result (Unit {0})
  outcome_result finished = ok tt
  outcome_result (gave_up e) = err e
  outcome_result (interrupted last) = err (wrap_context_op_error last)

  abbrev error_of : Result (Unit {0}) → Option Error
  error_of (ok u) = none
  error_of (err e) = some e

  abbrev fn_of : Exec X (Unit {0}) → World X → Option Error × World X
  fn_of fn w = let (r, v) = fn w in (error_of r, v)

  abbrev sleep_of : ℕ → World X → Bool × World X
  sleep_of d w = let (b, x) = sleep d w.outside in (b, record w { outside = x })

  -- `withRetry` on an operation of the service
  unfoldable pub retried : Exec X (Unit {0}) → Exec X (Unit {0})
  retried fn w =
      let (o, v) = with_retry (λ (u : World X). done u.outside) (fn_of fn) sleep_of w in
      (outcome_result o, v)

  module _ (s : TranscoderService) where
    unfoldable pub create_and_upload_preview : Text → Text → Media → Exec X Text
    create_and_upload_preview src preview media = do
      run_ffmpeg ext m s (preview_args src preview) 32768
      let key = media_path media (codes "preview" ∷ codes "preview.jpg" ∷ [])
      retried (upload_file_public ext s.storage m key (codes "image/jpeg") preview)
      pure (generate_object_url s.storage key)

    -- One entry of the directory; the flag is `entry.IsDir()`.
    unfoldable pub upload_entry : Text → Text → Text × Bool → Exec X (Unit {0})
    upload_entry hls_dir prefix (name, true) = pure tt
    upload_entry hls_dir prefix (name, false) = retried (
        upload_file_public ext s.storage m (path_join (prefix ∷ name ∷ [])) (content_type_of name)
          (path_join (hls_dir ∷ name ∷ [])))

    unfoldable pub upload_entries : Text → Text → List (Text × Bool) → Exec X (Unit {0})
    upload_entries hls_dir prefix [] = pure tt
    upload_entries hls_dir prefix (e ∷ es) = do
      upload_entry hls_dir prefix e
      upload_entries hls_dir prefix es

    unfoldable pub upload_hls_output : Text → Text → Exec X (Unit {0})
    upload_hls_output hls_dir prefix = do
      entries ← call (read_dir hls_dir)
      upload_entries hls_dir prefix entries

    -- Everything before the row is updated: the URLs of the manifest and of the preview, and the
    -- duration.
    unfoldable pub transcode : Media → Text → Exec X (Text × Text × ℤ)
    transcode media tmp = do
      let src = path_join (tmp ∷ (codes "input" ++ extension media.original_name) ∷ [])
      retried (download_object_to_file ext s.storage m media.storage_key src)
      duration ← probe_duration_sec ext m s src
      let hls_dir = path_join (tmp ∷ codes "hls" ∷ [])
      call (mkdir_all hls_dir)
      run_ffmpeg_hls ext m s src (path_join (hls_dir ∷ codes "index.m3u8" ∷ []))
          (path_join (hls_dir ∷ codes "segment_%05d.ts" ∷ [])) duration
      preview ← create_and_upload_preview src (path_join (tmp ∷ codes "preview.jpg" ∷ [])) media
      let prefix = media_path media (codes "hls" ∷ [])
      upload_hls_output hls_dir prefix
      pure (
        generate_object_url s.storage (path_join (prefix ∷ codes "index.m3u8" ∷ [])),
        preview,
        duration,
      )

    unfoldable pub process_in_workspace : Media → Text → Exec X (Unit {0})
    process_in_workspace media tmp = do
      r ← transcode media tmp
      update_transcode_result ext media.id r.0 (some r.1) (some r.2) media_ready
