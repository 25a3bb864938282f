-- ===== src/Transcoder/Processing/Frame.antt =====
-- What a transcoding leaves alone: it changes files, objects and time, and no table before its end.
use api_calixio.Prelude.{ℕ, Bool, true, false, List, [], ◌∷◌, refl, arith}
use api_calixio.Text.{Text}
use api_calixio.Records.{Media}
use api_calixio.External.{External}
use api_calixio.Machine.{Machine}
use api_calixio.Exec.{Exec}
use api_calixio.Exec.Quiet.{IsApart, IsQuiet, IsApart-trans}
use api_calixio.Storage.Objects.{StorageService}
use api_calixio.Storage.Files.{download_object_to_file, upload_file_with, upload_file_public}
use api_calixio.Transcoder.Retry.{with_retry-keeps}
use api_calixio.Transcoder.Commands.{
  TranscoderService, run_ffmpeg, run_ffmpeg_hls, probe_duration_sec,
}
use api_calixio.Transcoder.Processing.{
  fn_of, sleep_of, make_temp_workspace, retried, create_and_upload_preview, upload_entry,
  upload_entries, upload_hls_output, transcode,
}

module _ (ext : External) (m : Machine ext.X) where
  open ext use {X}

  download-IsQuiet :
      (s : StorageService) (key path : Text) → IsQuiet (download_object_to_file ext s m key path)
  unfolding download_object_to_file
  download-IsQuiet s key path w = ground arith

  upload-IsQuiet :
      (s : StorageService) (key kind path : Text)
      → IsQuiet (upload_file_public ext s m key kind path)
  unfolding upload_file_public upload_file_with
  upload-IsQuiet s key kind path w = ground arith

  pub make_temp_workspace-IsQuiet : (base_dir : Text) → IsQuiet (make_temp_workspace ext m base_dir)
  unfolding make_temp_workspace
  make_temp_workspace-IsQuiet base_dir w = ground arith

  retried-IsQuiet : (fn : Exec X (Unit {0})) → IsQuiet fn → IsQuiet (retried ext m fn)
  unfolding retried
  retried-IsQuiet fn q w =
      with_retry-keeps _ (fn_of ext m fn) (sleep_of ext m) (IsApart w)
        (λ u h. IsApart-trans w u (fn u).1 h (q u))
        (λ d u h. IsApart-trans w u (sleep_of ext m d u).1 h refl) w refl

  module _ (s : TranscoderService) where
    run_ffmpeg-IsQuiet : (args : List Text) (max : ℕ) → IsQuiet (run_ffmpeg ext m s args max)
    unfolding run_ffmpeg
    run_ffmpeg-IsQuiet args max w = ground arith

    probe_duration_sec-IsQuiet : (src : Text) → IsQuiet (probe_duration_sec ext m s src)
    unfolding probe_duration_sec
    probe_duration_sec-IsQuiet src w = ground arith

    retried_upload-IsQuiet :
        (key kind path : Text)
        → IsQuiet (retried ext m (upload_file_public ext s.storage m key kind path))
    retried_upload-IsQuiet key kind path =
        retried-IsQuiet _ (upload-IsQuiet s.storage key kind path)

    preview-IsQuiet :
        (src preview : Text) (media : Media)
        → IsQuiet (create_and_upload_preview ext m s src preview media)
    unfolding create_and_upload_preview
    preview-IsQuiet src preview media w = grind (arith, run_ffmpeg-IsQuiet, retried_upload-IsQuiet)

    upload_entries-IsQuiet :
        (hls_dir prefix : Text) (es : List (Text × Bool))
        → IsQuiet (upload_entries ext m s hls_dir prefix es)
    unfolding upload_entries upload_entry
    upload_entries-IsQuiet hls_dir prefix [] w = refl
    upload_entries-IsQuiet hls_dir prefix ((name, true) ∷ es) w =
        upload_entries-IsQuiet hls_dir prefix es w
    upload_entries-IsQuiet hls_dir prefix ((name, false) ∷ es) w =
        grind (arith, upload_entries-IsQuiet hls_dir prefix es, retried_upload-IsQuiet)

    upload_hls_output-IsQuiet :
        (hls_dir prefix : Text) → IsQuiet (upload_hls_output ext m s hls_dir prefix)
    unfolding upload_hls_output
    upload_hls_output-IsQuiet hls_dir prefix w = grind (arith, upload_entries-IsQuiet)

    retried_download-IsQuiet :
        (key path : Text)
        → IsQuiet (retried ext m (download_object_to_file ext s.storage m key path))
    retried_download-IsQuiet key path = retried-IsQuiet _ (download-IsQuiet s.storage key path)

    pub transcode-IsQuiet : (media : Media) (tmp : Text) → IsQuiet (transcode ext m s media tmp)
    unfolding transcode run_ffmpeg_hls
    transcode-IsQuiet media tmp w = grind (
      arith, retried_download-IsQuiet, probe_duration_sec-IsQuiet, run_ffmpeg-IsQuiet,
      preview-IsQuiet, upload_hls_output-IsQuiet,
    )
