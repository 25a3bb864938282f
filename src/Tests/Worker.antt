-- ===== src/Tests/Worker.antt =====
-- A run of the transcoder.
use api_calixio.Prelude.{
  ℕ, Bool, true, false, Option, none, some, List, [], ◌∷◌, ◌++◌, ◌≡◌, refl, ◌==◌,
}
use api_calixio.Text.{codes, text_eq, trim_space, join, split}
use api_calixio.Text.FilePath.{clean}
use api_calixio.Integer.{ℤ, pos}
use api_calixio.Records.{Media, media_processing, is_media_ready}
use api_calixio.Exec.{World, got}
use api_calixio.Machine.{Machine}
use api_calixio.Repository.MediaRows.{
  get_by_id, update_kept, update_status, update_transcode_result,
}
use api_calixio.Storage.Files.{download_object_to_file, upload_file_with, upload_file_public}
use api_calixio.Transcoder.Retry.{attempts, with_retry}
use api_calixio.Transcoder.Workspaces.{temp_base_dirs, add_dir}
use api_calixio.Transcoder.Commands.{
  TranscoderService, run_ffmpeg, run_ffmpeg_hls, probe_duration_sec,
}
use api_calixio.Transcoder.Processing.{
  make_temp_workspace, retried, create_and_upload_preview, upload_entry, upload_entries,
  upload_hls_output, transcode, process_in_workspace,
}
use api_calixio.Transcoder.Worker.{try_dir, try_dirs, process_media, handle_job, take_job, work}
use api_calixio.Transcoder.Worker.Settled.{IsSettledBehind, work_settles}
use api_calixio.Tests.Outside.{Outside, ext}
use api_calixio.Tests.Uploads.{world, storage}

-- A machine on which everything works and each command writes `12`.
abbrev pub machine : Machine Outside
machine = record {
  done = λ x. false;
  sleep = λ d x. (true, x);
  is_context_error = λ n. false;
  is_enospc = λ n. n == 28;
  message = λ n. [];
  temp_dir = λ x. codes "/tmp";
  look_path = λ p x. (got p, x);
  mkdir_all = λ d x. (got tt, x);
  mkdir_temp = λ d p x. (got (d ++ codes "/w"), x);
  remove_all = λ d x. (got tt, x);
  create_file = λ p x. (got tt, x);
  copy_to_file = λ p b x. (got tt, x);
  read_file = λ p x. (got (codes "bytes"), x);
  read_dir = λ d x. (got ((codes "index.m3u8", false) ∷ (codes "old", true) ∷ []), x);
  run =
      λ p args x. (record { error = none; killed = false; stderr = []; combined = codes "12" }, x);
  decode_utf8 = λ t. t;
  Float = ℕ;
  parse_float = λ t. got 12;
  float_at_most_zero = λ n. n == 0;
  round = pos;
}

abbrev pub transcoder : TranscoderService
transcoder = record {
  storage = storage;
  ffmpeg_path = codes "ffmpeg";
  ffprobe_path = codes "ffprobe";
  work_dir = codes "/work";
  segment_duration = pos 6;
  queue_size = pos 2;
  job_timeout = pos 9;
}

abbrev queued : World Outside
queued = record (world media_processing) { jobs = codes "m1" ∷ codes "gone" ∷ [] }

work_settles_example :
    IsSettledBehind (codes "m1" ∷ codes "gone" ∷ []) queued (work ext machine transcoder 2 queued).1
work_settles_example = work_settles ext machine transcoder queued (λ x. refl)

abbrev statuses : List Media → List (Bool × Option ℤ)
statuses [] = []
statuses (m ∷ ms) = (is_media_ready m.status, m.duration_sec) ∷ statuses ms

-- The first job is done, the second one has no row.
work_run : statuses (work ext machine transcoder 2 queued).1.media ≡ (true, some (pos 12)) ∷ []
unfolding work take_job handle_job process_media try_dirs try_dir process_in_workspace transcode
    upload_hls_output upload_entries upload_entry create_and_upload_preview retried
    make_temp_workspace run_ffmpeg run_ffmpeg_hls probe_duration_sec temp_base_dirs add_dir attempts
    with_retry download_object_to_file upload_file_with upload_file_public get_by_id update_kept
    update_status update_transcode_result text_eq trim_space clean join split
work_run = refl
