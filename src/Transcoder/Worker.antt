-- ===== src/Transcoder/Worker.antt =====
-- The worker of internal/service/media_transcoder.go: the jobs of its queue, one after the other,
-- and for each the directories that it tries.
pub mod Effects
pub mod Settled
use api_calixio.Prelude.{ℕ, zero, suc, Bool, true, false, not, ◌&&◌, List, [], ◌∷◌, if◌then◌else◌}
use api_calixio.Text.{Text, codes, is_empty, trim_space}
use api_calixio.Integer.{ℤ, pos, is_pos}
use api_calixio.Records.{Media, media_failed}
use api_calixio.External.{External}
use api_calixio.Machine.{Machine}
use api_calixio.Exec.{
  Exec, World, Error, Result, ok, err, no_workspace, pure, raise, gets, modify, attempt, call,
  ◌>>=◌, ◌>>◌,
}
use api_calixio.Repository.MediaRows.{get_by_id, update_status}
use api_calixio.Storage.Objects.{StorageService}
use api_calixio.Transcoder.Workspaces.{temp_base_dirs}
use api_calixio.Transcoder.Commands.{TranscoderService, is_no_space}
use api_calixio.Transcoder.Processing.{make_temp_workspace, process_in_workspace}

-- The fields of `NewMediaTranscoderServiceInput` but for the tables and the logger.
pub record NewTranscoderInput : Type 0 where
  pub storage : StorageService
  pub ffmpeg_path : Text
  pub ffprobe_path : Text
  pub work_dir : Text
  pub segment_duration : ℤ
  pub queue_size : ℤ
  pub job_timeout : ℤ

abbrev or_text : Text → Text → Text
or_text t fallback = if is_empty t then fallback else t

abbrev or_positive : ℤ → ℕ → ℤ
or_positive n fallback = if is_pos n then n else pos fallback

-- `idx < len(baseDirs)-1`
abbrev pub has_more : List Text → Bool
has_more [] = false
has_more (d ∷ ds) = true

module _ (ext : External) (m : Machine ext.X) where
  open ext use {X}
  open m use {temp_dir, remove_all, look_path}

  -- `NewMediaTranscoderService`; a duration is in nanoseconds.
  unfoldable pub new_transcoder : NewTranscoderInput → Exec X TranscoderService
  new_transcoder input = do
    let ffmpeg = or_text (trim_space input.ffmpeg_path) (codes "ffmpeg")
    let ffprobe = or_text (trim_space input.ffprobe_path) (codes "ffprobe")
    call (look_path ffmpeg)
    call (look_path ffprobe)
    pure (record {
      storage = input.storage;
      ffmpeg_path = ffmpeg;
      ffprobe_path = ffprobe;
      work_dir = trim_space input.work_dir;
      segment_duration = or_positive input.segment_duration 6;
      queue_size = or_positive input.queue_size 32;
      job_timeout = or_positive input.job_timeout 7200000000000;
    })

  module _ (s : TranscoderService) where
    -- One directory: a workspace is made, used and removed.
    unfoldable pub try_dir : Media → Text → Exec X (Unit {0})
    try_dir media base_dir = do
      tmp ← make_temp_workspace ext m base_dir
      r ← attempt (process_in_workspace ext m s media tmp)
      attempt (call (remove_all tmp))
      elim r [ ok u ↦ pure u | err e ↦ raise e ]

    -- The loop over the directories: only a full directory leads on to the next one.
    unfoldable pub try_dirs : Media → List Text → Exec X (Unit {0})
    try_dirs media [] = raise no_workspace
    try_dirs media (d ∷ ds) = do
      r ← attempt (try_dir media d)
      elim r [
        | ok u ↦ pure u
        | err e ↦ if is_no_space ext m e && has_more ds then try_dirs media ds else raise e
      ]

    unfoldable pub process_media : Text → Exec X (Unit {0})
    process_media id = do
      media ← get_by_id ext id
      temp ← gets (λ w. temp_dir w.outside)
      try_dirs media (temp_base_dirs s.work_dir temp)

    -- The body of the worker's loop; both errors are logged.
    unfoldable pub handle_job : Text → Exec X (Unit {0})
    handle_job id = do
      r ← attempt (process_media id)
      elim r [ ok u ↦ pure u | err e ↦ do attempt (update_status ext id media_failed); pure tt ]

    -- One turn of `for mediaID := range s.jobQueue`; on an empty queue it would wait.
    unfoldable pub take_job : Exec X (Unit {0})
    take_job w = elim w.jobs [
      | [] ↦ (ok tt, w)
      | id ∷ ids ↦ handle_job id (record w { jobs = ids })
    ]

    -- So many turns.
    unfoldable pub work : ℕ → Exec X (Unit {0})
    work zero = pure tt
    work (suc n) = do take_job; work n
