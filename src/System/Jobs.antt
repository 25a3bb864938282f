-- ===== src/System/Jobs.antt =====
-- The worker of the transcoder: what a turn writes.
use api_calixio.Prelude.{List, [], ◌∷◌, arith, ap, some}
use api_calixio.Text.{Text}
use api_calixio.Records.{Media, media_ready, media_failed}
use api_calixio.External.{External}
use api_calixio.Machine.{Machine}
use api_calixio.Exec.{Exec}
use api_calixio.Exec.Quiet.{IsQuiet}
use api_calixio.Repository.MediaRows.{get_by_id, update_transcode_result}
use api_calixio.Transcoder.Workspaces.{temp_base_dirs}
use api_calixio.Transcoder.Commands.{TranscoderService}
use api_calixio.Transcoder.Processing.{make_temp_workspace, transcode, process_in_workspace}
use api_calixio.Transcoder.Processing.Frame.{make_temp_workspace-IsQuiet, transcode-IsQuiet}
use api_calixio.Transcoder.Worker.{try_dir, try_dirs, process_media, handle_job, take_job}
use api_calixio.System.Changes.{tables, IsTraced, bind-IsTraced, transcoded}
use api_calixio.System.Statements.{update_kept-IsTraced}
use api_calixio.System.Kept.{kept-IsTraced}
use api_calixio.System.Uploads.{get_by_id-IsKept}
use api_calixio.System.MediaItems.{update_status-IsTraced}

quiet-IsTraced : {X A : Type 0} (m : Exec X A) → IsQuiet m → IsTraced m
quiet-IsTraced m q = kept-IsTraced m (λ w. ap tables (q w))

module _ (ext : External) (m : Machine ext.X) (s : TranscoderService) where
  open ext use {X}

  process_in_workspace-IsTraced :
      (media : Media) (tmp : Text) → IsTraced (process_in_workspace ext m s media tmp)
  unfolding process_in_workspace update_transcode_result
  process_in_workspace-IsTraced media tmp =
      bind-IsTraced (transcode ext m s media tmp) _
        (quiet-IsTraced (transcode ext m s media tmp) (transcode-IsQuiet ext m s media tmp))
        (λ r. update_kept-IsTraced ext media.id (transcoded r.0 (some r.1) (some r.2) media_ready))

  try_dir-IsTraced : (media : Media) (dir : Text) → IsTraced (try_dir ext m s media dir)
  unfolding try_dir
  try_dir-IsTraced media dir =
      bind-IsTraced (make_temp_workspace ext m dir) _
        (quiet-IsTraced (make_temp_workspace ext m dir) (make_temp_workspace-IsQuiet ext m dir))
        (λ tmp t v h. let done = process_in_workspace-IsTraced media tmp t v h in ground arith)

  try_dirs-IsTraced : (media : Media) (dirs : List Text) → IsTraced (try_dirs ext m s media dirs)
  unfolding try_dirs
  try_dirs-IsTraced media [] t w h = h
  try_dirs-IsTraced media (d ∷ ds) t w h =
      let u = (try_dir ext m s media d w).1 in
      let p = try_dir-IsTraced media d t w h in
      let rest = try_dirs-IsTraced media ds t u p in ground arith

  process_media-IsTraced : (id : Text) → IsTraced (process_media ext m s id)
  unfolding process_media
  process_media-IsTraced id =
      bind-IsTraced (get_by_id ext id) _
        (kept-IsTraced (get_by_id ext id) (get_by_id-IsKept ext id))
        (λ media t v h.
          try_dirs-IsTraced media (temp_base_dirs s.work_dir (m.temp_dir v.outside)) t v h)

  handle_job-IsTraced : (id : Text) → IsTraced (handle_job ext m s id)
  unfolding handle_job
  handle_job-IsTraced id t w h =
      let u = (process_media ext m s id w).1 in
      let p = process_media-IsTraced id t w h in
      let marked = update_status-IsTraced ext id media_failed t u p in ground arith

  pub take_job-IsTraced : IsTraced (take_job ext m s)
  unfolding take_job
  take_job-IsTraced t w h = grind (arith, handle_job-IsTraced)
