-- ===== src/Tests/Pipeline.antt =====
-- An upload and its transcoding.
use api_calixio.Prelude.{[], refl, some, true, ◌≡◌, find}
use api_calixio.Text.{codes, text_eq}
use api_calixio.Exec.{World, ok}
use api_calixio.Repository.MediaRows.{is_kept}
use api_calixio.Text.{split, join, is_space, trim_space, before}
use api_calixio.Text.FilePath.{path_join, clean, resolve}
use api_calixio.Repository.MediaRows.{get_by_id, update_kept, update_status, update_upload_state}
use api_calixio.Storage.Objects.{head}
use api_calixio.Upload.{normalize_mime, is_allowed_mime, object_key}
use api_calixio.Upload.{sanitize_filename}
use api_calixio.Repository.MediaRows.{create}
use api_calixio.Storage.Objects.{presign_put_object}
use api_calixio.Text.FilePath.{base}
use api_calixio.Tests.Outside.{Outside, ext}
use api_calixio.Tests.Uploads.{service, upload, owned, started, after_start, start_run}
use api_calixio.System.Pipeline.{upload_settles}
use api_calixio.Transcoder.Worker.{work}
use api_calixio.Transcoder.Worker.Effects.{is_final}
use api_calixio.Upload.Intake.{
  new_media_id, start_upload, init_upload, enqueue, uploaded_head, hand_over, accept_object,
  complete_upload,
}
use api_calixio.Records.{Media, media_processing}
use api_calixio.Hex.{hex}
use api_calixio.Prelude.{length}
use api_calixio.Tests.Worker.{machine, transcoder}

abbrev completed : World Outside
completed = (complete_upload ext (service true) (codes "u1") started.media_id after_start).1

completed_run :
    complete_upload ext (service true) (codes "u1") started.media_id after_start
    ≡ (ok (started.media_id, media_processing), completed)
unfolding init_upload start_upload new_media_id presign_put_object create sanitize_filename
    object_key is_allowed_mime normalize_mime before trim_space is_space base path_join clean
    resolve split join hex text_eq complete_upload uploaded_head accept_object hand_over enqueue
    head get_by_id update_upload_state update_status update_kept
completed_run = refl

upload_settles_example :
    (r : Media) × (media_processing ≡ media_processing)
    × (started.media_id ≡ started.media_id)
    × ((work ext machine transcoder (length completed.jobs) completed).1.jobs ≡ [])
    × (find
          (is_kept started.media_id)
          (work ext machine transcoder (length completed.jobs) completed).1.media
        ≡ some r)
    × (is_final r.status ≡ true)
upload_settles_example =
    upload_settles ext machine transcoder (service true) 2 upload owned after_start after_start
      completed started (codes "u1") started.media_id media_processing refl start_run completed_run
      (λ x. refl)
