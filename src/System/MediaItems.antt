-- ===== src/System/MediaItems.antt =====
-- The methods of the services that write the table of media items, and the worker.
use api_calixio.Prelude.{Option, none, some, Bool-cases, inl, inr, ℕ, arith}
use api_calixio.Text.{Text, text_eq}
use api_calixio.Records.{Media, MediaStatus, media_processing, media_failed}
use api_calixio.External.{External, ObjectHead}
use api_calixio.Integer.{ℤ}
use api_calixio.Exec.{Result-cases}
use api_calixio.Repository.MediaRows.{get_by_id, update_upload_state, update_status, soft_delete}
use api_calixio.Storage.Objects.{presign_put_object}
use api_calixio.Upload.{UploadService, has_blank}
use api_calixio.Upload.Intake.{
  InitUploadInput, new_media_id, start_upload, init_upload, enqueue, hand_over, accept_object,
  complete_upload,
}
use api_calixio.Upload.Deletion.{delete_objects_of, delete_media}
use api_calixio.System.Changes.{IsTraced, bind-IsTraced, upload_stated, status_set, deleted}
use api_calixio.System.Statements.{create-IsTraced, update_kept-IsTraced}
use api_calixio.System.Kept.{IsKept, kept-IsTraced}
use api_calixio.System.Uploads.{
  get_by_id-IsKept, uploaded_head-IsKept, delete_objects-IsKept, forget_playback-IsKept,
}

module _ (ext : External) where
  open ext use {X}

  update_upload_state-IsTraced :
      (id : Text) (status : MediaStatus) (size : ℤ) (mime : Text)
      → IsTraced (update_upload_state ext id status size mime)
  unfolding update_upload_state
  update_upload_state-IsTraced id status size mime =
      update_kept-IsTraced ext id (upload_stated status size mime)

  pub update_status-IsTraced :
      (id : Text) (status : MediaStatus) → IsTraced (update_status ext id status)
  unfolding update_status
  update_status-IsTraced id status = update_kept-IsTraced ext id (status_set status)

  soft_delete-IsTraced : (id : Text) (t : ℕ) → IsTraced (soft_delete ext id t)
  unfolding soft_delete
  soft_delete-IsTraced id t = update_kept-IsTraced ext id (deleted t)

  module _ (u : UploadService) where
    pub new_media_id-IsKept : IsKept (new_media_id ext u)
    unfolding new_media_id
    new_media_id-IsKept w = ground arith

    pub presign-IsKept :
        (key mime : Text) (ttl : ℤ) → IsKept (presign_put_object ext u.storage key mime ttl)
    unfolding presign_put_object
    presign-IsKept key mime ttl w = ground arith

    start_upload-IsTraced : (req : InitUploadInput) → IsTraced (start_upload ext u req)
    unfolding start_upload
    start_upload-IsTraced req s w h =
        grind (arith, new_media_id-IsKept, presign-IsKept, create-IsTraced ext)

    pub init_upload-IsTraced : (req : InitUploadInput) → IsTraced (init_upload ext u req)
    unfolding init_upload
    init_upload-IsTraced req s w h = grind (arith, start_upload-IsTraced)

    pub enqueue-IsKept : (capacity : ℕ) (id : Text) → IsKept (enqueue ext u capacity id)
    unfolding enqueue
    enqueue-IsKept capacity id w = ground arith

    hand_over-IsTraced : (id : Text) (q : Option ℕ) → IsTraced (hand_over ext u id q)
    unfolding hand_over
    hand_over-IsTraced id none s w h = h
    hand_over-IsTraced id (some c) s w h =
        bind-IsTraced (update_status ext id media_processing) _
          (update_status-IsTraced id media_processing)
          (λ a t v g.
            let x = (enqueue ext u c id v).1 in
            let sent = kept-IsTraced (enqueue ext u c id) (enqueue-IsKept c id) t v g in
            let marked = update_status-IsTraced id media_failed t x sent in ground arith)
          s w h

    accept_object-IsTraced : (m : Media) (o : ObjectHead) → IsTraced (accept_object ext u m o)
    unfolding accept_object
    accept_object-IsTraced m o s w h =
        grind (arith, update_upload_state-IsTraced, hand_over-IsTraced)

    pub complete_upload-IsTraced : (o id : Text) → IsTraced (complete_upload ext u o id)
    unfolding complete_upload
    complete_upload-IsTraced o id s w h =
        grind (arith, get_by_id-IsKept ext, uploaded_head-IsKept ext u, accept_object-IsTraced)

    pub delete_media-IsTraced : (o id : Text) → IsTraced (delete_media ext u o id)
    unfolding delete_media
    delete_media-IsTraced o id s w h =
        let v = (get_by_id ext id w).1 in
        let g = kept-IsTraced (get_by_id ext id) (get_by_id-IsKept ext id) s w h in
        elim (Bool-cases (has_blank o id)) [
          | inl blank ↦ rw (blank, delete_media) h
          | inr full ↦ elim (Result-cases (get_by_id ext id w).0) [
            | inr (e, bad) ↦ rw (full, bad, delete_media) g
            | inl (m, hit) ↦ elim (Bool-cases (text_eq m.owner_user_id o)) [
              | inr other ↦ rw (full, hit, other, delete_media) g
              | inl same ↦
                  let d =
                    kept-IsTraced (delete_objects_of ext u m) (delete_objects-IsKept ext u m) s v
                      g in
                  rw (full, hit, same, delete_media)
                    (grind (arith, soft_delete-IsTraced, forget_playback-IsKept ext u))
            ]
          ]
        ]
