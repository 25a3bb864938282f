-- ===== src/Upload/Intake/Completion.antt =====
-- Completing an upload.
use api_calixio.Prelude.{
  ℕ, ◌≤◌, true, false, Option, none, some, List, [], ◌∷◌, ◌++◌, ◌≡◌, refl, ap, sym, subst, ◌∙◌,
  arith, find, any, ltb, length, length-append,
}
use api_calixio.Text.{Text, text_eq, is_empty, trim_space}
use api_calixio.Text.Laws.{text_eq→eq}
use api_calixio.Integer.{ℤ, is_pos}
use api_calixio.Records.{Media, MediaStatus, media_uploaded, media_processing, media_failed}
use api_calixio.External.{External, ObjectHead}
use api_calixio.Exec.{
  World, Result, ok, err, got, queue_full, pure-ok, >>=-eq-ok, unless-raise-ok, if-raise-ok,
}
use api_calixio.Repository.Sql.{update_where}
use api_calixio.Repository.MediaRows.{
  is_kept, with_status, get_by_id, update_kept, update_status, update_upload_state,
}
use api_calixio.Storage.Objects.{head}
use api_calixio.Upload.{UploadService, has_blank, is_allowed_mime, normalize_mime}
use api_calixio.Upload.Deletion.Prefixes.{media-ok}
use api_calixio.Upload.Intake.{
  enqueue, hand_over, uploaded_head, accept_object, complete_upload, give_up_on_error,
}

any-with_status :
    (id : Text) (status : MediaStatus) (ms : List Media)
    → any (is_kept id) (update_where (is_kept id) (with_status status) ms) ≡ any (is_kept id) ms
any-with_status id status [] = refl
any-with_status id status (m ∷ ms) = ground (arith, any-with_status id status ms)

module _ (ext : External) (s : UploadService) where
  open ext use {X, query, to_lower}

  update_status-jobs :
      (id : Text) (status : MediaStatus) (w : World X)
      → (update_status ext id status w).1.jobs ≡ w.jobs
  unfolding update_status update_kept
  update_status-jobs id status w = ground arith

  -- What handing a media item over to the transcoder has done to the queue.
  abbrev pub IsHandedOver : Option ℕ → Text → List Text → List Text → MediaStatus → Type 0
  IsHandedOver none id old new status = (status ≡ media_uploaded) × (new ≡ old)
  IsHandedOver (some capacity) id old new status =
      (status ≡ media_processing) × (new ≡ old ++ (trim_space id ∷ [])) × (length new ≤ capacity)

  enqueue-ok :
      (capacity : ℕ) (id : Text) (w v : World X) (a : Unit {0})
      → enqueue ext s capacity id w ≡ (ok a, v)
      → (v.jobs ≡ w.jobs ++ (trim_space id ∷ [])) × (length v.jobs ≤ capacity)
  unfolding enqueue
  enqueue-ok capacity id w v a h =
      let (named, h1) = if-raise-ok (is_empty (trim_space id)) _ _ _ h in
      let (free, h2) = unless-raise-ok (ltb (length w.jobs) capacity) _ _ _ h1 in
      let queued : v.jobs ≡ w.jobs ++ (trim_space id ∷ []) = ap (λ p. p.1.jobs) (sym h2) in
      let grown = length-append w.jobs (trim_space id ∷ []) in
      let bound : length (w.jobs ++ (trim_space id ∷ [])) ≤ capacity = ground arith in
      (queued, rw queued bound)

  give_up-ok :
      (id : Text) (r : Result (Unit {0})) (w : World X) {a : Unit {0}}
      → (give_up_on_error ext s id r w).0 ≡ ok a
      → (r ≡ ok a) × ((give_up_on_error ext s id r w).1 ≡ w)
  give_up-ok id (ok b) w h = (h, refl)
  give_up-ok id (err e) w h = cc

  hand_over-ok :
      (id : Text) (t : Option ℕ) (w v : World X) (status : MediaStatus)
      → hand_over ext s id t w ≡ (ok status, v)
      → IsHandedOver t id w.jobs v.jobs status
  unfolding hand_over
  hand_over-ok id none w v status h =
      let (e, same) = pure-ok media_uploaded w h in (e, ap (λ z. z.jobs) same)
  hand_over-ok id (some capacity) w v status h =
      let (a, e, h1) = >>=-eq-ok (update_status ext id media_processing) _ w h in
      let u = (update_status ext id media_processing w).1 in
      let r = (enqueue ext s capacity id u).0 in
      let u2 = (enqueue ext s capacity id u).1 in
      let (b, e2, h2) = >>=-eq-ok (give_up_on_error ext s id r) _ u2 h1 in
      let (sent, calm) = give_up-ok id r u2 e2 in
      let (done, last) = pure-ok media_processing (give_up_on_error ext s id r u2).1 h2 in
      let (queued, bound) = enqueue-ok capacity id u u2 b (ap (λ q. (q, u2)) sent) in
      let jobs : v.jobs ≡ u2.jobs = ap (λ z. z.jobs) (last ∙ calm) in
      let before : u.jobs ≡ w.jobs = update_status-jobs id media_processing w in
      (done, jobs ∙ queued ∙ ap (λ js. js ++ (trim_space id ∷ [])) before, rw jobs bound)

  -- A full queue, for an item with an identifier that is not blank and a row that is not deleted,
  -- while the database answers: the caller gets the error of the queue, the row is first marked as
  -- processing and then as failed, and the queue stays as it was.
  hand_over-full :
      (id : Text) (capacity : ℕ) (w : World X)
      → is_empty (trim_space id) ≡ false
      → capacity ≤ length w.jobs
      → any (is_kept id) w.media ≡ true
      → (query w.outside).0 ≡ got tt
      → (query (query w.outside).1).0 ≡ got tt
      → ((hand_over ext s id (some capacity) w).0 ≡ err queue_full)
        × ((hand_over ext s id (some capacity) w).1.jobs ≡ w.jobs)
        × ((hand_over ext s id (some capacity) w).1.media
            ≡ update_where
                (is_kept id)
                (with_status media_failed)
                (update_where (is_kept id) (with_status media_processing) w.media))
  unfolding hand_over enqueue update_status update_kept
  hand_over-full id capacity w named full kept up up2 =
      ground (arith, any-with_status id media_processing w.media)

  upload_state-jobs :
      (id : Text) (size : ℤ) (mime : Text) (w : World X)
      → (update_upload_state ext id media_uploaded size mime w).1.jobs ≡ w.jobs
  unfolding update_upload_state update_kept
  upload_state-jobs id size mime w = ground arith

  get-jobs : (id : Text) (w : World X) → (get_by_id ext id w).1.jobs ≡ w.jobs
  unfolding get_by_id
  get-jobs id w = ground arith

  head-jobs : (key : Text) (w : World X) → (uploaded_head ext s key w).1.jobs ≡ w.jobs
  unfolding uploaded_head head
  head-jobs key w = ground arith

  accept_object-ok :
      (m : Media) (h : ObjectHead) (w v : World X) (id : Text) (status : MediaStatus)
      → accept_object ext s m h w ≡ (ok (id, status), v)
      → (is_pos h.content_length ≡ true)
        × (is_allowed_mime to_lower s h.content_type ≡ true)
        × (id ≡ m.id)
        × IsHandedOver s.transcoder m.id w.jobs v.jobs status
  unfolding accept_object
  accept_object-ok m h w v id status eq =
      let (filled, h1) = unless-raise-ok (is_pos h.content_length) _ _ _ eq in
      let (video, h2) = unless-raise-ok (is_allowed_mime to_lower s h.content_type) _ _ _ h1 in
      let mime = normalize_mime to_lower h.content_type in
      let save = update_upload_state ext m.id media_uploaded h.content_length mime in
      let (a, e, h3) = >>=-eq-ok save _ w h2 in
      let u = (save w).1 in
      let (st, e2, h4) = >>=-eq-ok (hand_over ext s m.id s.transcoder) _ u h3 in
      let u2 = (hand_over ext s m.id s.transcoder u).1 in
      let (both, last) = pure-ok (m.id, st) u2 h4 in
      let over = hand_over-ok m.id s.transcoder u u2 st (ap (λ q. (q, u2)) e2) in
      let kept : u.jobs ≡ w.jobs = upload_state-jobs m.id h.content_length mime w in
      let left : u2.jobs ≡ v.jobs = ap (λ z. z.jobs) (sym last) in
      (
        filled,
        video,
        ap (λ p. p.0) both,
        subst (λ x. IsHandedOver s.transcoder m.id w.jobs v.jobs x) (ap (λ p. p.1) (sym both))
            (subst (λ x. IsHandedOver s.transcoder m.id w.jobs x st) left
              (subst (λ x. IsHandedOver s.transcoder m.id x u2.jobs st) kept over)),
      )

  -- An upload that was completed is of a media item of the caller that is not deleted; the object
  -- that S3 reports for its key has some content of a type that is allowed; and the status is
  -- "processing" with one more job, the item's identifier, behind the others in a queue that is
  -- within its capacity, or "uploaded" and the same queue where there is no transcoder.
  pub complete_upload-ok :
      (owner media_id : Text) (w v : World X) (id : Text) (status : MediaStatus)
      → complete_upload ext s owner media_id w ≡ (ok (id, status), v)
      → (m : Media) × (h : ObjectHead) × (find (is_kept media_id) w.media ≡ some m)
        × (m.owner_user_id ≡ owner)
        × ((uploaded_head ext s m.storage_key (get_by_id ext media_id w).1).0 ≡ ok h)
        × (is_pos h.content_length ≡ true)
        × (is_allowed_mime to_lower s h.content_type ≡ true)
        × (id ≡ m.id)
        × IsHandedOver s.transcoder m.id w.jobs v.jobs status
  unfolding complete_upload
  complete_upload-ok owner media_id w v id status eq =
      let (filled, h1) = if-raise-ok (has_blank owner media_id) _ _ _ eq in
      let (m, e, h2) = >>=-eq-ok (get_by_id ext media_id) _ w h1 in
      let u = (get_by_id ext media_id w).1 in
      let (mine, h3) = unless-raise-ok (text_eq m.owner_user_id owner) _ _ _ h2 in
      let (o, e4, h4) = >>=-eq-ok (uploaded_head ext s m.storage_key) _ u h3 in
      let u2 = (uploaded_head ext s m.storage_key u).1 in
      let (found, same) = media-ok ext s media_id w e in
      let (big, video, same_id, over) = accept_object-ok m o u2 v id status h4 in
      let kept : u2.jobs ≡ w.jobs = head-jobs m.storage_key u ∙ get-jobs media_id w in
      (
        m,
        o,
        found,
        text_eq→eq _ _ mine,
        e4,
        big,
        video,
        same_id,
        subst (λ x. IsHandedOver s.transcoder m.id x v.jobs status) kept over,
      )
