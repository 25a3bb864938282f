-- ===== src/System/Ownership/Items.antt =====
-- The owners of the rows that the methods on media items write.
use api_calixio.Prelude.{
  ℕ, true, Option, none, some, ◌≡◌, refl, ap, ◌∙◌, arith, find, find-holds, Bool-cases, inl, inr,
}
use api_calixio.Text.{Text, text_eq}
use api_calixio.Text.Laws.{text_eq→eq, text_eq_refl}
use api_calixio.Integer.{ℤ, is_pos}
use api_calixio.Records.{Media, MediaStatus, media_uploaded, media_processing, media_failed}
use api_calixio.External.{External, ObjectHead}
use api_calixio.Exec.{Exec, World, ok, Result-cases, observe, ◌>>=◌, ◌>>◌}
use api_calixio.Repository.Rows.{IsPairwise}
use api_calixio.Repository.MediaRows.{
  create, is_kept, media_conflicts, get_by_id, update_upload_state, update_status, soft_delete,
}
use api_calixio.Upload.{UploadService, has_blank, is_allowed_mime, normalize_mime}
use api_calixio.Upload.Intake.{
  InitUploadInput, start_upload, init_upload, enqueue, hand_over, accept_object, uploaded_head,
  complete_upload,
}
use api_calixio.Upload.Deletion.{delete_objects_of, forget_playback, delete_media}
use api_calixio.System.Changes.{Tables, upload_stated, status_set, deleted}
use api_calixio.System.Kept.{IsKept}
use api_calixio.System.MediaItems.{new_media_id-IsKept, presign-IsKept, enqueue-IsKept}
use api_calixio.System.Uploads.{
  get_by_id-IsKept, uploaded_head-IsKept, delete_objects-IsKept, forget_playback-IsKept,
}
use api_calixio.System.Ownership.{none_but, owns_media, others, Spares, media_of_caller}
use api_calixio.System.Ownership.Methods.{kept-others, create-Spares, update_kept-others}

module _ (ext : External) (user : Text) where
  open ext use {X, now, to_lower}

  -- The caller owns the item of this id, if there is one.
  abbrev Own : Text → World X → Type 0
  Own i w = none_but (is_kept i) (owns_media user) w.media ≡ true

  -- A step that minds whose rows it writes, given that the item is the caller's.
  abbrev Minds : {A : Type 0} → Text → Exec X A → Type 0
  Minds i m = (w : World X) → Own i w → (others user (m w).1 ≡ others user w) × Own i (m w).1

  kept-Minds : {A : Type 0} (i : Text) (m : Exec X A) → IsKept m → Minds i m
  kept-Minds i m k w own = (
    kept-others ext user (m w).1 w (k w),
    ap (λ (t : Tables). none_but (is_kept i) (owns_media user) t.media) (k w) ∙ own,
  )

  bind-Minds :
      {A B : Type 0} (i : Text) (m : Exec X A) (f : A → Exec X B)
      → Minds i m
      → ((a : A) → Minds i (f a))
      → Minds i (m >>= f)
  bind-Minds i m f first next w own =
      let (same, still) = first w own in
      elim (Result-cases (m w).0) [
        | inr (e, bad) ↦ rw bad (same, still)
        | inl (a, hit) ↦ let (after, last) = next a (m w).1 still in rw hit (after ∙ same, last)
      ]

  update_upload_state-Minds :
      (i : Text) (status : MediaStatus) (size : ℤ) (mime : Text)
      → Minds i (update_upload_state ext i status size mime)
  unfolding update_upload_state
  update_upload_state-Minds i status size mime =
      update_kept-others ext user i (upload_stated status size mime)

  update_status-Minds : (i : Text) (status : MediaStatus) → Minds i (update_status ext i status)
  unfolding update_status
  update_status-Minds i status = update_kept-others ext user i (status_set status)

  soft_delete-Minds : (i : Text) (t : ℕ) → Minds i (soft_delete ext i t)
  unfolding soft_delete
  soft_delete-Minds i t = update_kept-others ext user i (deleted t)

  module _ (u : UploadService) where
    start_upload-Spares :
        (req : InitUploadInput) → req.owner_user_id ≡ user → Spares user (start_upload ext u req)
    unfolding start_upload
    start_upload-Spares req mine w =
        let own : text_eq req.owner_user_id user ≡ true =
          ap (λ o. text_eq o user) mine ∙ text_eq_refl user in
        let created : (m : Media)
            → m.owner_user_id ≡ req.owner_user_id
            → Spares user (create ext m) =
          λ m e. create-Spares ext user m (ap (λ o. text_eq o user) e ∙ own) in
        let keeps = kept-others ext user in
        grind (arith, created, new_media_id-IsKept ext u, presign-IsKept ext u, keeps)

    pub init_upload-Spares :
        (req : InitUploadInput) → req.owner_user_id ≡ user → Spares user (init_upload ext u req)
    unfolding init_upload
    init_upload-Spares req mine w = let started = start_upload-Spares req mine w in ground arith

    hand_over-Minds : (i : Text) (q : Option ℕ) → Minds i (hand_over ext u i q)
    unfolding hand_over
    hand_over-Minds i none w own = (refl, own)
    hand_over-Minds i (some c) w own =
        bind-Minds i (update_status ext i media_processing) _
          (update_status-Minds i media_processing)
          (λ a v still.
            let x = (enqueue ext u c i v).1 in
            let (same, left) =
              kept-Minds i (enqueue ext u c i) (enqueue-IsKept ext u c i) v still in
            let (marked, last) = update_status-Minds i media_failed x left in ground arith)
          w own

    accept_object-Minds : (m : Media) (h : ObjectHead) → Minds m.id (accept_object ext u m h)
    unfolding accept_object
    accept_object-Minds m h w own = elim (Bool-cases (is_pos h.content_length)) [
      | inr empty ↦ rw (empty, accept_object) (refl, own)
      | inl filled ↦ elim (Bool-cases (is_allowed_mime to_lower u h.content_type)) [
        | inr odd ↦ rw (filled, odd, accept_object) (refl, own)
        | inl video ↦
            let size = h.content_length in
            let mime = normalize_mime to_lower h.content_type in
            rw (filled, video, accept_object)
              (bind-Minds m.id (update_upload_state ext m.id media_uploaded size mime) _
                (update_upload_state-Minds m.id media_uploaded size mime)
                (λ a.
                  bind-Minds m.id (hand_over ext u m.id u.transcoder) _
                    (hand_over-Minds m.id u.transcoder) (λ status v still. (refl, still)))
                w own)
      ]
    ]

    -- A method that goes on with an item of the caller.
    item_found :
        (i : Text) (w : World X) (m : Media)
        → IsPairwise media_conflicts w.media
        → (get_by_id ext i w).0 ≡ ok m
        → text_eq m.owner_user_id user ≡ true
        → Own m.id (get_by_id ext i w).1
    unfolding get_by_id
    item_found i w m apart h mine =
        let found : find (is_kept i) w.media ≡ some m = ground arith in
        let kept : is_kept i m ≡ true = find-holds (is_kept i) w.media m found in
        let same : text_eq m.id i ≡ true = ground arith in
        let named : m.id ≡ i = text_eq→eq m.id i same in
        ap (λ x. none_but (is_kept x) (owns_media user) (get_by_id ext i w).1.media) named
        ∙ ap (λ (t : Tables). none_but (is_kept i) (owns_media user) t.media)
            (get_by_id-IsKept ext i w)
        ∙ media_of_caller i user m w.media apart found mine

    pub complete_upload-others :
        (i : Text) (w : World X)
        → IsPairwise media_conflicts w.media
        → others user (complete_upload ext u user i w).1 ≡ others user w
    unfolding complete_upload
    complete_upload-others i w apart =
        let before = kept-others ext user (get_by_id ext i w).1 w (get_by_id-IsKept ext i w) in
        elim (Bool-cases (has_blank user i)) [
          | inl blank ↦ rw (blank, complete_upload) refl
          | inr full ↦ elim (Result-cases (get_by_id ext i w).0) [
            | inr (e, bad) ↦ rw (full, bad, complete_upload) before
            | inl (m, hit) ↦ elim (Bool-cases (text_eq m.owner_user_id user)) [
              | inr other ↦ rw (full, hit, other, complete_upload) before
              | inl mine ↦
                  let (after, last) =
                    bind-Minds m.id (uploaded_head ext u m.storage_key) _
                      (kept-Minds m.id (uploaded_head ext u m.storage_key)
                        (uploaded_head-IsKept ext u m.storage_key))
                      (accept_object-Minds m) (get_by_id ext i w).1
                      (item_found i w m apart hit mine) in
                  rw (full, hit, mine, complete_upload) (after ∙ before)
            ]
          ]
        ]

    -- What `DeleteMedia` does once the objects are gone.
    abbrev erased : Media → Text → Exec X (Unit {0})
    erased m i = do t ← observe now; soft_delete ext m.id t; forget_playback ext u i

    erased-Minds : (m : Media) (i : Text) → Minds m.id (erased m i)
    erased-Minds m i =
        bind-Minds m.id (observe now) (λ t. soft_delete ext m.id t >> forget_playback ext u i)
          (λ v still. (refl, still))
          (λ t.
            bind-Minds m.id (soft_delete ext m.id t) (λ a. forget_playback ext u i)
              (soft_delete-Minds m.id t)
              (λ a. kept-Minds m.id (forget_playback ext u i) (forget_playback-IsKept ext u i)))

    pub delete_media-others :
        (i : Text) (w : World X)
        → IsPairwise media_conflicts w.media
        → others user (delete_media ext u user i w).1 ≡ others user w
    unfolding delete_media
    delete_media-others i w apart =
        let before = kept-others ext user (get_by_id ext i w).1 w (get_by_id-IsKept ext i w) in
        elim (Bool-cases (has_blank user i)) [
          | inl blank ↦ rw (blank, delete_media) refl
          | inr full ↦ elim (Result-cases (get_by_id ext i w).0) [
            | inr (e, bad) ↦ rw (full, bad, delete_media) before
            | inl (m, hit) ↦ elim (Bool-cases (text_eq m.owner_user_id user)) [
              | inr other ↦ rw (full, hit, other, delete_media) before
              | inl mine ↦
                  let (after, last) =
                    bind-Minds m.id (delete_objects_of ext u m) (λ a. erased m i)
                      (kept-Minds m.id (delete_objects_of ext u m) (delete_objects-IsKept ext u m))
                      (λ a. erased-Minds m i) (get_by_id ext i w).1
                      (item_found i w m apart hit mine) in
                  rw (full, hit, mine, delete_media) (after ∙ before)
            ]
          ]
        ]
