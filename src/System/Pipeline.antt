-- ===== src/System/Pipeline.antt =====
-- From an upload to the end of its transcoding: internal/service/media_upload.go and
-- internal/service/media_transcoder.go together.
use api_calixio.Prelude.{
  ℕ, ◌<◌, ◌/◌, ◌%◌, Bool, true, false, not, Option, some, List, [], ◌∷◌, ◌++◌, ◌&&◌, ◌==◌, ◌≡◌,
  refl, sym, ap, ◌∙◌, subst, arith, any, all, map, find, find-holds, and_left, length, Bool-cases,
  inl, inr,
}
use api_calixio.Text.{Text, codes, text_eq, is_space, trim_space, lacks, slash}
use api_calixio.Text.FilePath.{plain}
use api_calixio.Hex.{hex, hex_digit}
use api_calixio.Integer.{ℤ}
use api_calixio.Text.Laws.{text_eq_refl, text_eq→eq}
use api_calixio.Records.{Media, MediaStatus, media_processing}
use api_calixio.External.{External, ObjectHead}
use api_calixio.Machine.{Machine}
use api_calixio.Exec.{Exec, World, ok, got}
use api_calixio.Repository.Sql.{update_where, is_null}
use api_calixio.Repository.Rows.{any-found}
use api_calixio.Repository.MediaRows.{
  is_kept, with_upload, with_status, get_by_id, update_kept, update_upload_state, update_status,
}
use api_calixio.Storage.Objects.{head}
use api_calixio.Upload.{UploadService}
use api_calixio.Upload.Intake.{
  InitUploadInput, InitUploadOutput, new_media_id, start_upload, init_upload, enqueue,
  uploaded_head, hand_over, accept_object, complete_upload,
}
use api_calixio.Upload.Intake.Completion.{IsHandedOver, complete_upload-ok}
use api_calixio.Transcoder.Commands.{TranscoderService}
use api_calixio.Transcoder.Worker.{work}
use api_calixio.Transcoder.Worker.Effects.{is_final}
use api_calixio.Transcoder.Worker.Settled.{is_settled, row_key, work_settles}
use api_calixio.Storage.Prefix.Laws.{solid, solid-trim_space}

hex_digit-clean :
    (n : ℕ) → n < 16 → (is_space (hex_digit n) ≡ false) × ((hex_digit n == slash) ≡ false)
unfolding is_space
hex_digit-clean n h = ground arith

hex-clean :
    (bs : List ℕ) → (all (λ c. not (is_space c)) (hex bs) ≡ true) × (lacks slash (hex bs) ≡ true)
unfolding hex
hex-clean [] = (refl, refl)
hex-clean (b ∷ bs) =
    let high = hex_digit-clean (b / 16 % 16) (omega arith) in
    let low = hex_digit-clean (b % 16) (omega arith) in
    let rest = hex-clean bs in (ground arith, ground arith)

-- An identifier of a media item has no white space around it.
media_id-trim : (bs : List ℕ) → trim_space (codes "media_" ++ hex bs) ≡ codes "media_" ++ hex bs
unfolding solid plain is_space text_eq
media_id-trim bs = let clean = hex-clean bs in solid-trim_space _ (ground arith)

-- The keys of the rows decide which are kept.
any-row_key :
    (id : Text) (rows : List Media)
    → any (is_kept id) rows ≡ any (λ k. text_eq k.0 id && is_null k.1) (map row_key rows)
any-row_key id [] = refl
any-row_key id (r ∷ rows) = ground (arith, any-row_key id rows)

update_where-row_key :
    (p : Media → Bool) (f : Media → Media) (rows : List Media)
    → ((r : Media) → row_key (f r) ≡ row_key r)
    → map row_key (update_where p f rows) ≡ map row_key rows
update_where-row_key p f [] keep = refl
update_where-row_key p f (r ∷ rows) keep =
    let rest = update_where-row_key p f rows keep in let here = keep r in ground arith

-- Of the kept rows of an id that are settled, the one that is found is final.
settled-found :
    (id : Text) (rows : List Media)
    → all (is_settled id) rows ≡ true
    → any (is_kept id) rows ≡ true
    → (r : Media) × (find (is_kept id) rows ≡ some r) × (is_final r.status ≡ true)
settled-found id [] h k = cc
settled-found id (r ∷ rows) h k = elim (Bool-cases (is_kept id r)) [
  | inl e ↦ (r, rw e refl, ground arith)
  | inr e ↦
      let (q, found, final) = settled-found id rows (ground arith) (ground arith) in
      (q, rw e found, final)
]

any-snoc_same : (id : Text) (ids : List Text) → any (text_eq id) (ids ++ (id ∷ [])) ≡ true
any-snoc_same id [] = ground (arith, text_eq_refl id)
any-snoc_same id (i ∷ ids) = ground (arith, any-snoc_same id ids)

module _ (ext : External) where
  open ext use {X, query}

  -- The rows are the same afterwards, by their ids and deletions.
  abbrev HasSameKeys : {A : Type 0} → Exec X A → Type 0
  HasSameKeys m = (w : World X) → map row_key (m w).1.media ≡ map row_key w.media

  update_upload_state-HasSameKeys :
      (id : Text) (status : MediaStatus) (size : ℤ) (mime : Text)
      → HasSameKeys (update_upload_state ext id status size mime)
  unfolding update_upload_state update_kept
  update_upload_state-HasSameKeys id status size mime w =
      let same =
        update_where-row_key (is_kept id) (with_upload status size mime) w.media (λ r. refl) in
      ground arith

  update_status-HasSameKeys :
      (id : Text) (status : MediaStatus) → HasSameKeys (update_status ext id status)
  unfolding update_status update_kept
  update_status-HasSameKeys id status w =
      let same = update_where-row_key (is_kept id) (with_status status) w.media (λ r. refl) in
      ground arith

  get_by_id-HasSameKeys : (id : Text) → HasSameKeys (get_by_id ext id)
  unfolding get_by_id
  get_by_id-HasSameKeys id w = ground arith

  module _ (s : UploadService) where
    enqueue-HasSameKeys : (capacity : ℕ) (id : Text) → HasSameKeys (enqueue ext s capacity id)
    unfolding enqueue
    enqueue-HasSameKeys capacity id w = ground arith

    hand_over-HasSameKeys : (id : Text) (q : Option ℕ) → HasSameKeys (hand_over ext s id q)
    unfolding hand_over
    hand_over-HasSameKeys id q w = grind (arith, update_status-HasSameKeys, enqueue-HasSameKeys)

    uploaded_head-HasSameKeys : (key : Text) → HasSameKeys (uploaded_head ext s key)
    unfolding uploaded_head head
    uploaded_head-HasSameKeys key w = ground arith

    accept_object-HasSameKeys : (m : Media) (h : ObjectHead) → HasSameKeys (accept_object ext s m h)
    unfolding accept_object
    accept_object-HasSameKeys m h w =
        grind (arith, update_upload_state-HasSameKeys, hand_over-HasSameKeys)

    complete_upload-HasSameKeys : (o id : Text) → HasSameKeys (complete_upload ext s o id)
    unfolding complete_upload
    complete_upload-HasSameKeys o id w =
        grind (arith, get_by_id-HasSameKeys, uploaded_head-HasSameKeys, accept_object-HasSameKeys)

    media_id-ok :
        (req : InitUploadInput) (w v : World X) (out : InitUploadOutput)
        → init_upload ext s req w ≡ (ok out, v)
        → trim_space out.media_id ≡ out.media_id
    unfolding init_upload start_upload new_media_id
    media_id-ok req w v out h = grind (arith, media_id-trim)

  -- An upload of an item that `InitUpload` named, completed in any later world at a server with a
  -- transcoder: if the database answers every statement, the item is reported as processing, and
  -- after as many turns of the worker as there are jobs the queue is empty and the item is found,
  -- ready or failed. No upload that was completed stays in processing, whatever S3, the file system
  -- and ffmpeg do.
  pub upload_settles :
      (m : Machine X) (t : TranscoderService) (s : UploadService) (capacity : ℕ)
      (req : InitUploadInput) (w0 w1 w2 v : World X) (out : InitUploadOutput) (owner id : Text)
      (status : MediaStatus)
      → s.transcoder ≡ some capacity
      → init_upload ext s req w0 ≡ (ok out, w1)
      → complete_upload ext s owner out.media_id w2 ≡ (ok (id, status), v)
      → ((x : X) → (query x).0 ≡ got tt)
      → (r : Media) × (status ≡ media_processing)
        × (id ≡ out.media_id)
        × ((work ext m t (length v.jobs) v).1.jobs ≡ [])
        × (find (is_kept out.media_id) (work ext m t (length v.jobs) v).1.media ≡ some r)
        × (is_final r.status ≡ true)
  upload_settles m t s capacity req w0 w1 w2 v out owner id status queue started done answers =
      let name = out.media_id in
      let (item, object, found, mine, asked, big, video, named, over) =
        complete_upload-ok ext s owner name w2 v id status done in
      let same_id : item.id ≡ name =
        text_eq→eq item.id name (and_left _ _ (find-holds (is_kept name) w2.media item found)) in
      let (processing, queued, bound) =
        subst (λ q. IsHandedOver ext s q item.id w2.jobs v.jobs status) queue over in
      let job : trim_space item.id ≡ name =
        ap trim_space same_id ∙ media_id-ok s req w0 w1 out started in
      let (drained, keys, settled) = work_settles ext m t v answers in
      let listed : any (text_eq name) v.jobs ≡ true =
        ap (any (text_eq name)) (queued ∙ ap (λ i. w2.jobs ++ (i ∷ [])) job)
        ∙ any-snoc_same name w2.jobs in
      let kept : any (is_kept name) (work ext m t (length v.jobs) v).1.media ≡ true =
        any-row_key name _
        ∙ ap (any (λ k. text_eq k.0 name && is_null k.1)) (
            keys
            ∙ sym (ap (λ q. map row_key q.1.media) done)
            ∙ complete_upload-HasSameKeys s owner name w2)
        ∙ sym (any-row_key name w2.media)
        ∙ any-found (is_kept name) w2.media item found in
      let (r, there, final) = settled-found name _ (settled name listed) kept in
      (r, processing, named ∙ same_id, drained, there, final)
