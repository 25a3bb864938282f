-- ===== src/Transcoder/Worker/Settled.antt =====
-- The queue of the transcoder, worked off: what a run of the worker does to the media table.
use api_calixio.Prelude.{
  ℕ, Bool, true, not, ◌&&◌, ◌||◌, List, [], ◌∷◌, ◌≡◌, refl, sym, ap, ◌∙◌, subst, arith, any, all,
  length, Bool-cases, inl, inr, and_left, and_right, map, Option,
}
use api_calixio.Text.{Text, text_eq}
use api_calixio.Text.Laws.{text_eq→eq}
use api_calixio.Records.{Media}
use api_calixio.External.{External}
use api_calixio.Machine.{Machine}
use api_calixio.Exec.{World, ok, got, Result-cases}
use api_calixio.Repository.Sql.{update_where}
use api_calixio.Repository.MediaRows.{is_kept}
use api_calixio.Transcoder.Commands.{TranscoderService}
use api_calixio.Transcoder.Worker.{process_media, handle_job, take_job, work}
use api_calixio.Transcoder.Worker.Effects.{is_final, IsFinal, IsMarked, handle_job-IsMarked}

-- the row is no kept row of the id, or its status is final
abbrev pub is_settled : Text → Media → Bool
is_settled id r = not (is_kept id r) || is_final r.status

or_true : (b : Bool) → ((b || true) && true) ≡ true
or_true b = ground arith

-- what the transcoder leaves of a row
abbrev pub row_key : Media → Text × Option ℕ
row_key r = (r.id, r.deleted_at)

update_where-settled :
    (id : Text) (f : Media → Media) (rows : List Media)
    → IsFinal f
    → all (is_settled id) (update_where (is_kept id) f rows) ≡ true
update_where-settled id f [] final = refl
update_where-settled id f (r ∷ rows) final =
    let rest = update_where-settled id f rows final in
    let status = (final r).2 in
    elim (Bool-cases (is_kept id r)) [
      | inl e ↦ rw (e, status, rest) (or_true _)
      | inr e ↦ rw e (rw (e, rest) refl)
    ]

update_where-stays :
    (i id : Text) (f : Media → Media) (rows : List Media)
    → IsFinal f
    → all (is_settled i) rows ≡ true
    → all (is_settled i) (update_where (is_kept id) f rows) ≡ true
update_where-stays i id f [] final h = refl
update_where-stays i id f (r ∷ rows) final h =
    let rest = update_where-stays i id f rows final (and_right _ _ h) in
    let status = (final r).2 in
    let head : is_settled i r ≡ true = and_left _ _ h in
    elim (Bool-cases (is_kept id r)) [
      | inl e ↦ rw (e, status, rest) (or_true _)
      | inr e ↦ rw (e, rest) (rw head refl)
    ]

update_where-keys :
    (p : Media → Bool) (f : Media → Media) (rows : List Media)
    → IsFinal f
    → map row_key (update_where p f rows) ≡ map row_key rows
update_where-keys p f [] final = refl
update_where-keys p f (r ∷ rows) final =
    let (same_id, same_deletion, status) = final r in
    elim (Bool-cases (p r)) [
      | inl e ↦ rw (e, same_id, same_deletion, update_where-keys p f rows final) refl
      | inr e ↦ rw (e, update_where-keys p f rows final) refl
    ]

-- The queue is empty, the rows are the same by their keys, and those of the jobs `ids` are settled.
abbrev pub IsSettledBehind : {X : Type 0} → List Text → World X → World X → Type 0
IsSettledBehind ids w v =
    (v.jobs ≡ [])
    × (map row_key v.media ≡ map row_key w.media)
    × ((id : Text) → any (text_eq id) ids ≡ true → all (is_settled id) v.media ≡ true)

module _ (ext : External) (m : Machine ext.X) (s : TranscoderService) where
  open ext use {X, query}

  handle_job-ok : (id : Text) (w : World X) → (handle_job ext m s id w).0 ≡ ok tt
  unfolding handle_job
  handle_job-ok id w = elim (Result-cases (process_media ext m s id w).0) [
    | inl (x, e) ↦ rw (e, handle_job) refl
    | inr (x, e) ↦ rw (e, handle_job) refl
  ]

  settled_after :
      (id : Text) (w v : World X) → IsMarked ext m id w v → all (is_settled id) v.media ≡ true
  settled_after id w v (f, final, e) =
      subst (λ (u : World X). all (is_settled id) u.media ≡ true) (sym e)
        (update_where-settled id f w.media final)

  stays_after :
      (i id : Text) (w v : World X)
      → IsMarked ext m id w v
      → all (is_settled i) w.media ≡ true
      → all (is_settled i) v.media ≡ true
  stays_after i id w v (f, final, e) h =
      subst (λ (u : World X). all (is_settled i) u.media ≡ true) (sym e)
        (update_where-stays i id f w.media final h)

  keys_after :
      (id : Text) (w v : World X)
      → IsMarked ext m id w v
      → map row_key v.media ≡ map row_key w.media
  keys_after id w v (f, final, e) =
      subst (λ (u : World X). map row_key u.media ≡ map row_key w.media) (sym e)
        (update_where-keys (is_kept id) f w.media final)

  jobs_after : (id : Text) (w v : World X) → IsMarked ext m id w v → v.jobs ≡ w.jobs
  jobs_after id w v (f, final, e) = ap (λ (u : World X). u.jobs) e

  -- A row that is settled for some id stays so through any jobs.
  work_from :
      (ids : List Text) (w : World X)
      → w.jobs ≡ ids
      → ((x : X) → (query x).0 ≡ got tt)
      → IsSettledBehind ids w (work ext m s (length ids) w).1
        × ((i : Text)
            → all (is_settled i) w.media ≡ true
            → all (is_settled i) (work ext m s (length ids) w).1.media ≡ true)
  unfolding work take_job
  work_from [] w e answers = ((e, refl, λ id h. cc), λ i h. h)
  work_from (id ∷ ids) w e answers =
      let u : World X = record w { jobs = ids } in
      let v = (handle_job ext m s id u).1 in
      let marked = handle_job-IsMarked ext m s id u answers in
      let ((drained, keys, all_settled), stays) =
        work_from ids v (jobs_after id u v marked) answers in
      rw (e, handle_job-ok id u, work, take_job)
        (
          (
            drained,
            keys ∙ keys_after id u v marked,
            λ i h. elim (Bool-cases (text_eq i id)) [
              | inl same ↦ stays i (
                  subst (λ j. all (is_settled j) v.media ≡ true) (sym (text_eq→eq i id same))
                    (settled_after id u v marked))
              | inr other ↦ all_settled i (rw other at h)
            ],
          ),
          λ i h. stays i (stays_after i id u v marked h),
        )

  -- If the database answers every statement, then after as many turns as there are jobs the queue
  -- is empty, every row that is not deleted and whose id was in the queue is ready or failed, and
  -- the rows are those from before, by their ids and deletions. Everything else (S3, the file
  -- system, ffmpeg, the clock) may fail at any point.
  pub work_settles :
      (w : World X)
      → ((x : X) → (query x).0 ≡ got tt)
      → IsSettledBehind w.jobs w (work ext m s (length w.jobs) w).1
  work_settles w answers = (work_from w.jobs w refl answers).0
