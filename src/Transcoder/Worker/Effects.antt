-- ===== src/Transcoder/Worker/Effects.antt =====
-- What one job does to the tables: nothing, or it leaves the rows of its id with a final status.
use api_calixio.Prelude.{
  Bool, true, false, ◌&&◌, List, [], ◌∷◌, ◌≡◌, refl, sym, ap, ◌∙◌, subst, arith, any, find,
  find-holds, Bool-cases, inl, inr, and_left, some, Option-cases,
}
use api_calixio.Text.{Text}
use api_calixio.Text.Laws.{text_eq→eq}
use api_calixio.Records.{Media, MediaStatus, media_ready, media_failed}
use api_calixio.External.{External}
use api_calixio.Machine.{Machine}
use api_calixio.Exec.{World, Result, ok, err, got, Reply-cases, Result-cases}
use api_calixio.Exec.Quiet.{IsApart, IsQuiet, IsApart-trans}
use api_calixio.Repository.Sql.{update_where}
use api_calixio.Repository.MediaRows.{
  is_kept, with_status, with_transcode, get_by_id, update_kept, update_status,
  update_transcode_result,
}
use api_calixio.Transcoder.Workspaces.{temp_base_dirs}
use api_calixio.Transcoder.Commands.{TranscoderService, is_no_space}
use api_calixio.Transcoder.Processing.{make_temp_workspace, transcode, process_in_workspace}
use api_calixio.Transcoder.Processing.Frame.{make_temp_workspace-IsQuiet, transcode-IsQuiet}
use api_calixio.Transcoder.Worker.{has_more, try_dir, try_dirs, process_media, handle_job}

-- The status that the transcoder leaves.
abbrev pub is_final : MediaStatus → Bool
is_final media_ready = true
is_final media_failed = true
is_final _ = false

-- An update that leaves a row with its id and its deletion, and with a final status.
abbrev pub IsFinal : (Media → Media) → Type 0
IsFinal f =
    (r : Media)
    → ((f r).id ≡ r.id) × ((f r).deleted_at ≡ r.deleted_at) × (is_final (f r).status ≡ true)

update_where-missed :
    (p : Media → Bool) (f : Media → Media) (rows : List Media)
    → any p rows ≡ false
    → update_where p f rows ≡ rows
update_where-missed p f [] h = refl
update_where-missed p f (r ∷ rows) h = grind (arith, update_where-missed p f rows)

module _ (ext : External) (m : Machine ext.X) where
  open ext use {X, query}

  -- The rows of an id got a final status, and nothing else changed but what is outside.
  abbrev pub IsMarked : Text → World X → World X → Type 0
  IsMarked id w v =
      (f : Media → Media) × IsFinal f
      × (v ≡ record w { outside = v.outside; media = update_where (is_kept id) f w.media })

  -- What a job may have done: all of it, or nothing to the tables.
  abbrev pub IsEffect : Text → Result (Unit {0}) → World X → World X → Type 0
  IsEffect id (ok u) w v = IsMarked id w v
  IsEffect id (err e) w v = IsApart w v

  IsEffect-after :
      (id : Text) (r : Result (Unit {0})) (u v w : World X)
      → IsApart u v
      → IsEffect id r v w
      → IsEffect id r u w
  IsEffect-after id (ok x) u v w h (f, final, e) = (
    f,
    final,
    e
        ∙ ap
            (λ (t : World X). record t {
              outside = w.outside;
              media = update_where (is_kept id) f t.media;
            })
            h,
  )
  IsEffect-after id (err x) u v w h e = IsApart-trans u v w h e

  IsEffect-before :
      (id : Text) (r : Result (Unit {0})) (u v w : World X)
      → IsEffect id r u v
      → IsApart v w
      → IsEffect id r u w
  IsEffect-before id (ok x) u v w (f, final, e) h =
      (f, final, h ∙ ap (λ (t : World X). record t { outside = w.outside }) e)
  IsEffect-before id (err x) u v w e h = IsApart-trans u v w e h

  update_kept-IsEffect :
      (id : Text) (f : Media → Media) (w : World X)
      → IsFinal f
      → IsEffect id (update_kept ext id f w).0 w (update_kept ext id f w).1
  unfolding update_kept
  update_kept-IsEffect id f w final = elim (Reply-cases (query w.outside).0) [
    | inl (a, e) ↦ elim (Bool-cases (any (is_kept id) w.media)) [
      | inl hit ↦ rw (e, hit, update_kept) (f, final, refl)
      | inr miss ↦ rw (e, miss, update_kept) refl
    ]
    | inr (n, e) ↦ rw (e, update_kept) refl
  ]

  update_kept-IsMarked :
      (id : Text) (f : Media → Media) (w : World X)
      → IsFinal f
      → ((x : X) → (query x).0 ≡ got tt)
      → IsMarked id w (update_kept ext id f w).1
  unfolding update_kept
  update_kept-IsMarked id f w final answers = elim (Bool-cases (any (is_kept id) w.media)) [
    | inl hit ↦ rw (answers w.outside, hit, update_kept) (f, final, refl)
    | inr miss ↦
        rw (answers w.outside, miss, update_kept)
          (
            f,
            final,
            ap (λ (ms : List Media). record w { outside = (query w.outside).1; media = ms })
                (sym (update_where-missed (is_kept id) f w.media miss)),
          )
  ]

  module _ (s : TranscoderService) where
    process-IsEffect :
        (media : Media) (tmp : Text) (w : World X)
        → IsEffect media.id
            (process_in_workspace ext m s media tmp w).0
            w
            (process_in_workspace ext m s media tmp w).1
    unfolding process_in_workspace update_transcode_result
    process-IsEffect media tmp w =
        let q = transcode-IsQuiet ext m s media tmp w in
        let u = (transcode ext m s media tmp w).1 in
        elim (Result-cases (transcode ext m s media tmp w).0) [
          | inl (r, e) ↦
              let f = with_transcode r.0 (some r.1) (some r.2) media_ready in
              rw (e, process_in_workspace, update_transcode_result)
                (IsEffect-after media.id (update_kept ext media.id f u).0 w u
                  (update_kept ext media.id f u).1 q
                  (update_kept-IsEffect media.id f u (λ r. (refl, refl, refl))))
          | inr (x, e) ↦ rw (e, process_in_workspace) q
        ]

    try_dir-IsEffect :
        (media : Media) (dir : Text) (w : World X)
        → IsEffect media.id (try_dir ext m s media dir w).0 w (try_dir ext m s media dir w).1
    unfolding try_dir
    try_dir-IsEffect media dir w =
        let q = make_temp_workspace-IsQuiet ext m dir w in
        let u = (make_temp_workspace ext m dir w).1 in
        elim (Result-cases (make_temp_workspace ext m dir w).0) [
          | inr (x, e) ↦ rw (e, try_dir) q
          | inl (tmp, e) ↦
              let v = (process_in_workspace ext m s media tmp u).1 in
              let p =
                IsEffect-after media.id (process_in_workspace ext m s media tmp u).0 w u v q
                  (process-IsEffect media tmp u) in
              elim (Result-cases (process_in_workspace ext m s media tmp u).0) [
                | inl (x, g) ↦
                    rw (e, g, try_dir)
                      (IsEffect-before media.id (ok x) w v _
                        (subst (λ r. IsEffect media.id r w v) g p) refl)
                | inr (x, g) ↦
                    rw (e, g, try_dir)
                      (IsEffect-before media.id (err x) w v _
                        (subst (λ r. IsEffect media.id r w v) g p) refl)
              ]
        ]

    try_dirs-IsEffect :
        (media : Media) (dirs : List Text) (w : World X)
        → IsEffect media.id (try_dirs ext m s media dirs w).0 w (try_dirs ext m s media dirs w).1
    unfolding try_dirs
    try_dirs-IsEffect media [] w = refl
    try_dirs-IsEffect media (d ∷ ds) w =
        let u = (try_dir ext m s media d w).1 in
        let p = try_dir-IsEffect media d w in
        elim (Result-cases (try_dir ext m s media d w).0) [
          | inl (x, e) ↦ rw (e, try_dirs) (subst (λ r. IsEffect media.id r w u) e p)
          | inr (x, e) ↦
              let q : IsApart w u = subst (λ r. IsEffect media.id r w u) e p in
              elim (Bool-cases (is_no_space ext m x && has_more ds)) [
                | inl more ↦
                    rw (e, more, try_dirs)
                      (IsEffect-after media.id (try_dirs ext m s media ds u).0 w u
                        (try_dirs ext m s media ds u).1 q (try_dirs-IsEffect media ds u))
                | inr last ↦ rw (e, last, try_dirs) q
              ]
        ]

    -- The row that a job is about carries its id.
    get_by_id-id :
        (id : Text) (w : World X) (media : Media)
        → (get_by_id ext id w).0 ≡ ok media
        → media.id ≡ id
    unfolding get_by_id
    get_by_id-id id w media h = elim (Option-cases (find (is_kept id) w.media)) [
      | inl e ↦ ground arith
      | inr (a, e) ↦
          let same : a ≡ media = ground arith in
          let kept : is_kept id media ≡ true =
            subst (λ r. is_kept id r ≡ true) same (find-holds (is_kept id) w.media a e) in
          text_eq→eq media.id id (and_left _ _ kept)
    ]

    get_by_id-IsQuiet : (id : Text) → IsQuiet (get_by_id ext id)
    unfolding get_by_id
    get_by_id-IsQuiet id w = ground arith

    pub process_media-IsEffect :
        (id : Text) (w : World X)
        → IsEffect id (process_media ext m s id w).0 w (process_media ext m s id w).1
    unfolding process_media
    process_media-IsEffect id w =
        let q = get_by_id-IsQuiet id w in
        let u = (get_by_id ext id w).1 in
        elim (Result-cases (get_by_id ext id w).0) [
          | inr (x, e) ↦ rw (e, process_media) q
          | inl (media, e) ↦
              let dirs = temp_base_dirs s.work_dir (m.temp_dir u.outside) in
              rw (e, process_media)
                (IsEffect-after id (try_dirs ext m s media dirs u).0 w u
                  (try_dirs ext m s media dirs u).1 q
                  (subst
                    (λ i.
                      IsEffect i (try_dirs ext m s media dirs u).0 u
                        (try_dirs ext m s media dirs u).1)
                    (get_by_id-id id w media e) (try_dirs-IsEffect media dirs u)))
        ]

    -- Once the database answers, a job leaves the rows of its id marked, whatever went wrong.
    pub handle_job-IsMarked :
        (id : Text) (w : World X)
        → ((x : X) → (query x).0 ≡ got tt)
        → IsMarked id w (handle_job ext m s id w).1
    unfolding handle_job update_status
    handle_job-IsMarked id w answers =
        let u = (process_media ext m s id w).1 in
        let p = process_media-IsEffect id w in
        elim (Result-cases (process_media ext m s id w).0) [
          | inl (x, e) ↦ rw (e, handle_job) (subst (λ r. IsEffect id r w u) e p)
          | inr (x, e) ↦
              let q : IsApart w u = subst (λ r. IsEffect id r w u) e p in
              let f = with_status media_failed in
              rw (e, handle_job, update_status)
                (IsEffect-after id (ok tt) w u (update_kept ext id f u).1 q
                  (update_kept-IsMarked id f u (λ r. (refl, refl, refl)) answers))
        ]
