-- ===== src/System/Uploads.antt =====
-- The methods of the services that leave the tables alone: reading media items, their playback, and
-- the cleanup.
use api_calixio.Prelude.{
  ℕ, zero, suc, List, [], ◌∷◌, refl, ap, ◌∙◌, arith, Bool-cases, Option-cases, inl, inr,
}
use api_calixio.Text.{Text, text_eq, is_empty, trim_space}
use api_calixio.Integer.{ℤ}
use api_calixio.Records.{Media}
use api_calixio.External.{External}
use api_calixio.Exec.{ok, Result-cases}
use api_calixio.Repository.MediaRows.{list_by_owner, get_by_id, list_existing_ids}
use api_calixio.Storage.Objects.{
  StorageService, presign_get_object, head, get_object_bytes, delete_objects_by_prefix,
  list_media_prefixes,
}
use api_calixio.Upload.{UploadService, has_blank}
use api_calixio.Upload.Intake.{uploaded_head}
use api_calixio.Upload.Playback.{
  CacheFormats, PlaybackCacheRecord, PlaybackOutput, sign_line, sign_lines, sign_manifest,
  build_playback, new_manifest_token, build_manifest_proxy_url, cached_record, from_cache,
  put_record, fresh_playback, get_playback, get_playback_by_media_id, resolve_playback_manifest,
}
use api_calixio.Upload.Deletion.{
  sign_preview, sign_previews, list_media, delete_objects_of, forget_playback,
}
use api_calixio.Cleanup.{
  batch_or_default, known, unless_none, collect_existing, delete_orphans, clean_entries, run_once,
}
use api_calixio.System.Kept.{IsKept, delete_prefix-IsKept, list_prefixes-IsKept}

module _ (ext : External) where
  open ext use {X}

  pub get_by_id-IsKept : (id : Text) → IsKept (get_by_id ext id)
  unfolding get_by_id
  get_by_id-IsKept id w = ground arith

  module _ (s : UploadService) where
    sign_previews-IsKept : (ms : List Media) → IsKept (sign_previews ext s ms)
    unfolding sign_previews sign_preview presign_get_object
    sign_previews-IsKept [] w = refl
    sign_previews-IsKept (m ∷ ms) w = grind (arith, sign_previews-IsKept ms)

    pub list_media-IsKept : (o : Text) → IsKept (list_media ext s o)
    unfolding list_media list_by_owner
    list_media-IsKept o w = grind (arith, sign_previews-IsKept)

    pub uploaded_head-IsKept : (key : Text) → IsKept (uploaded_head ext s key)
    unfolding uploaded_head head
    uploaded_head-IsKept key w = ground arith

    sign_lines-IsKept : (d : Text) (ttl : ℤ) (ls : List Text) → IsKept (sign_lines ext s d ttl ls)
    unfolding sign_lines sign_line presign_get_object
    sign_lines-IsKept d ttl [] w = refl
    sign_lines-IsKept d ttl (l ∷ ls) w = grind (arith, sign_lines-IsKept d ttl ls)

    build_playback-IsKept : (m : Media) → IsKept (build_playback ext s m)
    unfolding build_playback get_object_bytes sign_manifest presign_get_object
    build_playback-IsKept m w = grind (arith, sign_lines-IsKept)

    pub resolve-IsKept : (token : Text) → IsKept (resolve_playback_manifest ext s token)
    unfolding resolve_playback_manifest
    resolve-IsKept token w = grind (arith, get_by_id-IsKept, build_playback-IsKept)

    proxy_url-IsKept : (id : Text) → IsKept (build_manifest_proxy_url ext s id)
    unfolding build_manifest_proxy_url new_manifest_token
    proxy_url-IsKept id w = ground arith

    pub delete_objects-IsKept : (m : Media) → IsKept (delete_objects_of ext s m)
    unfolding delete_objects_of
    delete_objects-IsKept m w = grind (arith, delete_prefix-IsKept ext s.storage)

    pub forget_playback-IsKept : (id : Text) → IsKept (forget_playback ext s id)
    unfolding forget_playback
    forget_playback-IsKept id w = ground arith

    module _ (fmt : CacheFormats) where
      cached_record-IsKept : (id : Text) → IsKept (cached_record ext s fmt id)
      unfolding cached_record
      cached_record-IsKept id w = ground arith

      from_cache-IsKept : (hit : PlaybackCacheRecord × ℕ) → IsKept (from_cache ext s fmt hit)
      unfolding from_cache
      from_cache-IsKept hit w = grind (arith, proxy_url-IsKept)

      put_record-IsKept : (id : Text) (out : PlaybackOutput) → IsKept (put_record ext s fmt id out)
      unfolding put_record
      put_record-IsKept id out w = ground arith

      fresh_playback-IsKept : (id : Text) (m : Media) → IsKept (fresh_playback ext s fmt id m)
      unfolding fresh_playback
      fresh_playback-IsKept id m w =
          grind (arith, build_playback-IsKept, put_record-IsKept, proxy_url-IsKept)

      pub get_playback-IsKept : (o id : Text) → IsKept (get_playback ext s fmt o id)
      unfolding get_playback
      get_playback-IsKept o id w =
          let c = cached_record-IsKept id w in
          let u = (cached_record ext s fmt id w).1 in
          let g = get_by_id-IsKept id u in
          let v = (get_by_id ext id u).1 in
          elim (Bool-cases (has_blank o id)) [
            | inl b ↦ rw (b, get_playback) refl
            | inr b ↦ elim (Result-cases (cached_record ext s fmt id w).0) [
              | inr (x, e) ↦ rw (b, e, get_playback) c
              | inl (hit, e) ↦ elim (Option-cases hit) [
                | inr (r, n) ↦ rw (b, e ∙ ap ok n, get_playback) (from_cache-IsKept r u ∙ c)
                | inl n ↦ elim (Result-cases (get_by_id ext id u).0) [
                  | inr (x, f) ↦ rw (b, e ∙ ap ok n, f, get_playback) (g ∙ c)
                  | inl (m, f) ↦ elim (Bool-cases (text_eq m.owner_user_id o)) [
                    | inl h ↦
                        rw (b, e ∙ ap ok n, f, h, get_playback)
                          (fresh_playback-IsKept id m v ∙ g ∙ c)
                    | inr h ↦ rw (b, e ∙ ap ok n, f, h, get_playback) (g ∙ c)
                  ]
                ]
              ]
            ]
          ]

      pub get_playback_by_id-IsKept : (id : Text) → IsKept (get_playback_by_media_id ext s fmt id)
      unfolding get_playback_by_media_id
      get_playback_by_id-IsKept id w =
          let c = cached_record-IsKept id w in
          let u = (cached_record ext s fmt id w).1 in
          let g = get_by_id-IsKept id u in
          let v = (get_by_id ext id u).1 in
          elim (Bool-cases (is_empty (trim_space id))) [
            | inl b ↦ rw (b, get_playback_by_media_id) refl
            | inr b ↦ elim (Result-cases (cached_record ext s fmt id w).0) [
              | inr (x, e) ↦ rw (b, e, get_playback_by_media_id) c
              | inl (hit, e) ↦ elim (Option-cases hit) [
                | inr (r, n) ↦
                    rw (b, e ∙ ap ok n, get_playback_by_media_id) (from_cache-IsKept r u ∙ c)
                | inl n ↦ elim (Result-cases (get_by_id ext id u).0) [
                  | inr (x, f) ↦ rw (b, e ∙ ap ok n, f, get_playback_by_media_id) (g ∙ c)
                  | inl (m, f) ↦
                      rw (b, e ∙ ap ok n, f, get_playback_by_media_id)
                        (fresh_playback-IsKept id m v ∙ g ∙ c)
                ]
              ]
            ]
          ]

  module _ (s : StorageService) where
    list_existing-IsKept : (ids : List Text) → IsKept (list_existing_ids ext ids)
    unfolding list_existing_ids
    list_existing-IsKept [] w = refl
    list_existing-IsKept (i ∷ ids) w = ground arith

    collect-IsKept :
        (fuel batch : ℕ) (ids existing : List Text)
        → IsKept (collect_existing ext s fuel batch ids existing)
    unfolding collect_existing
    collect-IsKept fuel batch [] existing w = refl
    collect-IsKept zero batch (i ∷ ids) existing w = refl
    collect-IsKept (suc fuel) batch (i ∷ ids) existing w =
        let rest : (is es : List Text) → IsKept (collect_existing ext s fuel batch is es) =
          λ is es. collect-IsKept fuel batch is es in
        grind (arith, list_existing-IsKept, rest)

    delete_orphans-IsKept :
        (existing : List Text) (es : List (Text × Text)) (counts : ℕ × ℕ)
        → IsKept (delete_orphans ext s existing es counts)
    unfolding delete_orphans
    delete_orphans-IsKept existing [] counts w = refl
    delete_orphans-IsKept existing (e ∷ es) counts w = elim (Bool-cases (known existing e.0)) [
      | inl k ↦ rw (k, delete_orphans) (delete_orphans-IsKept existing es counts w)
      | inr k ↦
          rw (k, delete_orphans)
            (delete_orphans-IsKept existing es _ (delete_objects_by_prefix ext s e.1 w).1
              ∙ delete_prefix-IsKept ext s e.1 w)
    ]

    clean_entries-IsKept :
        (batch : ℕ) (es : List (Text × Text)) → IsKept (clean_entries ext s batch es)
    unfolding clean_entries
    clean_entries-IsKept batch es w = grind (arith, collect-IsKept, delete_orphans-IsKept)

    unless_none-IsKept :
        (order : List (Text × Text) → List (Text × Text)) (batch : ℕ) (es : List (Text × Text))
        → IsKept (unless_none ext s order batch es)
    unless_none-IsKept order batch [] w = refl
    unless_none-IsKept order batch (e ∷ es) w = clean_entries-IsKept batch _ w

    pub run_once-IsKept :
        (order : List (Text × Text) → List (Text × Text)) (batch : ℤ)
        → IsKept (run_once ext s order batch)
    unfolding run_once
    run_once-IsKept order batch w =
        let p = list_prefixes-IsKept ext s w in
        let u = (list_media_prefixes ext s w).1 in
        elim (Result-cases (list_media_prefixes ext s w).0) [
          | inr (x, e) ↦ rw (e, run_once) p
          | inl (ps, e) ↦
              rw (e, run_once) (unless_none-IsKept order (batch_or_default batch) ps u ∙ p)
        ]
