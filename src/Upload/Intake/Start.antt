-- ===== src/Upload/Intake/Start.antt =====
-- Starting an upload.
use api_calixio.Prelude.{true, false, not, ◌||◌, [], ◌∷◌, ◌++◌, ◌≡◌, refl, ap, sym, ◌∙◌, arith, any}
use api_calixio.Text.{Text, codes}
use api_calixio.Integer.{is_pos, at_most}
use api_calixio.Records.{Media, media_uploading}
use api_calixio.External.{External}
use api_calixio.Exec.{World, ok, pure-ok, >>=-eq-ok, unless-raise-ok, if-raise-ok, pure}
use api_calixio.Repository.MediaRows.{media_conflicts, create}
use api_calixio.Storage.Objects.{presign_put_object}
use api_calixio.Upload.{UploadService, has_blank, is_allowed_mime, sanitize_filename, object_key}
use api_calixio.Upload.Intake.{
  InitUploadInput, InitUploadOutput, new_media_id, new_media, start_upload, init_upload,
}

module _ (ext : External) (s : UploadService) where
  open ext use {X, now, to_lower}

  create-ok :
      (m : Media) (w : World X) {n : Media}
      → (create ext m w).0 ≡ ok n
      → (any (media_conflicts m) w.media ≡ false) × ((create ext m w).1.media ≡ w.media ++ (m ∷ []))
  unfolding create
  create-ok m w h = ground arith

  new_media_id-media : (w : World X) → (new_media_id ext s w).1.media ≡ w.media
  unfolding new_media_id
  new_media_id-media w = ground arith

  presign-media :
      (key kind : Text) (w : World X)
      → (presign_put_object ext s.storage key kind s.presign_ttl w).1.media ≡ w.media
  unfolding presign_put_object
  presign-media key kind w = ground arith

  -- An upload starts only for a size from 1 to the limit and a type that is allowed. Then exactly
  -- one row is appended to the media items, with an identifier and a storage key that no row had:
  -- it is of the caller, still uploading, and has the identifier and the storage key that are
  -- returned, which is the key of the cleaned file name below the item's directory.
  pub init_upload-ok :
      (req : InitUploadInput) (w v : World X) (out : InitUploadOutput)
      → init_upload ext s req w ≡ (ok out, v)
      → (m : Media) × (is_pos req.size_bytes ≡ true)
        × (at_most req.size_bytes s.max_size_bytes ≡ true)
        × (is_allowed_mime to_lower s req.content_type ≡ true)
        × (any (media_conflicts m) w.media ≡ false)
        × (v.media ≡ w.media ++ (m ∷ []))
        × (m.owner_user_id ≡ req.owner_user_id)
        × (m.status ≡ media_uploading)
        × (m.id ≡ out.media_id)
        × (m.storage_key ≡ out.storage_key)
        × (out.storage_key
            ≡ object_key req.owner_user_id out.media_id
                (codes "original")
                (sanitize_filename req.file_name))
  unfolding init_upload start_upload
  init_upload-ok req w v out h =
      let (filled, h1) = if-raise-ok (has_blank req.owner_user_id req.file_name) _ _ _ h in
      let (size, h2) =
        if-raise-ok (not (is_pos req.size_bytes) || not (at_most req.size_bytes s.max_size_bytes)) _
          _ _ h1 in
      let (video, h3) = unless-raise-ok (is_allowed_mime to_lower s req.content_type) _ _ _ h2 in
      let (id, e, h4) = >>=-eq-ok (new_media_id ext s) _ w h3 in
      let u = (new_media_id ext s w).1 in
      let safe = sanitize_filename req.file_name in
      let key = object_key req.owner_user_id id (codes "original") safe in
      let sign = presign_put_object ext s.storage key req.content_type s.presign_ttl in
      let (url, e2, h5) = >>=-eq-ok sign _ u h4 in
      let u2 = (sign u).1 in
      let m = new_media ext s req id safe key (now u2.outside).0 in
      let u3 = record u2 { outside = (now u2.outside).1 } in
      let (made, e3, h6) =
        >>=-eq-ok (create ext m)
          (λ c. pure (record { media_id = id; storage_key = key; upload_url = url })) u3 h5 in
      let (free, rows) = create-ok m u3 e3 in
      let (same, last) = pure-ok _ (create ext m u3).1 h6 in
      let before : u2.media ≡ w.media =
        presign-media key req.content_type u ∙ new_media_id-media w in
      (
        m,
        ground arith,
        ground arith,
        video,
        ap (any (media_conflicts m)) (sym before) ∙ free,
        ap (λ z. z.media) last ∙ rows ∙ ap (λ ms. ms ++ (m ∷ [])) before,
        refl,
        refl,
        ap (λ o. o.media_id) (sym same),
        ap (λ o. o.storage_key) (sym same),
        ap (λ o. o.storage_key) same
            ∙ ap (λ i. object_key req.owner_user_id i (codes "original") safe)
                (ap (λ o. o.media_id) (sym same)),
      )
