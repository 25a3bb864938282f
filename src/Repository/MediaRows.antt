-- ===== src/Repository/MediaRows.antt =====
-- internal/repository/media.go
use api_calixio.Prelude.{
  ℕ, Bool, not, Option, some, List, [], ◌∷◌, ◌++◌, ◌||◌, ◌&&◌, find, any, filter, if◌then◌else◌,
  leb, map,
}
use api_calixio.Text.{Text, codes, text_eq}
use api_calixio.Integer.{ℤ}
use api_calixio.Records.{User, Media, MediaStatus}
use api_calixio.External.{External}
use api_calixio.Repository.Sql.{update_where, is_null}
use api_calixio.Exec.{
  Exec, external, not_found, pure, raise, gets, modify, from_option, call, ◌>>=◌, ◌>>◌,
}

-- `WHERE id = $1 AND deleted_at IS NULL`
abbrev pub is_kept : Text → Media → Bool
is_kept id m = text_eq m.id id && is_null m.deleted_at

abbrev pub media_conflicts : Media → Media → Bool
media_conflicts new m = text_eq m.id new.id || text_eq m.storage_key new.storage_key

abbrev pub hls_mime : Text
hls_mime = codes "application/vnd.apple.mpegurl"

-- What the four updates write into a row.
abbrev pub with_upload : MediaStatus → ℤ → Text → Media → Media
with_upload status size mime m = record m {
  status = status;
  file_size_bytes = size;
  mime_type = mime;
}

abbrev pub with_status : MediaStatus → Media → Media
with_status status m = record m { status = status }

abbrev pub with_transcode : Text → Option Text → Option ℤ → MediaStatus → Media → Media
with_transcode url preview duration status m = record m {
  playback_url = url;
  preview_url = preview;
  duration_sec = duration;
  mime_type = hls_mime;
  status = status;
}

abbrev pub with_deletion : ℕ → Media → Media
with_deletion t m = record m { deleted_at = some t }

insert_media : Media → List Media → List Media
insert_media m [] = m ∷ []
insert_media m (n ∷ ns) =
    let rest = insert_media m ns in if leb n.created_at m.created_at then m ∷ n ∷ ns else n ∷ rest

-- `ORDER BY created_at DESC`
unfoldable pub sort_media : List Media → List Media
unfolding insert_media
sort_media [] = []
sort_media (m ∷ ms) = insert_media m (sort_media ms)

module _ (ext : External) where
  open ext use {X, query, violation}

  unfoldable pub create : Media → Exec X Media
  create media = do
    call query
    taken ← gets (λ w. any (media_conflicts media) w.media)
    known ← gets (λ w. any (λ (u : User). text_eq u.id media.owner_user_id) w.users)
    if taken || not known
        then raise (external violation)
        else do modify (λ w. record w { media = w.media ++ (media ∷ []) }); pure media

  unfoldable pub list_by_owner : Text → Exec X (List Media)
  list_by_owner owner = do
    call query
    gets (λ w.
        sort_media (filter (λ m. text_eq m.owner_user_id owner && is_null m.deleted_at) w.media))

  unfoldable pub get_by_id : Text → Exec X Media
  get_by_id id = do
    call query
    found ← gets (λ w. find (is_kept id) w.media)
    from_option found not_found

  -- No query is sent for an empty list.
  unfoldable pub list_existing_ids : List Text → Exec X (List Text)
  list_existing_ids [] = pure []
  list_existing_ids (i ∷ ids) = do
    call query
    gets (λ w.
        map (λ (m : Media). m.id)
          (filter (λ m. is_null m.deleted_at && any (text_eq m.id) (i ∷ ids)) w.media))

  -- An UPDATE of the kept row; no row changed is `ErrNotFound`.
  unfoldable pub update_kept : Text → (Media → Media) → Exec X (Unit {0})
  update_kept id f = do
    call query
    hit ← gets (λ w. any (is_kept id) w.media)
    if hit
        then modify (λ w. record w { media = update_where (is_kept id) f w.media })
        else raise not_found

  unfoldable pub update_upload_state : Text → MediaStatus → ℤ → Text → Exec X (Unit {0})
  unfolding update_kept
  update_upload_state id status size mime = update_kept id (with_upload status size mime)

  unfoldable pub update_status : Text → MediaStatus → Exec X (Unit {0})
  unfolding update_kept
  update_status id status = update_kept id (with_status status)

  unfoldable pub update_transcode_result :
      Text → Text → Option Text → Option ℤ → MediaStatus → Exec X (Unit {0})
  unfolding update_kept
  update_transcode_result id url preview duration status =
      update_kept id (with_transcode url preview duration status)

  unfoldable pub soft_delete : Text → ℕ → Exec X (Unit {0})
  unfolding update_kept
  soft_delete id t = update_kept id (with_deletion t)
