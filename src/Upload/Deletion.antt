-- ===== src/Upload/Deletion.antt =====
-- internal/service/media_upload.go: listing and deleting media items.
pub mod Prefixes
use api_calixio.Prelude.{Bool, true, false, not, Option, none, some, List, [], ◌∷◌, if◌then◌else◌}
use api_calixio.Text.{Text, codes, text_eq, is_empty, trim_space}
use api_calixio.Records.{Media}
use api_calixio.External.{External}
use api_calixio.Exec.{
  Exec, Result, ok, err, invalid_upload_input, forbidden_media, storage_delete, pure, raise,
  attempt, call, observe, ◌>>=◌, ◌>>◌,
}
use api_calixio.Repository.MediaRows.{get_by_id, list_by_owner, soft_delete}
use api_calixio.Storage.Prefix.{media_prefix}
use api_calixio.Storage.Objects.{presign_get_object, delete_objects_by_prefix}
use api_calixio.Upload.{UploadService, has_blank, object_key, playback_cache_key}

module _ (ext : External) (s : UploadService) where
  open ext use {X, now, redis_del}

  abbrev with_url : Media → Result Text → Media
  with_url m (ok url) = record m { preview_url = some url }
  with_url m (err e) = m

  abbrev sign_if : Media → Option Text → Exec X Media
  sign_if m none = pure m
  sign_if m (some old) = do
    r ← attempt (
        presign_get_object ext s.storage
          (object_key m.owner_user_id m.id (codes "preview") (codes "preview.jpg")) s.presign_ttl)
    pure (with_url m r)

  -- One round of the loop over the items.
  unfoldable pub sign_preview : Media → Exec X Media
  sign_preview m = sign_if m m.preview_url

  unfoldable pub sign_previews : List Media → Exec X (List Media)
  sign_previews [] = pure []
  sign_previews (m ∷ ms) = do signed ← sign_preview m; rest ← sign_previews ms; pure (signed ∷ rest)

  unfoldable pub list_media : Text → Exec X (List Media)
  list_media owner =
      if is_empty (trim_space owner)
      then raise invalid_upload_input
      else do items ← list_by_owner ext owner; sign_previews items

  -- The error of the storage becomes `ErrStorageDelete`.
  abbrev or_storage_error : Result (Unit {0}) → Exec X (Unit {0})
  or_storage_error (ok a) = pure a
  or_storage_error (err e) = raise storage_delete

  unfoldable pub delete_objects_of : Media → Exec X (Unit {0})
  delete_objects_of media = do
    r ← attempt (delete_objects_by_prefix ext s.storage (media_prefix media.owner_user_id media.id))
    or_storage_error r

  -- The entry of the cache goes too, and an error of that is dropped.
  unfoldable pub forget_playback : Text → Exec X (Unit {0})
  forget_playback media_id =
      if not s.has_cache
      then pure tt
      else do attempt (call (redis_del (playback_cache_key media_id))); pure tt

  unfoldable pub delete_media : Text → Text → Exec X (Unit {0})
  delete_media owner media_id = if has_blank owner media_id then raise invalid_upload_input else do
    media ← get_by_id ext media_id
    if not (text_eq media.owner_user_id owner) then raise forbidden_media else do
      delete_objects_of media
      t ← observe now
      soft_delete ext media.id t
      forget_playback media_id
