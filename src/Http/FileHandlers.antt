-- ===== src/Http/FileHandlers.antt =====
-- internal/http/handlers/files/files.go
use api_calixio.Prelude.{map}
use api_calixio.Text.{Text, codes}
use api_calixio.Records.{Media, media_status_text}
use api_calixio.External.{External}
use api_calixio.Exec.{
  Error, ok, err, not_found, invalid_upload_input, forbidden_media, media_not_ready,
  uploaded_object_not_found, invalid_manifest_key, pure, attempt, ◌>>=◌,
}
use api_calixio.Upload.Intake.{init_upload, complete_upload}
use api_calixio.Upload.Playback.{get_playback, resolve_playback_manifest}
use api_calixio.Upload.Deletion.{list_media, delete_media}
use api_calixio.Http.Message.{
  Response, MediaListItemResponse, respond, respond_error, media_list_body, init_body,
  complete_body, playback_body, delete_body, manifest_body,
}
use api_calixio.Http.Codec.{Request, InitMediaUploadRequest, CompleteMediaUploadRequest, Site}
use api_calixio.Http.Reading.{Handler, read_body, unless_empty}
use api_calixio.Http.RoomHandlers.{playback_response}

module _ (ext : External) (site : Site ext) where
  open site use {upload, cache_formats, formats, codec}

  abbrev list_item : Media → MediaListItemResponse
  list_item m = record {
    id = m.id;
    title = m.title;
    original_name = m.original_name;
    playback_url = m.playback_url;
    preview_url = m.preview_url;
    duration_sec = m.duration_sec;
    file_size_bytes = m.file_size_bytes;
    mime_type = m.mime_type;
    status = media_status_text m.status;
    created_at = codec.format_local m.created_at;
  }

  abbrev list_error : Error → Response formats.Rate
  list_error invalid_upload_input = respond_error 400 (codes "invalid_upload_input")
  list_error _ = respond_error 500 (codes "media_list_failed")

  unfoldable pub list_media_handler : Text → Handler ext site
  list_media_handler user = unless_empty ext site user 401 (codes "unauthorized") (do
    r ← attempt (list_media ext upload user)
    elim r [
      | err e ↦ pure (list_error e)
      | ok items ↦ pure (respond 200 (media_list_body (map list_item items)))
    ])

  abbrev init_error : Error → Response formats.Rate
  init_error invalid_upload_input = respond_error 400 (codes "invalid_upload_input")
  init_error _ = respond_error 500 (codes "media_upload_init_failed")

  abbrev init_valid : Text → InitMediaUploadRequest → Handler ext site
  init_valid user req = do
    r ← attempt (
        init_upload ext upload (record {
          owner_user_id = user;
          file_name = req.file_name;
          content_type = req.content_type;
          size_bytes = req.size_bytes;
        }))
    elim r [
      | err e ↦ pure (init_error e)
      | ok out ↦ pure (
          respond 201 (
            init_body (record {
              media_id = out.media_id;
              upload_url = out.upload_url;
              storage_key = out.storage_key;
            })))
    ]

  unfoldable pub init_upload_handler : Text → Request → Handler ext site
  init_upload_handler user r =
      unless_empty ext site user 401 (codes "unauthorized")
        (read_body ext site codec.init_upload r.body (init_valid user))

  abbrev complete_error : Error → Response formats.Rate
  complete_error not_found = respond_error 404 (codes "media_not_found")
  complete_error forbidden_media = respond_error 403 (codes "media_forbidden")
  complete_error uploaded_object_not_found = respond_error 404 (codes "uploaded_object_not_found")
  complete_error invalid_upload_input = respond_error 400 (codes "invalid_uploaded_object")
  complete_error _ = respond_error 500 (codes "media_upload_complete_failed")

  abbrev complete_valid : Text → CompleteMediaUploadRequest → Handler ext site
  complete_valid user req = do
    r ← attempt (complete_upload ext upload user req.media_id)
    elim r [
      | err e ↦ pure (complete_error e)
      | ok (id, status) ↦ pure (
          respond 200 (complete_body (record { media_id = id; status = media_status_text status })))
    ]

  unfoldable pub complete_upload_handler : Text → Request → Handler ext site
  complete_upload_handler user r =
      unless_empty ext site user 401 (codes "unauthorized")
        (read_body ext site codec.complete_upload r.body (complete_valid user))

  abbrev playback_error : Error → Response formats.Rate
  playback_error not_found = respond_error 404 (codes "media_not_found")
  playback_error forbidden_media = respond_error 403 (codes "media_forbidden")
  playback_error media_not_ready = respond_error 409 (codes "media_not_ready")
  playback_error invalid_upload_input = respond_error 400 (codes "invalid_playback_request")
  playback_error _ = respond_error 500 (codes "media_playback_failed")

  unfoldable pub get_playback_handler : Text → Text → Handler ext site
  get_playback_handler user id = unless_empty ext site user 401 (codes "unauthorized") (
      unless_empty ext site id 400 (codes "media_id_required") (do
        r ← attempt (get_playback ext upload cache_formats user id)
        elim r [
          | err e ↦ pure (playback_error e)
          | ok out ↦ pure (respond 200 (playback_body (playback_response ext site out)))
        ]))

  abbrev manifest_error : Error → Response formats.Rate
  manifest_error invalid_manifest_key = respond_error 404 (codes "media_playback_not_found")
  manifest_error not_found = respond_error 404 (codes "media_playback_not_found")
  manifest_error media_not_ready = respond_error 404 (codes "media_playback_not_found")
  manifest_error _ = respond_error 500 (codes "media_playback_failed")

  unfoldable pub manifest_handler : Text → Handler ext site
  manifest_handler token = unless_empty ext site token 400 (codes "playback_token_required") (do
    r ← attempt (resolve_playback_manifest ext upload token)
    elim r [
      | err e ↦ pure (manifest_error e)
      | ok manifest ↦ pure (respond 200 (manifest_body manifest))
    ])

  abbrev delete_error : Error → Response formats.Rate
  delete_error not_found = respond_error 404 (codes "media_not_found")
  delete_error forbidden_media = respond_error 403 (codes "media_forbidden")
  delete_error invalid_upload_input = respond_error 400 (codes "invalid_media_delete_request")
  delete_error _ = respond_error 500 (codes "media_delete_failed")

  unfoldable pub delete_media_handler : Text → Text → Handler ext site
  delete_media_handler user id = unless_empty ext site user 401 (codes "unauthorized") (
      unless_empty ext site id 400 (codes "media_id_required") (do
        r ← attempt (delete_media ext upload user id)
        elim r [
          | err e ↦ pure (delete_error e)
          | ok u ↦
              pure (respond 200 (delete_body (record { media_id = id; status = codes "deleted" })))
        ]))
