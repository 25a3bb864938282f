-- ===== src/Http/StateHandlers.antt =====
-- internal/http/handlers/rooms/handler.go: the playback state of a room, and its end; and
-- internal/http/handlers/webhook/handler.go.
use api_calixio.Text.{Text, codes}
use api_calixio.External.{External}
use api_calixio.Exec.{
  Error, ok, err, not_found, room_forbidden, room_ended, playback_state_not_found, pure, attempt,
  call, ◌>>=◌,
}
use api_calixio.RoomService.{end_room_by_owner}
use api_calixio.Playback.{RoomPlaybackState, get_state, save_by_host}
use api_calixio.Webhook.{handle_event}
use api_calixio.Http.Message.{
  Response, RoomPlaybackStateResponse, respond, respond_error, room_body, playback_state_body,
  status_body,
}
use api_calixio.Http.Codec.{Request, UpdateRoomPlaybackRequest, Site}
use api_calixio.Http.Reading.{Handler, fail, read_checked, unless_empty}
use api_calixio.Http.RoomHandlers.{room_response}

module _ (ext : External) (site : Site ext) where
  open site use {formats, codec}

  abbrev state_response : RoomPlaybackState formats.Rate → RoomPlaybackStateResponse formats.Rate
  state_response s = record {
    room_id = s.room_id;
    media_id = s.media_id;
    status = s.status;
    position_ms = s.position_ms;
    playback_rate = s.playback_rate;
    updated_at = s.updated_at;
    version = s.version;
    host_id = s.host_id;
  }

  abbrev state_error : Error → Response formats.Rate
  state_error playback_state_not_found = respond_error 404 (codes "playback_state_not_found")
  state_error not_found = respond_error 404 (codes "room_not_found")
  state_error _ = respond_error 500 (codes "playback_state_failed")

  unfoldable pub get_state_handler : Text → Handler ext site
  get_state_handler room_id = unless_empty ext site room_id 400 (codes "room_id_required") (do
    r ← attempt (get_state ext formats room_id)
    elim r [
      | err e ↦ pure (state_error e)
      | ok s ↦ pure (respond 200 (playback_state_body (state_response s)))
    ])

  abbrev save_error : Error → Response formats.Rate
  save_error not_found = respond_error 404 (codes "room_not_found")
  save_error room_forbidden = respond_error 403 (codes "room_forbidden")
  save_error room_ended = respond_error 409 (codes "room_ended")
  save_error _ = respond_error 500 (codes "playback_state_update_failed")

  abbrev save_valid : Text → Text → UpdateRoomPlaybackRequest formats.Rate → Handler ext site
  save_valid user room_id req = do
    r ← attempt (
        save_by_host ext formats room_id user (record {
          media_id = req.media_id;
          status = req.status;
          position_ms = req.position_ms;
          playback_rate = req.playback_rate;
        }))
    elim r [
      | err e ↦ pure (save_error e)
      | ok s ↦ pure (respond 200 (playback_state_body (state_response s)))
    ]

  unfoldable pub save_state_handler : Text → Text → Request → Handler ext site
  save_state_handler user room_id r = unless_empty ext site user 401 (codes "unauthorized") (
      unless_empty ext site room_id 400 (codes "room_id_required")
        (read_checked ext site codec.room_playback r.body (save_valid user room_id)))

  abbrev end_error : Error → Response formats.Rate
  end_error not_found = respond_error 404 (codes "room_not_found")
  end_error room_forbidden = respond_error 403 (codes "room_forbidden")
  end_error _ = respond_error 500 (codes "room_end_failed")

  unfoldable pub end_room_handler : Text → Text → Handler ext site
  end_room_handler user room_id = unless_empty ext site user 401 (codes "unauthorized") (
      unless_empty ext site room_id 400 (codes "room_id_required") (do
        r ← attempt (end_room_by_owner ext room_id user)
        elim r [
          | err e ↦ pure (end_error e)
          | ok room ↦ pure (respond 200 (room_body (room_response ext site room)))
        ]))

  -- `LiveKitWebhook`
  unfoldable pub webhook_handler : Request → Handler ext site
  webhook_handler req = do
    received ← attempt (call (λ x. (codec.receive_webhook req, x)))
    elim received [
      | err e ↦ fail ext site 401 (codes "invalid_webhook")
      | ok event ↦ do
        r ← attempt (handle_event ext event)
        elim r [
          | err e ↦ fail ext site 500 (codes "webhook_handle_failed")
          | ok u ↦ pure (respond 200 (status_body (codes "ok")))
        ]
    ]
