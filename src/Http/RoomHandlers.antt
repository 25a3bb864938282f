-- ===== src/Http/RoomHandlers.antt =====
-- internal/http/handlers/rooms/handler.go, and internal/http/handlers/webhook/handler.go
use api_calixio.Prelude.{
  Bool, true, not, ◌&&◌, Option, none, some, [], ◌∷◌, ◌++◌, map, if◌then◌else◌,
}
use api_calixio.Text.{Text, codes, text_eq, is_empty, trim_space}
use api_calixio.Hex.{hex}
use api_calixio.Records.{Room, RoomStatus, room_pending, room_active}
use api_calixio.External.{External}
use api_calixio.Exec.{
  Exec, Error, Result, ok, err, not_found, room_forbidden, media_required, media_forbidden_for_room,
  media_not_ready, pure, attempt, call, ◌>>=◌,
}
use api_calixio.Repository.Rooms.{list_rooms_by_owner}
use api_calixio.RoomService.{conference, movie, create_room, join_room, update_room_state}
use api_calixio.Upload.Playback.{PlaybackOutput, get_playback_by_media_id}
use api_calixio.Http.Message.{
  Response, RoomResponse, RoomStateResponse, PlaybackMediaResponse, respond, respond_error,
  rooms_body, room_body, join_body, room_state_body,
}
use api_calixio.Http.Codec.{
  Request, CreateRoomRequest, JoinRoomRequest, UpdateRoomStateRequest, Decoded, decoded, no_body,
  malformed, Site,
}
use api_calixio.Http.Reading.{Handler, fail, read_checked, unless_empty}

-- `string(room.Status)`
abbrev pub room_status_text : RoomStatus → Text
room_status_text room_pending = codes "pending"
room_status_text room_active = codes "active"
room_status_text RoomStatus.room_ended = codes "ended"

-- "Гость"
abbrev pub guest_name : Text
guest_name = codes "Гость"

-- `req.Mode == "movie" && (req.MediaID == nil || strings.TrimSpace(*req.MediaID) == "")`
abbrev lacks_media : UpdateRoomStateRequest → Bool
lacks_media req =
    text_eq req.mode movie && elim req.media_id [ none ↦ true | some id ↦ is_empty (trim_space id) ]

-- The request of a join: a body with nothing in it leaves the zero value.
abbrev pub join_request : Decoded JoinRoomRequest → Option JoinRoomRequest
join_request (decoded r) = some r
join_request no_body = some (record { user_name = [] })
join_request malformed = none

module _ (ext : External) (site : Site ext) where
  open ext use {X, random}
  open site use {auth, upload, cache_formats, formats, codec}

  abbrev pub room_response : Room → RoomResponse
  room_response room = record {
    id = room.id;
    name = room.name;
    status = room_status_text room.status;
    created_at = codec.format_local room.created_at;
  }

  unfoldable pub list_rooms_handler : Text → Handler ext site
  list_rooms_handler user = unless_empty ext site user 401 (codes "unauthorized") (do
    r ← attempt (list_rooms_by_owner ext user)
    elim r [
      | err e ↦ fail ext site 500 (codes "room_list_failed")
      | ok rooms ↦ pure (respond 200 (rooms_body (map room_response rooms)))
    ])

  abbrev create_room_valid : Text → CreateRoomRequest → Handler ext site
  create_room_valid user req = unless_empty ext site user 401 (codes "unauthorized") (do
    r ← attempt (create_room ext req.name user none)
    elim r [
      | err e ↦ fail ext site 500 (codes "room_create_failed")
      | ok room ↦ pure (respond 201 (room_body (room_response room)))
    ])

  unfoldable pub create_room_handler : Text → Request → Handler ext site
  create_room_handler user r =
      read_checked ext site codec.create_room r.body (create_room_valid user)

  -- `newGuestID`
  unfoldable pub new_guest_id : Exec X Text
  new_guest_id = do bytes ← call (random 16); pure (codes "guest-" ++ hex bytes)

  abbrev pub playback_response : PlaybackOutput → PlaybackMediaResponse
  playback_response p = record {
    media_id = p.media_id;
    status = p.status;
    manifest = p.manifest;
    manifest_url = p.manifest_url;
    preview_url = p.preview_url;
    expires_at = codec.format_utc p.expires_at;
  }

  abbrev movie_state : Text → Result PlaybackOutput → RoomStateResponse
  movie_state id (ok p) = record {
    mode = movie;
    media_id = some id;
    playback = some (playback_response p);
  }
  movie_state id (err e) = record { mode = movie; media_id = some id; playback = none }

  -- `buildRoomStateResponse`
  unfoldable pub build_room_state_response : Room → Exec X RoomStateResponse
  build_room_state_response room = elim room.media_id [
    | none ↦ pure (record { mode = conference; media_id = none; playback = none })
    | some id ↦
        if is_empty (trim_space id)
        then pure (record { mode = conference; media_id = none; playback = none })
        else do
          r ← attempt (get_playback_by_media_id ext upload cache_formats id)
          pure (movie_state id r)
  ]

  abbrev join_error : Error → Response formats.Rate
  join_error not_found = respond_error 404 (codes "room_not_found")
  join_error Error.room_ended = respond_error 409 (codes "room_ended")
  join_error _ = respond_error 500 (codes "room_join_failed")

  -- From the display name on, with the user or the guest.
  unfoldable pub join_as : Text → JoinRoomRequest → Text → Handler ext site
  join_as room_id req identity = unless_empty ext site room_id 400 (codes "room_id_required") (do
    let trimmed = trim_space req.user_name
    r ← attempt (join_room ext room_id identity (if is_empty trimmed then guest_name else trimmed))
    elim r [
      | err e ↦ pure (join_error e)
      | ok (token, room) ↦ do
        state ← build_room_state_response room
        pure (
            respond 200 (
              join_body (record {
                room_id = room.id;
                room_name = room.name;
                token = token;
                expires_in = codec.seconds auth.access_ttl;
                state = state;
              })))
    ])

  abbrev pub join_valid : Text → Text → JoinRoomRequest → Handler ext site
  join_valid user room_id req = if not (is_empty user) then join_as room_id req user else do
    r ← attempt new_guest_id
    elim r [
      | err e ↦ fail ext site 500 (codes "guest_identity_failed")
      | ok id ↦ join_as room_id req id
    ]

  unfoldable pub join_room_handler : Text → Text → Request → Handler ext site
  join_room_handler user room_id r = elim (join_request (codec.join_room.decode r.body)) [
    | none ↦ fail ext site 400 (codes "invalid_json")
    | some req ↦ elim (codec.join_room.validate req) [
      | [] ↦ join_valid user room_id req
      | e ∷ es ↦ fail ext site 400 (codes "validation_failed")
    ]
  ]

  abbrev room_state_error : Error → Response formats.Rate
  room_state_error not_found = respond_error 404 (codes "room_not_found")
  room_state_error room_forbidden = respond_error 403 (codes "room_forbidden")
  room_state_error Error.room_ended = respond_error 409 (codes "room_ended")
  room_state_error media_required = respond_error 400 (codes "media_id_required")
  room_state_error media_forbidden_for_room = respond_error 403 (codes "media_forbidden")
  room_state_error media_not_ready = respond_error 409 (codes "media_not_ready")
  room_state_error _ = respond_error 500 (codes "room_state_update_failed")

  abbrev room_state_valid : Text → Text → UpdateRoomStateRequest → Handler ext site
  room_state_valid user room_id req =
      if lacks_media req then fail ext site 400 (codes "media_id_required") else do
        r ← attempt (update_room_state ext room_id user req.mode req.media_id)
        elim r [
          | err e ↦ pure (room_state_error e)
          | ok room ↦ do
            state ← build_room_state_response room
            pure (
                respond 200 (
                  room_state_body
                    (record { room_id = room.id; room_name = room.name; state = state })))
        ]

  unfoldable pub update_room_state_handler : Text → Text → Request → Handler ext site
  update_room_state_handler user room_id r = unless_empty ext site user 401 (codes "unauthorized") (
      unless_empty ext site room_id 400 (codes "room_id_required")
        (read_checked ext site codec.room_state r.body (room_state_valid user room_id)))
