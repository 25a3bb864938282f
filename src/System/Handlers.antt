-- ===== src/System/Handlers.antt =====
-- What the handlers write.
use api_calixio.Prelude.{List, [], ◌∷◌, refl, arith, ◌∙◌, Bool-cases, Option-cases, inl, inr}
use api_calixio.Text.{Text, codes, is_empty}
use api_calixio.Records.{Room}
use api_calixio.External.{External}
use api_calixio.Exec.{Result-cases}
use api_calixio.Http.Codec.{Request, JoinRoomRequest, Site}
use api_calixio.Http.Reading.{Handler, fail}
use api_calixio.Http.Accounts.{login_handler, register_handler, refresh_handler, refresh_cookie}
use api_calixio.Http.RoomHandlers.{
  list_rooms_handler, create_room_handler, new_guest_id, build_room_state_response, join_as,
  join_request, join_valid, join_room_handler, update_room_state_handler,
}
use api_calixio.Http.StateHandlers.{
  get_state_handler, save_state_handler, end_room_handler, webhook_handler,
}
use api_calixio.Http.FileHandlers.{
  list_media_handler, init_upload_handler, complete_upload_handler, get_playback_handler,
  manifest_handler, delete_media_handler,
}
use api_calixio.Http.Router.{Endpoint, handle}
use api_calixio.System.Kept
use api_calixio.System.Kept.{IsKept, kept-IsTraced}
use api_calixio.System.Rooms
use api_calixio.System.MediaItems
use api_calixio.Auth.{refresh}
use api_calixio.Upload.Intake.{InitUploadInput, init_upload}
use api_calixio.System.Changes.{tables, Trace, IsTraced}
use api_calixio.System.Uploads
use api_calixio.System.Accounts.{login-IsTraced, refresh-IsTraced, register-IsTraced}

module _ (ext : External) (site : Site ext) where
  open ext use {X}

  login_handler-IsTraced : (r : Request) → IsTraced (login_handler ext site r)
  unfolding login_handler refresh_cookie
  login_handler-IsTraced r s w h = grind (arith, login-IsTraced ext site.auth)

  refresh_handler-IsTraced : (r : Request) → IsTraced (refresh_handler ext site r)
  unfolding refresh_handler refresh_cookie
  refresh_handler-IsTraced r s w h =
      let done : (token : Text) → Trace s (tables (refresh ext site.auth token w).1) =
        λ token. refresh-IsTraced ext site.auth token s w h in
      grind (arith, done)

  register_handler-IsTraced : (r : Request) → IsTraced (register_handler ext site r)
  unfolding register_handler
  register_handler-IsTraced r s w h = grind (arith, register-IsTraced ext site.auth)

  pub manifest_handler-IsKept : (t : Text) → IsKept (manifest_handler ext site t)
  unfolding manifest_handler
  manifest_handler-IsKept t w = grind (arith, Uploads.resolve-IsKept ext site.upload)

  pub state_response-IsKept : (room : Room) → IsKept (build_room_state_response ext site room)
  unfolding build_room_state_response
  state_response-IsKept room w =
      grind (arith, Uploads.get_playback_by_id-IsKept ext site.upload site.cache_formats)

  join_as-IsKept :
      (id : Text) (req : JoinRoomRequest) (u : Text) → IsKept (join_as ext site id req u)
  unfolding join_as
  join_as-IsKept id req u w = grind (arith, Kept.join_room-IsKept ext, state_response-IsKept)

  guest-IsKept : IsKept (new_guest_id ext site)
  unfolding new_guest_id
  guest-IsKept w = ground arith

  join_valid-IsKept : (u i : Text) (req : JoinRoomRequest) → IsKept (join_valid ext site u i req)
  join_valid-IsKept u i req w = elim (Bool-cases (is_empty u)) [
    | inr e ↦ rw e (join_as-IsKept i req u w)
    | inl e ↦ elim (Result-cases (new_guest_id ext site w).0) [
      | inr (x, f) ↦ rw (e, f) (guest-IsKept w)
      | inl (g, f) ↦ rw (e, f) (join_as-IsKept i req g (new_guest_id ext site w).1 ∙ guest-IsKept w)
    ]
  ]

  checked-IsKept :
      (errors : List (Text × Text)) (next other : Handler ext site)
      → IsKept next
      → IsKept other
      → IsKept (elim errors [ [] ↦ next | e ∷ es ↦ other ])
  checked-IsKept [] next other k o = k
  checked-IsKept (e ∷ es) next other k o = o

  pub join_room_handler-IsKept :
      (u i : Text) (r : Request) → IsKept (join_room_handler ext site u i r)
  unfolding join_room_handler
  join_room_handler-IsKept u i r w =
      elim (Option-cases (join_request (site.codec.join_room.decode r.body))) [
        | inl e ↦ rw (e, join_room_handler) refl
        | inr (req, e) ↦
            rw (e, join_room_handler)
              (checked-IsKept (site.codec.join_room.validate req) (join_valid ext site u i req)
                (fail ext site 400 (codes "validation_failed")) (join_valid-IsKept u i req)
                (λ v. refl) w)
      ]

  pub get_state_handler-IsKept : (i : Text) → IsKept (get_state_handler ext site i)
  unfolding get_state_handler
  get_state_handler-IsKept i w = grind (arith, Kept.get_state-IsKept ext site.formats)

  pub list_rooms_handler-IsKept : (u : Text) → IsKept (list_rooms_handler ext site u)
  unfolding list_rooms_handler
  list_rooms_handler-IsKept u w = grind (arith, Kept.list_rooms-IsKept ext)

  create_room_handler-IsTraced :
      (u : Text) (r : Request) → IsTraced (create_room_handler ext site u r)
  unfolding create_room_handler
  create_room_handler-IsTraced u r s w h = grind (arith, Rooms.create_room-IsTraced ext)

  update_state_handler-IsTraced :
      (u i : Text) (r : Request) → IsTraced (update_room_state_handler ext site u i r)
  unfolding update_room_state_handler
  update_state_handler-IsTraced u i r s w h =
      grind (arith, Rooms.update_room_state-IsTraced ext, state_response-IsKept)

  pub save_state_handler-IsKept :
      (u i : Text) (r : Request) → IsKept (save_state_handler ext site u i r)
  unfolding save_state_handler
  save_state_handler-IsKept u i r w = grind (arith, Kept.save_by_host-IsKept ext site.formats)

  end_room_handler-IsTraced : (u i : Text) → IsTraced (end_room_handler ext site u i)
  unfolding end_room_handler
  end_room_handler-IsTraced u i s w h = grind (arith, Rooms.end_room_by_owner-IsTraced ext)

  pub list_media_handler-IsKept : (u : Text) → IsKept (list_media_handler ext site u)
  unfolding list_media_handler
  list_media_handler-IsKept u w = grind (arith, Uploads.list_media-IsKept ext site.upload)

  pub get_playback_handler-IsKept : (u i : Text) → IsKept (get_playback_handler ext site u i)
  unfolding get_playback_handler
  get_playback_handler-IsKept u i w =
      grind (arith, Uploads.get_playback-IsKept ext site.upload site.cache_formats)

  delete_media_handler-IsTraced : (u i : Text) → IsTraced (delete_media_handler ext site u i)
  unfolding delete_media_handler
  delete_media_handler-IsTraced u i s w h =
      grind (arith, MediaItems.delete_media-IsTraced ext site.upload)

  init_upload_handler-IsTraced :
      (u : Text) (r : Request) → IsTraced (init_upload_handler ext site u r)
  unfolding init_upload_handler
  init_upload_handler-IsTraced u r s w h =
      let done : (req : InitUploadInput) → Trace s (tables (init_upload ext site.upload req w).1) =
        λ req. MediaItems.init_upload-IsTraced ext site.upload req s w h in
      grind (arith, done)

  complete_upload_handler-IsTraced :
      (u : Text) (r : Request) → IsTraced (complete_upload_handler ext site u r)
  unfolding complete_upload_handler
  complete_upload_handler-IsTraced u r s w h =
      grind (arith, MediaItems.complete_upload-IsTraced ext site.upload)

  pub webhook_handler-IsKept : (r : Request) → IsKept (webhook_handler ext site r)
  unfolding webhook_handler
  webhook_handler-IsKept r w = grind (arith, Kept.handle_event-IsKept ext)

  pub handle-IsTraced :
      (e : Endpoint) (u : Text) (p : Text → Text) (r : Request) → IsTraced (handle ext site e u p r)
  unfolding handle
  handle-IsTraced Endpoint.login u p r = login_handler-IsTraced r
  handle-IsTraced Endpoint.register u p r = register_handler-IsTraced r
  handle-IsTraced Endpoint.refresh u p r = refresh_handler-IsTraced r
  handle-IsTraced Endpoint.get_playback_manifest u p r =
      kept-IsTraced (manifest_handler ext site (p (codes "token")))
        (manifest_handler-IsKept (p (codes "token")))
  handle-IsTraced Endpoint.join_room u p r =
      kept-IsTraced (join_room_handler ext site u (p (codes "id")) r)
        (join_room_handler-IsKept u (p (codes "id")) r)
  handle-IsTraced Endpoint.get_room_playback_state u p r =
      kept-IsTraced (get_state_handler ext site (p (codes "id")))
        (get_state_handler-IsKept (p (codes "id")))
  handle-IsTraced Endpoint.list_rooms u p r =
      kept-IsTraced (list_rooms_handler ext site u) (list_rooms_handler-IsKept u)
  handle-IsTraced Endpoint.create_room u p r = create_room_handler-IsTraced u r
  handle-IsTraced Endpoint.update_room_state u p r =
      update_state_handler-IsTraced u (p (codes "id")) r
  handle-IsTraced Endpoint.update_room_playback_state u p r =
      kept-IsTraced (save_state_handler ext site u (p (codes "id")) r)
        (save_state_handler-IsKept u (p (codes "id")) r)
  handle-IsTraced Endpoint.end_room u p r = end_room_handler-IsTraced u (p (codes "id"))
  handle-IsTraced Endpoint.list_media u p r =
      kept-IsTraced (list_media_handler ext site u) (list_media_handler-IsKept u)
  handle-IsTraced Endpoint.get_playback u p r =
      kept-IsTraced (get_playback_handler ext site u (p (codes "id")))
        (get_playback_handler-IsKept u (p (codes "id")))
  handle-IsTraced Endpoint.delete_media u p r = delete_media_handler-IsTraced u (p (codes "id"))
  handle-IsTraced Endpoint.init_media_upload u p r = init_upload_handler-IsTraced u r
  handle-IsTraced Endpoint.complete_media_upload u p r = complete_upload_handler-IsTraced u r
  handle-IsTraced Endpoint.livekit_webhook u p r =
      kept-IsTraced (webhook_handler ext site r) (webhook_handler-IsKept r)
