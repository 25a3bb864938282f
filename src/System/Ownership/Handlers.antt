-- ===== src/System/Ownership/Handlers.antt =====
-- The owners of the rows that the handlers behind the middleware write.
use mathlib.Core.List.{Memᴰ}
use api_calixio.Prelude.{
  true, false, Option, List, [], subst, sym, ◌≡◌, ap, ◌∙◌, arith, Bool-cases, inl, inr,
}
use api_calixio.Text.{Text, codes}
use api_calixio.Records.{Room}
use api_calixio.External.{External}
use api_calixio.Exec.{World, ok}
use api_calixio.RoomService.{update_room_state}
use api_calixio.Access.{passed, authorize}
use api_calixio.Upload.Intake.{complete_upload}
use api_calixio.Http.Codec.{Request, Site}
use api_calixio.Http.RoomHandlers.{
  list_rooms_handler, create_room_handler, build_room_state_response, update_room_state_handler,
}
use api_calixio.Http.StateHandlers.{save_state_handler, end_room_handler}
use api_calixio.Http.FileHandlers.{
  list_media_handler, init_upload_handler, complete_upload_handler, get_playback_handler,
  delete_media_handler,
}
use api_calixio.Http.Router.{Endpoint, Route, Match, found, routes, handle, serve}
use api_calixio.Http.Router.Guards.{is_public, guarded_iff_private, authorize-IsQuiet}
use api_calixio.System.Changes.{tables}
use api_calixio.System.Constraints.{IsConsistent, rooms_apart, media_apart}
use api_calixio.System.Handlers.{
  state_response-IsKept, list_rooms_handler-IsKept, save_state_handler-IsKept,
  list_media_handler-IsKept, get_playback_handler-IsKept,
}
use api_calixio.System.Ownership.{others, Spares}
use api_calixio.System.Ownership.Methods.{
  kept-others, kept-Spares, create_room-Spares, update_room_state-others, end_room_by_owner-others,
}
use api_calixio.System.Ownership.Items.{
  init_upload-Spares, complete_upload-others, delete_media-others,
}
use api_calixio.System.Ownership.Open.{handle_public-Spares}

module _ (ext : External) (site : Site ext) where
  open ext use {X}

  module _ (user : Text) where
    create_room_handler-Spares : (r : Request) → Spares user (create_room_handler ext site user r)
    unfolding create_room_handler
    create_room_handler-Spares r w = grind (arith, create_room-Spares ext user)

    init_upload_handler-Spares : (r : Request) → Spares user (init_upload_handler ext site user r)
    unfolding init_upload_handler
    init_upload_handler-Spares r w = grind (arith, init_upload-Spares ext user site.upload)

    response-others :
        (room : Room) (w : World X)
        → others user (build_room_state_response ext site room w).1 ≡ others user w
    response-others room =
        kept-Spares ext user (build_room_state_response ext site room)
          (state_response-IsKept ext site room)

    update_state_handler-others :
        (i : Text) (r : Request) (w : World X)
        → IsConsistent (tables w)
        → others user (update_room_state_handler ext site user i r w).1 ≡ others user w
    unfolding update_room_state_handler
    update_state_handler-others i r w c =
        let written : (mode : Text) (m : Option Text)
            → others user (update_room_state ext i user mode m w).1 ≡ others user w =
          λ mode m. update_room_state-others ext user i mode m w (rooms_apart (tables w) c) in
        grind (arith, written, response-others)

    end_room_handler-others :
        (i : Text) (w : World X)
        → IsConsistent (tables w)
        → others user (end_room_handler ext site user i w).1 ≡ others user w
    unfolding end_room_handler
    end_room_handler-others i w c =
        let ended = end_room_by_owner-others ext user i w (rooms_apart (tables w) c) in ground arith

    delete_media_handler-others :
        (i : Text) (w : World X)
        → IsConsistent (tables w)
        → others user (delete_media_handler ext site user i w).1 ≡ others user w
    unfolding delete_media_handler
    delete_media_handler-others i w c =
        let gone = delete_media-others ext user site.upload i w (media_apart (tables w) c) in
        ground arith

    complete_upload_handler-others :
        (r : Request) (w : World X)
        → IsConsistent (tables w)
        → others user (complete_upload_handler ext site user r w).1 ≡ others user w
    unfolding complete_upload_handler
    complete_upload_handler-others r w c =
        let done : (i : Text)
            → others user (complete_upload ext site.upload user i w).1 ≡ others user w =
          λ i. complete_upload-others ext user site.upload i w (media_apart (tables w) c) in
        grind (arith, done)

    handle-others :
        (e : Endpoint) (p : Text → Text) (r : Request) (w : World X)
        → is_public e ≡ false
        → IsConsistent (tables w)
        → others user (handle ext site e user p r w).1 ≡ others user w
    unfolding handle
    handle-others Endpoint.login p r w h c = cc
    handle-others Endpoint.register p r w h c = cc
    handle-others Endpoint.refresh p r w h c = cc
    handle-others Endpoint.get_playback_manifest p r w h c = cc
    handle-others Endpoint.join_room p r w h c = cc
    handle-others Endpoint.get_room_playback_state p r w h c = cc
    handle-others Endpoint.livekit_webhook p r w h c = cc
    handle-others Endpoint.list_rooms p r w h c =
        kept-Spares ext user (list_rooms_handler ext site user)
          (list_rooms_handler-IsKept ext site user) w
    handle-others Endpoint.create_room p r w h c = create_room_handler-Spares r w
    handle-others Endpoint.update_room_state p r w h c =
        update_state_handler-others (p (codes "id")) r w c
    handle-others Endpoint.update_room_playback_state p r w h c =
        kept-Spares ext user (save_state_handler ext site user (p (codes "id")) r)
          (save_state_handler-IsKept ext site user (p (codes "id")) r) w
    handle-others Endpoint.end_room p r w h c = end_room_handler-others (p (codes "id")) w c
    handle-others Endpoint.list_media p r w h c =
        kept-Spares ext user (list_media_handler ext site user)
          (list_media_handler-IsKept ext site user) w
    handle-others Endpoint.get_playback p r w h c =
        kept-Spares ext user (get_playback_handler ext site user (p (codes "id")))
          (get_playback_handler-IsKept ext site user (p (codes "id"))) w
    handle-others Endpoint.delete_media p r w h c = delete_media_handler-others (p (codes "id")) w c
    handle-others Endpoint.init_media_upload p r w h c = init_upload_handler-Spares r w
    handle-others Endpoint.complete_media_upload p r w h c = complete_upload_handler-others r w c

  -- A request for a route of the table, whose token the middleware takes for `user`, leaves the rooms
  -- and the media items of all other owners as they are, whether it goes through or fails, in a world
  -- where the keys of the migrations hold.
  pub serve_spares_others :
      (find_route : List Route → Text → Text → Match) (r : Request) (w : World X) (route : Route)
      (param : Text → Text) (user : Text)
      → find_route routes r.method r.path ≡ found route param
      → Memᴰ route routes
      → (authorize ext site.auth true r.authorization w).0 ≡ ok (passed user)
      → IsConsistent (tables w)
      → others user (serve ext site find_route r w).1 ≡ others user w
  unfolding serve
  serve_spares_others find_route r w route param user f member allowed c =
      let same = guarded_iff_private route member in
      let q = authorize-IsQuiet ext site.auth r.authorization w in
      let v = (authorize ext site.auth true r.authorization w).1 in
      let kept : tables v ≡ tables w = ap tables q in
      elim (Bool-cases (is_public route.endpoint)) [
        | inl public ↦
            let open_route : route.guarded ≡ false = ground arith in
            rw (f, open_route, serve)
              (handle_public-Spares ext user site route.endpoint [] param r public w)
        | inr private ↦
            let guarded : route.guarded ≡ true = ground arith in
            let c2 : IsConsistent (tables v) = subst IsConsistent (sym kept) c in
            rw (f, guarded, allowed, serve)
              (handle-others user route.endpoint param r v private c2
                ∙ kept-others ext user v w kept)
      ]
