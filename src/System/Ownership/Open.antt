-- ===== src/System/Ownership/Open.antt =====
-- The methods and the routes that ask for no caller, and the owners of the rows.
use api_calixio.Prelude.{◌≡◌, arith, true}
use api_calixio.Text.{Text, codes}
use api_calixio.External.{External}
use api_calixio.Repository.Users.{get_by_email, create_user}
use api_calixio.Repository.Sessions.{store, rotate, get_by_refresh_token_hash}
use api_calixio.Auth.{
  AuthConfig, generate_refresh_token, issue_token, keep_session, open_session, check_password,
  login, is_dead, turn_over, renew, refresh, register,
}
use api_calixio.Http.Codec.{Request, Site}
use api_calixio.Http.Accounts.{login_handler, register_handler, refresh_handler, refresh_cookie}
use api_calixio.Http.RoomHandlers.{join_room_handler}
use api_calixio.Http.StateHandlers.{get_state_handler, webhook_handler}
use api_calixio.Http.FileHandlers.{manifest_handler}
use api_calixio.Http.Router.{Endpoint, handle}
use api_calixio.Http.Router.Guards.{is_public}
use api_calixio.System.Handlers.{
  manifest_handler-IsKept, join_room_handler-IsKept, get_state_handler-IsKept,
  webhook_handler-IsKept,
}
use api_calixio.System.Ownership.{Spares}
use api_calixio.System.Ownership.Methods.{kept-Spares}

module _ (ext : External) (user : Text) where
  open ext use {X}

  module _ (cfg : AuthConfig) where
    login-Spares : (email p : Text) → Spares user (login ext cfg email p)
    unfolding login check_password open_session keep_session issue_token generate_refresh_token
        store get_by_email
    login-Spares email p w = ground arith

    refresh-Spares : (token : Text) → Spares user (refresh ext cfg token)
    unfolding refresh get_by_refresh_token_hash is_dead renew issue_token generate_refresh_token
        turn_over rotate
    refresh-Spares token w = ground arith

    register-Spares : (name email p : Text) → Spares user (register ext cfg name email p)
    unfolding register create_user
    register-Spares name email p w = ground arith

  module _ (site : Site ext) where
    login_handler-Spares : (r : Request) → Spares user (login_handler ext site r)
    unfolding login_handler refresh_cookie
    login_handler-Spares r w = grind (arith, login-Spares site.auth)

    refresh_handler-Spares : (r : Request) → Spares user (refresh_handler ext site r)
    unfolding refresh_handler refresh_cookie
    refresh_handler-Spares r w = grind (arith, refresh-Spares site.auth)

    register_handler-Spares : (r : Request) → Spares user (register_handler ext site r)
    unfolding register_handler
    register_handler-Spares r w = grind (arith, register-Spares site.auth)

    -- A public route writes no room and no media item of anybody.
    pub handle_public-Spares :
        (e : Endpoint) (u : Text) (p : Text → Text) (r : Request)
        → is_public e ≡ true
        → Spares user (handle ext site e u p r)
    unfolding handle
    handle_public-Spares Endpoint.login u p r h w = login_handler-Spares r w
    handle_public-Spares Endpoint.register u p r h w = register_handler-Spares r w
    handle_public-Spares Endpoint.refresh u p r h w = refresh_handler-Spares r w
    handle_public-Spares Endpoint.get_playback_manifest u p r h w =
        kept-Spares ext user (manifest_handler ext site (p (codes "token")))
          (manifest_handler-IsKept ext site (p (codes "token"))) w
    handle_public-Spares Endpoint.join_room u p r h w =
        kept-Spares ext user (join_room_handler ext site u (p (codes "id")) r)
          (join_room_handler-IsKept ext site u (p (codes "id")) r) w
    handle_public-Spares Endpoint.get_room_playback_state u p r h w =
        kept-Spares ext user (get_state_handler ext site (p (codes "id")))
          (get_state_handler-IsKept ext site (p (codes "id"))) w
    handle_public-Spares Endpoint.list_rooms u p r h w = cc
    handle_public-Spares Endpoint.create_room u p r h w = cc
    handle_public-Spares Endpoint.update_room_state u p r h w = cc
    handle_public-Spares Endpoint.update_room_playback_state u p r h w = cc
    handle_public-Spares Endpoint.end_room u p r h w = cc
    handle_public-Spares Endpoint.list_media u p r h w = cc
    handle_public-Spares Endpoint.get_playback u p r h w = cc
    handle_public-Spares Endpoint.delete_media u p r h w = cc
    handle_public-Spares Endpoint.init_media_upload u p r h w = cc
    handle_public-Spares Endpoint.complete_media_upload u p r h w = cc
    handle_public-Spares Endpoint.livekit_webhook u p r h w =
        kept-Spares ext user (webhook_handler ext site r) (webhook_handler-IsKept ext site r) w
