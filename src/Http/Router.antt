-- ===== src/Http/Router.antt =====
-- internal/http/router.go: the routes, which of them are behind the middleware that authorizes,
-- and how a request runs through them.
pub mod Guards
pub mod Deleting
use Prim.Native.String.{String}
use api_calixio.Prelude.{
  ℕ, Bool, true, false, not, Option, none, some, List, [], ◌∷◌, ◌++◌, any, filter, if◌then◌else◌,
}
use api_calixio.Text.{Text, codes, text_eq}
use api_calixio.External.{External}
use api_calixio.Exec.{Exec, pure, ◌>>=◌}
use api_calixio.Access.{Verdict, passed, refused, authorize}
use api_calixio.Http.Message.{Response, respond, not_routed}
use api_calixio.Http.Codec.{Request, Site}
use api_calixio.Http.Reading.{Handler, fail}
use api_calixio.Http.Accounts.{login_handler, register_handler, refresh_handler}
use api_calixio.Http.RoomHandlers.{
  list_rooms_handler, create_room_handler, join_room_handler, update_room_state_handler,
}
use api_calixio.Http.StateHandlers.{
  get_state_handler, save_state_handler, end_room_handler, webhook_handler,
}
use api_calixio.Http.FileHandlers.{
  list_media_handler, init_upload_handler, complete_upload_handler, get_playback_handler,
  manifest_handler, delete_media_handler,
}

-- The methods of the handlers.
pub data Endpoint : Type 0 where
  login register refresh get_playback_manifest join_room get_room_playback_state : Endpoint
  list_rooms create_room update_room_state update_room_playback_state end_room : Endpoint
  list_media get_playback delete_media init_media_upload complete_media_upload : Endpoint
  livekit_webhook : Endpoint

pub record Route : Type 0 where
  pub method : Text
  pub pattern : Text
  pub guarded : Bool
  pub endpoint : Endpoint

abbrev pub route : String → String → Bool → Endpoint → Route
route method pattern guarded endpoint = record {
  method = codes method;
  pattern = codes pattern;
  guarded = guarded;
  endpoint = endpoint;
}

-- In the order of registration, with the prefix of `Route` in front of the patterns.
unfoldable pub routes : List Route
routes =
    route "POST" "/auth/login" false login
    ∷ route "POST" "/auth/register" false register
    ∷ route "POST" "/auth/refresh" false refresh
    ∷ route "GET" "/media/playback/{token}/index.m3u8" false get_playback_manifest
    ∷ route "POST" "/rooms/{id}/join" false join_room
    ∷ route "GET" "/rooms/{id}/playback" false get_room_playback_state
    ∷ route "GET" "/rooms/" true list_rooms
    ∷ route "POST" "/rooms/" true create_room
    ∷ route "POST" "/rooms/{id}/state" true update_room_state
    ∷ route "POST" "/rooms/{id}/playback" true update_room_playback_state
    ∷ route "POST" "/rooms/{id}/end" true end_room
    ∷ route "GET" "/media" true list_media
    ∷ route "GET" "/media/{id}/playback" true get_playback
    ∷ route "DELETE" "/media/{id}" true delete_media
    ∷ route "POST" "/media/upload/init" true init_media_upload
    ∷ route "POST" "/media/upload/complete" true complete_media_upload
    ∷ route "POST" "/livekit/webhook" false livekit_webhook
    ∷ []

-- The origins for CORS, and whether every origin is allowed: the loop that filters.
unfoldable pub allowed_origins : List Text → List Text × Bool
allowed_origins origins =
    let all_origins = origins ++ (codes "https://calixio.managetlg.com" ∷ []) in
    let wildcard = codes "*" in
    (filter (λ o. not (text_eq o wildcard)) all_origins, any (λ o. text_eq o wildcard) all_origins)

-- What chi finds for a request: a route with the parameters of its path, or none, with the status
-- that it answers itself.
pub data Match : Type 0 where
  found : Route → (Text → Text) → Match
  unknown : ℕ → Match

module _ (ext : External) (site : Site ext) where
  open ext use {X}

  -- The handler of an endpoint, with the user of the context (empty if there is none).
  unfoldable pub handle : Endpoint → Text → (Text → Text) → Request → Handler ext site
  handle login user param r = login_handler ext site r
  handle register user param r = register_handler ext site r
  handle refresh user param r = refresh_handler ext site r
  handle get_playback_manifest user param r = manifest_handler ext site (param (codes "token"))
  handle join_room user param r = join_room_handler ext site user (param (codes "id")) r
  handle get_room_playback_state user param r = get_state_handler ext site (param (codes "id"))
  handle list_rooms user param r = list_rooms_handler ext site user
  handle create_room user param r = create_room_handler ext site user r
  handle update_room_state user param r =
      update_room_state_handler ext site user (param (codes "id")) r
  handle update_room_playback_state user param r =
      save_state_handler ext site user (param (codes "id")) r
  handle end_room user param r = end_room_handler ext site user (param (codes "id"))
  handle list_media user param r = list_media_handler ext site user
  handle get_playback user param r = get_playback_handler ext site user (param (codes "id"))
  handle delete_media user param r = delete_media_handler ext site user (param (codes "id"))
  handle init_media_upload user param r = init_upload_handler ext site user r
  handle complete_media_upload user param r = complete_upload_handler ext site user r
  handle livekit_webhook user param r = webhook_handler ext site r

  -- `AuthMiddleware` in front of a handler
  abbrev behind : Verdict → (Text → Handler ext site) → Handler ext site
  behind (passed user) next = next user
  behind (refused status code) next = fail ext site status code

  abbrev pub serve_match : Match → Request → Handler ext site
  serve_match (unknown status) r = pure (respond status not_routed)
  serve_match (found route param) r =
      if not route.guarded then handle route.endpoint [] param r else do
        verdict ← authorize ext site.auth true r.authorization
        behind verdict (λ user. handle route.endpoint user param r)

  -- `find_route` is chi: the routes, the method and the path.
  unfoldable pub serve : (List Route → Text → Text → Match) → Request → Handler ext site
  serve find_route r = serve_match (find_route routes r.method r.path) r
