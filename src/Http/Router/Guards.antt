-- ===== src/Http/Router/Guards.antt =====
-- Which requests reach a handler of internal/http/router.go, and with which user.
use mathlib.Core.List.{Memᴰ}
use api_calixio.Prelude.{
  ℕ, Bool, true, false, not, ◌&&◌, List, [], ◌∷◌, ◌≡◌, refl, ap, ◌∙◌, arith, all, and_left,
  and_right, ◌||◌, ◌==◌, ◌⊎◌, inl, inr,
}
use api_calixio.Text.{Text}
use api_calixio.External.{External}
use api_calixio.Exec.{World, Result, ok, err}
use api_calixio.Exec.Quiet.{IsApart, IsQuiet}
use api_calixio.Repository.Sessions.{is_access_revoked}
use api_calixio.Auth.{AuthConfig, parse_token}
use api_calixio.Access.{Verdict, passed, refused, authorize}
use api_calixio.Http.Message.{Response, respond_error}
use api_calixio.Http.Codec.{Request, Site}
use api_calixio.Http.Accounts.{login_handler, register_handler, refresh_handler}
use api_calixio.Http.RoomHandlers.{join_room_handler}
use api_calixio.Http.Router.{
  Endpoint, login, register, refresh, get_playback_manifest, join_room, get_room_playback_state,
  livekit_webhook, Route, Match, found, routes, handle, serve,
}

-- The endpoints that are meant for everybody.
abbrev pub is_public : Endpoint → Bool
is_public login = true
is_public register = true
is_public refresh = true
is_public get_playback_manifest = true
is_public join_room = true
is_public get_room_playback_state = true
is_public livekit_webhook = true
is_public _ = false

abbrev is_webhook : Endpoint → Bool
is_webhook livekit_webhook = true
is_webhook _ = false

-- The public endpoints whose handlers read no header but the cookie.
abbrev pub is_anonymous : Endpoint → Bool
is_anonymous e = is_public e && not (is_webhook e)

abbrev equal : Bool → Bool → Bool
equal true b = b
equal false b = not b

all-Memᴰ :
    {A : Type 0} (p : A → Bool) (a : A) (xs : List A) → all p xs ≡ true → Memᴰ a xs → p a ≡ true
all-Memᴰ p a [] h m = elim m [ ]
all-Memᴰ p a (x ∷ xs) h (Memᴰ.head e) = ap p e ∙ and_left _ _ h
all-Memᴰ p a (x ∷ xs) h (Memᴰ.tail m) = all-Memᴰ p a xs (and_right _ _ h) m

routes-guarded : all (λ r. equal r.guarded (not (is_public r.endpoint))) routes ≡ true
unfolding routes
routes-guarded = refl

pub guarded_iff_private :
    (route : Route)
    → Memᴰ route routes
    → equal route.guarded (not (is_public route.endpoint)) ≡ true
guarded_iff_private route m =
    all-Memᴰ (λ (r : Route). equal r.guarded (not (is_public r.endpoint))) route routes
      routes-guarded m

module _ (ext : External) where
  open ext use {X}

  pub authorize-IsQuiet :
      (cfg : AuthConfig) (header : Text) → IsQuiet (authorize ext cfg true header)
  unfolding authorize parse_token is_access_revoked
  authorize-IsQuiet cfg header w = ground arith

  abbrev is_verdict : Result Verdict → Bool
  is_verdict (ok (passed user)) = true
  is_verdict (ok (refused status code)) = (status == 401) || (status == 500)
  is_verdict (err e) = false

  authorize-is_verdict :
      (cfg : AuthConfig) (header : Text) (w : World X)
      → is_verdict (authorize ext cfg true header w).0 ≡ true
  unfolding authorize
  authorize-is_verdict cfg header w = ground arith

  verdict_cases :
      (r : Result Verdict)
      → is_verdict r ≡ true
      → ((user : Text) × (r ≡ ok (passed user)))
        ⊎ ((status : ℕ) × (code : Text) × (r ≡ ok (refused status code))
            × (((status == 401) || (status == 500)) ≡ true))
  verdict_cases (ok (passed user)) h = inl (user, refl)
  verdict_cases (ok (refused status code)) h = inr (status, code, refl, h)
  verdict_cases (err e) h = cc

  -- The middleware lets the request pass, or it answers 401 or 500.
  pub authorize-cases :
      (cfg : AuthConfig) (header : Text) (w : World X)
      → ((user : Text) × ((authorize ext cfg true header w).0 ≡ ok (passed user)))
        ⊎ ((status : ℕ) × (code : Text) × ((authorize ext cfg true header w).0
              ≡ ok (refused status code))
            × (((status == 401) || (status == 500)) ≡ true))
  authorize-cases cfg header w =
      verdict_cases (authorize ext cfg true header w).0 (authorize-is_verdict cfg header w)

module _ (ext : External) (site : Site ext) (find_route : List Route → Text → Text → Match) where
  open ext use {X}

  -- A request for a route of the table whose endpoint is not public, and that the middleware
  -- refuses, is answered with exactly that status and code, and no table and no job changes.
  pub serve-refused :
      (r : Request) (w : World X) (route : Route) (param : Text → Text) (status : ℕ) (code : Text)
      → find_route routes r.method r.path ≡ found route param
      → Memᴰ route routes
      → is_public route.endpoint ≡ false
      → (authorize ext site.auth true r.authorization w).0 ≡ ok (refused status code)
      → ((serve ext site find_route r w).0 ≡ ok (respond_error status code))
        × IsApart w (serve ext site find_route r w).1
  unfolding serve
  serve-refused r w route param status code f member private h =
      let quiet = authorize-IsQuiet ext site.auth r.authorization w in
      let same = guarded_iff_private route member in
      let guarded : route.guarded ≡ true = ground arith in rw (f, guarded, h, serve) (refl, quiet)

  handle_anonymous :
      (e : Endpoint) (user : Text) (param : Text → Text) (r : Request) (header : Text)
      → is_anonymous e ≡ true
      → handle ext site e user param (record r { authorization = header })
        ≡ handle ext site e user param r
  unfolding handle login_handler register_handler refresh_handler join_room_handler
  handle_anonymous Endpoint.login user param r header h = refl
  handle_anonymous Endpoint.register user param r header h = refl
  handle_anonymous Endpoint.refresh user param r header h = refl
  handle_anonymous Endpoint.get_playback_manifest user param r header h = refl
  handle_anonymous Endpoint.join_room user param r header h = refl
  handle_anonymous Endpoint.get_room_playback_state user param r header h = refl
  handle_anonymous Endpoint.list_rooms user param r header h = cc
  handle_anonymous Endpoint.create_room user param r header h = cc
  handle_anonymous Endpoint.update_room_state user param r header h = cc
  handle_anonymous Endpoint.update_room_playback_state user param r header h = cc
  handle_anonymous Endpoint.end_room user param r header h = cc
  handle_anonymous Endpoint.list_media user param r header h = cc
  handle_anonymous Endpoint.get_playback user param r header h = cc
  handle_anonymous Endpoint.delete_media user param r header h = cc
  handle_anonymous Endpoint.init_media_upload user param r header h = cc
  handle_anonymous Endpoint.complete_media_upload user param r header h = cc
  handle_anonymous Endpoint.livekit_webhook user param r header h = cc

  -- On the public routes but the webhook the answer and the effects do not depend on the header
  -- `Authorization`: whoever joins a room joins it as a guest, signed in or not.
  pub serve_anonymous :
      (r : Request) (w : World X) (route : Route) (param : Text → Text) (header : Text)
      → find_route routes r.method r.path ≡ found route param
      → Memᴰ route routes
      → is_anonymous route.endpoint ≡ true
      → serve ext site find_route (record r { authorization = header }) w
        ≡ serve ext site find_route r w
  unfolding serve
  serve_anonymous r w route param header f member anonymous =
      let same = guarded_iff_private route member in
      let public : is_public route.endpoint ≡ true =
        and_left (is_public route.endpoint) (not (is_webhook route.endpoint)) anonymous in
      let open_route : route.guarded ≡ false = ground arith in
      let same_answer = handle_anonymous route.endpoint [] param r header anonymous in
      rw (f, open_route, serve)
        (ap (λ (m : World X → Result (Response site.formats.Rate) × World X). m w) same_answer)
