-- ===== src/Http/Router/Deleting.antt =====
-- A deletion of a media item from the request on: internal/http/router.go,
-- internal/http/middleware/auth.go, internal/http/handlers/files/files.go and
-- internal/service/media_upload.go together.
use mathlib.Core.List.{Memᴰ}
use api_calixio.Prelude.{true, none, some, List, ◌≡◌, ap, ◌∙◌, subst, arith, find, inl, inr}
use api_calixio.Text.{Text, codes}
use api_calixio.Records.{Media}
use api_calixio.External.{External, Claims}
use api_calixio.Exec.{World, ok, got}
use api_calixio.Repository.MediaRows.{is_kept}
use api_calixio.Upload.Deletion.{delete_media}
use api_calixio.Upload.Deletion.Prefixes.{delete_media-ok}
use api_calixio.Access.{bearer_token, authorize}
use api_calixio.Access.Revocation.{authorize-passed}
use api_calixio.Http.Message.{Response}
use api_calixio.Http.Codec.{Request, Site}
use api_calixio.Http.FileHandlers.{delete_media_handler}
use api_calixio.Http.Router.{Endpoint, Route, Match, found, routes, handle, serve}
use api_calixio.Http.Router.Guards.{
  is_public, guarded_iff_private, authorize-IsQuiet, authorize-cases,
}

module _ (ext : External) (site : Site ext) where
  open ext use {X}

  -- The handler answers 200 only if the service has deleted.
  handler-deleted :
      (user id : Text) (w v : World X) (resp : Response site.formats.Rate)
      → delete_media_handler ext site user id w ≡ (ok resp, v)
      → resp.status ≡ 200
      → delete_media ext site.upload user id w ≡ (ok tt, v)
  unfolding delete_media_handler
  handler-deleted user id w v resp h s = ground arith

  -- A request whose route deletes media items and that is answered with 200 carried a bearer token
  -- that the JWT package accepts; an item of its path's id was there, and belonged to the subject
  -- of that token; and afterwards no item of that id is found.
  pub serve-deleted :
      (find_route : List Route → Text → Text → Match) (r : Request) (w v : World X) (route : Route)
      (param : Text → Text) (resp : Response site.formats.Rate)
      → find_route routes r.method r.path ≡ found route param
      → Memᴰ route routes
      → route.endpoint ≡ Endpoint.delete_media
      → serve ext site find_route r w ≡ (ok resp, v)
      → resp.status ≡ 200
      → (token : Text) × (c : Claims) × (m : Media) × (bearer_token r.authorization ≡ some token)
        × (ext.jwt_parse site.auth.secret token (ext.now w.outside).0 ≡ got c)
        × (find (is_kept (param (codes "id"))) w.media ≡ some m)
        × (m.owner_user_id ≡ c.subject)
        × (find (is_kept (param (codes "id"))) v.media ≡ none)
  unfolding serve handle
  serve-deleted find_route r w v route param resp f member e h s =
      let same = guarded_iff_private route member in
      let guarded : route.guarded ≡ true = ground (arith, ap is_public e) in
      let u = (authorize ext site.auth true r.authorization w).1 in
      let kept : u.media ≡ w.media =
        ap (λ (t : World X). t.media) (authorize-IsQuiet ext site.auth r.authorization w) in
      elim (authorize-cases ext site.auth r.authorization w) [
        | inr (status, code, a, bad) ↦ let answer = rw (f, guarded, a, serve) at h in ground arith
        | inl (user, a) ↦
            let (token, c, b, parsed, subject, live) =
              authorize-passed ext site.auth r.authorization user w a in
            let id = param (codes "id") in
            let answered : delete_media_handler ext site user id u ≡ (ok resp, v) =
              rw (e, handle) at (rw (f, guarded, a, serve) at h) in
            let deleted = handler-deleted user id u v resp answered s in
            let (m, there, owner, objects, gone) =
              delete_media-ok ext site.upload user id u v tt deleted in
            (
              token,
              c,
              m,
              b,
              parsed,
              subst (λ rows. find (is_kept id) rows ≡ some m) kept there,
              owner ∙ subject,
              gone,
            )
      ]
