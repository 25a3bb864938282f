-- ===== src/Tests/Ownership.antt =====
-- A request of one of two users.
use mathlib.Core.List.{Memᴰ}
use api_calixio.Prelude.{Bool, false, true, [], ◌∷◌, ◌≡◌, ◌≢◌, ◌∙◌, refl, none, ap, sym, subst}
use api_calixio.Text.{codes, text_eq}
use api_calixio.Records.{User, Room, Media, room_active, media_ready}
use api_calixio.Exec.{World, Result, ok}
use api_calixio.Repository.Sessions.{is_access_revoked}
use api_calixio.Auth.{parse_token}
use api_calixio.Access.{Verdict, passed, authorize, bearer_token}
use api_calixio.Http.Router.{Route, Match, found, unknown, routes, serve}
use api_calixio.System.Changes.{tables}
use api_calixio.System.Constraints.{IsConsistent}
use api_calixio.System.Ownership.Strangers.{
  rows_of, StrangerStep, Strangers, FindsListed, Strangers-rows_of,
}
use api_calixio.Tests.Outside.{Outside, ext, start}
use api_calixio.Tests.Accounts.{cfg, ann, session}
use api_calixio.Tests.Uploads.{film}
use api_calixio.Tests.Worker.{machine, transcoder}
use api_calixio.Tests.Server.{site, to_route, deletion, deletion_listed, param, request}

abbrev bob : User
bob = record ann { id = codes "u2"; name = codes "bob"; email = codes "b@b" }

abbrev film_of_bob : Media
film_of_bob = record (film media_ready) {
  id = codes "m2";
  owner_user_id = codes "u2";
  storage_key = codes "k2";
}

abbrev room_of_bob : Room
room_of_bob = record {
  id = codes "r2";
  name = codes "room";
  owner_user_id = codes "u2";
  media_id = none;
  status = room_active;
  created_at = 10;
  ended_at = none;
}

abbrev shared : World Outside
shared = record {
  users = ann ∷ (bob ∷ []);
  sessions = session ∷ [];
  rooms = room_of_bob ∷ [];
  media = film media_ready ∷ (film_of_bob ∷ []);
  jobs = [];
  outside = start;
}

shared-IsConsistent : IsConsistent (tables shared)
unfolding text_eq
shared-IsConsistent =
    ((refl, (refl, tt)), (refl, tt), (refl, tt), (refl, (refl, tt)), refl, refl, refl)

let_in : (authorize ext cfg true (codes "Bearer tok") shared).0 ≡ ok (passed (codes "u1"))
unfolding authorize bearer_token parse_token is_access_revoked text_eq
let_in = refl

-- Ann deletes her film, and then somebody tries to delete it without a token.
abbrev deleted : World Outside
deleted = (serve ext site (to_route deletion) (request (codes "Bearer tok")) shared).1

abbrev refused : World Outside
refused = (serve ext site (to_route deletion) (request []) deleted).1

abbrev is_bob : Result Verdict → Bool
is_bob (ok (passed user)) = text_eq user (codes "u2")
is_bob _ = false

not_bob : (authorize ext cfg true (codes "Bearer tok") shared).0 ≢ ok (passed (codes "u2"))
unfolding text_eq
not_bob e = let same : false ≡ true = ap is_bob (sym let_in ∙ e) in cc

no_token : (authorize ext cfg true [] deleted).0 ≢ ok (passed (codes "u2"))
unfolding authorize bearer_token
no_token e = cc

without_bob : Strangers ext machine site transcoder (to_route deletion) (codes "u2") shared refused
without_bob =
    Strangers.step
      (Strangers.step Strangers.here
        (StrangerStep.request (request (codes "Bearer tok")) shared not_bob))
      (StrangerStep.request (request []) deleted no_token)

abbrev route_of : Match → Route
route_of (unknown status) = deletion
route_of (found r param) = r

finds_deletion : FindsListed ext machine site transcoder (to_route deletion)
finds_deletion method path r param h = subst (λ x. Memᴰ x routes) (ap route_of h) deletion_listed

Strangers-rows_of_example : rows_of (codes "u2") refused ≡ rows_of (codes "u2") shared
Strangers-rows_of_example =
    Strangers-rows_of ext machine site transcoder (to_route deletion) finds_deletion without_bob
      shared-IsConsistent
