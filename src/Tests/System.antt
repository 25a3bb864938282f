-- ===== src/Tests/System.antt =====
-- A run of the whole program.
use api_calixio.Prelude.{[], false, none, refl, some, true, ◌≡◌, ◌≢◌, find}
use api_calixio.Text.{codes}
use api_calixio.Records.{media_ready}
use api_calixio.Exec.{World, ok}
use api_calixio.Repository.MediaRows.{is_kept}
use api_calixio.Access.{passed, authorize}
use api_calixio.Transcoder.Worker.{take_job}
use api_calixio.Http.Codec.{Request}
use api_calixio.Http.Router.{Endpoint, Route, route, serve}
use api_calixio.System.Changes.{tables}
use api_calixio.System.History.{IsHistory}
use api_calixio.System.Reachable.{Step, Reachable}
use api_calixio.System.Invariants.{Reachable-IsHistory, deleted_for_good, revoked_for_good}
use api_calixio.Tests.Outside.{Outside, ext, token_claims}
use api_calixio.Tests.Accounts.{base, cfg, after_revoke, revoke_run, known_id, header_bearer}
use api_calixio.Tests.Uploads.{world}
use api_calixio.Tests.Buckets.{after_delete, delete_run}
use api_calixio.Tests.Worker.{machine, transcoder}
use api_calixio.Tests.Server.{site, to_route}

abbrev refreshing : Route
refreshing = route "POST" "/auth/refresh" false Endpoint.refresh

abbrev with_cookie : Request
with_cookie = record {
  method = codes "POST";
  path = codes "/auth/refresh";
  authorization = [];
  refresh_token = some (codes "t1");
  secure = true;
  body = [];
}

-- A refresh, a turn of the worker, and the same refresh again.
abbrev end_of_run : World Outside
end_of_run =
    (serve ext site (to_route refreshing) with_cookie
      (take_job ext machine transcoder
        (serve ext site (to_route refreshing) with_cookie base).1).1).1

run : Reachable ext machine site transcoder (to_route refreshing) base end_of_run
run =
    Reachable.step
      (Reachable.step (Reachable.step Reachable.here (Step.request with_cookie base))
        (Step.turn (serve ext site (to_route refreshing) with_cookie base).1))
      (Step.request with_cookie
        (take_job ext machine transcoder
          (serve ext site (to_route refreshing) with_cookie base).1).1)

Reachable-IsHistory_example : IsHistory (tables base) (tables end_of_run)
Reachable-IsHistory_example =
    Reachable-IsHistory ext machine site transcoder (to_route refreshing) run

-- A media item that was deleted, a request, and a turn of the worker.
deleted_for_good_example :
    find
      (is_kept (codes "m1"))
      (take_job ext machine transcoder
        (serve ext site (to_route refreshing) with_cookie after_delete).1).1.media
    ≡ none
deleted_for_good_example =
    deleted_for_good ext machine site transcoder (to_route refreshing) (codes "u1") (codes "m1")
      (world media_ready) after_delete
      (take_job ext machine transcoder
        (serve ext site (to_route refreshing) with_cookie after_delete).1).1
      tt delete_run
      (Reachable.step (Reachable.step Reachable.here (Step.request with_cookie after_delete))
        (Step.turn (serve ext site (to_route refreshing) with_cookie after_delete).1))

-- A revoked session, and a request with its refresh token.
revoked_for_good_example :
    (authorize ext cfg true
      (codes "BEARER tok")
      (serve ext site (to_route refreshing) with_cookie after_revoke).1).0
    ≢ ok (passed (codes "u1"))
revoked_for_good_example =
    revoked_for_good ext machine site transcoder (to_route refreshing) (codes "j1")
      (codes "BEARER tok") (codes "tok") (codes "u1") token_claims 60 base after_revoke
      (serve ext site (to_route refreshing) with_cookie after_revoke).1 tt known_id revoke_run
      (Reachable.step Reachable.here (Step.request with_cookie after_revoke)) header_bearer refl
      refl refl
