-- ===== src/System/Reachable.antt =====
-- What holds in every world that the program can come to: any requests, turns of the transcoder's
-- worker, ticks of the two loops and changes of the outside, in any order.
use api_calixio.Prelude.{true, List, [], ap, Bool-cases, inl, inr}
use api_calixio.Text.{Text}
use api_calixio.Integer.{ℤ}
use api_calixio.External.{External}
use api_calixio.Machine.{Machine}
use api_calixio.Exec.{World}
use api_calixio.Access.{authorize}
use api_calixio.RoomService.{end_stale_active_rooms}
use api_calixio.Cleanup.{run_once}
use api_calixio.Transcoder.Commands.{TranscoderService}
use api_calixio.Transcoder.Worker.{take_job}
use api_calixio.Http.Codec.{Request, Site}
use api_calixio.Http.Router.{Route, Match, found, unknown, routes, serve_match, serve}
use api_calixio.Http.Router.Guards.{authorize-IsQuiet, authorize-cases}
use api_calixio.System.Changes.{Tables, tables, Trace, none_yet, same-Trace, IsTraced}
use api_calixio.System.Kept.{kept-IsTraced}
use api_calixio.System.Jobs.{take_job-IsTraced}
use api_calixio.System.Rooms.{end_stale-IsTraced}
use api_calixio.System.Uploads.{run_once-IsKept}
use api_calixio.System.Handlers.{handle-IsTraced}

module _ (ext : External) (m : Machine ext.X) (site : Site ext) (transcoder : TranscoderService)
    (find_route : List Route → Text → Text → Match) where
  open ext use {X}

  -- One step of the program, or of the outside.
  pub data Step : World X → World X → Type 0 where
    request : (r : Request) (w : World X) → Step w (serve ext site find_route r w).1
    turn : (w : World X) → Step w (take_job ext m transcoder w).1
    close_stale : (age : ℤ) (w : World X) → Step w (end_stale_active_rooms ext age w).1
    clean :
        (order : List (Text × Text) → List (Text × Text)) (batch : ℤ) (w : World X)
        → Step w (run_once ext site.upload.storage order batch w).1
    elsewhere : (x : X) (w : World X) → Step w (record w { outside = x })

  -- Any number of steps.
  pub data Reachable (start : World X) : World X → Type 0 where
    here : Reachable start start
    step : {v w : World X} → Reachable start v → Step v w → Reachable start w

  match-IsTraced :
      (found_route : Match) (r : Request) → IsTraced (serve_match ext site found_route r)
  match-IsTraced (unknown status) r s w h = h
  match-IsTraced (found route param) r s w h =
      let q = authorize-IsQuiet ext site.auth r.authorization w in
      let v = (authorize ext site.auth true r.authorization w).1 in
      let asked = same-Trace s (tables w) (tables v) (ap tables q) h in
      elim (Bool-cases route.guarded) [
        | inr open_route ↦ rw open_route (handle-IsTraced ext site route.endpoint [] param r s w h)
        | inl guarded ↦ elim (authorize-cases ext site.auth r.authorization w) [
          | inl (user, a) ↦
              rw (guarded, a) (handle-IsTraced ext site route.endpoint user param r s v asked)
          | inr (status, code, a, known) ↦ rw (guarded, a) asked
        ]
      ]

  serve-IsTraced : (r : Request) → IsTraced (serve ext site find_route r)
  unfolding serve
  serve-IsTraced r = match-IsTraced (find_route routes r.method r.path) r

  step-Trace : {v w : World X} (s : Tables) → Step v w → Trace s (tables v) → Trace s (tables w)
  step-Trace s (request r w) h = serve-IsTraced r s w h
  step-Trace s (turn w) h = take_job-IsTraced ext m transcoder s w h
  step-Trace s (close_stale age w) h = end_stale-IsTraced ext age s w h
  step-Trace s (clean order batch w) h =
      kept-IsTraced (run_once ext site.upload.storage order batch)
        (run_once-IsKept ext site.upload.storage order batch) s w h
  step-Trace s (elsewhere x w) h = h

  -- Whatever the program does to the tables is a sequence of the statements of `Change`.
  pub Reachable-Trace : {start w : World X} → Reachable start w → Trace (tables start) (tables w)
  Reachable-Trace here = none_yet
  Reachable-Trace (step r s) = step-Trace _ s (Reachable-Trace r)
