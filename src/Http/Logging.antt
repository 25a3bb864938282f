-- ===== src/Http/Logging.antt =====
-- internal/http/middleware/logging.go, with the `WriteHeader` that stands in auth.go beside it.
use api_calixio.Prelude.{ℕ, List, [], ◌∷◌, ◌≡◌, refl}
use api_calixio.Text.{Text}
use api_calixio.External.{External}
use api_calixio.Exec.{Exec, World, ok, pure, observe, ◌>>=◌}
use api_calixio.Exec.Quiet.{IsApart}
use api_calixio.Http.Message.{Response}
use api_calixio.Http.Codec.{Request, Site}
use api_calixio.Http.Router.{Route, Match, serve}

-- What a handler does to its `http.ResponseWriter`.
data Write : Type 0 where
  write_header : ℕ → Write
  write_body : Write

-- `RespondJSON`: the header, and then the body
abbrev writes_of : {Rate : Type 0} → Response Rate → List Write
writes_of resp = write_header resp.status ∷ write_body ∷ []

-- The `status` of the `responseWriter`, which starts as 200.
status_after : ℕ → List Write → ℕ
status_after status [] = status
status_after status (write_header s ∷ ws) = status_after s ws
status_after status (write_body ∷ ws) = status_after status ws

record LogEntry : Type 0 where
  method : Text
  path : Text
  status : ℕ
  started : ℕ
  stopped : ℕ

module _ (ext : External) (site : Site ext) (find_route : List Route → Text → Text → Match) where
  open ext use {X, now}

  -- `LoggingMiddleware` around the router.
  logged : Request → Exec X (Response site.formats.Rate × LogEntry)
  logged r = do
    start ← observe now
    resp ← serve ext site find_route r
    stop ← observe now
    pure (
      resp,
      record {
        method = r.method;
        path = r.path;
        status = status_after 200 (writes_of resp);
        started = start;
        stopped = stop;
      },
    )

  -- A request that is answered is answered as without the log, with the same effect on the tables and
  -- the queue, and the entry has its method, its path and the status of the answer.
  logged-ok :
      (r : Request) (w u : World X) (resp : Response site.formats.Rate)
      → serve ext site find_route r (record w { outside = (now w.outside).1 }) ≡ (ok resp, u)
      → (e : LogEntry) × ((logged r w).0 ≡ ok (resp, e))
        × IsApart u (logged r w).1
        × (e.method ≡ r.method)
        × (e.path ≡ r.path)
        × (e.status ≡ resp.status)
  unfolding logged status_after
  logged-ok r w u resp h = rw (h, logged) (_, refl, refl, refl, refl, refl)
