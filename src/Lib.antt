-- ===== src/Lib.antt =====
-- Calixio's backend of video rooms, written in Go: accounts with JWT access tokens and rotating
-- refresh tokens, rooms of a LiveKit server, media items that are uploaded to S3, transcoded, and
-- played through a signed playlist, and the cleanups that run beside them.
--
-- The parts and their files:
--   * Text, Hex, Integer: Go's `strings`, `path`, `encoding/hex` as far as the program uses them,
--     over lists of code points, and signed numbers for `int64` and `time.Duration`.
--   * Records, Exec, External: the rows of the database, the state that the services share, the
--     monad of their methods with its errors, and everything outside the repository.
--   * Repository: internal/repository (users.go, tokens.go, rooms.go, media.go). A table is a list
--     of rows, and a method is the SQL statement that it sends, with the unique columns and the
--     foreign keys that migrations/ declares.
--   * Auth: internal/service/auth.go with internal/http/authn/jwt.go.
--   * RoomService: internal/service/room.go.
--   * Playback: internal/service/room_playback.go.
--   * Webhook: internal/service/webhook.go.
--   * Storage: internal/service/storage.go.
--   * Upload: internal/service/media_upload.go.
--   * Cleanup: internal/service/media_cleanup.go.
--   * Machine: the file system, the commands and the timers that the transcoder uses.
--   * Transcoder: internal/service/media_transcoder.go, from the commands that it runs to the worker
--     that takes the jobs; its queue is filled in Upload.Intake.
--   * Access: internal/http/middleware/auth.go; Access.Bearer: internal/http/authn/middleware.go, which
--     the router does not use.
--   * Http: internal/http/router.go with handlers/, httputil/ and dto/: the requests and the answers,
--     one function for each handler, and the table of the routes.
--   * LiveKit: internal/livekit/client.go, over the SDK of LiveKit.
--   * Config: internal/config/config.go, with the file `.env`.
--   * Start: how cmd/api/main.go hands the settings to the services, and the loops beside the server;
--     Start.Boot: `main` up to the server.
--   * System: all of it together: the steps of the server, the worker, the loops and the outside, in
--     any order. System.Changes has one constructor for each statement that writes a row, each
--     method and handler is shown to be a sequence of them, and an invariant is then a property of
--     eight statements. System.Constraints has the constraints that migrations/ declares;
--     System.Ownership is about the owners of the rows that are written.
--   * Tests: the theorems at concrete inputs.
--
-- A method is a function from a `World` to a result and the next world: what was written before an
-- error stays written. Each name is the Go name in snake case; where a method is long, what follows
-- an early return has a name of its own and a comment that says where it begins. A `context`
-- is modelled in the retries of the transcoder only: elsewhere a call that was cancelled is a call
-- that failed.
--
-- The database, Redis, S3, LiveKit, bcrypt, SHA-256, the JWT package, the clock and the random
-- source are the fields of `External`. Each is a function of an arbitrary state, so it may answer
-- or fail in any way at each call, and what other processes do to the outside between two calls is
-- part of it. The tables change only by the method that runs; two requests at once are not modelled,
-- and a job of the worker is one step among the requests.
-- encoding/json, float64 and the format of times are parameters where they are used.
--
-- Bounds: a time is a number of nanoseconds and does not overflow; the version of a playback state
-- wraps at 2^64; the version of a session does not wrap. Loops run over lists, but for the one over
-- the chunks of the cleanup, whose fuel is the number of identifiers: each chunk takes at least one.
-- Listing a bucket runs over the number of pages that S3 reports for it.
--
-- The worker of the transcoder runs for a number of turns, and a loop behind a timer for a number of
-- ticks. Decimal numbers are written on fuel that is above the number, which is enough.
--
-- A handler is a step that answers: the routing of chi, the decoding of JSON and the validator are
-- parameters, and a request carries what the handlers read of it. The messages of errors are not
-- modelled, but for what the transcoder looks for in them.
--
-- Not modelled: the SDKs and the drivers themselves, which are parameters; the listening and the
-- shutdown in cmd/api; the middlewares of chi for CORS, timeouts and panics, but for their options;
-- the SQL that creates the tables, but for the constraints; the headers of an answer other than
-- Set-Cookie; the path style and the presigner of the storage service, and the ETag and the time of
-- an object, which nothing that is modelled reads.
pub mod Prelude
pub mod Text
pub mod Integer
pub mod Records
pub mod Exec
pub mod External
pub mod Machine
pub mod Hex
pub mod Auth
pub mod RoomService
pub mod Repository
pub mod Storage
pub mod Transcoder
pub mod Http
pub mod Config
pub mod Playback
pub mod Upload
pub mod Cleanup
pub mod Webhook
pub mod Access
pub mod LiveKit
pub mod Start
pub mod System
pub mod Tests
