-- ===== src/Tests/Server.antt =====
-- Requests to the server.
use mathlib.Core.List.{Memᴰ}
use api_calixio.Prelude.{ℕ, true, false, none, some, List, [], ◌≡◌, refl, find, ap}
use api_calixio.Text.{Text, codes, text_eq, trim_space, join, split}
use api_calixio.Text.FilePath.{path_join, clean}
use api_calixio.Storage.Prefix.{media_prefix}
use api_calixio.Records.{Media, media_ready}
use api_calixio.External.{Claims}
use api_calixio.Exec.{World, Result, ok, err, got}
use api_calixio.Exec.Quiet.{IsApart}
use api_calixio.Repository.MediaRows.{is_kept, get_by_id, update_kept, soft_delete}
use api_calixio.Repository.Sessions.{is_access_revoked}
use api_calixio.Auth.{parse_token}
use api_calixio.Access.{refused, authorize, bearer_token}
use api_calixio.Storage.Objects.{delete_objects_by_prefix, delete_pages, add_keys, add_key, flush}
use api_calixio.Upload.Deletion.{delete_media, delete_objects_of, forget_playback}
use api_calixio.Http.Message.{Response, respond_error}
use api_calixio.Http.Codec.{Request, Codec, Site, decoded, no_body}
use api_calixio.Http.FileHandlers.{delete_media_handler}
use api_calixio.Http.Router.{Endpoint, Route, Match, found, route, routes, handle, serve}
use api_calixio.Http.Router.Guards.{serve-refused, serve_anonymous}
use api_calixio.Http.Router.Deleting.{serve-deleted}
use api_calixio.Tests.Outside.{Outside, ext}
use api_calixio.Tests.Accounts.{cfg}
use api_calixio.Tests.Uploads.{world, service}
use api_calixio.Tests.Uploads as Uploads
use api_calixio.Tests.Formats as Formats

abbrev codec : Codec Formats.formats.Rate
codec = record {
  login = record { decode = λ t. no_body; validate = λ r. [] };
  register = record { decode = λ t. no_body; validate = λ r. [] };
  create_room = record { decode = λ t. decoded (record { name = t }); validate = λ r. [] };
  join_room = record { decode = λ t. no_body; validate = λ r. [] };
  room_state = record { decode = λ t. no_body; validate = λ r. [] };
  room_playback = record { decode = λ t. no_body; validate = λ r. [] };
  init_upload = record { decode = λ t. no_body; validate = λ r. [] };
  complete_upload = record { decode = λ t. no_body; validate = λ r. [] };
  format_local = λ t. [];
  format_utc = λ t. [];
  seconds = λ d. d;
  receive_webhook = λ r. got none;
}

abbrev pub site : Site ext
site = record {
  auth = cfg;
  upload = service true;
  cache_formats = Uploads.formats;
  formats = Formats.formats;
  codec = codec;
}

abbrev pub request : Text → Request
request header = record {
  method = codes "DELETE";
  path = codes "/media/m1";
  authorization = header;
  refresh_token = none;
  secure = true;
  body = [];
}

abbrev pub deletion : Route
deletion = route "DELETE" "/media/{id}" true Endpoint.delete_media

abbrev joining : Route
joining = route "POST" "/rooms/{id}/join" false Endpoint.join_room

abbrev pub param : Text → Text
param name = codes "m1"

abbrev pub to_route : Route → List Route → Text → Text → Match
to_route r table method path = found r param

pub deletion_listed : Memᴰ deletion routes
unfolding routes
deletion_listed = Memᴰ.tail (
    Memᴰ.tail (
      Memᴰ.tail (
        Memᴰ.tail (
          Memᴰ.tail (
            Memᴰ.tail (
              Memᴰ.tail (
                Memᴰ.tail (
                  Memᴰ.tail (Memᴰ.tail (Memᴰ.tail (Memᴰ.tail (Memᴰ.tail (Memᴰ.head refl)))))))))))))

joining_listed : Memᴰ joining routes
unfolding routes
joining_listed = Memᴰ.tail (Memᴰ.tail (Memᴰ.tail (Memᴰ.tail (Memᴰ.head refl))))

basic_refused :
    (authorize ext cfg true (codes "Basic x") (world media_ready)).0
    ≡ ok (refused 401 (codes "invalid_auth"))
unfolding authorize bearer_token text_eq
basic_refused = refl

serve-refused_example :
    ((serve ext site (to_route deletion) (request (codes "Basic x")) (world media_ready)).0
      ≡ ok (respond_error 401 (codes "invalid_auth")))
    × IsApart
        (world media_ready)
        (serve ext site (to_route deletion) (request (codes "Basic x")) (world media_ready)).1
serve-refused_example =
    serve-refused ext site (to_route deletion) (request (codes "Basic x")) (world media_ready)
      deletion param 401 (codes "invalid_auth") refl deletion_listed refl basic_refused

serve_anonymous_example :
    serve ext site (to_route joining) (request (codes "Bearer tok")) (world media_ready)
    ≡ serve ext site (to_route joining) (request []) (world media_ready)
serve_anonymous_example =
    serve_anonymous ext site (to_route joining) (request []) (world media_ready) joining param
      (codes "Bearer tok") refl joining_listed refl

abbrev answer : Result (Response ℕ) × World Outside
answer = serve ext site (to_route deletion) (request (codes "Bearer tok")) (world media_ready)

abbrev response_of : Result (Response ℕ) → Response ℕ
response_of (ok r) = r
response_of (err e) = respond_error 0 []

delete_answer : (answer.0 ≡ ok (response_of answer.0)) × ((response_of answer.0).status ≡ 200)
unfolding serve handle delete_media_handler authorize bearer_token parse_token is_access_revoked
    delete_media delete_objects_of forget_playback get_by_id update_kept soft_delete text_eq
    delete_objects_by_prefix delete_pages add_keys add_key flush trim_space media_prefix path_join
    clean join split
delete_answer = (refl, refl)

serve-deleted_example :
    (token : Text) × (c : Claims) × (m : Media) × (bearer_token (codes "Bearer tok") ≡ some token)
    × (ext.jwt_parse cfg.secret token (ext.now (world media_ready).outside).0 ≡ got c)
    × (find (is_kept (codes "m1")) (world media_ready).media ≡ some m)
    × (m.owner_user_id ≡ c.subject)
    × (find (is_kept (codes "m1")) answer.1.media ≡ none)
serve-deleted_example =
    serve-deleted ext site (to_route deletion) (request (codes "Bearer tok")) (world media_ready)
      answer.1 deletion param (response_of answer.0) refl deletion_listed refl
      (ap (λ q. (q, answer.1)) delete_answer.0) delete_answer.1
