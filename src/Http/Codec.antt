-- ===== src/Http/Codec.antt =====
-- What the handlers are given: the request, the structs of internal/http/dto that are read from
-- it, and the packages that read and write them.
use api_calixio.Prelude.{ℕ, Bool, Option, List}
use api_calixio.Text.{Text}
use api_calixio.Integer.{ℤ}
use api_calixio.External.{External}
use api_calixio.Auth.{AuthConfig}
use api_calixio.Playback.{Formats}
use api_calixio.Upload.{UploadService}
use api_calixio.Upload.Playback.{CacheFormats}
use api_calixio.Webhook.{WebhookEvent}
use api_calixio.Exec.{Reply}

pub record LoginRequest : Type 0 where
  pub email : Text
  pub password : Text

pub record RegisterRequest : Type 0 where
  pub name : Text
  pub email : Text
  pub password : Text

pub record InitMediaUploadRequest : Type 0 where
  pub file_name : Text
  pub content_type : Text
  pub size_bytes : ℤ

pub record CompleteMediaUploadRequest : Type 0 where
  pub media_id : Text

pub record CreateRoomRequest : Type 0 where
  pub name : Text

pub record JoinRoomRequest : Type 0 where
  pub user_name : Text

pub record UpdateRoomStateRequest : Type 0 where
  pub mode : Text
  pub media_id : Option Text

pub record UpdateRoomPlaybackRequest (Rate : Type 0) : Type 0 where
  pub media_id : Text
  pub status : Text
  pub position_ms : ℤ
  pub playback_rate : Rate

-- The method, the path, the header `Authorization` (empty if there is none), the cookie
-- `refresh_token`, whether the connection has TLS, and the body.
pub record Request : Type 0 where
  pub method : Text
  pub path : Text
  pub authorization : Text
  pub refresh_token : Option Text
  pub secure : Bool
  pub body : Text

-- `DecodeJSON`: a value, `io.EOF` for a body with nothing in it, or another error.
pub data Decoded (A : Type 0) : Type 0 where
  decoded : A → Decoded A
  no_body : Decoded A
  malformed : Decoded A

-- encoding/json on a struct without unknown fields, and the validator on the tags of the struct:
-- the fields and tags that it complains of.
pub record Body (A : Type 0) : Type 0 where
  pub decode : Text → Decoded A
  pub validate : A → List (Text × Text)

pub record Codec (Rate : Type 0) : Type 0 where
  pub login : Body LoginRequest
  pub register : Body RegisterRequest
  pub create_room : Body CreateRoomRequest
  pub join_room : Body JoinRoomRequest
  pub room_state : Body UpdateRoomStateRequest
  pub room_playback : Body (UpdateRoomPlaybackRequest Rate)
  pub init_upload : Body InitMediaUploadRequest
  pub complete_upload : Body CompleteMediaUploadRequest
  -- `t.Format(TimeLayout)` and `t.UTC().Format(TimeLayout)`, and `int(d.Seconds())`
  pub format_local : ℕ → Text
  pub format_utc : ℕ → Text
  pub seconds : ℤ → ℤ
  -- LiveKit's reading of a webhook request, with the check of its signature
  pub receive_webhook : Request → Reply (Option WebhookEvent)

-- The services that the handlers hold.
pub record Site (ext : External) : Type 1 where
  pub auth : AuthConfig
  pub upload : UploadService
  pub cache_formats : CacheFormats
  pub formats : Formats
  pub codec : Codec formats.Rate
