-- ===== src/Http/Message.antt =====
-- The answers of the handlers: internal/http/httputil/response.go, and the structs of
-- internal/http/dto that are sent.
use api_calixio.Prelude.{ℕ, Bool, Option, none, List, [], ◌∷◌, ◌++◌, if◌then◌else◌}
use api_calixio.Text.{Text, codes, text_eq, is_empty}
use api_calixio.Integer.{ℤ}

pub record LoginResponse : Type 0 where
  pub name : Text
  pub access_token : Text
  pub access_ttl : ℤ
  pub refresh_ttl : ℤ

pub record RegisterResponse : Type 0 where
  pub user_id : Text

pub record RefreshResponse : Type 0 where
  pub user_id : Text
  pub access_token : Text
  pub access_ttl : ℤ
  pub refresh_ttl : ℤ
  pub version : ℕ

pub record InitMediaUploadResponse : Type 0 where
  pub media_id : Text
  pub upload_url : Text
  pub storage_key : Text

pub record CompleteMediaUploadResponse : Type 0 where
  pub media_id : Text
  pub status : Text

pub record MediaListItemResponse : Type 0 where
  pub id : Text
  pub title : Text
  pub original_name : Text
  pub playback_url : Text
  pub preview_url : Option Text
  pub duration_sec : Option ℤ
  pub file_size_bytes : ℤ
  pub mime_type : Text
  pub status : Text
  pub created_at : Text

pub record PlaybackMediaResponse : Type 0 where
  pub media_id : Text
  pub status : Text
  pub manifest : Text
  pub manifest_url : Option Text
  pub preview_url : Option Text
  pub expires_at : Text

pub record DeleteMediaResponse : Type 0 where
  pub media_id : Text
  pub status : Text

pub record RoomResponse : Type 0 where
  pub id : Text
  pub name : Text
  pub status : Text
  pub created_at : Text

pub record RoomStateResponse : Type 0 where
  pub mode : Text
  pub media_id : Option Text
  pub playback : Option PlaybackMediaResponse

pub record JoinRoomResponse : Type 0 where
  pub room_id : Text
  pub room_name : Text
  pub token : Text
  pub expires_in : ℤ
  pub state : RoomStateResponse

pub record UpdateRoomStateResponse : Type 0 where
  pub room_id : Text
  pub room_name : Text
  pub state : RoomStateResponse

pub record RoomPlaybackStateResponse (Rate : Type 0) : Type 0 where
  pub room_id : Text
  pub media_id : Text
  pub status : Text
  pub position_ms : ℤ
  pub playback_rate : Rate
  pub updated_at : ℕ
  pub version : ℕ
  pub host_id : Text

-- What is written behind the header; `not_routed` is what chi itself writes.
pub data Content (Rate : Type 0) : Type 0 where
  error_body : Text → Content Rate
  validation_body : Text → List (Text × Text) → Content Rate
  status_body : Text → Content Rate
  login_body : LoginResponse → Content Rate
  register_body : RegisterResponse → Content Rate
  refresh_body : RefreshResponse → Content Rate
  rooms_body : List RoomResponse → Content Rate
  room_body : RoomResponse → Content Rate
  join_body : JoinRoomResponse → Content Rate
  room_state_body : UpdateRoomStateResponse → Content Rate
  playback_state_body : RoomPlaybackStateResponse Rate → Content Rate
  media_list_body : List MediaListItemResponse → Content Rate
  init_body : InitMediaUploadResponse → Content Rate
  complete_body : CompleteMediaUploadResponse → Content Rate
  playback_body : PlaybackMediaResponse → Content Rate
  delete_body : DeleteMediaResponse → Content Rate
  manifest_body : Text → Content Rate
  not_routed : Content Rate

pub data SameSite : Type 0 where
  same_site_none same_site_lax : SameSite

-- The cookie `refresh_token`: for the path `/`, and only for HTTP.
pub record RefreshCookie : Type 0 where
  pub value : Text
  pub max_age : ℤ
  pub expires : ℕ
  pub secure : Bool
  pub same_site : SameSite

pub record Response (Rate : Type 0) : Type 0 where
  pub status : ℕ
  pub cookie : Option RefreshCookie
  pub content : Content Rate

module _ {Rate : Type 0} where
  -- `RespondJSON`
  abbrev pub respond : ℕ → Content Rate → Response Rate
  respond status content = record { status = status; cookie = none; content = content }

  -- `RespondError`
  abbrev pub respond_error : ℕ → Text → Response Rate
  respond_error status code = respond status (error_body code)

-- `fields[field] = tag`
abbrev set_field : Text → Text → List (Text × Text) → List (Text × Text)
set_field field tag [] = (field, tag) ∷ []
set_field field tag (p ∷ ps) =
    let rest = set_field field tag ps in if text_eq p.0 field then (field, tag) ∷ ps else p ∷ rest

-- The loop over the errors of the validator, which are a field and a tag each; `lower` is
-- `strings.ToLower`.
unfoldable pub collect_fields :
    (Text → Text) → List (Text × Text) → Text → List (Text × Text) → Text × List (Text × Text)
collect_fields lower [] reason fields = (reason, fields)
collect_fields lower ((field, tag) ∷ errors) reason fields =
    collect_fields lower errors
      (if is_empty reason then lower field ++ codes "_" ++ tag else reason)
      (set_field (lower field) tag fields)

module _ {Rate : Type 0} where
  abbrev validation_content : Text × List (Text × Text) → Content Rate
  validation_content (reason, []) = error_body (codes "validation_failed")
  validation_content (reason, f ∷ fs) = validation_body reason (f ∷ fs)

  unfoldable pub respond_validation_error : (Text → Text) → List (Text × Text) → Response Rate
  respond_validation_error lower errors =
      respond 400 (validation_content (collect_fields lower errors [] []))
