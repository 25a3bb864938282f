-- ===== src/Records.antt =====
-- The rows of the tables: the structs of internal/repository. A time is a number of nanoseconds
-- since a fixed origin, and a `*T` is an `Option`.
use api_calixio.Prelude.{ℕ, Bool, Option}
use api_calixio.Text.{Text, codes}
use api_calixio.Integer.{ℤ}

pub record User : Type 0 where
  pub id : Text
  pub name : Text
  pub email : Text
  pub email_confirmed : Bool
  pub password_hash : Text
  pub created_at : ℕ

pub record Session : Type 0 where
  pub id : Text
  pub user_id : Text
  pub refresh_token_hash : Text
  pub access_jti : Text
  pub version : ℕ
  pub issued_at : ℕ
  pub expires_at : ℕ
  pub revoked_at : Option ℕ

pub data RoomStatus : Type 0 where
  room_pending room_active room_ended : RoomStatus

abbrev pub is_room_active : RoomStatus → Bool
is_room_active room_active = Bool.true
is_room_active _ = Bool.false

pub record Room : Type 0 where
  pub id : Text
  pub name : Text
  pub owner_user_id : Text
  pub media_id : Option Text
  pub status : RoomStatus
  pub created_at : ℕ
  pub ended_at : Option ℕ

pub data MediaStatus : Type 0 where
  media_uploading media_uploaded media_processing media_ready media_failed : MediaStatus

abbrev pub is_media_ready : MediaStatus → Bool
is_media_ready media_ready = Bool.true
is_media_ready _ = Bool.false

-- `string(status)`
abbrev pub media_status_text : MediaStatus → Text
media_status_text media_uploading = codes "uploading"
media_status_text media_uploaded = codes "uploaded"
media_status_text media_processing = codes "processing"
media_status_text media_ready = codes "ready"
media_status_text media_failed = codes "failed"

pub record Media : Type 0 where
  pub id : Text
  pub owner_user_id : Text
  pub title : Text
  pub original_name : Text
  pub storage_key : Text
  pub playback_url : Text
  pub preview_url : Option Text
  pub duration_sec : Option ℤ
  pub file_size_bytes : ℤ
  pub mime_type : Text
  pub status : MediaStatus
  pub created_at : ℕ
  pub deleted_at : Option ℕ
