-- ===== src/Playback.antt =====
-- internal/service/room_playback.go: the playback state that the host of a room keeps in Redis.
pub mod Saving
use api_calixio.Prelude.{
  ℕ, ◌+◌, ◌*◌, ◌/◌, ◌%◌, ◌^◌, Bool, true, false, not, Option, none, some, ◌++◌, if◌then◌else◌,
}
use api_calixio.Text.{Text, codes, text_eq, is_empty}
use api_calixio.Integer.{ℤ, pos}
use api_calixio.Records.{Room, is_room_active}
use api_calixio.External.{External}
use api_calixio.Exec.{
  Exec, Error, Result, ok, err, attempt, Reply, got, failed, external, room_ended, room_forbidden,
  playback_state_not_found, pure, raise, call, observe, ◌>>=◌, ◌>>◌,
}
use api_calixio.Repository.Rooms.{get_room_by_id}

-- A `PlaybackStatus` is any string; `Version` is kept as its pattern of 64 bits.
pub record RoomPlaybackState (Rate : Type 0) : Type 0 where
  pub room_id : Text
  pub media_id : Text
  pub status : Text
  pub position_ms : ℤ
  pub playback_rate : Rate
  pub updated_at : ℕ
  pub version : ℕ
  pub host_id : Text

pub record UpdateRoomPlaybackInput (Rate : Type 0) : Type 0 where
  pub media_id : Text
  pub status : Text
  pub position_ms : ℤ
  pub playback_rate : Rate

-- `float64` with what is asked of it, and encoding/json on the state. Neither `r > 0` nor
-- `r <= 0` holds of a NaN, so these are two tests.
pub record Formats : Type 1 where
  pub Rate : Type 0
  pub one : Rate
  pub exceeds_zero : Rate → Bool
  pub at_most_zero : Rate → Bool
  pub encode : RoomPlaybackState Rate → Reply Text
  pub decode : Text → Reply (RoomPlaybackState Rate)

abbrev pub paused : Text
paused = codes "paused"

-- `24*time.Hour`
abbrev pub state_ttl : ℤ
state_ttl = pos 86400000000000

unfoldable pub state_key : Text → Text
state_key room_id = codes "room:playback:v1:" ++ room_id

abbrev pub unix_milli : ℕ → ℕ
unix_milli t = t / 1000000

-- `if a == "" then b else a`
abbrev or_else : Text → Text → Text
or_else a b = if is_empty a then b else a

-- `errors.Is(err, ErrPlaybackStateNotFound)`
abbrev is_no_state : Error → Bool
is_no_state playback_state_not_found = true
is_no_state _ = false

module _ (ext : External) (fmt : Formats) where
  open ext use {X, now, redis_get, redis_set}
  open fmt use {Rate, one, exceeds_zero, at_most_zero, encode, decode}

  abbrev decoded : Option Text → Exec X (RoomPlaybackState Rate)
  decoded none = raise playback_state_not_found
  decoded (some raw) = call (λ x. (decode raw, x))

  unfoldable pub get_state : Text → Exec X (RoomPlaybackState Rate)
  get_state room_id = do raw ← call (redis_get (state_key room_id)); decoded raw

  abbrev pub fresh_state : Text → Text → Text → ℕ → RoomPlaybackState Rate
  fresh_state room_id host media_id t = record {
    room_id = room_id;
    media_id = media_id;
    status = paused;
    position_ms = pos 0;
    playback_rate = one;
    updated_at = unix_milli t;
    version = 0;
    host_id = host;
  }

  abbrev start_state :
      Text → Text → Text → Result (RoomPlaybackState Rate) → Exec X (RoomPlaybackState Rate)
  start_state room_id host media_id (ok s) = pure s
  start_state room_id host media_id (err e) =
      if not (is_no_state e)
      then raise e
      else do t ← observe now; pure (fresh_state room_id host media_id t)

  -- `GetState`, with the state that a room without one starts from.
  unfoldable pub current_state : Text → Text → Text → Exec X (RoomPlaybackState Rate)
  current_state room_id host media_id = do
    r ← attempt (get_state room_id)
    start_state room_id host media_id r

  abbrev pub next_rate : Rate → Rate → Rate
  next_rate new old = if exceeds_zero new then new else if at_most_zero old then one else old

  -- What the request and the clock change in the state.
  unfoldable pub updated :
      Text → UpdateRoomPlaybackInput Rate → ℕ → RoomPlaybackState Rate → RoomPlaybackState Rate
  updated host req t s = record {
    room_id = s.room_id;
    media_id = or_else req.media_id s.media_id;
    status = or_else req.status s.status;
    position_ms = req.position_ms;
    playback_rate = next_rate req.playback_rate s.playback_rate;
    updated_at = unix_milli t;
    version = (s.version + 1) % 2 ^ 64;
    host_id = host;
  }

  -- From `json.Marshal` on.
  unfoldable pub put_state : Text → RoomPlaybackState Rate → Exec X (RoomPlaybackState Rate)
  put_state room_id s = do
    payload ← call (λ x. (encode s, x))
    call (redis_set (state_key room_id) payload state_ttl)
    pure s

  unfoldable pub change_state :
      Text → Text → UpdateRoomPlaybackInput Rate → Exec X (RoomPlaybackState Rate)
  change_state room_id host req = do
    s ← current_state room_id host req.media_id
    t ← observe now
    put_state room_id (updated host req t s)

  unfoldable pub save_by_host :
      Text → Text → UpdateRoomPlaybackInput Rate → Exec X (RoomPlaybackState Rate)
  save_by_host room_id host req = do
    room ← get_room_by_id ext room_id
    if not (text_eq room.owner_user_id host)
        then raise room_forbidden
        else if not (is_room_active room.status)
        then raise room_ended
        else change_state room_id host req
