-- ===== src/RoomService.antt =====
-- internal/service/room.go.
pub mod Ending
pub mod Stale
pub mod Closer
pub mod Sweep
pub mod Mode
use api_calixio.Prelude.{
  ℕ, zero, suc, ◌+◌, ◌*◌, ◌^◌, Bool, true, false, not, ◌||◌, Option, none, some, List, [], ◌∷◌,
  ◌++◌, ltb, if◌then◌else◌,
}
use api_calixio.Text.{Text, codes, text_eq, is_empty}
use api_calixio.Integer.{ℤ, pos, negsuc, is_pos}
use api_calixio.Hex.{hex}
use api_calixio.Records.{User, Room, Media, RoomStatus, room_active, is_room_active, is_media_ready}
use api_calixio.External.{External}
use api_calixio.Exec.{
  Exec, World, Error, Result, Reply, ok, err, got, failed, external, not_found, room_ended,
  room_forbidden, media_required, media_forbidden_for_room, media_not_ready, invalid_upload_input,
  pure, raise, guard, attempt, call, observe, ◌>>=◌, ◌>>◌,
}
use api_calixio.Repository.Rooms.{
  insert_room_row, list_rooms_by_owner, list_active_rooms, get_room_by_id, update_room_media,
  end_room_row, ended,
}
use api_calixio.Repository.MediaRows.{get_by_id}
use api_calixio.Auth.{is_not_found}

abbrev pub conference : Text
conference = codes "conference"

abbrev pub movie : Text
movie = codes "movie"

-- 24 * time.Hour, in nanoseconds
abbrev pub day : ℕ
day = 86400000000000

-- `if minActiveDuration <= 0 { minActiveDuration = 24 * time.Hour }`
abbrev pub min_age : ℤ → ℕ
min_age (pos zero) = day
min_age (pos (suc n)) = suc n
min_age (negsuc n) = day

-- What one round of the loop adds to `closedCount, failedCount`.
abbrev count : Result Room → ℕ × ℕ → ℕ × ℕ
count (ok room) (closed, bad) = (closed + 1, bad)
count (err e) (closed, bad) = if is_not_found e then (closed, bad) else (closed, bad + 1)

module _ (ext : External) where
  open ext use {X, now, random, lk_create_room, lk_delete_room, lk_token}

  unfoldable pub new_id : Exec X Text
  new_id = do bytes ← call (random 16); pure (hex bytes)

  abbrev room_name : Text → Text → Text
  room_name name id = if is_empty name then codes "room-" ++ id else name

  unfoldable pub create_room : Text → Text → Option Text → Exec X Room
  create_room name owner media_id = do
    id ← new_id
    call (lk_create_room (room_name name id))
    t ← observe now
    insert_room_row ext (record {
      id = id;
      name = room_name name id;
      owner_user_id = owner;
      media_id = media_id;
      status = room_active;
      created_at = t;
      ended_at = none;
    })

  unfoldable pub join_room : Text → Text → Text → Exec X (Text × Room)
  join_room id identity participant = do
    room ← get_room_by_id ext id
    if not (is_room_active room.status)
        then raise room_ended
        else do token ← call (lk_token identity room.name participant); pure (token, room)

  -- The `case "movie"` of the switch.
  unfoldable pub movie_media : Text → Option Text → Exec X (Option Text)
  movie_media owner none = raise media_required
  movie_media owner (some media_id) = if is_empty media_id then raise media_required else do
    media ← get_by_id ext media_id
    if not (text_eq media.owner_user_id owner)
        then raise media_forbidden_for_room
        else if not (is_media_ready media.status)
        then raise media_not_ready
        else pure (some media.id)

  -- The switch on the mode.
  unfoldable pub next_media : Text → Text → Option Text → Exec X (Option Text)
  next_media owner mode media_id =
      if text_eq mode conference
      then pure none
      else if text_eq mode movie
      then movie_media owner media_id
      else raise invalid_upload_input

  unfoldable pub update_room_state : Text → Text → Text → Option Text → Exec X Room
  update_room_state id owner mode media_id = do
    room ← get_room_by_id ext id
    if not (text_eq room.owner_user_id owner)
        then raise room_forbidden
        else if not (is_room_active room.status)
        then raise room_ended
        else do next ← next_media owner mode media_id; update_room_media ext id next

  -- `endRoom`
  unfoldable pub end_found : Room → Exec X Room
  end_found room = if not (is_room_active room.status) then pure room else do
    t ← observe now
    end_room_row ext room.id t
    call (lk_delete_room room.name)
    pure (ended t room)

  unfoldable pub end_room_by_owner : Text → Text → Exec X Room
  end_room_by_owner id owner = do
    room ← get_room_by_id ext id
    if not (text_eq room.owner_user_id owner) then raise room_forbidden else end_found room

  unfoldable pub end_room : Text → Exec X Room
  end_room id = do room ← get_room_by_id ext id; end_found room

  -- The loop over the listed rooms, with the counts so far.
  unfoldable pub close_rooms : ℕ → ℕ → List Room → ℕ × ℕ → Exec X (ℕ × ℕ)
  close_rooms t age [] counts w = (ok counts, w)
  close_rooms t age (room ∷ rooms) counts w = elim (ltb t (room.created_at + age)) [
    | true ↦ close_rooms t age rooms counts w
    | false ↦ close_rooms t age rooms (count (end_room room.id w).0 counts) (end_room room.id w).1
  ]

  unfoldable pub end_stale_active_rooms : ℤ → Exec X (ℕ × ℕ)
  end_stale_active_rooms age = do
    rooms ← list_active_rooms ext
    t ← observe now
    close_rooms t (min_age age) rooms (0, 0)
