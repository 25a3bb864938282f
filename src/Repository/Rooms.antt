-- ===== src/Repository/Rooms.antt =====
-- internal/repository/rooms.go
use api_calixio.Prelude.{
  ℕ, Bool, true, not, Option, none, some, List, [], ◌∷◌, ◌++◌, ◌||◌, ◌&&◌, find, any, filter,
  if◌then◌else◌, leb,
}
use api_calixio.Text.{Text, text_eq}
use api_calixio.Records.{User, Room, Media, room_ended, is_room_active}
use api_calixio.External.{External}
use api_calixio.Repository.Sql.{update_where}
use api_calixio.Exec.{
  Exec, external, not_found, pure, raise, gets, modify, from_option, call, ◌>>=◌, ◌>>◌,
}

abbrev pub has_room_id : Text → Room → Bool
has_room_id id r = text_eq r.id id

-- `WHERE id = $1 AND status = 'active'`
abbrev pub is_open : Text → Room → Bool
is_open id r = has_room_id id r && is_room_active r.status

abbrev pub ended : ℕ → Room → Room
ended t r = record r { status = room_ended; ended_at = some t }

abbrev pub with_media : Option Text → Room → Room
with_media media_id r = record r { media_id = media_id }

-- `ORDER BY created_at DESC` and `ASC`, by insertion.
unfoldable pub insert_room : (Room → Room → Bool) → Room → List Room → List Room
insert_room first r [] = r ∷ []
insert_room first r (s ∷ rs) =
    let rest = insert_room first r rs in if first r s then r ∷ s ∷ rs else s ∷ rest

unfoldable pub sort_rooms : (Room → Room → Bool) → List Room → List Room
unfolding insert_room
sort_rooms first [] = []
sort_rooms first (r ∷ rs) = insert_room first r (sort_rooms first rs)

abbrev pub newest_first : Room → Room → Bool
newest_first r s = leb s.created_at r.created_at

abbrev pub oldest_first : Room → Room → Bool
oldest_first r s = leb r.created_at s.created_at

-- The foreign keys of a row: the owner, and the media item if there is one.
abbrev pub media_exists : Option Text → List Media → Bool
media_exists none rows = true
media_exists (some id) rows = any (λ (m : Media). text_eq m.id id) rows

module _ (ext : External) where
  open ext use {X, query, violation}

  unfoldable pub insert_room_row : Room → Exec X Room
  insert_room_row room = do
    call query
    taken ← gets (λ w. any (has_room_id room.id) w.rooms)
    known ← gets (λ w. any (λ (u : User). text_eq u.id room.owner_user_id) w.users)
    linked ← gets (λ w. media_exists room.media_id w.media)
    if taken || not known || not linked then raise (external violation) else do
      -- `ended_at` is not among the columns of the INSERT.
      let row = record room { ended_at = none }
      modify (λ w. record w { rooms = w.rooms ++ (row ∷ []) })
      pure row

  unfoldable pub list_rooms_by_owner : Text → Exec X (List Room)
  list_rooms_by_owner owner = do
    call query
    gets (λ w. sort_rooms newest_first (filter (λ r. text_eq r.owner_user_id owner) w.rooms))

  unfoldable pub list_active_rooms : Exec X (List Room)
  list_active_rooms = do
    call query
    gets (λ w. sort_rooms oldest_first (filter (λ r. is_room_active r.status) w.rooms))

  unfoldable pub get_room_by_id : Text → Exec X Room
  get_room_by_id id = do
    call query
    found ← gets (λ w. find (has_room_id id) w.rooms)
    from_option found not_found

  -- `EndRoom`: no row changed means that the room is missing or not active.
  unfoldable pub end_room_row : Text → ℕ → Exec X (Unit {0})
  end_room_row id t = do
    call query
    hit ← gets (λ w. any (is_open id) w.rooms)
    if hit
        then modify (λ w. record w { rooms = update_where (is_open id) (ended t) w.rooms })
        else raise not_found

  unfoldable pub update_room_media : Text → Option Text → Exec X Room
  update_room_media id media_id = do
    call query
    found ← gets (λ w. find (has_room_id id) w.rooms)
    old ← from_option found not_found
    linked ← gets (λ w. media_exists media_id w.media)
    if not linked then raise (external violation) else do
      modify (λ w. record w { rooms = update_where (has_room_id id) (with_media media_id) w.rooms })
      pure (with_media media_id old)
