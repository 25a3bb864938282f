-- ===== src/System/Statements.antt =====
-- Each method of internal/repository that writes is at most one statement.
use api_calixio.Prelude.{ℕ, true, false, Option, none, ◌≡◌, refl, arith, any}
use api_calixio.Text.{Text}
use api_calixio.Records.{User, Session, Room, Media}
use api_calixio.External.{External}
use api_calixio.Repository.Users.{user_conflicts, create_user}
use api_calixio.Repository.Sessions.{session_conflicts, rotation_conflicts, store, rotate}
use api_calixio.Repository.Rooms.{
  has_room_id, media_exists, insert_room_row, end_room_row, update_room_media,
}
use api_calixio.Repository.MediaRows.{media_conflicts, create, update_kept}
use api_calixio.System.Changes.{
  more, IsTraced, has_user, MediaUpdate, write, user_added, session_added, session_rotated,
  room_added, room_closed, room_linked, media_added, media_changed,
}

module _ (ext : External) where
  open ext use {X, query}

  pub store-IsTraced : (s : Session) → IsTraced (store ext s)
  unfolding store
  store-IsTraced s s0 w h =
      let added =
        λ (e : any (session_conflicts s) w.sessions ≡ false)
            (k : has_user s.user_id w.users ≡ true).
          more h (session_added s e k refl) in
      ground (arith, added)

  pub rotate-IsTraced :
      (id jti hash : Text) (issued expires : ℕ) → IsTraced (rotate ext id jti hash issued expires)
  unfolding rotate
  rotate-IsTraced id jti hash issued expires s0 w h =
      let turned = λ (e : any (rotation_conflicts id jti hash) w.sessions ≡ false).
        more h (session_rotated id jti hash issued expires e refl) in
      ground (arith, turned)

  pub create_user-IsTraced : (user : User) → IsTraced (create_user ext user)
  unfolding create_user
  create_user-IsTraced user s0 w h =
      let row : User = record user { created_at = (ext.db_now (query w.outside).1).0 } in
      let added =
        λ (e : any (user_conflicts row) w.users ≡ false). more h (user_added row e refl) in
      ground (arith, added)

  pub insert_room-IsTraced : (room : Room) → IsTraced (insert_room_row ext room)
  unfolding insert_room_row
  insert_room-IsTraced room s0 w h =
      let added =
        λ (e : any (has_room_id room.id) w.rooms ≡ false)
            (k : has_user room.owner_user_id w.users ≡ true)
            (l : media_exists room.media_id w.media ≡ true).
          more h (room_added (record room { ended_at = none }) e k l refl) in
      ground (arith, added)

  pub end_room_row-IsTraced : (id : Text) (t : ℕ) → IsTraced (end_room_row ext id t)
  unfolding end_room_row
  end_room_row-IsTraced id t s0 w h = let closed = more h (room_closed id t refl) in ground arith

  pub update_room_media-IsTraced :
      (id : Text) (m : Option Text) → IsTraced (update_room_media ext id m)
  unfolding update_room_media
  update_room_media-IsTraced id m s0 w h =
      let linked = λ (e : media_exists m w.media ≡ true). more h (room_linked id m e refl) in
      ground (arith, linked)

  pub create-IsTraced : (m : Media) → IsTraced (create ext m)
  unfolding create
  create-IsTraced m s0 w h =
      let added =
        λ (e : any (media_conflicts m) w.media ≡ false)
            (k : has_user m.owner_user_id w.users ≡ true).
          more h (media_added m e k refl) in
      ground (arith, added)

  pub update_kept-IsTraced : (id : Text) (u : MediaUpdate) → IsTraced (update_kept ext id (write u))
  unfolding update_kept
  update_kept-IsTraced id u s0 w h = let changed = more h (media_changed id u refl) in ground arith
