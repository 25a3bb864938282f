-- ===== src/System/Rooms.antt =====
-- The methods of the services that write the table of rooms.
use api_calixio.Prelude.{ℕ, Option, List, [], ◌∷◌, arith, ltb, ◌+◌, Bool-cases, inl, inr}
use api_calixio.Text.{Text, text_eq}
use api_calixio.Integer.{ℤ}
use api_calixio.Records.{Room}
use api_calixio.External.{External}
use api_calixio.Exec.{Result-cases}
use api_calixio.Repository.Rooms.{get_room_by_id, update_room_media}
use api_calixio.RoomService.{
  create_room, next_media, update_room_state, end_found, end_room_by_owner, end_room, close_rooms,
  end_stale_active_rooms,
}
use api_calixio.System.Changes.{tables, Trace, IsTraced, bind-IsTraced}
use api_calixio.System.Statements.{
  insert_room-IsTraced, end_room_row-IsTraced, update_room_media-IsTraced,
}
use api_calixio.System.Kept.{
  kept-IsTraced, new_id-IsKept, get_room-IsKept, next_media-IsKept, list_active-IsKept,
}

module _ (ext : External) where
  pub create_room-IsTraced : (n o : Text) (m : Option Text) → IsTraced (create_room ext n o m)
  unfolding create_room
  create_room-IsTraced n o m s w h = grind (arith, new_id-IsKept ext, insert_room-IsTraced ext)

  pub update_room_state-IsTraced :
      (i o mode : Text) (m : Option Text) → IsTraced (update_room_state ext i o mode m)
  unfolding update_room_state
  update_room_state-IsTraced i o mode m =
      bind-IsTraced (get_room_by_id ext i) _
        (kept-IsTraced (get_room_by_id ext i) (get_room-IsKept ext i))
        (λ room t v g.
          let u = (next_media ext o mode m v).1 in
          let asked =
            kept-IsTraced (next_media ext o mode m) (next_media-IsKept ext o mode m) t v g in
          let linked : (n : Option Text) → Trace t (tables (update_room_media ext i n u).1) =
            λ n. update_room_media-IsTraced ext i n t u asked in
          grind (arith, linked))

  end_found-IsTraced : (room : Room) → IsTraced (end_found ext room)
  unfolding end_found
  end_found-IsTraced room s w h = grind (arith, end_room_row-IsTraced ext)

  pub end_room_by_owner-IsTraced : (i o : Text) → IsTraced (end_room_by_owner ext i o)
  unfolding end_room_by_owner
  end_room_by_owner-IsTraced i o s w h =
      let r = kept-IsTraced (get_room_by_id ext i) (get_room-IsKept ext i) s w h in
      let u = (get_room_by_id ext i w).1 in
      elim (Result-cases (get_room_by_id ext i w).0) [
        | inr (x, e) ↦ rw (e, end_room_by_owner) r
        | inl (room, e) ↦ elim (Bool-cases (text_eq room.owner_user_id o)) [
          | inl same ↦ rw (e, same, end_room_by_owner) (end_found-IsTraced room s u r)
          | inr other ↦ rw (e, other, end_room_by_owner) r
        ]
      ]

  end_room-IsTraced : (i : Text) → IsTraced (end_room ext i)
  unfolding end_room
  end_room-IsTraced i s w h = grind (arith, get_room-IsKept ext, end_found-IsTraced)

  close_rooms-IsTraced :
      (t age : ℕ) (rooms : List Room) (counts : ℕ × ℕ)
      → IsTraced (close_rooms ext t age rooms counts)
  unfolding close_rooms
  close_rooms-IsTraced t age [] counts s w h = h
  close_rooms-IsTraced t age (r ∷ rs) counts s w h =
      elim (Bool-cases (ltb t (r.created_at + age))) [
        | inl e ↦ rw (e, close_rooms) (close_rooms-IsTraced t age rs counts s w h)
        | inr e ↦
            rw (e, close_rooms)
              (close_rooms-IsTraced t age rs _ s (end_room ext r.id w).1
                (end_room-IsTraced r.id s w h))
      ]

  pub end_stale-IsTraced : (age : ℤ) → IsTraced (end_stale_active_rooms ext age)
  unfolding end_stale_active_rooms
  end_stale-IsTraced age s w h = grind (arith, list_active-IsKept ext, close_rooms-IsTraced)
