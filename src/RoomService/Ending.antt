-- ===== src/RoomService/Ending.antt =====
-- Ending a room, and what a failure of LiveKit leaves behind.
use api_calixio.Prelude.{
  ℕ, true, false, some, ◌≡◌, ◌⊎◌, refl, ap, ap₂, ◌∙◌, arith, find, Bool-cases, inl, inr, find-holds,
}
use api_calixio.Text.{Text, text_eq}
use api_calixio.Text.Laws.{text_eq_refl, text_eq→eq}
use api_calixio.Records.{Room, is_room_active}
use api_calixio.External.{External}
use api_calixio.Exec.{World, ok, err, got, failed, external, room_forbidden, >>=-eq-ok}
use api_calixio.Repository.Sql.{update_where, changed, on_some, find-update_where}
use api_calixio.Repository.Rooms.{has_room_id, is_open, ended, get_room_by_id, end_room_row}
use api_calixio.RoomService.{end_found, end_room_by_owner}

-- After the UPDATE of `EndRoom` no lookup by the id finds an active room.
closed_row :
    (id : Text) (t : ℕ) (r : Room)
    → has_room_id id r ≡ true
    → is_room_active (changed (is_open id) (ended t) r).status ≡ false
closed_row id t r h = ground arith

module _ (ext : External) where
  open ext use {X, now, query, lk_delete_room}

  pub room-ok :
      (id : Text) (w : World X) {r : Room}
      → (get_room_by_id ext id w).0 ≡ ok r
      → (find (has_room_id id) w.rooms ≡ some r) × ((get_room_by_id ext id w).1.rooms ≡ w.rooms)
  unfolding get_room_by_id
  room-ok id w h = ground arith

  end_row-ok :
      (id : Text) (t : ℕ) (w : World X) {a : Unit {0}}
      → (end_room_row ext id t w).0 ≡ ok a
      → (end_room_row ext id t w).1.rooms ≡ update_where (is_open id) (ended t) w.rooms
  unfolding end_room_row
  end_row-ok id t w h = ground arith

  -- what ending a room that was found does to the rooms
  pub end_found-ok :
      (r : Room) (w : World X) {n : Room} {v : World X}
      → end_found ext r w ≡ (ok n, v)
      → ((is_room_active r.status ≡ false) × (v.rooms ≡ w.rooms))
        ⊎ ((t : ℕ) × (v.rooms ≡ update_where (is_open r.id) (ended t) w.rooms))
  unfolding end_found end_room_row
  end_found-ok r w h = elim (Bool-cases (is_room_active r.status)) [
    | inr over ↦ inl (over, ground arith)
    | inl active ↦ inr ((now w.outside).0, ground arith)
  ]

  -- Ending a room as its owner: when the call succeeds, the room exists and belongs to the caller,
  -- and afterwards the lookup of that id finds a room that is not active.
  pub end_room_by_owner_ends :
      (id owner : Text) (w v : World X) (n : Room)
      → end_room_by_owner ext id owner w ≡ (ok n, v)
      → (r m : Room) × (find (has_room_id id) w.rooms ≡ some r)
        × (text_eq r.owner_user_id owner ≡ true)
        × (find (has_room_id id) v.rooms ≡ some m)
        × (is_room_active m.status ≡ false)
  unfolding end_room_by_owner
  end_room_by_owner_ends id owner w v n h =
      let (r, e, h1) = >>=-eq-ok (get_room_by_id ext id) _ w h in
      let (found, kept) = room-ok id w e in
      let mine : text_eq r.owner_user_id owner ≡ true = ground arith in
      let named : r.id ≡ id = text_eq→eq r.id id (find-holds (has_room_id id) w.rooms r found) in
      let u = (get_room_by_id ext id w).1 in
      elim (end_found-ok r u {n = n} {v = v} (rw mine at h1)) [
        | inl (over, same) ↦
            (r, r, found, mine, ap (find (has_room_id id)) (same ∙ kept) ∙ found, over)
        | inr (t, changes) ↦ (
          r,
          changed (is_open id) (ended t) r,
          found,
          mine,
          ap (find (has_room_id id))
                (changes ∙ ap₂ (λ i rs. update_where (is_open i) (ended t) rs) named kept)
              ∙ find-update_where (has_room_id id) (is_open id) (ended t) w.rooms (λ x. refl)
              ∙ ap (on_some (changed (is_open id) (ended t))) found,
          closed_row id t r (find-holds (has_room_id id) w.rooms r found),
        )
      ]

  -- Anybody but the owner is refused with `ErrRoomForbidden`, and no room changes.
  pub end_room_forbidden :
      (id owner : Text) (w : World X) (r : Room)
      → find (has_room_id id) w.rooms ≡ some r
      → text_eq r.owner_user_id owner ≡ false
      → (query w.outside).0 ≡ got tt
      → ((end_room_by_owner ext id owner w).0 ≡ err room_forbidden)
        × ((end_room_by_owner ext id owner w).1.rooms ≡ w.rooms)
  unfolding end_room_by_owner get_room_by_id
  end_room_forbidden id owner w r found other up = ground arith

  -- the world in which the clock has been read
  abbrev pub clocked : World X → World X
  clocked w = record w { outside = (now w.outside).1 }

  delete_failed :
      (r : Room) (w : World X) (k : ℕ)
      → is_room_active r.status ≡ true
      → (end_room_row ext r.id (now w.outside).0 (clocked w)).0 ≡ ok tt
      → (lk_delete_room r.name (end_room_row ext r.id (now w.outside).0 (clocked w)).1.outside).0
        ≡ failed k
      → ((end_found ext r w).0 ≡ err (external k))
        × ((end_found ext r w).1.rooms
            ≡ (end_room_row ext r.id (now w.outside).0 (clocked w)).1.rooms)
  unfolding end_found
  delete_failed r w k active through broken = ground arith

  ending_twice :
      (m : Room) (v : World X)
      → is_room_active m.status ≡ false
      → find (has_room_id m.id) v.rooms ≡ some m
      → (query v.outside).0 ≡ got tt
      → ((end_room_by_owner ext m.id m.owner_user_id v).0 ≡ ok m)
        × ((end_room_by_owner ext m.id m.owner_user_id v).1.outside ≡ (query v.outside).1)
  unfolding end_room_by_owner end_found get_room_by_id
  ending_twice m v over found up = ground (arith, text_eq_refl m.owner_user_id)

  -- If the database ends the room and LiveKit then fails to delete it, the caller gets the error
  -- of LiveKit; a second call that the database answers succeeds, and asks nothing of LiveKit: what
  -- it does outside is one query. So the room is ended in the database and stays in LiveKit.
  pub end_room_leaks :
      (r : Room) (w : World X) (k : ℕ)
      → is_room_active r.status ≡ true
      → find (has_room_id r.id) w.rooms ≡ some r
      → (end_room_row ext r.id (now w.outside).0 (clocked w)).0 ≡ ok tt
      → (lk_delete_room r.name (end_room_row ext r.id (now w.outside).0 (clocked w)).1.outside).0
        ≡ failed k
      → (query (end_found ext r w).1.outside).0 ≡ got tt
      → ((end_found ext r w).0 ≡ err (external k))
        × ((end_room_by_owner ext r.id r.owner_user_id (end_found ext r w).1).0
            ≡ ok (ended (now w.outside).0 r))
        × ((end_room_by_owner ext r.id r.owner_user_id (end_found ext r w).1).1.outside
            ≡ (query (end_found ext r w).1.outside).1)
  end_room_leaks r w k active found through broken up =
      let t = (now w.outside).0 in
      let (answer, rooms) = delete_failed r w k active through broken in
      let hit : changed (is_open r.id) (ended t) r ≡ ended t r =
        ground (arith, text_eq_refl r.id) in
      let left : find (has_room_id r.id) (end_found ext r w).1.rooms ≡ some (ended t r) =
        ap (find (has_room_id r.id)) (rooms ∙ end_row-ok r.id t (clocked w) through)
        ∙ find-update_where (has_room_id r.id) (is_open r.id) (ended t) w.rooms (λ x. refl)
        ∙ ap (on_some (changed (is_open r.id) (ended t))) found
        ∙ ap some hit in
      let (second, asked) = ending_twice (ended t r) (end_found ext r w).1 refl left up in
      (answer, second, asked)
