-- ===== src/System/Ownership/Methods.antt =====
-- The owners of the rows that the methods on rooms write.
use api_calixio.Prelude.{
  ℕ, true, not, Option, none, some, ◌≡◌, refl, ap, ◌∙◌, arith, find, find-holds, filter, Bool-cases,
  inl, inr,
}
use api_calixio.Text.{Text, text_eq}
use api_calixio.Text.Laws.{text_eq→eq, text_eq_refl}
use api_calixio.Records.{Room, Media, room_active}
use api_calixio.External.{External}
use api_calixio.Exec.{Exec, World, ok, Result-cases}
use api_calixio.Repository.Sql.{update_where}
use api_calixio.Repository.Rows.{IsPairwise, all-weaken, all-update}
use api_calixio.Repository.Rooms.{
  has_room_id, is_open, ended, with_media, insert_room_row, get_room_by_id, end_room_row,
  update_room_media,
}
use api_calixio.Repository.MediaRows.{is_kept, create, update_kept}
use api_calixio.RoomService.{
  create_room, next_media, update_room_state, end_found, end_room_by_owner,
}
use api_calixio.System.Changes.{
  Tables, tables, MediaUpdate, write, upload_stated, status_set, transcoded, deleted,
}
use api_calixio.System.Constraints.{room_conflicts, write-owner}
use api_calixio.System.Kept.{IsKept, new_id-IsKept, get_room-IsKept, next_media-IsKept}
use api_calixio.System.Ownership.{
  none_but, filter-update, filter-snoc, owns_room, owns_media, others, Spares, room_of_caller,
}

module _ (ext : External) (user : Text) where
  open ext use {X, query}

  pub kept-others : (v w : World X) → tables v ≡ tables w → others user v ≡ others user w
  kept-others v w e =
      ap
        (λ (t : Tables). (
          filter (λ r. not (owns_room user r)) t.rooms,
          filter (λ m. not (owns_media user m)) t.media,
        ))
        e

  pub kept-Spares : {A : Type 0} (m : Exec X A) → IsKept m → Spares user m
  kept-Spares m k w = kept-others (m w).1 w (k w)

  insert_room-Spares :
      (room : Room) → owns_room user room ≡ true → Spares user (insert_room_row ext room)
  unfolding insert_room_row
  insert_room-Spares room mine w =
      let same = filter-snoc (owns_room user) w.rooms (record room { ended_at = none }) mine in
      ground arith

  pub create_room-Spares : (n : Text) (m : Option Text) → Spares user (create_room ext n user m)
  unfolding create_room
  create_room-Spares n m w =
      let mine = text_eq_refl user in
      let inserted : (id name : Text) (t : ℕ) (v : World X)
          → others user
              (insert_room_row ext
                (record {
                  id = id;
                  name = name;
                  owner_user_id = user;
                  media_id = m;
                  status = room_active;
                  created_at = t;
                  ended_at = none;
                })
                v).1
            ≡ others user v =
        λ id name t v. insert_room-Spares _ mine v in
      grind (arith, inserted, new_id-IsKept ext)

  update_room_media-others :
      (i : Text) (m : Option Text) (w : World X)
      → none_but (has_room_id i) (owns_room user) w.rooms ≡ true
      → others user (update_room_media ext i m w).1 ≡ others user w
  unfolding update_room_media
  update_room_media-others i m w own =
      let same =
        filter-update (has_room_id i) (owns_room user) (with_media m) w.rooms (λ r. refl) own in
      ground arith

  end_room_row-others :
      (i : Text) (t : ℕ) (w : World X)
      → none_but (has_room_id i) (owns_room user) w.rooms ≡ true
      → others user (end_room_row ext i t w).1 ≡ others user w
  unfolding end_room_row
  end_room_row-others i t w own =
      let open_own : none_but (is_open i) (owns_room user) w.rooms ≡ true =
        all-weaken _ _ w.rooms (λ r h. ground arith) own in
      let same =
        filter-update (is_open i) (owns_room user) (ended t) w.rooms (λ r. refl) open_own in
      ground arith

  room_found :
      (i : Text) (w : World X) (room : Room)
      → (get_room_by_id ext i w).0 ≡ ok room
      → find (has_room_id i) w.rooms ≡ some room
  unfolding get_room_by_id
  room_found i w room h = ground arith

  pub update_room_state-others :
      (i mode : Text) (m : Option Text) (w : World X)
      → IsPairwise room_conflicts w.rooms
      → others user (update_room_state ext i user mode m w).1 ≡ others user w
  unfolding update_room_state
  update_room_state-others i mode m w apart =
      let v = (get_room_by_id ext i w).1 in
      let g = get_room-IsKept ext i w in
      elim (Result-cases (get_room_by_id ext i w).0) [
        | inr (e, bad) ↦ rw (bad, update_room_state) (kept-others v w g)
        | inl (room, hit) ↦ elim (Bool-cases (text_eq room.owner_user_id user)) [
          | inr stranger ↦ rw (hit, stranger, update_room_state) (kept-others v w g)
          | inl mine ↦
              let n = next_media ext user mode m in
              let u = (n v).1 in
              let k : tables u ≡ tables w = next_media-IsKept ext user mode m v ∙ g in
              let own : none_but (has_room_id i) (owns_room user) u.rooms ≡ true =
                ap (λ (t : Tables). none_but (has_room_id i) (owns_room user) t.rooms) k
                ∙ room_of_caller i user room w.rooms apart (room_found i w room hit) mine in
              let before = kept-others v w g in
              let asked = kept-others u w k in
              let linked : (x : Option Text)
                  → others user (update_room_media ext i x u).1 ≡ others user u =
                λ x. update_room_media-others i x u own in
              rw (hit, mine, update_room_state) (grind (arith, linked))
        ]
      ]

  pub end_room_by_owner-others :
      (i : Text) (w : World X)
      → IsPairwise room_conflicts w.rooms
      → others user (end_room_by_owner ext i user w).1 ≡ others user w
  unfolding end_room_by_owner end_found
  end_room_by_owner-others i w apart =
      let v = (get_room_by_id ext i w).1 in
      let g = get_room-IsKept ext i w in
      let before = kept-others v w g in
      elim (Result-cases (get_room_by_id ext i w).0) [
        | inr (e, bad) ↦ rw (bad, end_room_by_owner) before
        | inl (room, hit) ↦ elim (Bool-cases (text_eq room.owner_user_id user)) [
          | inr stranger ↦ rw (hit, stranger, end_room_by_owner) before
          | inl mine ↦
              let found = room_found i w room hit in
              let named : room.id ≡ i =
                text_eq→eq room.id i (find-holds (has_room_id i) w.rooms room found) in
              let own : none_but (has_room_id room.id) (owns_room user) v.rooms ≡ true =
                ap (λ x. none_but (has_room_id x) (owns_room user) v.rooms) named
                ∙ ap (λ (t : Tables). none_but (has_room_id i) (owns_room user) t.rooms) g
                ∙ room_of_caller i user room w.rooms apart found mine in
              let u : World X = record v { outside = (ext.now v.outside).1 } in
              let closed = end_room_row-others room.id (ext.now v.outside).0 u own in
              rw (hit, mine, end_room_by_owner, end_found) (ground arith)
        ]
      ]

  -- No UPDATE keeps a row that was not kept.
  write-kept :
      (i : Text) (x : MediaUpdate) (m : Media) → is_kept i (write x m) ≡ true → is_kept i m ≡ true
  write-kept i (upload_stated status size mime) m h = h
  write-kept i (status_set status) m h = h
  write-kept i (transcoded url preview duration status) m h = h
  write-kept i (deleted t) m h = ground arith

  pub create-Spares : (m : Media) → owns_media user m ≡ true → Spares user (create ext m)
  unfolding create
  create-Spares m mine w = let same = filter-snoc (owns_media user) w.media m mine in ground arith

  -- An UPDATE of a media item of the caller, after which the caller still owns the rows of its id.
  pub update_kept-others :
      (i : Text) (x : MediaUpdate) (w : World X)
      → none_but (is_kept i) (owns_media user) w.media ≡ true
      → (others user (update_kept ext i (write x) w).1 ≡ others user w)
        × (none_but (is_kept i) (owns_media user) (update_kept ext i (write x) w).1.media ≡ true)
  unfolding update_kept
  update_kept-others i x w own =
      let same =
        filter-update (is_kept i) (owns_media user) (write x) w.media
          (λ m. ap (λ o. text_eq o user) (write-owner x m)) own in
      let still : none_but (is_kept i) (owns_media user)
            (update_where (is_kept i) (write x) w.media)
          ≡ true =
        all-update (is_kept i) _ (write x) w.media
          (λ m h. let owner = write-owner x m in let less = write-kept i x m in ground arith) own in
      (ground arith, ground arith)
