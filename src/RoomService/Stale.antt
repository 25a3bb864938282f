-- ===== src/RoomService/Stale.antt =====
-- The hourly closer of stale rooms.
use api_calixio.Prelude.{
  ℕ, ◌+◌, true, false, not, ◌||◌, List, [], ◌∷◌, ◌≡◌, refl, ◌∙◌, arith, find, all, Bool-cases, inl,
  inr, find-holds, ltb, Option-cases, and_right,
}
use api_calixio.Text.{Text, text_eq}
use api_calixio.Text.Laws.{text_eq_iff, text_eq→eq}
use api_calixio.Records.{Room}
use api_calixio.External.{External}
use api_calixio.Exec.{World}
use api_calixio.Repository.Sql.{update_where}
use api_calixio.Repository.Rooms.{has_room_id, is_open, ended, get_room_by_id, end_room_row}
use api_calixio.RoomService.{end_found, end_room, close_rooms, count}

-- A row with another id is not touched by ending a room.
find_untouched :
    (i id : Text) (t : ℕ) (rooms : List Room)
    → text_eq i id ≡ false
    → find (has_room_id id) (update_where (is_open i) (ended t) rooms) ≡ find (has_room_id id) rooms
find_untouched i id t [] ne = refl
find_untouched i id t (r ∷ rooms) ne = ground (
  arith,
  find_untouched i id t rooms ne,
  text_eq_iff r.id i,
  text_eq_iff r.id id,
  text_eq_iff i id,
)

module _ (ext : External) where
  open ext use {X, now, query, lk_delete_room}

  pub end_room_other :
      (i id : Text) (w : World X)
      → text_eq i id ≡ false
      → find (has_room_id id) (end_room ext i w).1.rooms ≡ find (has_room_id id) w.rooms
  unfolding end_room end_found get_room_by_id end_room_row
  end_room_other i id w ne = elim (Option-cases (find (has_room_id i) w.rooms)) [
    | inl e ↦ ground arith
    | inr (r, e) ↦
        let named : r.id ≡ i = text_eq→eq r.id i (find-holds (has_room_id i) w.rooms r e) in
        let apart : text_eq r.id id ≡ false = rw named ne in
        let kept = find_untouched r.id id (now (query w.outside).1).0 w.rooms apart in ground arith
  ]

  -- A room is spared by the loop if each listed room of its id is younger than the limit: whatever
  -- happens in the calls for the others, its row is found unchanged.
  pub close_rooms_spares :
      (id : Text) (t age : ℕ) (rooms : List Room) (counts : ℕ × ℕ) (w : World X)
      → all (λ r. not (has_room_id id r) || ltb t (r.created_at + age)) rooms ≡ true
      → find (has_room_id id) (close_rooms ext t age rooms counts w).1.rooms
        ≡ find (has_room_id id) w.rooms
  unfolding close_rooms
  close_rooms_spares id t age [] counts w h = refl
  close_rooms_spares id t age (r ∷ rooms) counts w h =
      let rest = and_right (not (has_room_id id r) || ltb t (r.created_at + age)) _ h in
      elim (Bool-cases (ltb t (r.created_at + age))) [
        | inl young ↦ rw (young, close_rooms) (close_rooms_spares id t age rooms counts w rest)
        | inr old ↦
            let apart : text_eq r.id id ≡ false = ground arith in
            rw (old, close_rooms)
              (close_rooms_spares id t age rooms (count (end_room ext r.id w).0 counts)
                  (end_room ext r.id w).1 rest
                ∙ end_room_other r.id id w apart)
      ]
