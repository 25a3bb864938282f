-- ===== src/RoomService/Closer.antt =====
-- A tick of the closer of stale rooms: what is left open, and what is counted.
use api_calixio.Prelude.{
  ℕ, ◌+◌, Bool, true, false, not, ◌||◌, ◌&&◌, List, [], ◌∷◌, some, ◌≡◌, refl, ap, ap₂, ◌∙◌, arith,
  find, all, any, filter, ltb, Bool-cases, inl, inr, if◌then◌else◌,
}
use api_calixio.Text.{Text}
use api_calixio.Text.Laws.{text_eq_refl, text_eq_sym}
use api_calixio.Integer.{ℤ}
use api_calixio.Records.{Room, is_room_active}
use api_calixio.External.{External}
use api_calixio.Exec.{World, Reply, got, failed, ok}
use api_calixio.Repository.Sql.{update_where}
use api_calixio.Repository.Rows.{IsPairwise, all-weaken}
use api_calixio.Repository.Rooms.{
  has_room_id, is_open, ended, oldest_first, sort_rooms, list_active_rooms, get_room_by_id,
  end_room_row,
}
use api_calixio.RoomService.{
  min_age, count, end_found, end_room, close_rooms, end_stale_active_rooms,
}
use api_calixio.RoomService.Stale.{end_room_other}
use api_calixio.RoomService.Sweep.{
  is_stale, number, Listed, number-sort, number-filter, list-Listed, Listed-keep, any-sort,
}

found_open :
    (r : Room) (ws : List Room)
    → find (has_room_id r.id) ws ≡ some r
    → is_room_active r.status ≡ true
    → any (is_open r.id) ws ≡ true
found_open r [] h k = cc
found_open r (x ∷ ws) h k = elim (Bool-cases (has_room_id r.id x)) [
  | inl e ↦
      let same : x ≡ r = ground arith in
      let active : is_room_active x.status ≡ true = ap (λ y. is_room_active y.status) same ∙ k in
      ground arith
  | inr e ↦ let rest = found_open r ws (rw e at h) k in ground arith
]

-- A stale row whose id is among the listed rooms that are old enough.
abbrev is_due : ℕ → ℕ → List Room → Room → Bool
is_due t age rs x = any (λ r. has_room_id x.id r && not (ltb t (r.created_at + age))) rs

abbrev covered : ℕ → ℕ → List Room → Room → Bool
covered t age rs x = not (is_stale t age x) || is_due t age rs x

covered-end :
    (t age u : ℕ) (r : Room) (rs ws : List Room)
    → all (covered t age (r ∷ rs)) ws ≡ true
    → all (covered t age rs) (update_where (is_open r.id) (ended u) ws) ≡ true
covered-end t age u r rs [] h = refl
covered-end t age u r rs (x ∷ ws) h =
    let rest = covered-end t age u r rs ws in let swap = text_eq_sym r.id x.id in ground arith

covered-none :
    (t age : ℕ) (ws : List Room)
    → all (covered t age []) ws ≡ true
    → any (is_stale t age) ws ≡ false
covered-none t age [] h = refl
covered-none t age (x ∷ ws) h = ground (arith, covered-none t age ws)

covered-active :
    (t age : ℕ) (ws : List Room)
    → all (covered t age (filter (λ r. is_room_active r.status) ws)) ws ≡ true
covered-active t age [] = refl
covered-active t age (x ∷ ws) =
    let more =
      all-weaken (covered t age (filter (λ r. is_room_active r.status) ws))
        (covered t age (filter (λ r. is_room_active r.status) (x ∷ ws))) ws (λ y h. ground arith)
        (covered-active t age ws) in
    let same = text_eq_refl x.id in ground arith

covered-sort :
    (t age : ℕ) (rs ws : List Room)
    → all (covered t age rs) ws ≡ true
    → all (covered t age (sort_rooms oldest_first rs)) ws ≡ true
covered-sort t age rs ws h =
    all-weaken (covered t age rs) (covered t age (sort_rooms oldest_first rs)) ws
      (λ x k.
        let same =
          any-sort oldest_first (λ r. has_room_id x.id r && not (ltb t (r.created_at + age))) rs in
        ground arith)
      h

from_zero : {x y : ℕ} → x ≡ y → 0 + x ≡ y
from_zero e = omega arith

abbrev pub is_got : {A : Type 0} → Reply A → Bool
is_got (got a) = true
is_got (failed n) = false

module _ (ext : External) where
  open ext use {X, now, query, lk_delete_room}

  module _ (answers : Text → Bool) (up : (x : X) → (query x).0 ≡ got tt)
      (live_kit : (name : Text) (x : X) → is_got (lk_delete_room name x).0 ≡ answers name) where
    end_room-answer :
        (r : Room) (c f : ℕ) (w : World X)
        → find (has_room_id r.id) w.rooms ≡ some r
        → is_room_active r.status ≡ true
        → count (end_room ext r.id w).0 (c, f) ≡ (if answers r.name then (c + 1, f) else (c, f + 1))
    unfolding end_room end_found get_room_by_id end_room_row
    end_room-answer r c f w found active =
        let x = (now (query w.outside).1).1 in
        let first = up w.outside in
        let second = up x in
        let third = live_kit r.name (query x).1 in
        let opened = found_open r w.rooms found active in ground arith

    end_room-rows :
        (r : Room) (w : World X)
        → find (has_room_id r.id) w.rooms ≡ some r
        → is_room_active r.status ≡ true
        → (u : ℕ) × ((end_room ext r.id w).1.rooms ≡ update_where (is_open r.id) (ended u) w.rooms)
    unfolding end_room end_found get_room_by_id end_room_row
    end_room-rows r w found active =
        let u = (now (query w.outside).1).0 in
        let first = up w.outside in
        let second = up (now (query w.outside).1).1 in
        let opened = found_open r w.rooms found active in (u, ground arith)

    loop :
        (t age : ℕ) (rs : List Room) (c f : ℕ) (w : World X)
        → Listed w.rooms rs
        → all (covered t age rs) w.rooms ≡ true
        → ((close_rooms ext t age rs (c, f) w).0
            ≡ ok (
              c + number (λ r. is_stale t age r && answers r.name) rs,
              f + number (λ r. is_stale t age r && not (answers r.name)) rs,
            ))
          × (any (is_stale t age) (close_rooms ext t age rs (c, f) w).1.rooms ≡ false)
    unfolding close_rooms
    loop t age [] c f w l h = (ground arith, covered-none t age w.rooms h)
    loop t age (r ∷ rs) c f w (found, active, fresh, l) h =
        elim (Bool-cases (ltb t (r.created_at + age))) [
          | inl young ↦
              let skip : all (covered t age rs) w.rooms ≡ true =
                all-weaken (covered t age (r ∷ rs)) (covered t age rs) w.rooms (λ x k. ground arith)
                  h in
              let (counts, left) = loop t age rs c f w l skip in
              rw (young, close_rooms) (ground arith, left)
          | inr old ↦
              let good : Room → Bool = λ x. is_stale t age x && answers x.name in
              let bad : Room → Bool = λ x. is_stale t age x && not (answers x.name) in
              let n = count (end_room ext r.id w).0 (c, f) in
              let v = (end_room ext r.id w).1 in
              let counted = end_room-answer r c f w found active in
              let (u, rows) = end_room-rows r w found active in
              let listed =
                Listed-keep r.id w.rooms v.rooms rs (λ id apart. end_room_other ext r.id id w apart)
                  fresh l in
              let cover : all (covered t age rs) v.rooms ≡ true =
                ap (all (covered t age rs)) rows ∙ covered-end t age u r rs w.rooms h in
              let (counts, left) = loop t age rs n.0 n.1 v listed cover in
              let closed : n.0 + number good rs ≡ c + number good (r ∷ rs) = ground arith in
              let broken : n.1 + number bad rs ≡ f + number bad (r ∷ rs) = ground arith in
              let next : close_rooms ext t age (r ∷ rs) (c, f) w ≡ close_rooms ext t age rs n v =
                rw (old, close_rooms) refl in
              (
                ap (λ p. p.0) next ∙ counts ∙ ap₂ (λ x y. ok (x, y)) closed broken,
                ap (λ p. any (is_stale t age) p.1.rooms) next ∙ left,
              )
        ]

    -- A tick of the closer, at the time `t`, where the database answers, LiveKit answers for the rooms
    -- whose names pass `answers` and fails for the others, and the ids of the rooms differ: no active
    -- room of the minimal age is left, the first count is the number of those for which LiveKit
    -- answers, and the second one the number of those for which it fails.
    pub end_stale_closes :
        (age : ℤ) (w : World X) (t : ℕ)
        → IsPairwise (λ r. has_room_id r.id) w.rooms
        → (now (query w.outside).1).0 ≡ t
        → ((end_stale_active_rooms ext age w).0
            ≡ ok (
              number (λ r. is_stale t (min_age age) r && answers r.name) w.rooms,
              number (λ r. is_stale t (min_age age) r && not (answers r.name)) w.rooms,
            ))
          × (any (is_stale t (min_age age)) (end_stale_active_rooms ext age w).1.rooms ≡ false)
    unfolding end_stale_active_rooms list_active_rooms
    end_stale_closes age w t apart clock =
        let a = min_age age in
        let w2 : World X = record w { outside = (now (query w.outside).1).1 } in
        let active : Room → Bool = λ r. is_room_active r.status in
        let listed = list-Listed w.rooms oldest_first apart in
        let cover = covered-sort t a (filter active w.rooms) w.rooms (covered-active t a w.rooms) in
        let (counts, left) =
          loop t a (sort_rooms oldest_first (filter active w.rooms)) 0 0 w2 listed cover in
        let answered = up w.outside in
        let here : (q : Bool → Bool)
            → number (λ r. is_stale t a r && q (answers r.name))
                (sort_rooms oldest_first (filter active w.rooms))
              ≡ number (λ r. is_stale t a r && q (answers r.name)) w.rooms =
          λ q.
            number-sort oldest_first _ (filter active w.rooms)
            ∙ number-filter (λ r. is_stale t a r && q (answers r.name)) active w.rooms
                (λ r h. ground arith) in
        rw (answered, clock, end_stale_active_rooms, list_active_rooms)
          (counts ∙ ap₂ (λ x y. ok (x, y)) (from_zero (here (λ b. b))) (from_zero (here not)), left)
