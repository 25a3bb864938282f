-- ===== src/RoomService/Sweep.antt =====
-- The rooms that the closer of stale rooms has to close, and the list that it works through.
use api_calixio.Prelude.{
  ℕ, ◌+◌, Bool, true, false, not, ◌||◌, ◌&&◌, List, [], ◌∷◌, some, ◌≡◌, refl, ap, ◌∙◌, arith, find,
  any, filter, length, ltb, Bool-cases, inl, inr,
}
use api_calixio.Text.{Text, text_eq}
use api_calixio.Text.Laws.{text_eq_refl, text_eq_sym}
use api_calixio.Records.{Room, is_room_active}
use api_calixio.Repository.Rows.{IsPairwise}
use api_calixio.Repository.Rooms.{has_room_id, insert_room, sort_rooms}

-- Active, and not created less than `age` before `t`.
abbrev pub is_stale : ℕ → ℕ → Room → Bool
is_stale t age r = is_room_active r.status && not (ltb t (r.created_at + age))

abbrev pub number : (Room → Bool) → List Room → ℕ
number p rs = length (filter p rs)

-- Rooms with different ids, each of them active and the row that its id finds.
abbrev pub Listed : List Room → List Room → Type 0
Listed ws [] = Unit
Listed ws (r ∷ rs) =
    (find (has_room_id r.id) ws ≡ some r)
    × (is_room_active r.status ≡ true)
    × (any (has_room_id r.id) rs ≡ false)
    × Listed ws rs

any-insert :
    (first : Room → Room → Bool) (p : Room → Bool) (r : Room) (rs : List Room)
    → any p (insert_room first r rs) ≡ (p r || any p rs)
unfolding insert_room
any-insert first p r [] = refl
any-insert first p r (s ∷ rs) = let rest = any-insert first p r rs in ground arith

pub any-sort :
    (first : Room → Room → Bool) (p : Room → Bool) (rs : List Room)
    → any p (sort_rooms first rs) ≡ any p rs
unfolding sort_rooms
any-sort first p [] = refl
any-sort first p (r ∷ rs) =
    any-insert first p r (sort_rooms first rs) ∙ ap (λ b. p r || b) (any-sort first p rs)

number-insert :
    (first : Room → Room → Bool) (p : Room → Bool) (r : Room) (rs : List Room)
    → number p (insert_room first r rs) ≡ number p (r ∷ rs)
unfolding insert_room
number-insert first p r [] = refl
number-insert first p r (s ∷ rs) = let rest = number-insert first p r rs in ground arith

pub number-sort :
    (first : Room → Room → Bool) (p : Room → Bool) (rs : List Room)
    → number p (sort_rooms first rs) ≡ number p rs
unfolding sort_rooms
number-sort first p [] = refl
number-sort first p (r ∷ rs) =
    let rest = number-sort first p rs in
    let here = number-insert first p r (sort_rooms first rs) in ground arith

pub number-filter :
    (p q : Room → Bool) (rs : List Room)
    → ((r : Room) → p r ≡ true → q r ≡ true)
    → number p (filter q rs) ≡ number p rs
number-filter p q [] h = refl
number-filter p q (r ∷ rs) h = let rest = number-filter p q rs h in let here = h r in ground arith

Listed-insert :
    (ws : List Room) (first : Room → Room → Bool) (r : Room) (rs : List Room)
    → find (has_room_id r.id) ws ≡ some r
    → is_room_active r.status ≡ true
    → any (has_room_id r.id) rs ≡ false
    → Listed ws rs
    → Listed ws (insert_room first r rs)
unfolding insert_room
Listed-insert ws first r [] found active fresh l = (found, active, refl, tt)
Listed-insert ws first r (s ∷ rs) found active fresh (f, a, n, l) = elim (Bool-cases (first r s)) [
  | inl e ↦ rw (e, insert_room) (found, active, fresh, (f, a, n, l))
  | inr e ↦
      let rest = Listed-insert ws first r rs found active (ground arith) l in
      let here = any-insert first (has_room_id s.id) r rs in
      let swap = text_eq_sym r.id s.id in
      let none_else : any (has_room_id s.id) (insert_room first r rs) ≡ false = ground arith in
      rw (e, insert_room) (f, a, none_else, rest)
]

Listed-sort :
    (ws : List Room) (first : Room → Room → Bool) (rs : List Room)
    → Listed ws rs
    → Listed ws (sort_rooms first rs)
unfolding sort_rooms
Listed-sort ws first [] l = l
Listed-sort ws first (r ∷ rs) (f, a, n, l) =
    Listed-insert ws first r (sort_rooms first rs) f a (any-sort first (has_room_id r.id) rs ∙ n)
      (Listed-sort ws first rs l)

Listed-grow :
    (x : Room) (ws rs : List Room)
    → any (has_room_id x.id) rs ≡ false
    → Listed ws rs
    → Listed (x ∷ ws) rs
Listed-grow x ws [] h l = l
Listed-grow x ws (r ∷ rs) h (f, a, n, l) =
    let swap = text_eq_sym r.id x.id in (ground arith, a, n, Listed-grow x ws rs (ground arith) l)

any-filter : (p q : Room → Bool) (rs : List Room) → any p rs ≡ false → any p (filter q rs) ≡ false
any-filter p q [] h = h
any-filter p q (r ∷ rs) h = ground (arith, any-filter p q rs)

abbrev is_active : Room → Bool
is_active r = is_room_active r.status

Listed-filter :
    (ws : List Room) → IsPairwise (λ r. has_room_id r.id) ws → Listed ws (filter is_active ws)
Listed-filter [] u = tt
Listed-filter (r ∷ ws) (fresh, u) =
    let apart = any-filter (has_room_id r.id) is_active ws fresh in
    let rest = Listed-grow r ws (filter is_active ws) apart (Listed-filter ws u) in
    let here = text_eq_refl r.id in
    elim (Bool-cases (is_active r)) [
      | inl active ↦ rw active (ground arith, active, apart, rest)
      | inr over ↦ rw over rest
    ]

-- What `ListActiveRooms` lists.
pub list-Listed :
    (ws : List Room) (first : Room → Room → Bool)
    → IsPairwise (λ r. has_room_id r.id) ws
    → Listed ws (sort_rooms first (filter is_active ws))
list-Listed ws first u = Listed-sort ws first (filter is_active ws) (Listed-filter ws u)

-- Ending a room leaves the list of the others as it was.
pub Listed-keep :
    (i : Text) (ws vs rs : List Room)
    → ((id : Text) → text_eq i id ≡ false → find (has_room_id id) vs ≡ find (has_room_id id) ws)
    → any (has_room_id i) rs ≡ false
    → Listed ws rs
    → Listed vs rs
Listed-keep i ws vs [] same h l = l
Listed-keep i ws vs (r ∷ rs) same h (f, a, n, l) =
    let swap = text_eq_sym r.id i in
    let here : text_eq i r.id ≡ false = ground arith in
    (same r.id here ∙ f, a, n, Listed-keep i ws vs rs same (ground arith) l)
