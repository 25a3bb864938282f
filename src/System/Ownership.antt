-- ===== src/System/Ownership.antt =====
-- The owners of the rows: those of the caller, and those of everybody else.
pub mod Handlers
pub mod Items
pub mod Methods
pub mod Open
pub mod Strangers
use api_calixio.Prelude.{
  Bool, true, false, not, some, List, [], ◌∷◌, ◌++◌, ◌||◌, ◌&&◌, ◌≡◌, refl, ap, ◌∙◌, sym, arith,
  any, all, find, filter, Bool-cases, inl, inr, subst,
}
use api_calixio.Text.{Text, text_eq}
use api_calixio.Text.Laws.{text_eq_iff}
use api_calixio.Records.{Room, Media}
use api_calixio.Exec.{Exec, World}
use api_calixio.Repository.Sql.{update_where}
use api_calixio.Repository.Rows.{IsPairwise}
use api_calixio.Repository.Rooms.{has_room_id}
use api_calixio.Repository.MediaRows.{is_kept, media_conflicts}
use api_calixio.System.Constraints.{room_conflicts}

module _ {A : Type 0} where
  abbrev pub none_but : (A → Bool) → (A → Bool) → List A → Bool
  none_but p q xs = all (λ x. not (p x) || q x) xs

  -- An UPDATE of the caller's rows leaves the others.
  pub filter-update :
      (p q : A → Bool) (f : A → A) (xs : List A)
      → ((x : A) → q (f x) ≡ q x)
      → none_but p q xs ≡ true
      → filter (λ x. not (q x)) (update_where p f xs) ≡ filter (λ x. not (q x)) xs
  filter-update p q f [] keep h = refl
  filter-update p q f (x ∷ xs) keep h =
      let rest = filter-update p q f xs keep in let here = keep x in ground arith

  pub filter-snoc :
      (q : A → Bool) (xs : List A) (x : A)
      → q x ≡ true
      → filter (λ y. not (q y)) (xs ++ (x ∷ [])) ≡ filter (λ y. not (q y)) xs
  filter-snoc q [] x h = ground arith
  filter-snoc q (y ∷ xs) x h = ground (arith, filter-snoc q xs x)

  none_left :
      (c : A → A → Bool) (p q : A → Bool) (x : A) (xs : List A)
      → ((y z : A) → p y ≡ true → p z ≡ true → c y z ≡ true)
      → p x ≡ true
      → any (c x) xs ≡ false
      → none_but p q xs ≡ true
  none_left c p q x [] clash h k = refl
  none_left c p q x (y ∷ xs) clash h k =
      let rest = none_left c p q x xs clash h in let here = clash x y h in ground arith

  -- Of rows that are pairwise apart, the one that is found is the only one.
  pub found-none_but :
      (c : A → A → Bool) (p q : A → Bool) (x : A) (xs : List A)
      → ((y z : A) → p y ≡ true → p z ≡ true → c y z ≡ true)
      → IsPairwise c xs
      → find p xs ≡ some x
      → q x ≡ true
      → none_but p q xs ≡ true
  found-none_but c p q x [] clash u h k = refl
  found-none_but c p q x (y ∷ xs) clash (fresh, u) h k = elim (Bool-cases (p y)) [
    | inl e ↦
        let same : y ≡ x = ground arith in
        let mine : q y ≡ true = ap q same ∙ k in
        let rest = none_left c p q y xs clash e fresh in ground arith
    | inr e ↦ let rest = found-none_but c p q x xs clash u (rw e at h) k in ground arith
  ]

abbrev pub owns_room : Text → Room → Bool
owns_room user r = text_eq r.owner_user_id user

abbrev pub owns_media : Text → Media → Bool
owns_media user m = text_eq m.owner_user_id user

-- The rooms and the media items of everybody else.
abbrev pub others : {X : Type 0} → Text → World X → List Room × List Media
others user w =
    (filter (λ r. not (owns_room user r)) w.rooms, filter (λ m. not (owns_media user m)) w.media)

-- A method of a caller leaves everybody else's rows alone, whether it goes through or fails.
abbrev pub Spares : {X : Type 0} → {A : Type 0} → Text → Exec X A → Type 0
Spares user m = (w : World _) → others user (m w).1 ≡ others user w

same_room :
    (id : Text) (r s : Room)
    → has_room_id id r ≡ true
    → has_room_id id s ≡ true
    → room_conflicts r s ≡ true
same_room id r s h k = grind (arith, text_eq_iff)

same_media :
    (id : Text) (m n : Media)
    → is_kept id m ≡ true
    → is_kept id n ≡ true
    → media_conflicts m n ≡ true
same_media id m n h k =
    let a = text_eq_iff m.id id in
    let b = text_eq_iff n.id id in let c = text_eq_iff n.id m.id in ground arith

-- The caller owns every room of an id that is found to be the caller's.
pub room_of_caller :
    (id user : Text) (room : Room) (rs : List Room)
    → IsPairwise room_conflicts rs
    → find (has_room_id id) rs ≡ some room
    → owns_room user room ≡ true
    → none_but (has_room_id id) (owns_room user) rs ≡ true
room_of_caller id user room rs u h k =
    found-none_but room_conflicts (has_room_id id) (owns_room user) room rs (same_room id) u h k

pub media_of_caller :
    (id user : Text) (item : Media) (ms : List Media)
    → IsPairwise media_conflicts ms
    → find (is_kept id) ms ≡ some item
    → owns_media user item ≡ true
    → none_but (is_kept id) (owns_media user) ms ≡ true
media_of_caller id user item ms u h k =
    found-none_but media_conflicts (is_kept id) (owns_media user) item ms (same_media id) u h k
