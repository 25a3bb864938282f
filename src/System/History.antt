-- ===== src/System/History.antt =====
-- What becomes of a row: no row is removed, and what identifies a row, its owner included, is never
-- written again.
use api_calixio.Prelude.{
  ℕ, ◌≤◌, Bool, true, none, List, [], ◌∷◌, ◌++◌, ◌≡◌, ◌⊎◌, inl, inr, refl, sym, subst, arith,
  Bool-cases,
}
use api_calixio.Text.{Text}
use api_calixio.Records.{User, Session, Room, Media, is_room_active}
use api_calixio.Repository.Sql.{update_where}
use api_calixio.Repository.Sessions.{is_live, rotated}
use api_calixio.Repository.Rooms.{has_room_id, is_open, ended, with_media}
use api_calixio.Repository.MediaRows.{is_kept}
use api_calixio.System.Changes.{
  Tables, Change, Trace, none_yet, more, MediaUpdate, write, upload_stated, status_set, transcoded,
  deleted, user_added, session_added, session_rotated, room_added, room_closed, room_linked,
  media_added, media_changed,
}

-- Each row is followed by its later self, in the same place; new rows come at the end.
pub data IsGrowth {A : Type 0} (R : A → A → Type 0) : List A → List A → Type 0 where
  start : (ys : List A) → IsGrowth R [] ys
  follow : {x y : A} {xs ys : List A} → R x y → IsGrowth R xs ys → IsGrowth R (x ∷ xs) (y ∷ ys)

module _ {A : Type 0} (R : A → A → Type 0) (same : (x : A) → R x x) where
  pub IsGrowth-refl : (xs : List A) → IsGrowth R xs xs
  IsGrowth-refl [] = start []
  IsGrowth-refl (x ∷ xs) = follow (same x) (IsGrowth-refl xs)

  pub IsGrowth-snoc : (xs : List A) (x : A) → IsGrowth R xs (xs ++ (x ∷ []))
  IsGrowth-snoc [] x = start (x ∷ [])
  IsGrowth-snoc (y ∷ xs) x = follow (same y) (IsGrowth-snoc xs x)

  pub IsGrowth-update :
      (p : A → Bool) (f : A → A) (xs : List A)
      → ((x : A) → p x ≡ true → R x (f x))
      → IsGrowth R xs (update_where p f xs)
  IsGrowth-update p f [] k = start []
  IsGrowth-update p f (x ∷ xs) k = elim (Bool-cases (p x)) [
    | inl e ↦ rw e (follow (k x e) (IsGrowth-update p f xs k))
    | inr e ↦ rw e (follow (same x) (IsGrowth-update p f xs k))
  ]

pub IsGrowth-trans :
    {A : Type 0} (R : A → A → Type 0) {xs ys zs : List A}
    → ((x y z : A) → R x y → R y z → R x z)
    → IsGrowth R xs ys
    → IsGrowth R ys zs
    → IsGrowth R xs zs
IsGrowth-trans R t (start ys) k = start _
IsGrowth-trans R t (follow r h) (follow q k) = follow (t _ _ _ r q) (IsGrowth-trans R t h k)

-- A user is never written again.
abbrev pub UserFollows : User → User → Type 0
UserFollows u v = v ≡ u

-- A session stays with its user, its version does not go back, and once revoked it stays as it is.
abbrev pub SessionFollows : Session → Session → Type 0
SessionFollows x y =
    (y.id ≡ x.id)
    × (y.user_id ≡ x.user_id)
    × (x.version ≤ y.version)
    × ((x.revoked_at ≡ none) ⊎ (y ≡ x))

-- A room stays with its owner, and once it is not active its status and its end stay as they are.
abbrev pub RoomFollows : Room → Room → Type 0
RoomFollows x y =
    (y.id ≡ x.id)
    × (y.name ≡ x.name)
    × (y.owner_user_id ≡ x.owner_user_id)
    × (y.created_at ≡ x.created_at)
    × ((is_room_active x.status ≡ true) ⊎ ((y.status ≡ x.status) × (y.ended_at ≡ x.ended_at)))

-- A media item stays with its owner and its object, and once deleted it stays as it is.
abbrev pub MediaFollows : Media → Media → Type 0
MediaFollows x y =
    (y.id ≡ x.id)
    × (y.owner_user_id ≡ x.owner_user_id)
    × (y.original_name ≡ x.original_name)
    × (y.storage_key ≡ x.storage_key)
    × (y.created_at ≡ x.created_at)
    × ((x.deleted_at ≡ none) ⊎ (y ≡ x))

abbrev pub IsHistory : Tables → Tables → Type 0
IsHistory s t =
    IsGrowth UserFollows s.users t.users
    × IsGrowth SessionFollows s.sessions t.sessions
    × IsGrowth RoomFollows s.rooms t.rooms
    × IsGrowth MediaFollows s.media t.media

session_same : (x : Session) → SessionFollows x x
session_same x = (refl, refl, omega arith, inr refl)

room_same : (x : Room) → RoomFollows x x
room_same x = (refl, refl, refl, refl, inr (refl, refl))

media_same : (x : Media) → MediaFollows x x
media_same x = (refl, refl, refl, refl, refl, inr refl)

user_trans : (x y z : User) → UserFollows x y → UserFollows y z → UserFollows x z
user_trans x y z h k = ground arith

session_trans : (x y z : Session) → SessionFollows x y → SessionFollows y z → SessionFollows x z
session_trans x y z h k = ground arith

room_trans : (x y z : Room) → RoomFollows x y → RoomFollows y z → RoomFollows x z
room_trans x y z h k = ground arith

media_trans : (x y z : Media) → MediaFollows x y → MediaFollows y z → MediaFollows x z
media_trans x y z h k = ground arith

rotated_follows :
    (id jti hash : Text) (issued expires : ℕ) (x : Session)
    → is_live id x ≡ true
    → SessionFollows x (rotated jti hash issued expires x)
rotated_follows id jti hash issued expires x h = (refl, refl, omega arith, inl (ground arith))

write_follows :
    (id : Text) (u : MediaUpdate) (x : Media) → is_kept id x ≡ true → MediaFollows x (write u x)
write_follows id (upload_stated status size mime) x h =
    (refl, refl, refl, refl, refl, inl (ground arith))
write_follows id (status_set status) x h = (refl, refl, refl, refl, refl, inl (ground arith))
write_follows id (transcoded url preview duration status) x h =
    (refl, refl, refl, refl, refl, inl (ground arith))
write_follows id (deleted t) x h = (refl, refl, refl, refl, refl, inl (ground arith))

module _ (s : Tables) where
  us : IsGrowth UserFollows s.users s.users
  us = IsGrowth-refl UserFollows (λ u. refl) s.users

  xs : IsGrowth SessionFollows s.sessions s.sessions
  xs = IsGrowth-refl SessionFollows session_same s.sessions

  rs : IsGrowth RoomFollows s.rooms s.rooms
  rs = IsGrowth-refl RoomFollows room_same s.rooms

  ms : IsGrowth MediaFollows s.media s.media
  ms = IsGrowth-refl MediaFollows media_same s.media

  Change-IsHistory : (t : Tables) → Change s t → IsHistory s t
  Change-IsHistory t (user_added user fresh e) =
      subst (IsHistory s) (sym e) (IsGrowth-snoc UserFollows (λ u. refl) s.users user, xs, rs, ms)
  Change-IsHistory t (session_added session fresh known e) =
      subst (IsHistory s) (sym e)
        (us, IsGrowth-snoc SessionFollows session_same s.sessions session, rs, ms)
  Change-IsHistory t (session_rotated id jti hash issued expires fresh e) =
      subst (IsHistory s) (sym e) (
        us,
        IsGrowth-update SessionFollows session_same (is_live id) (rotated jti hash issued expires)
            s.sessions (rotated_follows id jti hash issued expires),
        rs,
        ms,
      )
  Change-IsHistory t (room_added room fresh known linked e) =
      subst (IsHistory s) (sym e) (us, xs, IsGrowth-snoc RoomFollows room_same s.rooms room, ms)
  Change-IsHistory t (room_closed id at e) = subst (IsHistory s) (sym e) (
    us,
    xs,
    IsGrowth-update RoomFollows room_same (is_open id) (ended at) s.rooms
        (λ x h. (refl, refl, refl, refl, inl (ground arith))),
    ms,
  )
  Change-IsHistory t (room_linked id media_id linked e) = subst (IsHistory s) (sym e) (
    us,
    xs,
    IsGrowth-update RoomFollows room_same (has_room_id id) (with_media media_id) s.rooms
        (λ x h. (refl, refl, refl, refl, inr (refl, refl))),
    ms,
  )
  Change-IsHistory t (media_added item fresh known e) =
      subst (IsHistory s) (sym e) (us, xs, rs, IsGrowth-snoc MediaFollows media_same s.media item)
  Change-IsHistory t (media_changed id u e) = subst (IsHistory s) (sym e) (
    us,
    xs,
    rs,
    IsGrowth-update MediaFollows media_same (is_kept id) (write u) s.media (write_follows id u),
  )

IsHistory-trans : (s t u : Tables) → IsHistory s t → IsHistory t u → IsHistory s u
IsHistory-trans s t u h k = (
  IsGrowth-trans UserFollows user_trans h.0 k.0,
  IsGrowth-trans SessionFollows session_trans h.1 k.1,
  IsGrowth-trans RoomFollows room_trans h.2 k.2,
  IsGrowth-trans MediaFollows media_trans h.3 k.3,
)

pub Trace-IsHistory : {s t : Tables} → Trace s t → IsHistory s t
Trace-IsHistory {s} none_yet = (us s, xs s, rs s, ms s)
Trace-IsHistory {s} (more {t} {u} h c) =
    IsHistory-trans s t u (Trace-IsHistory h) (Change-IsHistory t u c)
