-- ===== src/System/Constraints.antt =====
-- The constraints that migrations/001_init.sql and 002_media_and_rooms_schema.sql declare: primary
-- keys, unique columns and foreign keys. Nothing deletes a row, so ON DELETE has no effect.
use api_calixio.Prelude.{
  Bool, true, Option, none, some, List, [], ◌∷◌, ◌++◌, ◌&&◌, ◌≡◌, refl, sym, subst, arith, all,
}
use api_calixio.Text.{Text, text_eq}
use api_calixio.Text.Laws.{text_eq_sym}
use api_calixio.Records.{User, Session, Room, Media}
use api_calixio.Repository.Sql.{update_where}
use api_calixio.Repository.Rows.{
  any-grows, any-update, all-snoc, all-update, all-weaken, IsPairwise, snoc-IsPairwise,
  update-IsPairwise,
}
use api_calixio.Repository.Users.{user_conflicts}
use api_calixio.Repository.Sessions.{is_live, rotated, session_conflicts}
use api_calixio.Repository.Sessions.Unique.{IsUnique, conflicts_sym, rotate_rows-IsUnique}
use api_calixio.Repository.Rooms.{has_room_id, is_open, ended, with_media, media_exists}
use api_calixio.Repository.MediaRows.{is_kept, media_conflicts}
use api_calixio.System.Changes.{
  Tables, Change, has_user, MediaUpdate, write, upload_stated, status_set, transcoded, deleted,
  user_added, session_added, session_rotated, room_added, room_closed, room_linked, media_added,
  media_changed,
}

-- `id` is the primary key.
abbrev pub room_conflicts : Room → Room → Bool
room_conflicts new r = has_room_id new.id r

-- The foreign keys of a room.
abbrev pub is_linked : List User → List Media → Room → Bool
is_linked us ms r = has_user r.owner_user_id us && media_exists r.media_id ms

abbrev pub IsConsistent : Tables → Type 0
IsConsistent s =
    IsPairwise user_conflicts s.users
    × IsUnique s.sessions
    × IsPairwise room_conflicts s.rooms
    × IsPairwise media_conflicts s.media
    × (all (λ (x : Session). has_user x.user_id s.users) s.sessions ≡ true)
    × (all (is_linked s.users s.media) s.rooms ≡ true)
    × (all (λ (m : Media). has_user m.owner_user_id s.users) s.media ≡ true)

pub rooms_apart : (s : Tables) → IsConsistent s → IsPairwise room_conflicts s.rooms
rooms_apart s (u, x, r, m, fx, fr, fm) = r

pub media_apart : (s : Tables) → IsConsistent s → IsPairwise media_conflicts s.media
media_apart s (u, x, r, m, fx, fr, fm) = m

user_conflicts_sym : (u v : User) → user_conflicts u v ≡ user_conflicts v u
user_conflicts_sym u v = rw (text_eq_sym v.id u.id, text_eq_sym v.email u.email) refl

room_conflicts_sym : (r s : Room) → room_conflicts r s ≡ room_conflicts s r
room_conflicts_sym r s = text_eq_sym s.id r.id

media_conflicts_sym : (m n : Media) → media_conflicts m n ≡ media_conflicts n m
media_conflicts_sym m n = rw (text_eq_sym n.id m.id, text_eq_sym n.storage_key m.storage_key) refl

more_users :
    (id : Text) (us : List User) (u : User)
    → has_user id us ≡ true
    → has_user id (us ++ (u ∷ [])) ≡ true
more_users id us u h = any-grows (λ (v : User). text_eq v.id id) us u h

more_media :
    (id : Option Text) (ms : List Media) (m : Media)
    → media_exists id ms ≡ true
    → media_exists id (ms ++ (m ∷ [])) ≡ true
more_media none ms m h = h
more_media (some id) ms m h = any-grows (λ (n : Media). text_eq n.id id) ms m h

-- An UPDATE of a media item leaves what the constraints speak of.
pub write-id : (u : MediaUpdate) (m : Media) → (write u m).id ≡ m.id
write-id (upload_stated status size mime) m = refl
write-id (status_set status) m = refl
write-id (transcoded url preview duration status) m = refl
write-id (deleted t) m = refl

write-key : (u : MediaUpdate) (m : Media) → (write u m).storage_key ≡ m.storage_key
write-key (upload_stated status size mime) m = refl
write-key (status_set status) m = refl
write-key (transcoded url preview duration status) m = refl
write-key (deleted t) m = refl

pub write-owner : (u : MediaUpdate) (m : Media) → (write u m).owner_user_id ≡ m.owner_user_id
write-owner (upload_stated status size mime) m = refl
write-owner (status_set status) m = refl
write-owner (transcoded url preview duration status) m = refl
write-owner (deleted t) m = refl

same_media :
    (id : Option Text) (p : Media → Bool) (u : MediaUpdate) (ms : List Media)
    → media_exists id (update_where p (write u) ms) ≡ media_exists id ms
same_media none p u ms = refl
same_media (some id) p u ms =
    any-update p (λ (n : Media). text_eq n.id id) (write u) ms (λ m. rw (write-id u m) refl)

pub Change-IsConsistent : (s t : Tables) → Change s t → IsConsistent s → IsConsistent t
Change-IsConsistent s t (user_added user fresh e) (u, x, r, m, fx, fr, fm) =
    subst IsConsistent (sym e) (
      snoc-IsPairwise user_conflicts s.users user user_conflicts_sym fresh u,
      x,
      r,
      m,
      all-weaken _ _ s.sessions (λ y. more_users y.user_id s.users user) fx,
      all-weaken _ _ s.rooms
          (λ y h. let owner = more_users y.owner_user_id s.users user in ground arith) fr,
      all-weaken _ _ s.media (λ y. more_users y.owner_user_id s.users user) fm,
    )
Change-IsConsistent s t (session_added session fresh known e) (u, x, r, m, fx, fr, fm) =
    subst IsConsistent (sym e) (
      u,
      snoc-IsPairwise session_conflicts s.sessions session conflicts_sym fresh x,
      r,
      m,
      all-snoc _ s.sessions session fx known,
      fr,
      fm,
    )
Change-IsConsistent s t (session_rotated id jti hash issued expires fresh e)
      (u, x, r, m, fx, fr, fm) =
    subst IsConsistent (sym e) (
      u,
      rotate_rows-IsUnique id jti hash issued expires s.sessions fresh x,
      r,
      m,
      all-update (is_live id) _ (rotated jti hash issued expires) s.sessions (λ y h. h) fx,
      fr,
      fm,
    )
Change-IsConsistent s t (room_added room fresh known linked e) (u, x, r, m, fx, fr, fm) =
    subst IsConsistent (sym e) (
      u,
      x,
      snoc-IsPairwise room_conflicts s.rooms room room_conflicts_sym fresh r,
      m,
      fx,
      all-snoc _ s.rooms room fr (rw (known, linked) refl),
      fm,
    )
Change-IsConsistent s t (room_closed id at e) (u, x, r, m, fx, fr, fm) =
    subst IsConsistent (sym e) (
      u,
      x,
      update-IsPairwise room_conflicts (is_open id) (ended at) s.rooms (λ a b. refl) (λ a b. refl)
          r,
      m,
      fx,
      all-update (is_open id) _ (ended at) s.rooms (λ y h. h) fr,
      fm,
    )
Change-IsConsistent s t (room_linked id media_id linked e) (u, x, r, m, fx, fr, fm) =
    subst IsConsistent (sym e) (
      u,
      x,
      update-IsPairwise room_conflicts (has_room_id id) (with_media media_id) s.rooms (λ a b. refl)
          (λ a b. refl) r,
      m,
      fx,
      all-update (has_room_id id) _ (with_media media_id) s.rooms (λ y h. ground arith) fr,
      fm,
    )
Change-IsConsistent s t (media_added item fresh known e) (u, x, r, m, fx, fr, fm) =
    subst IsConsistent (sym e) (
      u,
      x,
      r,
      snoc-IsPairwise media_conflicts s.media item media_conflicts_sym fresh m,
      fx,
      all-weaken _ _ s.rooms (λ y h. let kept = more_media y.media_id s.media item in ground arith)
          fr,
      all-snoc _ s.media item fm known,
    )
Change-IsConsistent s t (media_changed id w e) (u, x, r, m, fx, fr, fm) =
    subst IsConsistent (sym e) (
      u,
      x,
      r,
      update-IsPairwise media_conflicts (is_kept id) (write w) s.media
          (λ a b. rw (write-id w a, write-key w a) refl)
          (λ a b. rw (write-id w b, write-key w b) refl) m,
      fx,
      all-weaken _ _ s.rooms
          (λ y h. let kept = same_media y.media_id (is_kept id) w s.media in ground arith) fr,
      all-update (is_kept id) _ (write w) s.media (λ y h. rw (write-owner w y) h) fm,
    )
