-- ===== src/System/Changes.antt =====
-- What the statements of internal/repository do to the tables that migrations/ declares: one
-- constructor for each statement that writes.
use api_calixio.Prelude.{ℕ, Bool, true, false, Option, List, [], ◌∷◌, ◌++◌, ◌≡◌, any, subst, sym}
use api_calixio.Text.{Text, text_eq}
use api_calixio.Integer.{ℤ}
use api_calixio.Records.{User, Session, Room, Media, MediaStatus}
use api_calixio.Exec.{Exec, World, Result, ok, err, settle, ◌>>=◌}
use api_calixio.Repository.Sql.{update_where}
use api_calixio.Repository.Users.{user_conflicts}
use api_calixio.Repository.Sessions.{session_conflicts, is_live, rotated, rotation_conflicts}
use api_calixio.Repository.Rooms.{media_exists, has_room_id, is_open, ended, with_media}
use api_calixio.Repository.MediaRows.{
  is_kept, media_conflicts, with_upload, with_status, with_transcode, with_deletion,
}

pub record Tables : Type 0 where
  pub users : List User
  pub sessions : List Session
  pub rooms : List Room
  pub media : List Media

abbrev pub tables : {X : Type 0} → World X → Tables
tables w = record { users = w.users; sessions = w.sessions; rooms = w.rooms; media = w.media }

-- What an UPDATE writes into the kept row of a media item.
pub data MediaUpdate : Type 0 where
  upload_stated : MediaStatus → ℤ → Text → MediaUpdate
  status_set : MediaStatus → MediaUpdate
  transcoded : Text → Option Text → Option ℤ → MediaStatus → MediaUpdate
  deleted : ℕ → MediaUpdate

abbrev pub write : MediaUpdate → Media → Media
write (upload_stated status size mime) m = with_upload status size mime m
write (status_set status) m = with_status status m
write (transcoded url preview duration status) m = with_transcode url preview duration status m
write (deleted t) m = with_deletion t m

-- The foreign keys to users.
abbrev pub has_user : Text → List User → Bool
has_user id us = any (λ (u : User). text_eq u.id id) us

-- One statement that went through.
pub data Change (s t : Tables) : Type 0 where
  user_added :
      (user : User)
      → any (user_conflicts user) s.users ≡ false
      → t ≡ record s { users = s.users ++ (user ∷ []) }
      → Change s t
  session_added :
      (session : Session)
      → any (session_conflicts session) s.sessions ≡ false
      → has_user session.user_id s.users ≡ true
      → t ≡ record s { sessions = s.sessions ++ (session ∷ []) }
      → Change s t
  session_rotated :
      (id jti hash : Text) (issued expires : ℕ)
      → any (rotation_conflicts id jti hash) s.sessions ≡ false
      → t ≡ record s {
        sessions = update_where (is_live id) (rotated jti hash issued expires) s.sessions;
      }
      → Change s t
  room_added :
      (room : Room)
      → any (has_room_id room.id) s.rooms ≡ false
      → has_user room.owner_user_id s.users ≡ true
      → media_exists room.media_id s.media ≡ true
      → t ≡ record s { rooms = s.rooms ++ (room ∷ []) }
      → Change s t
  room_closed :
      (id : Text) (at : ℕ)
      → t ≡ record s { rooms = update_where (is_open id) (ended at) s.rooms }
      → Change s t
  room_linked :
      (id : Text) (media_id : Option Text)
      → media_exists media_id s.media ≡ true
      → t ≡ record s { rooms = update_where (has_room_id id) (with_media media_id) s.rooms }
      → Change s t
  media_added :
      (item : Media)
      → any (media_conflicts item) s.media ≡ false
      → has_user item.owner_user_id s.users ≡ true
      → t ≡ record s { media = s.media ++ (item ∷ []) }
      → Change s t
  media_changed :
      (id : Text) (u : MediaUpdate)
      → t ≡ record s { media = update_where (is_kept id) (write u) s.media }
      → Change s t

-- Any number of statements.
pub data Trace (s : Tables) : Tables → Type 0 where
  none_yet : Trace s s
  more : {t u : Tables} → Trace s t → Change t u → Trace s u

pub same-Trace : (s t u : Tables) → u ≡ t → Trace s t → Trace s u
same-Trace s t u e h = subst (λ v. Trace s v) (sym e) h

-- What every statement keeps, a sequence of them keeps.
pub Trace-keeps :
    (P : Tables → Type 0) {s t : Tables}
    → ((u v : Tables) → Change u v → P u → P v)
    → Trace s t
    → P s
    → P t
Trace-keeps P k none_yet h = h
Trace-keeps P k (more {t} {u} r c) h = k t u c (Trace-keeps P k r h)

-- A method adds statements to those before it, whether it goes through or fails.
abbrev pub IsTraced : {X : Type 0} → {A : Type 0} → Exec X A → Type 0
IsTraced m = (s : Tables) (w : World _) → Trace s (tables w) → Trace s (tables (m w).1)

module _ {X : Type 0} where
  settle-Trace :
      {A B : Type 0} (s : Tables) (r : Result A) (f : A → Exec X B) (v : World X)
      → Trace s (tables v)
      → ((a : A) → IsTraced (f a))
      → Trace s (tables (settle r f v).1)
  settle-Trace s (ok a) f v h k = k a s v h
  settle-Trace s (err e) f v h k = h

  pub bind-IsTraced :
      {A B : Type 0} (m : Exec X A) (f : A → Exec X B)
      → IsTraced m
      → ((a : A) → IsTraced (f a))
      → IsTraced (m >>= f)
  bind-IsTraced m f h k s w t = settle-Trace s (m w).0 f (m w).1 (h s w t) k
