-- ===== src/System/Lasting.antt =====
-- What no statement undoes: the deletion of a media item, and the revocation of a session.
use api_calixio.Prelude.{
  Bool, true, false, not, List, [], ◌∷◌, ◌&&◌, ◌≡◌, refl, sym, subst, arith, any, ◌∙◌, ℕ,
}
use api_calixio.Text.{Text, text_eq}
use api_calixio.Text.Laws.{text_eq_iff}
use api_calixio.Records.{Session, Media}
use api_calixio.Repository.Sql.{update_where}
use api_calixio.Repository.Rows.{any-grows, any-update, any-snoc}
use api_calixio.Repository.Sessions.{is_live, rotated}
use api_calixio.Repository.MediaRows.{is_kept, media_conflicts}
use api_calixio.Access.Revocation.{is_revoked}
use api_calixio.System.Changes.{
  Tables, Change, MediaUpdate, write, upload_stated, status_set, transcoded, deleted, user_added,
  session_added, session_rotated, room_added, room_closed, room_linked, media_added, media_changed,
}
use api_calixio.System.Constraints.{write-id}

-- Only sessions that are not revoked are rotated.
is_revoked-rotated :
    (jti id new hash : Text) (issued expires : ℕ) (ss : List Session)
    → is_revoked jti ss ≡ true
    → is_revoked jti (update_where (is_live id) (rotated new hash issued expires) ss) ≡ true
is_revoked-rotated jti id new hash issued expires [] h = h
is_revoked-rotated jti id new hash issued expires (s ∷ ss) h =
    ground (arith, is_revoked-rotated jti id new hash issued expires ss)

abbrev OnSessions : (List Session → Bool) → Tables → Type 0
OnSessions p s = p s.sessions ≡ true

pub Change-is_revoked :
    (jti : Text) (s t : Tables)
    → Change s t
    → is_revoked jti s.sessions ≡ true
    → is_revoked jti t.sessions ≡ true
Change-is_revoked jti s t (session_added session fresh known e) h =
    subst (OnSessions (is_revoked jti)) (sym e) (any-grows _ s.sessions session h)
Change-is_revoked jti s t (session_rotated i new hash issued expires fresh e) h =
    subst (OnSessions (is_revoked jti)) (sym e)
      (is_revoked-rotated jti i new hash issued expires s.sessions h)
Change-is_revoked jti s t (user_added user fresh e) h =
    subst (OnSessions (is_revoked jti)) (sym e) h
Change-is_revoked jti s t (room_added room fresh known linked e) h =
    subst (OnSessions (is_revoked jti)) (sym e) h
Change-is_revoked jti s t (room_closed i at e) h = subst (OnSessions (is_revoked jti)) (sym e) h
Change-is_revoked jti s t (room_linked i media_id linked e) h =
    subst (OnSessions (is_revoked jti)) (sym e) h
Change-is_revoked jti s t (media_added item fresh known e) h =
    subst (OnSessions (is_revoked jti)) (sym e) h
Change-is_revoked jti s t (media_changed i u e) h = subst (OnSessions (is_revoked jti)) (sym e) h

-- There is a media item with this id, deleted or not.
abbrev pub has_media : Text → List Media → Bool
has_media id ms = any (λ (m : Media). text_eq m.id id) ms

-- There is one, and all of that id are deleted.
abbrev pub is_gone : Text → List Media → Bool
is_gone id ms = has_media id ms && not (any (is_kept id) ms)

-- An INSERT that goes through has another id.
fresh_id :
    (id : Text) (item : Media) (ms : List Media)
    → has_media id ms ≡ true
    → any (media_conflicts item) ms ≡ false
    → text_eq item.id id ≡ false
fresh_id id item [] h k = ground arith
fresh_id id item (m ∷ ms) h k = ground (
  arith,
  fresh_id id item ms,
  text_eq_iff item.id id,
  text_eq_iff m.id id,
  text_eq_iff m.id item.id,
)

-- No UPDATE keeps a row that is deleted.
write-is_kept :
    (id : Text) (u : MediaUpdate) (m : Media)
    → is_kept id m ≡ false
    → is_kept id (write u m) ≡ false
write-is_kept id (upload_stated status size mime) m h = h
write-is_kept id (status_set status) m h = h
write-is_kept id (transcoded url preview duration status) m h = h
write-is_kept id (deleted t) m h = ground arith

write_all-is_kept :
    (id i : Text) (u : MediaUpdate) (ms : List Media)
    → any (is_kept id) ms ≡ false
    → any (is_kept id) (update_where (is_kept i) (write u) ms) ≡ false
write_all-is_kept id i u [] h = h
write_all-is_kept id i u (m ∷ ms) h =
    let rest = write_all-is_kept id i u ms in let here = write-is_kept id u m in ground arith

abbrev OnMedia : (List Media → Bool) → Tables → Type 0
OnMedia p s = p s.media ≡ true

has_media-written :
    (id i : Text) (u : MediaUpdate) (ms : List Media)
    → has_media id (update_where (is_kept i) (write u) ms) ≡ has_media id ms
has_media-written id i u ms =
    any-update (is_kept i) (λ (m : Media). text_eq m.id id) (write u) ms
      (λ m. rw (write-id u m) refl)

pub Change-has_media :
    (id : Text) (s t : Tables)
    → Change s t
    → has_media id s.media ≡ true
    → has_media id t.media ≡ true
Change-has_media id s t (media_added item fresh known e) h =
    subst (OnMedia (has_media id)) (sym e) (any-grows _ s.media item h)
Change-has_media id s t (media_changed i u e) h =
    subst (OnMedia (has_media id)) (sym e) (has_media-written id i u s.media ∙ h)
Change-has_media id s t (user_added user fresh e) h = subst (OnMedia (has_media id)) (sym e) h
Change-has_media id s t (session_added session fresh known e) h =
    subst (OnMedia (has_media id)) (sym e) h
Change-has_media id s t (session_rotated i jti hash issued expires fresh e) h =
    subst (OnMedia (has_media id)) (sym e) h
Change-has_media id s t (room_added room fresh known linked e) h =
    subst (OnMedia (has_media id)) (sym e) h
Change-has_media id s t (room_closed i at e) h = subst (OnMedia (has_media id)) (sym e) h
Change-has_media id s t (room_linked i media_id linked e) h =
    subst (OnMedia (has_media id)) (sym e) h

pub Change-is_gone :
    (id : Text) (s t : Tables) → Change s t → is_gone id s.media ≡ true → is_gone id t.media ≡ true
Change-is_gone id s t (media_added item fresh known e) h =
    let other = fresh_id id item s.media in
    let there = any-grows (λ (m : Media). text_eq m.id id) s.media item in
    let kept = any-snoc (is_kept id) s.media item in
    subst (OnMedia (is_gone id)) (sym e) (ground arith)
Change-is_gone id s t (media_changed i u e) h =
    let there = has_media-written id i u s.media in
    let kept = write_all-is_kept id i u s.media in
    subst (OnMedia (is_gone id)) (sym e) (ground arith)
Change-is_gone id s t (user_added user fresh e) h = subst (OnMedia (is_gone id)) (sym e) h
Change-is_gone id s t (session_added session fresh known e) h =
    subst (OnMedia (is_gone id)) (sym e) h
Change-is_gone id s t (session_rotated i jti hash issued expires fresh e) h =
    subst (OnMedia (is_gone id)) (sym e) h
Change-is_gone id s t (room_added room fresh known linked e) h =
    subst (OnMedia (is_gone id)) (sym e) h
Change-is_gone id s t (room_closed i at e) h = subst (OnMedia (is_gone id)) (sym e) h
Change-is_gone id s t (room_linked i media_id linked e) h = subst (OnMedia (is_gone id)) (sym e) h
