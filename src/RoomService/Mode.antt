-- ===== src/RoomService/Mode.antt =====
-- Switching a room between a conference and a movie.
use api_calixio.Prelude.{
  true, Option, none, some, List, ◌≡◌, ◌⊎◌, refl, subst, ap, ◌∙◌, arith, find, Bool-cases, inl, inr,
  find-holds,
}
use api_calixio.Text.{Text, text_eq, is_empty}
use api_calixio.Text.Laws.{text_eq→eq}
use api_calixio.Records.{Room, Media, is_room_active, is_media_ready}
use api_calixio.External.{External}
use api_calixio.Exec.{
  World, invalid_upload_input, ok, err, >>=-eq-ok, unless-raise-ok, if-raise-ok, pure-ok,
}
use api_calixio.Repository.Sql.{update_where}
use api_calixio.Repository.Rooms.{has_room_id, get_room_by_id, update_room_media, with_media}
use api_calixio.Repository.MediaRows.{is_kept, get_by_id}
use api_calixio.RoomService.Ending.{room-ok}
use api_calixio.RoomService.{conference, movie, movie_media, next_media, update_room_state}

module _ (ext : External) where
  open ext use {X}

  -- a media item that a room of this owner may play
  pub record IsPlayable (owner : Text) (media : List Media) (id : Text) : Type 0 where
    item : Media
    named : item.id ≡ id
    listed : find (is_kept id) media ≡ some item
    owned : item.owner_user_id ≡ owner
    ready : is_media_ready item.status ≡ true

  -- what each mode lets a room play
  abbrev pub Source : Text → Text → Option Text → List Media → Option Text → Type 0
  Source owner mode asked media next =
      ((mode ≡ conference) × (next ≡ none))
      ⊎ ((mode ≡ movie)
          × ((id : Text) × (asked ≡ some id) × (next ≡ some id) × IsPlayable owner media id))

  room-media : (id : Text) (w : World X) → (get_room_by_id ext id w).1.media ≡ w.media
  unfolding get_room_by_id
  room-media id w = ground arith

  media-ok :
      (id : Text) (w : World X) {m : Media}
      → (get_by_id ext id w).0 ≡ ok m
      → (find (is_kept id) w.media ≡ some m)
        × ((get_by_id ext id w).1.media ≡ w.media)
        × ((get_by_id ext id w).1.rooms ≡ w.rooms)
  unfolding get_by_id
  media-ok id w h = ground arith

  kept_id : (id : Text) (m : Media) → is_kept id m ≡ true → m.id ≡ id
  kept_id id m h = ground (arith, text_eq→eq m.id id)

  movie_media-ok :
      (owner : Text) (asked : Option Text) (w v : World X) (next : Option Text)
      → movie_media ext owner asked w ≡ (ok next, v)
      → (id : Text) × (asked ≡ some id)
        × (next ≡ some id)
        × IsPlayable owner w.media id
        × (v.rooms ≡ w.rooms)
  unfolding movie_media
  movie_media-ok owner none w v next h = cc
  movie_media-ok owner (some id) w v next h =
      let (filled, h1) = if-raise-ok (is_empty id) _ _ _ h in
      let (m, e, h2) = >>=-eq-ok (get_by_id ext id) _ w h1 in
      let (mine, h3) = unless-raise-ok (text_eq m.owner_user_id owner) _ _ _ h2 in
      let (fit, h4) = unless-raise-ok (is_media_ready m.status) _ _ _ h3 in
      let (found, kept, same) = media-ok id w e in
      let named : m.id ≡ id = kept_id id m (find-holds (is_kept id) w.media m found) in
      let (same_id, same_world) = pure-ok (some m.id) (get_by_id ext id w).1 h4 in
      let playable : IsPlayable owner w.media id = record {
        item = m;
        named = named;
        listed = found;
        owned = text_eq→eq _ _ mine;
        ready = fit;
      } in
      (id, refl, same_id ∙ ap some named, playable, ap (λ z. z.rooms) same_world ∙ same)

  next_media-ok :
      (owner mode : Text) (asked : Option Text) (w v : World X) (next : Option Text)
      → next_media ext owner mode asked w ≡ (ok next, v)
      → Source owner mode asked w.media next × (v.rooms ≡ w.rooms)
  unfolding next_media
  next_media-ok owner mode asked w v next h = elim (Bool-cases (text_eq mode conference)) [
    | inl talk ↦
        let (e, same) = pure-ok none w (rw talk at h) in
        (inl (text_eq→eq mode conference talk, e), ap (λ z. z.rooms) same)
    | inr no_talk ↦ elim (Bool-cases (text_eq mode movie)) [
      | inl show ↦
          let (id, e, n, fit, same) =
            movie_media-ok owner asked w v next (rw (no_talk, show) at h) in
          (inr (text_eq→eq mode movie show, (id, e, n, fit)), same)
      | inr no_show ↦
          let bad : (err invalid_upload_input, w) ≡ (ok next, v) = rw (no_talk, no_show) at h in cc
    ]
  ]

  update-ok :
      (id : Text) (next : Option Text) (w v : World X) (n : Room)
      → update_room_media ext id next w ≡ (ok n, v)
      → v.rooms ≡ update_where (has_room_id id) (with_media next) w.rooms
  unfolding update_room_media
  update-ok id next w v n h = ground arith

  -- The mode of a room changes only for the owner of a room that is active. A conference plays no
  -- media, and a movie plays the media item that was asked for, which exists, is not deleted, is
  -- ready and has the same owner. In the table the row of that room gets the media, and no other
  -- row changes.
  pub update_room_state-ok :
      (id owner mode : Text) (asked : Option Text) (w v : World X) (n : Room)
      → update_room_state ext id owner mode asked w ≡ (ok n, v)
      → (r : Room) × (next : Option Text) × (find (has_room_id id) w.rooms ≡ some r)
        × (r.owner_user_id ≡ owner)
        × (is_room_active r.status ≡ true)
        × (v.rooms ≡ update_where (has_room_id id) (with_media next) w.rooms)
        × Source owner mode asked w.media next
  unfolding update_room_state
  update_room_state-ok id owner mode asked w v n h =
      let (r, e, h1) = >>=-eq-ok (get_room_by_id ext id) _ w h in
      let (mine, h2) = unless-raise-ok (text_eq r.owner_user_id owner) _ _ _ h1 in
      let (active, h3) = unless-raise-ok (is_room_active r.status) _ _ _ h2 in
      let u = (get_room_by_id ext id w).1 in
      let (next, e4, h4) = >>=-eq-ok (next_media ext owner mode asked) _ u h3 in
      let u' = (next_media ext owner mode asked u).1 in
      let (found, kept) = room-ok ext id w e in
      let (which, same) = next_media-ok owner mode asked u u' next (ap (λ a. (a, u')) e4) in
      (
        r,
        next,
        found,
        text_eq→eq _ _ mine,
        active,
        update-ok id next u' v n h4
            ∙ ap (update_where (has_room_id id) (with_media next)) (same ∙ kept),
        subst (λ ms. Source owner mode asked ms next) (room-media id w) which,
      )
