-- ===== src/Playback/Saving.antt =====
-- Saving the playback state.
use api_calixio.Prelude.{ℕ, ◌+◌, ◌%◌, ◌^◌, true, some, ◌≡◌, ap, ◌∙◌, arith, find}
use api_calixio.Text.{Text, text_eq}
use api_calixio.Records.{Room, is_room_active}
use api_calixio.External.{External}
use api_calixio.Exec.{World, ok, got, call, call-ok, unless-raise-ok, >>=-eq-ok}
use api_calixio.Repository.Rooms.{has_room_id, get_room_by_id}
use api_calixio.Text.Laws.{text_eq→eq}
use api_calixio.RoomService.Ending.{room-ok}
use api_calixio.Playback.{
  Formats, RoomPlaybackState, UpdateRoomPlaybackInput, state_key, state_ttl, get_state,
  current_state, updated, put_state, change_state, save_by_host,
}

module _ (ext : External) (fmt : Formats) where
  open ext use {X, now, query, redis_get, redis_set}
  open fmt use {Rate, encode, decode}

  put_state-ok :
      (id : Text) (s n : RoomPlaybackState Rate) (w v : World X)
      → put_state ext fmt id s w ≡ (ok n, v)
      → (payload : Text) × (n ≡ s)
        × (encode s ≡ got payload)
        × ((redis_set (state_key id) payload state_ttl w.outside).0 ≡ got tt)
        × (v.outside ≡ (redis_set (state_key id) payload state_ttl w.outside).1)
  unfolding put_state
  put_state-ok id s n w v h =
      let (p, e, h1) = >>=-eq-ok (call (λ x. (encode s, x))) _ w h in
      let (done, e2, h2) = >>=-eq-ok (call (redis_set (state_key id) p state_ttl)) _ w h1 in
      (
        p,
        ground arith,
        call-ok (λ x. (encode s, x)) w e,
        call-ok (redis_set (state_key id) p state_ttl) w e2,
        ground arith,
      )

  get_state-ok :
      (id p : Text) (s : RoomPlaybackState Rate) (w : World X)
      → (redis_get (state_key id) w.outside).0 ≡ got (some p)
      → decode p ≡ got s
      → (get_state ext fmt id w).0 ≡ ok s
  unfolding get_state
  get_state-ok id p s w found back = ground arith

  -- Saving succeeds only for the owner of a room that is active, and what it returns is the state
  -- that was there, or the starting state, with the request written into it by `updated`: so the
  -- version is the next one modulo 2^64, and the host is the caller.
  pub save_by_host-ok :
      (id host : Text) (req : UpdateRoomPlaybackInput Rate) (w v : World X)
      (s : RoomPlaybackState Rate)
      → save_by_host ext fmt id host req w ≡ (ok s, v)
      → (room : Room) × (old : RoomPlaybackState Rate) × (t : ℕ) × (find (has_room_id id) w.rooms
          ≡ some room)
        × (room.owner_user_id ≡ host)
        × (is_room_active room.status ≡ true)
        × ((current_state ext fmt id host req.media_id (get_room_by_id ext id w).1).0 ≡ ok old)
        × (s ≡ updated ext fmt host req t old)
        × (s.version ≡ (old.version + 1) % 2 ^ 64)
        × (s.host_id ≡ host)
  unfolding save_by_host change_state updated
  save_by_host-ok id host req w v s h =
      let (room, e, h1) = >>=-eq-ok (get_room_by_id ext id) _ w h in
      let (mine, h2) = unless-raise-ok (text_eq room.owner_user_id host) _ _ _ h1 in
      let (active, h3) = unless-raise-ok (is_room_active room.status) _ _ _ h2 in
      let (old, e4, h4) = >>=-eq-ok (current_state ext fmt id host req.media_id) _ _ h3 in
      let (p, same, wrote, stored, left) = put_state-ok id _ s _ v h4 in
      let (found, kept) = room-ok ext id w e in
      (
        room,
        old,
        _,
        found,
        text_eq→eq _ _ mine,
        active,
        e4,
        same,
        ap (λ n. n.version) same,
        ap (λ n. n.host_id) same,
      )

  -- What was saved is read back: if JSON decodes what it encoded, and Redis returns what it has
  -- set, then after a save that succeeded reading the state of the room gives the saved state.
  pub save-get_state :
      (id host : Text) (req : UpdateRoomPlaybackInput Rate) (w v : World X)
      (s : RoomPlaybackState Rate)
      → ((t : RoomPlaybackState Rate) (p : Text) → encode t ≡ got p → decode p ≡ got t)
      → ((k p : Text) (x : X)
          → (redis_set k p state_ttl x).0 ≡ got tt
          → (redis_get k (redis_set k p state_ttl x).1).0 ≡ got (some p))
      → save_by_host ext fmt id host req w ≡ (ok s, v)
      → (get_state ext fmt id v).0 ≡ ok s
  unfolding save_by_host change_state
  save-get_state id host req w v s json kept h =
      let (room, e, h1) = >>=-eq-ok (get_room_by_id ext id) _ w h in
      let (mine, h2) = unless-raise-ok (text_eq room.owner_user_id host) _ _ _ h1 in
      let (active, h3) = unless-raise-ok (is_room_active room.status) _ _ _ h2 in
      let (old, e4, h4) = >>=-eq-ok (current_state ext fmt id host req.media_id) _ _ h3 in
      let (p, same, wrote, stored, left) = put_state-ok id _ s _ v h4 in
      get_state-ok id p s v
        (ap (λ x. (redis_get (state_key id) x).0) left ∙ kept (state_key id) p _ stored)
        (json s p (ap encode same ∙ wrote))
