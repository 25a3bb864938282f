-- ===== src/System/Kept.antt =====
-- The methods of the services that leave the tables alone: rooms, their playback, the webhook, S3.
use api_calixio.Prelude.{
  ℕ, zero, suc, Option, List, [], ◌∷◌, ◌≡◌, refl, ◌∙◌, arith, ◌++◌, Bool-cases, inl, inr,
}
use api_calixio.Text.{Text, text_eq, trim_space}
use api_calixio.Records.{is_room_active}
use api_calixio.System.Changes.{tables, IsTraced, same-Trace}
use api_calixio.External.{External}
use api_calixio.Exec.{Exec, World, Result-cases}
use api_calixio.Repository.Rooms.{list_rooms_by_owner, list_active_rooms, get_room_by_id}
use api_calixio.Repository.MediaRows.{get_by_id}
use api_calixio.RoomService.{new_id, join_room, movie_media, next_media}
use api_calixio.Playback.{
  Formats, UpdateRoomPlaybackInput, get_state, current_state, put_state, change_state, save_by_host,
}
use api_calixio.Webhook.{WebhookEvent, track_participant, handle_event}
use api_calixio.Storage.Objects.{
  StorageService, flush, add_key, add_keys, delete_pages, delete_objects_by_prefix, list_pages,
  list_media_prefixes,
}

-- The tables are the same afterwards, whether the step goes through or fails.
abbrev pub IsKept : {X : Type 0} → {A : Type 0} → Exec X A → Type 0
IsKept m = (w : World _) → tables (m w).1 ≡ tables w

pub kept-IsTraced : {X A : Type 0} (m : Exec X A) → IsKept m → IsTraced m
kept-IsTraced m k s w h = same-Trace s (tables w) (tables (m w).1) (k w) h

module _ (ext : External) where
  open ext use {X}

  pub new_id-IsKept : IsKept (new_id ext)
  unfolding new_id
  new_id-IsKept w = ground arith

  pub list_rooms-IsKept : (owner : Text) → IsKept (list_rooms_by_owner ext owner)
  unfolding list_rooms_by_owner
  list_rooms-IsKept owner w = ground arith

  pub join_room-IsKept : (id i p : Text) → IsKept (join_room ext id i p)
  unfolding join_room get_room_by_id
  join_room-IsKept id i p w = ground arith

  pub next_media-IsKept : (o mode : Text) (m : Option Text) → IsKept (next_media ext o mode m)
  unfolding next_media movie_media get_by_id
  next_media-IsKept o mode m w = ground arith

  pub get_room-IsKept : (id : Text) → IsKept (get_room_by_id ext id)
  unfolding get_room_by_id
  get_room-IsKept id w = ground arith

  pub list_active-IsKept : IsKept (list_active_rooms ext)
  unfolding list_active_rooms
  list_active-IsKept w = ground arith

  pub get_state-IsKept : (fmt : Formats) (id : Text) → IsKept (get_state ext fmt id)
  unfolding get_state
  get_state-IsKept fmt id w = ground arith

  current_state-IsKept : (fmt : Formats) (id h m : Text) → IsKept (current_state ext fmt id h m)
  unfolding current_state
  current_state-IsKept fmt id h m w = grind (arith, get_state-IsKept)

  change_state-IsKept :
      (fmt : Formats) (id h : Text) (req : UpdateRoomPlaybackInput fmt.Rate)
      → IsKept (change_state ext fmt id h req)
  unfolding change_state put_state
  change_state-IsKept fmt id h req w = grind (arith, current_state-IsKept)

  pub save_by_host-IsKept :
      (fmt : Formats) (id h : Text) (req : UpdateRoomPlaybackInput fmt.Rate)
      → IsKept (save_by_host ext fmt id h req)
  unfolding save_by_host
  save_by_host-IsKept fmt id h req w =
      let r = get_room-IsKept id w in
      let u = (get_room_by_id ext id w).1 in
      elim (Result-cases (get_room_by_id ext id w).0) [
        | inr (x, e) ↦ rw (e, save_by_host) r
        | inl (room, e) ↦ elim (Bool-cases (text_eq room.owner_user_id h)) [
          | inr other ↦ rw (e, other, save_by_host) r
          | inl same ↦ elim (Bool-cases (is_room_active room.status)) [
            | inl on ↦ rw (e, same, on, save_by_host) (change_state-IsKept fmt id h req u ∙ r)
            | inr off ↦ rw (e, same, off, save_by_host) r
          ]
        ]
      ]

  pub handle_event-IsKept : (e : Option WebhookEvent) → IsKept (handle_event ext e)
  unfolding handle_event track_participant
  handle_event-IsKept e w = ground arith

  module _ (s : StorageService) where
    flush-IsKept : (ks : List Text) → IsKept (flush ext s ks)
    unfolding flush
    flush-IsKept ks w = ground arith

    add_key-IsKept : (pending : List Text) (raw : Text) → IsKept (add_key ext s pending raw)
    unfolding add_key
    add_key-IsKept pending raw w =
        let flushed = flush-IsKept (pending ++ (trim_space raw ∷ [])) w in ground arith

    add_keys-IsKept : (pending ks : List Text) → IsKept (add_keys ext s pending ks)
    unfolding add_keys
    add_keys-IsKept pending [] w = refl
    add_keys-IsKept pending (k ∷ ks) w =
        let rest : (p : List Text) → IsKept (add_keys ext s p ks) = λ p. add_keys-IsKept p ks in
        grind (arith, add_key-IsKept, rest)

    delete_pages-IsKept :
        (prefix : Text) (left i : ℕ) (pending : List Text)
        → IsKept (delete_pages ext s prefix left i pending)
    unfolding delete_pages
    delete_pages-IsKept prefix zero i pending w = flush-IsKept pending w
    delete_pages-IsKept prefix (suc left) i pending w =
        let rest : (j : ℕ) (p : List Text) → IsKept (delete_pages ext s prefix left j p) =
          λ j p. delete_pages-IsKept prefix left j p in
        grind (arith, add_keys-IsKept, rest)

    pub delete_prefix-IsKept : (prefix : Text) → IsKept (delete_objects_by_prefix ext s prefix)
    unfolding delete_objects_by_prefix
    delete_prefix-IsKept prefix w = grind (arith, delete_pages-IsKept)

    list_pages-IsKept : (left i : ℕ) (ps : List (Text × Text)) → IsKept (list_pages ext s left i ps)
    unfolding list_pages
    list_pages-IsKept zero i ps w = refl
    list_pages-IsKept (suc left) i ps w =
        let rest : (j : ℕ) (q : List (Text × Text)) → IsKept (list_pages ext s left j q) =
          λ j q. list_pages-IsKept left j q in
        grind (arith, rest)

    pub list_prefixes-IsKept : IsKept (list_media_prefixes ext s)
    unfolding list_media_prefixes
    list_prefixes-IsKept w = grind (arith, list_pages-IsKept)
