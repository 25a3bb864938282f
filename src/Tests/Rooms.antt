-- ===== src/Tests/Rooms.antt =====
-- Rooms and their playback.
use api_calixio.Prelude.{
  arith, ℕ, ◌+◌, ◌%◌, ◌^◌, true, false, not, ◌||◌, Option, none, some, [], ◌∷◌, ◌≡◌, refl, find,
  all, ltb, any, ◌&&◌, Bool, if◌then◌else◌,
}
use api_calixio.Text.{Text, codes, text_eq}
use api_calixio.Integer.{pos}
use api_calixio.Records.{Media, Room, room_active, is_room_active, media_ready}
use api_calixio.Exec.{World, ok, err, external, got, failed}
use api_calixio.Repository.Sql.{update_where}
use api_calixio.Repository.Rooms.{
  has_room_id, with_media, ended, get_room_by_id, end_room_row, update_room_media,
}
use api_calixio.Repository.MediaRows.{get_by_id}
use api_calixio.RoomService.{
  movie, movie_media, next_media, update_room_state, end_found, end_room_by_owner, close_rooms,
  end_stale_active_rooms,
}
use api_calixio.RoomService.Ending.{end_room_by_owner_ends, end_room_leaks, clocked}
use api_calixio.RoomService.Stale.{close_rooms_spares}
use api_calixio.RoomService.Closer.{is_got, end_stale_closes}
use api_calixio.RoomService.Sweep.{is_stale, number}
use api_calixio.Repository.Rows.{IsPairwise}
use api_calixio.External.{External}
use api_calixio.RoomService.Mode.{Source, update_room_state-ok}
use api_calixio.Playback.{
  RoomPlaybackState, UpdateRoomPlaybackInput, state_ttl, state_key, get_state, current_state,
  updated, put_state, change_state, save_by_host,
}
use api_calixio.Playback.Saving.{save_by_host-ok, save-get_state}
use api_calixio.Tests.Formats.{formats, decode-encode}
use api_calixio.Tests.Outside.{Outside, outside, ext, start, redis_kept}

abbrev room : Room
room = record {
  id = codes "r1";
  name = codes "room";
  owner_user_id = codes "u1";
  media_id = none;
  status = room_active;
  created_at = 10;
  ended_at = none;
}

abbrev film : Media
film = record {
  id = codes "m1";
  owner_user_id = codes "u1";
  title = codes "film";
  original_name = codes "film.mp4";
  storage_key = codes "k";
  playback_url = [];
  preview_url = none;
  duration_sec = none;
  file_size_bytes = pos 9;
  mime_type = codes "video/mp4";
  status = media_ready;
  created_at = 3;
  deleted_at = none;
}

abbrev base : World Outside
base = record {
  users = [];
  sessions = [];
  rooms = room ∷ [];
  media = film ∷ [];
  jobs = [];
  outside = start;
}

room_found : find (has_room_id (codes "r1")) base.rooms ≡ some room
unfolding text_eq
room_found = refl

abbrev pub after_end : World Outside
after_end = (end_room_by_owner ext (codes "r1") (codes "u1") base).1

end_run : end_room_by_owner ext (codes "r1") (codes "u1") base ≡ (ok (ended 100 room), after_end)
unfolding end_room_by_owner end_found get_room_by_id end_room_row text_eq
end_run = refl

end_room_by_owner_ends_example :
    (r m : Room) × (find (has_room_id (codes "r1")) base.rooms ≡ some r)
    × (text_eq r.owner_user_id (codes "u1") ≡ true)
    × (find (has_room_id (codes "r1")) after_end.rooms ≡ some m)
    × (is_room_active m.status ≡ false)
end_room_by_owner_ends_example =
    end_room_by_owner_ends ext (codes "r1") (codes "u1") base after_end (ended 100 room) end_run

stranger : text_eq room.owner_user_id (codes "u2") ≡ false
unfolding text_eq
stranger = refl

row_ended : (end_room_row (outside true) room.id 100 (clocked (outside true) base)).0 ≡ ok tt
unfolding end_room_row text_eq
row_ended = refl

end_room_leaks_example :
    ((end_found (outside true) room base).0 ≡ err (external 5))
    × ((end_room_by_owner
          (outside true)
          (codes "r1")
          (codes "u1")
          (end_found (outside true) room base).1).0
        ≡ ok (ended 100 room))
    × ((end_room_by_owner
          (outside true)
          (codes "r1")
          (codes "u1")
          (end_found (outside true) room base).1).1.outside
        ≡ ((outside true).query (end_found (outside true) room base).1.outside).1)
end_room_leaks_example =
    end_room_leaks (outside true) room base 5 refl room_found row_ended refl refl

abbrev young : Room
young = record room { id = codes "r2"; created_at = 90 }

-- LiveKit fails to delete this one.
abbrev stuck : Room
stuck = record room { id = codes "r3"; name = codes "stuck"; created_at = 5 }

abbrev hall : World Outside
hall = record base { rooms = young ∷ (room ∷ (stuck ∷ [])) }

spared :
    all
      (λ (r : Room). not (has_room_id (codes "r2") r) || ltb 100 (r.created_at + 20))
      (stuck ∷ (room ∷ (young ∷ [])))
    ≡ true
unfolding text_eq
spared = refl

-- Two rooms are closed around one that is young.
close_rooms_spares_example :
    find
      (has_room_id (codes "r2"))
      (close_rooms ext 100 20 (stuck ∷ (room ∷ (young ∷ []))) (0, 0) hall).1.rooms
    ≡ find (has_room_id (codes "r2")) hall.rooms
close_rooms_spares_example =
    close_rooms_spares ext (codes "r2") 100 20 (stuck ∷ (room ∷ (young ∷ []))) (0, 0) hall spared

abbrev answers : Text → Bool
answers name = not (text_eq name (codes "stuck"))

abbrev partly : External
partly = record ext {
  lk_delete_room = λ name x. (if text_eq name (codes "stuck") then failed 5 else got tt, x);
}

partly_answers :
    (name : Text) (x : Outside) → is_got (partly.lk_delete_room name x).0 ≡ answers name
partly_answers name x = ground arith

hall_apart : IsPairwise (λ (r : Room). has_room_id r.id) hall.rooms
unfolding text_eq
hall_apart = (refl, (refl, (refl, tt)))

-- One room is young, one is closed, and one fails.
end_stale_closes_example :
    ((end_stale_active_rooms partly (pos 20) hall).0
      ≡ ok (
        number (λ r. is_stale 100 20 r && answers r.name) hall.rooms,
        number (λ r. is_stale 100 20 r && not (answers r.name)) hall.rooms,
      ))
    × (any (is_stale 100 20) (end_stale_active_rooms partly (pos 20) hall).1.rooms ≡ false)
end_stale_closes_example =
    end_stale_closes partly answers (λ x. refl) partly_answers (pos 20) hall 100 hall_apart refl

abbrev after_mode : World Outside
after_mode = (update_room_state ext (codes "r1") (codes "u1") movie (some (codes "m1")) base).1

mode_run :
    update_room_state ext (codes "r1") (codes "u1") movie (some (codes "m1")) base
    ≡ (ok (with_media (some (codes "m1")) room), after_mode)
unfolding update_room_state next_media movie_media get_by_id get_room_by_id update_room_media
    text_eq
mode_run = refl

update_room_state-ok_example :
    (r : Room) × (next : Option Text) × (find (has_room_id (codes "r1")) base.rooms ≡ some r)
    × (r.owner_user_id ≡ codes "u1")
    × (is_room_active r.status ≡ true)
    × (after_mode.rooms ≡ update_where (has_room_id (codes "r1")) (with_media next) base.rooms)
    × Source ext (codes "u1") movie (some (codes "m1")) base.media next
update_room_state-ok_example =
    update_room_state-ok ext (codes "r1") (codes "u1") movie (some (codes "m1")) base after_mode
      (with_media (some (codes "m1")) room) mode_run

abbrev asked : UpdateRoomPlaybackInput ℕ
asked = record {
  media_id = codes "m1";
  status = codes "playing";
  position_ms = pos 7;
  playback_rate = 0;
}

abbrev playing : RoomPlaybackState ℕ
playing = record {
  room_id = codes "r1";
  media_id = codes "m1";
  status = codes "playing";
  position_ms = pos 7;
  playback_rate = 1;
  updated_at = 0;
  version = 1;
  host_id = codes "u1";
}

abbrev after_save : World Outside
after_save = (save_by_host ext formats (codes "r1") (codes "u1") asked base).1

save_run : save_by_host ext formats (codes "r1") (codes "u1") asked base ≡ (ok playing, after_save)
unfolding save_by_host change_state current_state get_state updated put_state get_room_by_id
    state_key text_eq
save_run = refl

save_by_host-ok_example :
    (r : Room) × (old : RoomPlaybackState ℕ) × (t : ℕ) × (find (has_room_id (codes "r1")) base.rooms
      ≡ some r)
    × (r.owner_user_id ≡ codes "u1")
    × (is_room_active r.status ≡ true)
    × ((current_state ext formats
          (codes "r1")
          (codes "u1")
          asked.media_id
          (get_room_by_id ext (codes "r1") base).1).0
        ≡ ok old)
    × (playing ≡ updated ext formats (codes "u1") asked t old)
    × (playing.version ≡ (old.version + 1) % 2 ^ 64)
    × (playing.host_id ≡ codes "u1")
save_by_host-ok_example =
    save_by_host-ok ext formats (codes "r1") (codes "u1") asked base after_save playing save_run

save-get_state_example : (get_state ext formats (codes "r1") after_save).0 ≡ ok playing
save-get_state_example =
    save-get_state ext formats (codes "r1") (codes "u1") asked base after_save playing decode-encode
      (λ k p x h. redis_kept k p state_ttl x h) save_run
