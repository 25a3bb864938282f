-- ===== src/Tests/Buckets.antt =====
-- The cache, the bucket, the cleanup, the tail of a log and the webhook.
use api_calixio.Prelude.{
  ℕ, ◌+◌, ◌-◌, ◌≤◌, Bool, true, false, ◌||◌, Option, none, some, List, [], ◌∷◌, ◌++◌, ◌≡◌, refl,
  find, all, length, reverse, drop, concat, arith,
}
use api_calixio.Text.{Text, codes, text_eq, split, join, is_space, trim_space}
use api_calixio.Text.FilePath.{path_join, plain, clean, resolve}
use api_calixio.Records.{Media, media_ready}
use api_calixio.Exec.{World, ok}
use api_calixio.Repository.MediaRows.{is_kept, get_by_id, update_kept, soft_delete}
use api_calixio.Storage.Prefix.{users_dir, media_dir, media_prefix, extract_media_prefix}
use api_calixio.Storage.Prefix.Laws.{solid, starts, extract-object_key}
use api_calixio.Storage.Objects.{flush, add_key, add_keys, delete_pages, delete_objects_by_prefix}
use api_calixio.Storage.Objects.Batches.{delete_objects_by_prefix-IsBatch}
use api_calixio.Upload.Deletion.{delete_objects_of, forget_playback, delete_media}
use api_calixio.Upload.Deletion.Prefixes.{delete_media-ok}
use api_calixio.Cleanup.{clean_entries}
use api_calixio.Transcoder.Tail.{new_tail, write_all, write_all_refines}
use api_calixio.Transcoder.Retry.{gave_up, attempts, with_retry}
use api_calixio.Webhook.{WebhookEvent, participants_key, track_participant, handle_event}
use api_calixio.Webhook.Members.{is_joined, handle_event-member}
use api_calixio.Tests.Outside.{Outside, ext, set_kept}
use api_calixio.Tests.Uploads.{world, service, storage}

abbrev pub after_delete : World Outside
after_delete = (delete_media ext (service true) (codes "u1") (codes "m1") (world media_ready)).1

pub delete_run :
    delete_media ext (service true) (codes "u1") (codes "m1") (world media_ready)
    ≡ (ok tt, after_delete)
unfolding delete_media delete_objects_of forget_playback delete_objects_by_prefix delete_pages
    add_keys add_key flush get_by_id soft_delete update_kept media_prefix path_join clean resolve
    split join trim_space is_space text_eq
delete_run = refl

delete_media-ok_example :
    (m : Media) × (find (is_kept (codes "m1")) (world media_ready).media ≡ some m)
    × (m.owner_user_id ≡ codes "u1")
    × ((delete_objects_by_prefix ext storage
          (media_prefix (codes "u1") m.id)
          (get_by_id ext (codes "m1") (world media_ready)).1).0
        ≡ ok tt)
    × (find (is_kept (codes "m1")) after_delete.media ≡ none)
delete_media-ok_example =
    delete_media-ok ext (service true) (codes "u1") (codes "m1") (world media_ready) after_delete tt
      delete_run

plain_parts :
    (solid (codes "u1") ≡ true)
    × (solid (codes "m1") ≡ true)
    × (all plain (codes "hls" ∷ []) ≡ true)
    × (plain (codes "a.ts") ≡ true)
    × (starts is_space (reverse (codes "a.ts")) ≡ true)
unfolding solid plain is_space text_eq
plain_parts = (refl, refl, refl, refl, refl)

extract-object_key_example :
    extract_media_prefix (
      path_join (
        users_dir ∷ codes "u1" ∷ media_dir ∷ codes "m1" ∷ (codes "hls" ∷ [])
        ++ (codes "a.ts" ∷ [])))
    ≡ some (codes "m1", media_prefix (codes "u1") (codes "m1"))
extract-object_key_example =
    extract-object_key (codes "u1") (codes "m1") (codes "hls" ∷ []) (codes "a.ts") plain_parts.0
      plain_parts.1 plain_parts.2 plain_parts.3 plain_parts.4

-- The clock does not go back.
abbrev Later : Outside → Type 0
Later x = 100 ≤ x.ticks

delete_objects_by_prefix-IsBatch_example :
    Later (delete_objects_by_prefix ext storage (codes "users/") (world media_ready)).1.outside
delete_objects_by_prefix-IsBatch_example =
    delete_objects_by_prefix-IsBatch ext storage Later (λ p i x h. h) (λ ks x b h. omega arith)
      (codes "users/") (world media_ready) (omega arith)

abbrev entries : List (Text × Text)
entries = (codes "m1", codes "users/u1/media/m1/") ∷ (codes "m2", codes "users/u1/media/m2/") ∷ []

abbrev after_clean : World Outside
after_clean = (clean_entries ext storage 1 entries (world media_ready)).1

write_all_refines_example :
    (write_all (new_tail 3) (codes "ab" ∷ codes "cde" ∷ [])).buf
    ≡ drop
        (length (concat (codes "ab" ∷ codes "cde" ∷ [])) - 3)
        (concat (codes "ab" ∷ codes "cde" ∷ []))
write_all_refines_example = write_all_refines 3 (codes "ab" ∷ codes "cde" ∷ []) (omega arith)

abbrev left : WebhookEvent
left = record { event = codes "participant_left"; room_name = codes "r"; identity = codes "a" }

abbrev after_left : World Outside
after_left = (handle_event ext (some left) (world media_ready)).1

left_run : handle_event ext (some left) (world media_ready) ≡ (ok tt, after_left)
unfolding handle_event track_participant text_eq
left_run = refl

left_kind :
    (text_eq left.event (codes "participant_joined")
      || text_eq left.event (codes "participant_left"))
    ≡ true
unfolding text_eq
left_kind = refl

handle_event-member_example :
    after_left.outside.sets (participants_key (codes "r")) (codes "a") ≡ is_joined left
handle_event-member_example =
    handle_event-member ext (λ k v x. x.sets k v) (λ k v x h. set_kept k v true x)
      (λ k v x h. set_kept k v false x) left (world media_ready) after_left tt refl left_kind
      left_run

-- An operation that always fails, with its tries counted.
abbrev failing : ℕ → Option Text × ℕ
failing n = (some (codes "no"), n + 1)

abbrev waiting : ℕ → ℕ → Bool × ℕ
waiting b n = (true, n)

retry_run : with_retry (λ n. false) failing waiting 5 ≡ (gave_up (codes "no"), 9)
unfolding with_retry attempts
retry_run = refl
