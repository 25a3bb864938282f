-- ===== src/Tests/Sharing.antt =====
-- A playback that two users get, one after the other.
use api_calixio.Prelude.{true, ◌≡◌, false, none, Option, [], refl}
use api_calixio.Text.{Text, codes, text_eq, is_empty, trim_space, is_space, split, join, has_prefix}
use api_calixio.Text.Laws.{text_eq_sym}
use api_calixio.Text.FilePath.{path_join, clean, resolve, dir}
use api_calixio.Records.{media_ready}
use api_calixio.Exec.{World, Result, ok, err, got}
use api_calixio.Repository.MediaRows.{get_by_id}
use api_calixio.Storage.Objects.{get_object_bytes, presign_get_object}
use api_calixio.Upload.{has_blank, object_key, playback_cache_key, playback_manifest_token_key}
use api_calixio.Upload.Playback.{
  CacheFormats, PlaybackOutput, is_kept_line, sign_line, sign_lines, sign_manifest, build_playback,
  new_manifest_token, build_manifest_proxy_url, cached_record, cache_record, put_record,
  fresh_playback, get_playback,
}
use api_calixio.Upload.Playback.Sharing.{get_playback_shares}
use api_calixio.Tests.Outside.{Outside, ext, redis_kept}
use api_calixio.Tests.Uploads.{world, service, formats, played}

-- JSON that gives back what was written for `played`.
abbrev pub json : CacheFormats
json = record formats { decode = λ p. got (cache_record ext (service true) formats played) }

abbrev output_of : Result PlaybackOutput → PlaybackOutput
output_of (ok out) = out
output_of (err e) = record {
  media_id = [];
  status = [];
  manifest = [];
  manifest_url = none;
  preview_url = none;
  expires_at = 0;
}

-- The owner gets the playback.
abbrev own_play : Result PlaybackOutput × World Outside
own_play = get_playback ext (service true) json (codes "u1") (codes "m1") (world media_ready)

abbrev owned : PlaybackOutput
owned = output_of own_play.0

own_run : own_play ≡ (ok owned, own_play.1)
unfolding get_playback cached_record fresh_playback build_playback build_manifest_proxy_url
    get_by_id get_object_bytes presign_get_object sign_manifest sign_lines sign_line is_kept_line
    object_key split join trim_space is_space has_prefix path_join clean resolve dir text_eq
    put_record new_manifest_token playback_cache_key playback_manifest_token_key
own_run = refl

empty_cache : (cached_record ext (service true) json (codes "m1") (world media_ready)).0 ≡ ok none
unfolding cached_record
empty_cache = refl

named : has_blank (codes "u2") (codes "m1") ≡ false
unfolding trim_space is_space
named = refl

filled : is_empty (trim_space (codes "r")) ≡ false
unfolding trim_space is_space
filled = refl

read_back : json.decode (codes "r") ≡ got (cache_record ext (service true) json owned)
unfolding get_playback cached_record fresh_playback build_playback build_manifest_proxy_url
    get_by_id get_object_bytes presign_get_object sign_manifest sign_lines sign_line is_kept_line
    object_key split join trim_space is_space has_prefix path_join clean resolve dir text_eq
    put_record new_manifest_token playback_cache_key playback_manifest_token_key
read_back = refl

other_key :
    (k l q : Text) (x : Outside)
    → text_eq k l ≡ false
    → (ext.redis_get k (ext.redis_set l q (service true).playback_ttl x).1).0
      ≡ (ext.redis_get k x).0
other_key k l q x h = rw (text_eq_sym l k, h) refl

-- And then a stranger does.
get_playback_shares_example :
    (url : Option Text) × ((get_playback ext
        (service true)
        json
        (codes "u2")
        (codes "m1")
        own_play.1).0
      ≡ ok (record owned { manifest_url = url; expires_at = 105 }))
get_playback_shares_example =
    get_playback_shares ext (service true) json refl (λ k q x. refl)
      (λ k q x. redis_kept k q (service true).playback_ttl x) other_key (λ k n x. refl) (codes "u1")
      (codes "u2") (codes "m1") (codes "r") 105 (world media_ready) own_play.1 owned named
      empty_cache own_run refl filled read_back refl
