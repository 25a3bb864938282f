-- ===== src/Upload/Playback.antt =====
-- internal/service/media_upload.go: the signed playlist of a media item, and its cache.
pub mod Manifest
pub mod Sharing
pub mod Cached
use api_calixio.Prelude.{
  ℕ, Bool, true, false, not, ◌||◌, Option, none, some, List, [], ◌∷◌, ◌++◌, if◌then◌else◌,
}
use api_calixio.Text.{Text, codes, text_eq, is_empty, trim_space, has_prefix, split, join}
use api_calixio.Text.FilePath.{path_join, dir}
use api_calixio.Integer.{ℤ, add_duration}
use api_calixio.Hex.{hex}
use api_calixio.Records.{Media, MediaStatus, is_media_ready, media_status_text}
use api_calixio.External.{External}
use api_calixio.Exec.{
  Exec, World, Error, Result, Reply, ok, err, got, failed, invalid_upload_input, forbidden_media,
  media_not_ready, invalid_manifest_key, pure, raise, attempt, call, observe, ◌>>=◌, ◌>>◌,
}
use api_calixio.Repository.MediaRows.{get_by_id}
use api_calixio.Storage.Objects.{presign_get_object, get_object_bytes}
use api_calixio.Upload.{
  UploadService, has_blank, object_key, playback_cache_key, playback_manifest_token_key,
}

-- A `MediaStatus` that came out of the cache is any string.
pub record PlaybackOutput : Type 0 where
  pub media_id : Text
  pub status : Text
  pub manifest : Text
  pub manifest_url : Option Text
  pub preview_url : Option Text
  pub expires_at : ℕ

pub record PlaybackCacheRecord : Type 0 where
  pub media_id : Text
  pub status : Text
  pub manifest : Text
  pub preview_url : Option Text
  pub expires_at : Text

-- encoding/json on the record of the cache, and time.RFC3339
pub record CacheFormats : Type 0 where
  pub encode : PlaybackCacheRecord → Reply Text
  pub decode : Text → Reply PlaybackCacheRecord
  pub format_time : ℕ → Text
  pub parse_time : Text → Reply ℕ

abbrev pub line_feed : ℕ
line_feed = 10

-- A line of a playlist that names no object of the bucket.
unfoldable pub is_kept_line : Text → Bool
is_kept_line raw =
    let line = trim_space raw in
    is_empty line
    || has_prefix line (codes "#")
    || has_prefix line (codes "http://")
    || has_prefix line (codes "https://")

-- `&url` if there was no error
abbrev pub optional : {A : Type 0} → Result A → Option A
optional (ok a) = some a
optional (err e) = none

module _ (ext : External) (s : UploadService) where
  open ext use {X, now, random, redis_get, redis_set}

  unfoldable pub sign_line : Text → ℤ → Text → Exec X Text
  sign_line base_dir ttl raw =
      if is_kept_line raw
      then pure raw
      else presign_get_object ext s.storage (path_join (base_dir ∷ trim_space raw ∷ [])) ttl

  unfoldable pub sign_lines : Text → ℤ → List Text → Exec X (List Text)
  sign_lines base_dir ttl [] = pure []
  sign_lines base_dir ttl (raw ∷ raws) = do
    signed ← sign_line base_dir ttl raw
    rest ← sign_lines base_dir ttl raws
    pure (signed ∷ rest)

  unfoldable pub sign_manifest : Text → Text → ℤ → Exec X Text
  sign_manifest base_dir manifest ttl = do
    signed ← sign_lines base_dir ttl (split manifest line_feed)
    pure (join signed line_feed)

  unfoldable pub build_playback : Media → Exec X PlaybackOutput
  build_playback media = if not (is_media_ready media.status) then raise media_not_ready else do
    let key = object_key media.owner_user_id media.id (codes "hls") (codes "index.m3u8")
    bytes ← get_object_bytes ext s.storage key
    signed ← sign_manifest (dir key) bytes s.playback_ttl
    preview ← attempt (
        presign_get_object ext s.storage
          (object_key media.owner_user_id media.id (codes "preview") (codes "preview.jpg"))
          s.playback_ttl)
    t ← observe now
    pure (record {
      media_id = media.id;
      status = media_status_text media.status;
      manifest = signed;
      manifest_url = none;
      preview_url = optional preview;
      expires_at = add_duration t s.playback_ttl;
    })

  -- The token of a proxy URL, put into the cache.
  unfoldable pub new_manifest_token : Text → Exec X Text
  new_manifest_token media_id = do
    bytes ← call (random 16)
    call (redis_set (playback_manifest_token_key (hex bytes)) media_id s.playback_ttl)
    pure (hex bytes)

  abbrev pub proxy_url : Text → Text
  proxy_url token = path_join (codes "/media/playback" ∷ token ∷ codes "index.m3u8" ∷ [])

  abbrev url_of : Option Text → Option Text
  url_of (some token) = some (proxy_url token)
  url_of none = none

  unfoldable pub build_manifest_proxy_url : Text → Exec X (Option Text)
  build_manifest_proxy_url media_id =
      if not s.has_cache
      then pure none
      else do r ← attempt (new_manifest_token media_id); pure (url_of (optional r))

module _ (ext : External) (s : UploadService) (fmt : CacheFormats) where
  open ext use {X, redis_get, redis_set}
  open fmt use {encode, decode, format_time, parse_time}

  abbrev dated : PlaybackCacheRecord → Reply ℕ → Option (PlaybackCacheRecord × ℕ)
  dated r (got t) = some (r, t)
  dated r (failed n) = none

  abbrev decoded : Reply PlaybackCacheRecord → Option (PlaybackCacheRecord × ℕ)
  decoded (got r) = dated r (parse_time r.expires_at)
  decoded (failed n) = none

  -- A record that was found in the cache, if it can be read.
  abbrev pub usable : Result (Option Text) → Option (PlaybackCacheRecord × ℕ)
  usable (ok (some raw)) = if is_empty (trim_space raw) then none else decoded (decode raw)
  usable (ok none) = none
  usable (err e) = none

  unfoldable pub cached_record : Text → Exec X (Option (PlaybackCacheRecord × ℕ))
  cached_record media_id =
      if not s.has_cache
      then pure none
      else do r ← attempt (call (redis_get (playback_cache_key media_id))); pure (usable r)

  -- What is returned for such a record.
  unfoldable pub from_cache : PlaybackCacheRecord × ℕ → Exec X PlaybackOutput
  from_cache (r, t) = do
    url ← build_manifest_proxy_url ext s r.media_id
    pure (record {
      media_id = r.media_id;
      status = r.status;
      manifest = r.manifest;
      manifest_url = url;
      preview_url = r.preview_url;
      expires_at = t;
    })

  abbrev pub cache_record : PlaybackOutput → PlaybackCacheRecord
  cache_record out = record {
    media_id = out.media_id;
    status = out.status;
    manifest = out.manifest;
    preview_url = out.preview_url;
    expires_at = format_time out.expires_at;
  }

  -- The write to the cache, whose errors are dropped.
  unfoldable pub put_record : Text → PlaybackOutput → Exec X (Unit {0})
  put_record media_id out = do
    payload ← call (λ x. (encode (cache_record out), x))
    call (redis_set (playback_cache_key media_id) payload s.playback_ttl)

  -- From `buildPlayback` on.
  unfoldable pub fresh_playback : Text → Media → Exec X PlaybackOutput
  fresh_playback media_id media = do
    out ← build_playback ext s media
    if s.has_cache then attempt (put_record media_id out) >>= (λ r. pure tt) else pure tt
    url ← build_manifest_proxy_url ext s out.media_id
    pure (record out { manifest_url = url })

  abbrev owned_playback : Text → Text → Option (PlaybackCacheRecord × ℕ) → Exec X PlaybackOutput
  owned_playback owner media_id (some hit) = from_cache hit
  owned_playback owner media_id none = do
    media ← get_by_id ext media_id
    if not (text_eq media.owner_user_id owner)
        then raise forbidden_media
        else fresh_playback media_id media

  unfoldable pub get_playback : Text → Text → Exec X PlaybackOutput
  get_playback owner media_id =
      if has_blank owner media_id
      then raise invalid_upload_input
      else do hit ← cached_record media_id; owned_playback owner media_id hit

  abbrev any_playback : Text → Option (PlaybackCacheRecord × ℕ) → Exec X PlaybackOutput
  any_playback media_id (some hit) = from_cache hit
  any_playback media_id none = do media ← get_by_id ext media_id; fresh_playback media_id media

  unfoldable pub get_playback_by_media_id : Text → Exec X PlaybackOutput
  get_playback_by_media_id media_id =
      if is_empty (trim_space media_id)
      then raise invalid_upload_input
      else do hit ← cached_record media_id; any_playback media_id hit

module _ (ext : External) (s : UploadService) where
  open ext use {X, redis_get}

  abbrev manifest_of : Option Text → Exec X Text
  manifest_of none = raise invalid_manifest_key
  manifest_of (some media_id) = do
    media ← get_by_id ext media_id
    out ← build_playback ext s media
    pure out.manifest

  unfoldable pub resolve_playback_manifest : Text → Exec X Text
  resolve_playback_manifest token =
      if is_empty (trim_space token) || not s.has_cache then raise invalid_manifest_key else do
        media_id ← call (redis_get (playback_manifest_token_key (trim_space token)))
        manifest_of media_id
