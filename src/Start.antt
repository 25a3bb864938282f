-- ===== src/Start.antt =====
-- cmd/api/main.go: how the settings reach the services, and the two loops that run beside the
-- server; with `NewStorageService` and `RunDaily` of internal/service. A loop is given the number of
-- ticks that it has waited for.
pub mod Boot
pub mod Connected
use api_calixio.Prelude.{ℕ, zero, suc, true, not, Option, none, some, List, if◌then◌else◌}
use api_calixio.Text.{Text}
use api_calixio.Integer.{ℤ, pos, negsuc, is_pos}
use api_calixio.External.{External}
use api_calixio.Machine.{Machine}
use api_calixio.Exec.{Exec, pure, attempt, ◌>>=◌, ◌>>◌}
use api_calixio.Auth.{AuthConfig}
use api_calixio.Storage.Objects.{StorageService}
use api_calixio.Upload.{NewUploadServiceInput, new_upload_service}
use api_calixio.Upload.Playback.{CacheFormats}
use api_calixio.Playback.{Formats}
use api_calixio.RoomService.{end_stale_active_rooms}
use api_calixio.Cleanup.{run_once}
use api_calixio.Transcoder.Commands.{TranscoderService}
use api_calixio.Transcoder.Worker.{NewTranscoderInput, new_transcoder}
use api_calixio.Config.{Config, AwsConfig, LiveKitConfig}
use api_calixio.LiveKit.{Client, new_client}
use api_calixio.Http.Codec.{Codec, Site}

-- The fields of the service that `NewStorageService` returns, but for the clients.
unfoldable pub storage_service : AwsConfig → StorageService
storage_service aws = record {
  bucket = aws.bucket;
  region = aws.region;
  endpoint = aws.endpoint;
  public_url = aws.public_url;
}

abbrev transcoder_input : Config → NewTranscoderInput
transcoder_input cfg = record {
  storage = storage_service cfg.aws;
  ffmpeg_path = cfg.transcoding.ffmpeg_path;
  ffprobe_path = cfg.transcoding.ffprobe_path;
  work_dir = cfg.transcoding.work_dir;
  segment_duration = cfg.transcoding.hls_segment_sec;
  queue_size = cfg.transcoding.queue_size;
  job_timeout = cfg.transcoding.job_timeout;
}

-- The capacity of a channel that was made with a positive size.
abbrev capacity : ℤ → ℕ
capacity (pos n) = n
capacity (negsuc n) = 0

abbrev queue_of : Option TranscoderService → Option ℕ
queue_of none = none
queue_of (some t) = some (capacity t.queue_size)

abbrev upload_input : Config → Option TranscoderService → NewUploadServiceInput
upload_input cfg t = record {
  storage = storage_service cfg.aws;
  transcoder = queue_of t;
  has_cache = true;
  max_size_bytes = cfg.aws.max_upload_bytes;
  allowed_mime_types = cfg.aws.allowed_mimes;
  presign_url_ttl = cfg.aws.presign_ttl;
  playback_signed_ttl = cfg.signed_ttl;
}

abbrev auth_config : Config → AuthConfig
auth_config cfg = record {
  secret = cfg.jwt_secret;
  access_ttl = cfg.access_ttl;
  refresh_ttl = cfg.refresh_ttl;
}

-- The client of LiveKit for the settings.
unfoldable pub live_kit_client : LiveKitConfig → Client
unfolding new_client
live_kit_client c =
    new_client c.host c.api_key c.api_secret c.webhook_secret c.room_auto_timeout c.token_ttl

-- `if d <= 0 { d = fallback }`, in nanoseconds
abbrev or_default : ℤ → ℕ → ℤ
or_default d fallback = if is_pos d then d else pos fallback

module _ (ext : External) where
  open ext use {X, to_lower}

  -- The transcoder, if the settings ask for one.
  unfoldable pub start_transcoder : Machine X → Config → Exec X (Option TranscoderService)
  start_transcoder m cfg =
      if not cfg.transcoding.enabled
      then pure none
      else do t ← new_transcoder ext m (transcoder_input cfg); pure (some t)

  -- What the handlers are given.
  unfoldable pub site_of :
      CacheFormats → (fmt : Formats) → Codec fmt.Rate → Config → Option TranscoderService → Site ext
  site_of cache_formats fmt codec cfg t = record {
    auth = auth_config cfg;
    upload = new_upload_service to_lower (upload_input cfg t);
    cache_formats = cache_formats;
    formats = fmt;
    codec = codec;
  }

  -- `startStaleActiveRoomsCloser`: an error is only logged.
  unfoldable pub close_stale_rooms : ℤ → ℕ → Exec X (Unit {0})
  close_stale_rooms min_age zero = pure tt
  close_stale_rooms min_age (suc ticks) = do
    attempt (end_stale_active_rooms ext (or_default min_age 86400000000000))
    close_stale_rooms min_age ticks

  -- `RunDaily`: an error is only logged.
  unfoldable pub run_daily :
      (List (Text × Text) → List (Text × Text)) → StorageService → ℤ → ℕ → Exec X (Unit {0})
  run_daily order s batch_size zero = pure tt
  run_daily order s batch_size (suc ticks) = do
    attempt (run_once ext s order batch_size)
    run_daily order s batch_size ticks
