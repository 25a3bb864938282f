-- ===== src/Start/Boot.antt =====
-- `main` of cmd/api/main.go up to the server, and `NewStorageService` of
-- internal/service/storage.go. A panic and a `logger.Fatal` are errors: nothing comes after them.
use api_calixio.Prelude.{Bool, ◌||◌, Option, none, some, if◌then◌else◌}
use api_calixio.Text.{Text, codes, text_eq, is_empty}
use api_calixio.Integer.{ℤ}
use api_calixio.External.{External}
use api_calixio.Machine.{Machine}
use api_calixio.Exec.{Exec, Result, ok, err, Reply, pure, raise, call, ◌>>=◌, ◌>>◌}
use api_calixio.Config.Environment.{Env, DotEnv}
use api_calixio.Config.{Config, AwsConfig, Parsers, load}
use api_calixio.Storage.Objects.{StorageService}
use api_calixio.Transcoder.Commands.{TranscoderService}
use api_calixio.LiveKit.{Client}
use api_calixio.Start.{storage_service, start_transcoder, live_kit_client}

-- The packages that `main` connects with: zap (whether for production), pgx, go-redis and the
-- loader of the AWS settings, which is given static credentials if there are any.
pub record Connections (X : Type 0) : Type 0 where
  pub new_logger : Bool → X → Reply (Unit {0}) × X
  pub open_pool : Text → X → Reply (Unit {0}) × X
  pub ping_pool : X → Reply (Unit {0}) × X
  pub ping_redis : Text → ℤ → X → Reply (Unit {0}) × X
  pub load_aws : Option (Text × Text) → Text → X → Reply (Unit {0}) × X

-- The options of the S3 client.
pub record ClientOptions : Type 0 where
  pub region : Text
  pub endpoint : Option Text
  pub path_style : Bool

abbrev pub static_credentials : AwsConfig → Option (Text × Text)
static_credentials aws =
    if is_empty aws.access_key_id || is_empty aws.secret_access_key
    then none
    else some (aws.access_key_id, aws.secret_access_key)

abbrev pub client_options : AwsConfig → ClientOptions
client_options aws = record {
  region = aws.region;
  endpoint = if is_empty aws.endpoint then none else some aws.endpoint;
  path_style = aws.path_style;
}

-- What `main` has made when it starts to serve.
pub record Booted : Type 0 where
  pub config : Config
  pub live_kit : Client
  pub storage : StorageService
  pub storage_client : ClientOptions
  pub transcoder : Option TranscoderService

module _ (ext : External) (m : Machine ext.X) (p : Parsers) (c : Connections ext.X) where
  open ext use {X}

  unfoldable pub new_storage_service : AwsConfig → Exec X (StorageService × ClientOptions)
  new_storage_service aws = do
    call (c.load_aws (static_credentials aws) aws.region)
    pure (storage_service aws, client_options aws)

  abbrev pub loaded_config : Result Config → Exec X Config
  loaded_config (ok cfg) = pure cfg
  loaded_config (err e) = raise e

  unfoldable pub main : DotEnv → Env → Exec X Booted
  main file env = do
    cfg ← loaded_config (load p file env)
    call (c.new_logger (text_eq cfg.env (codes "prod")))
    call (c.open_pool cfg.database_url)
    call c.ping_pool
    call (c.ping_redis cfg.redis_addr cfg.redis_db)
    s ← new_storage_service cfg.aws
    t ← start_transcoder ext m cfg
    pure (record {
      config = cfg;
      live_kit = live_kit_client cfg.live_kit;
      storage = s.0;
      storage_client = s.1;
      transcoder = t;
    })
