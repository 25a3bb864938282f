-- ===== src/Tests/Boot.antt =====
-- A start of the program, and its CORS options.
use api_calixio.Prelude.{true, false, not, some, [], ◌∷◌, ◌++◌, ◌≡◌, refl, any}
use api_calixio.Text.{codes, text_eq, is_empty, trim_space, has_prefix}
use api_calixio.Integer.{pos}
use api_calixio.Exec.{ok, got}
use api_calixio.Exec.Quiet.{IsApart}
use api_calixio.Config.Environment.{
  Env, getenv, getenv_number, parse_line, load_lines, load_dot_env,
}
use api_calixio.Config.{Config, unset_secret, read_config, load}
use api_calixio.Transcoder.Worker.{new_transcoder}
use api_calixio.Start.{storage_service, start_transcoder, live_kit_client}
use api_calixio.Start.Boot.{Connections, Booted, client_options, new_storage_service, main}
use api_calixio.Start.Connected.{IsConnected, HasRoom, main-ok}
use api_calixio.Http.Cors.{is_wildcard, proper, own_origin, cors_options, cors_options-ok}
use api_calixio.Tests.Outside.{Outside, ext}
use api_calixio.Tests.Accounts.{base}
use api_calixio.Tests.Worker.{machine}
use api_calixio.Tests.Settings.{parsers, file, environment, env_lines}

-- Everything answers.
abbrev connections : Connections Outside
connections = record {
  new_logger = λ prod x. (got tt, x);
  open_pool = λ url x. (got tt, x);
  ping_pool = λ x. (got tt, x);
  ping_redis = λ addr db x. (got tt, x);
  load_aws = λ keys region x. (got tt, x);
}

abbrev with_transcoder : Env
with_transcoder = (codes "TRANSCODER_ENABLED", codes "true") ∷ environment

abbrev loaded : Config
loaded = read_config parsers (load_lines parsers.settable with_transcoder env_lines)

abbrev started : Booted
started = record {
  config = loaded;
  live_kit = live_kit_client loaded.live_kit;
  storage = storage_service loaded.aws;
  storage_client = client_options loaded.aws;
  transcoder = some (record {
    storage = storage_service loaded.aws;
    ffmpeg_path = codes "ffmpeg";
    ffprobe_path = codes "ffprobe";
    work_dir = [];
    segment_duration = pos 6;
    queue_size = pos 32;
    job_timeout = pos 14400000000000;
  });
}

main_run : main ext machine parsers connections file with_transcoder base ≡ (ok started, base)
unfolding main new_storage_service start_transcoder new_transcoder load load_dot_env load_lines
    read_config getenv getenv_number text_eq parse_line has_prefix trim_space
main_run = refl

main-ok_example :
    (load parsers file with_transcoder ≡ ok loaded)
    × IsConnected ext machine parsers connections loaded base.outside
    × (is_empty loaded.jwt_secret ≡ false)
    × (text_eq loaded.jwt_secret unset_secret ≡ false)
    × (false ≡ not loaded.transcoding.enabled)
    × HasRoom ext machine parsers connections started.transcoder
    × IsApart base base
main-ok_example =
    main-ok ext machine parsers connections file with_transcoder base base started main_run

cors_options-ok_example :
    ((cors_options (codes "*" ∷ codes "a" ∷ [])).allowed_origins
      ≡ proper (codes "*" ∷ codes "a" ∷ []) ++ (own_origin ∷ []))
    × (any is_wildcard (cors_options (codes "*" ∷ codes "a" ∷ [])).allowed_origins ≡ false)
    × ((cors_options (codes "*" ∷ codes "a" ∷ [])).any_origin
        ≡ any is_wildcard (codes "*" ∷ codes "a" ∷ []))
    × ((cors_options (codes "*" ∷ codes "a" ∷ [])).allow_credentials ≡ true)
cors_options-ok_example = cors_options-ok (codes "*" ∷ codes "a" ∷ [])
