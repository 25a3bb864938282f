-- ===== src/Tests/Settings.antt =====
-- A start with a file `.env`.
use api_calixio.Prelude.{true, false, none, some, List, [], ◌∷◌, ◌≡◌, refl}
use api_calixio.Text.{Text, codes, text_eq, is_empty, has_prefix, trim_space, split}
use api_calixio.Integer.{pos}
use api_calixio.Exec.{ok, got}
use api_calixio.Config.Environment.{
  Env, DotEnv, lines_of, lookup_env, parse_line, load_lines, load_dot_env, first_setting,
  or_setting, getenv, getenv_csv,
}
use api_calixio.Config.{Config, Parsers, unset_secret, read_config, load}
use api_calixio.Config.Loading.{load-ok}

abbrev pub parsers : Parsers
parsers = record {
  settable = λ k v. true;
  atoi = λ t. got (pos 1);
  parse_int = λ t. got (pos 1);
  parse_duration = λ t. got (pos 1);
}

abbrev pub env_lines : List Text
env_lines =
    codes "# secrets"
    ∷ codes " JWT_SECRET = abc=d "
    ∷ codes "JWT_SECRET=later"
    ∷ codes "CORS_ALLOWED_ORIGINS= , a,b "
    ∷ []

abbrev pub file : DotEnv
file = lines_of env_lines none

abbrev pub environment : Env
environment = (codes "REDIS_ADDR", codes "r:1") ∷ []

abbrev settings : Config
settings = read_config parsers (load_lines parsers.settable environment env_lines)

load_run : load parsers file environment ≡ ok settings
unfolding load load_dot_env load_lines read_config getenv text_eq parse_line has_prefix trim_space
load_run = refl

origins_run : settings.cors_origins ≡ codes "a" ∷ codes "b" ∷ []
unfolding load_lines read_config getenv_csv text_eq parse_line has_prefix trim_space split
origins_run = refl

load-ok_example :
    (is_empty settings.jwt_secret ≡ false)
    × (text_eq settings.jwt_secret unset_secret ≡ false)
    × (or_setting
          (lookup_env environment (codes "JWT_SECRET"))
          (first_setting parsers.settable env_lines (codes "JWT_SECRET"))
        ≡ some settings.jwt_secret)
load-ok_example = load-ok parsers file environment settings load_run
