-- ===== src/Config/Loading.antt =====
-- What settings `Load` of internal/config/config.go lets the program start with.
use api_calixio.Prelude.{
  false, none, some, List, [], ◌≡◌, refl, sym, ap, subst, ◌∙◌, arith, Bool-cases, Option-cases, inl,
  inr,
}
use api_calixio.Text.{Text, codes, text_eq, is_empty}
use api_calixio.Text.Laws.{text_eq_refl}
use api_calixio.Exec.{Result, ok, err, Result-cases}
use api_calixio.Config.Environment.{
  Env, DotEnv, missing, unreadable, lines_of, lookup_env, load_lines, load_dot_env, first_setting,
  or_setting, lookup-load_lines, getenv,
}
use api_calixio.Config.{Config, Parsers, unset_secret, read_config, load}

-- The lines of the file, if there are any.
abbrev pub dot_env_lines : DotEnv → List Text
dot_env_lines (lines_of ls e) = ls
dot_env_lines missing = []
dot_env_lines (unreadable n) = []

abbrev secret_of : Result Config → Text
secret_of (ok cfg) = cfg.jwt_secret
secret_of (err e) = []

module _ (p : Parsers) where
  -- The variable in the loaded environment: from the environment of the process, or else from the
  -- first line that sets it.
  lookup-load_dot_env :
      (file : DotEnv) (env loaded : Env) (name : Text)
      → load_dot_env p.settable file env ≡ ok loaded
      → lookup_env loaded name
        ≡ or_setting (lookup_env env name) (first_setting p.settable (dot_env_lines file) name)
  unfolding load_dot_env
  lookup-load_dot_env missing env loaded name h = ground arith
  lookup-load_dot_env (unreadable n) env loaded name h = cc
  lookup-load_dot_env (lines_of ls none) env loaded name h =
      let same : load_lines p.settable env ls ≡ loaded = ground arith in
      ap (λ (e : Env). lookup_env e name) (sym same) ∙ lookup-load_lines p.settable env ls name
  lookup-load_dot_env (lines_of ls (some e)) env loaded name h = cc

  secret_set :
      (env : Env)
      → text_eq (getenv env (codes "JWT_SECRET") unset_secret) unset_secret ≡ false
      → (lookup_env env (codes "JWT_SECRET") ≡ some (getenv env (codes "JWT_SECRET") unset_secret))
        × (is_empty (getenv env (codes "JWT_SECRET") unset_secret) ≡ false)
  unfolding getenv
  secret_set env h = elim (Option-cases (lookup_env env (codes "JWT_SECRET"))) [
    | inl e ↦ let bad = rw (e, getenv) at h in ground (arith, text_eq_refl unset_secret)
    | inr (v, e) ↦ elim (Bool-cases (is_empty v)) [
      | inl empty ↦
          let bad = rw (e, empty, getenv) at h in ground (arith, text_eq_refl unset_secret)
      | inr full ↦ rw (e, full, getenv) (refl, full)
    ]
  ]

  -- The program starts only with a secret for its tokens that is neither empty nor the default one;
  -- and this is the value of `JWT_SECRET` in the environment of the process, if the variable is
  -- there, and else the value in the first line of `.env` that sets it.
  pub load-ok :
      (file : DotEnv) (env : Env) (cfg : Config)
      → load p file env ≡ ok cfg
      → (is_empty cfg.jwt_secret ≡ false)
        × (text_eq cfg.jwt_secret unset_secret ≡ false)
        × (or_setting
              (lookup_env env (codes "JWT_SECRET"))
              (first_setting p.settable (dot_env_lines file) (codes "JWT_SECRET"))
            ≡ some cfg.jwt_secret)
  unfolding load read_config
  load-ok file env cfg h = elim (Result-cases (load_dot_env p.settable file env)) [
    | inr (x, e) ↦ let bad = rw (e, load) at h in cc
    | inl (loaded, e) ↦
        let found = lookup-load_dot_env file env loaded (codes "JWT_SECRET") e in
        elim (Bool-cases (text_eq (read_config p loaded).jwt_secret unset_secret)) [
          | inl unset ↦ let bad = rw (e, unset, load) at h in cc
          | inr fine ↦
              let same = rw (e, fine, load) at h in
              let (there, full) = secret_set loaded fine in
              subst
                (λ s.
                  (is_empty s ≡ false)
                  × (text_eq s unset_secret ≡ false)
                  × (or_setting (lookup_env env (codes "JWT_SECRET"))
                        (first_setting p.settable (dot_env_lines file) (codes "JWT_SECRET"))
                      ≡ some s))
                (ap secret_of same) (full, fine, sym found ∙ there)
        ]
  ]
