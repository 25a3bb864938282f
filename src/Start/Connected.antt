-- ===== src/Start/Connected.antt =====
-- What holds when cmd/api/main.go starts to serve.
use api_calixio.Prelude.{
  true, false, not, Option, none, some, ◌≡◌, refl, sym, ap, ◌∙◌, arith, inl, inr, subst,
}
use api_calixio.Text.{codes, text_eq, is_empty}
use api_calixio.Integer.{is_pos}
use api_calixio.External.{External}
use api_calixio.Machine.{Machine}
use api_calixio.Exec.{World, Result, ok, err, got, call, Result-cases, >>=-eq-ok, pure-ok}
use api_calixio.Exec.Quiet.{IsApart, IsQuiet}
use api_calixio.Repository.Sql.{is_null}
use api_calixio.Config.Environment.{Env, DotEnv}
use api_calixio.Config.{Config, Parsers, unset_secret, load}
use api_calixio.Config.Loading.{load-ok}
use api_calixio.Transcoder.Commands.{TranscoderService}
use api_calixio.Transcoder.Worker.{new_transcoder}
use api_calixio.Start.{start_transcoder}
use api_calixio.Start.Boot.{
  Connections, Booted, static_credentials, new_storage_service, loaded_config, main,
}

module _ (ext : External) (m : Machine ext.X) (p : Parsers) (c : Connections ext.X) where
  open ext use {X}

  -- A transcoder has room in its queue and time for a job.
  abbrev pub HasRoom : Option TranscoderService → Type 0
  HasRoom none = Unit
  HasRoom (some t) = (is_pos t.queue_size ≡ true) × (is_pos t.job_timeout ≡ true)

  loaded_config-ok :
      (r : Result Config) (w : World X) (cfg : Config)
      → (loaded_config ext m p c r w).0 ≡ ok cfg
      → (r ≡ ok cfg) × ((loaded_config ext m p c r w).1 ≡ w)
  loaded_config-ok (ok cfg') w cfg h = (h, refl)
  loaded_config-ok (err e) w cfg h = cc

  start_transcoder-ok :
      (cfg : Config) (w : World X) (t : Option TranscoderService)
      → (start_transcoder ext m cfg w).0 ≡ ok t
      → (is_null t ≡ not cfg.transcoding.enabled) × HasRoom t
  unfolding start_transcoder new_transcoder
  start_transcoder-ok cfg w t h = ground arith

  main-IsQuiet : (file : DotEnv) (env : Env) → IsQuiet (main ext m p c file env)
  unfolding main new_storage_service start_transcoder new_transcoder
  main-IsQuiet file env w = ground arith

  -- The database and Redis have answered their pings, with the addresses of the settings, and the
  -- AWS settings were loaded.
  abbrev pub IsConnected : Config → X → Type 0
  IsConnected cfg x =
      let x1 = (c.new_logger (text_eq cfg.env (codes "prod")) x).1 in
      let x2 = (c.open_pool cfg.database_url x1).1 in
      let x3 = (c.ping_pool x2).1 in
      let x4 = (c.ping_redis cfg.redis_addr cfg.redis_db x3).1 in
      ((c.open_pool cfg.database_url x1).0 ≡ got tt)
      × ((c.ping_pool x2).0 ≡ got tt)
      × ((c.ping_redis cfg.redis_addr cfg.redis_db x3).0 ≡ got tt)
      × ((c.load_aws (static_credentials cfg.aws) cfg.aws.region x4).0 ≡ got tt)

  serving :
      (cfg : Config) (w v : World X) (b : Booted) (file : DotEnv) (env : Env)
      → load p file env ≡ ok cfg
      → main ext m p c file env w ≡ (ok b, v)
      → (b.config ≡ cfg)
        × IsConnected cfg w.outside
        × (is_null b.transcoder ≡ not cfg.transcoding.enabled)
        × HasRoom b.transcoder
  unfolding main new_storage_service
  serving cfg w v b file env loaded h =
      let h0 = rw (loaded, main) at h in
      let logger = call (c.new_logger (text_eq cfg.env (codes "prod"))) in
      let (a1, e1, h1) = >>=-eq-ok logger _ w h0 in
      let u1 = (logger w).1 in
      let (a2, e2, h2) = >>=-eq-ok (call (c.open_pool cfg.database_url)) _ u1 h1 in
      let u2 = (call (c.open_pool cfg.database_url) u1).1 in
      let (a3, e3, h3) = >>=-eq-ok (call c.ping_pool) _ u2 h2 in
      let u3 = (call c.ping_pool u2).1 in
      let redis = call (c.ping_redis cfg.redis_addr cfg.redis_db) in
      let (a4, e4, h4) = >>=-eq-ok redis _ u3 h3 in
      let u4 = (redis u3).1 in
      let (a5, e5, h5) = >>=-eq-ok (new_storage_service ext m p c cfg.aws) _ u4 h4 in
      let u5 = (new_storage_service ext m p c cfg.aws u4).1 in
      let (t, e6, h6) = >>=-eq-ok (start_transcoder ext m cfg) _ u5 h5 in
      let (same, last) = pure-ok _ (start_transcoder ext m cfg u5).1 h6 in
      let (there, room) = start_transcoder-ok cfg u5 t e6 in
      (
        ap (λ (q : Booted). q.config) same,
        (ground arith, ground arith, ground arith, ground arith),
        ap (λ (q : Booted). is_null q.transcoder) same ∙ there,
        subst (λ (q : Booted). HasRoom q.transcoder) (sym same) room,
      )

  -- The program comes to serve only with settings that were loaded, a secret that is neither empty
  -- nor the default one, and a database and a Redis server that have answered their pings; it then
  -- has a transcoder exactly if the settings enable it, with a queue that can hold a job; and it has
  -- not changed a table.
  pub main-ok :
      (file : DotEnv) (env : Env) (w v : World X) (b : Booted)
      → main ext m p c file env w ≡ (ok b, v)
      → (load p file env ≡ ok b.config)
        × IsConnected b.config w.outside
        × (is_empty b.config.jwt_secret ≡ false)
        × (text_eq b.config.jwt_secret unset_secret ≡ false)
        × (is_null b.transcoder ≡ not b.config.transcoding.enabled)
        × HasRoom b.transcoder
        × IsApart w v
  unfolding main
  main-ok file env w v b h = elim (Result-cases (load p file env)) [
    | inr (e, bad) ↦ let stop = rw (bad, main) at h in cc
    | inl (cfg, loaded) ↦
        let (same, linked, there, room) = serving cfg w v b file env loaded h in
        let (full, fresh, origin) = load-ok p file env cfg loaded in
        let quiet = subst (λ q. IsApart w q.1) h (main-IsQuiet file env w) in
        subst
          (λ (q : Config).
            (load p file env ≡ ok q)
            × IsConnected q w.outside
            × (is_empty q.jwt_secret ≡ false)
            × (text_eq q.jwt_secret unset_secret ≡ false)
            × (is_null b.transcoder ≡ not q.transcoding.enabled)
            × HasRoom b.transcoder
            × IsApart w v)
          (sym same) (loaded, linked, full, fresh, there, room, quiet)
  ]
