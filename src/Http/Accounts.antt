-- ===== src/Http/Accounts.antt =====
-- internal/http/handlers/auth/handler.go
use api_calixio.Prelude.{Bool, none, some, if◌then◌else◌}
use api_calixio.Text.{Text, codes}
use api_calixio.Integer.{ℤ, add_duration}
use api_calixio.External.{External}
use api_calixio.Exec.{
  Exec, Error, ok, err, already_exists, invalid_credentials, session_not_found, pure, attempt,
  observe, ◌>>=◌,
}
use api_calixio.Auth.{login, register, refresh}
use api_calixio.Http.Message.{
  Response, RefreshCookie, same_site_none, same_site_lax, respond, respond_error, login_body,
  register_body, refresh_body,
}
use api_calixio.Http.Reading.{Handler, fail, read_body}
use api_calixio.Http.Codec.{Request, LoginRequest, RegisterRequest, Site}

module _ (ext : External) (site : Site ext) where
  open ext use {X, now, to_lower}
  open site use {auth, formats, codec}

  -- `setRefreshCookie`
  unfoldable pub refresh_cookie : Bool → Text → ℤ → Exec X RefreshCookie
  refresh_cookie secure token ttl = do
    t ← observe now
    pure (record {
      value = token;
      max_age = codec.seconds ttl;
      expires = add_duration t ttl;
      secure = secure;
      same_site = if secure then same_site_none else same_site_lax;
    })

  abbrev login_error : Error → Response formats.Rate
  login_error invalid_credentials = respond_error 401 (codes "invalid_credentials")
  login_error _ = respond_error 500 (codes "login_failed")

  abbrev login_valid : Bool → LoginRequest → Handler ext site
  login_valid secure req = do
    r ← attempt (login ext auth req.email req.password)
    elim r [
      | err e ↦ pure (login_error e)
      | ok result ↦ do
        cookie ← refresh_cookie secure result.refresh_token auth.refresh_ttl
        pure (record {
          status = 200;
          cookie = some cookie;
          content = login_body (record {
            name = result.name;
            access_token = result.access_token;
            access_ttl = codec.seconds auth.access_ttl;
            refresh_ttl = codec.seconds auth.refresh_ttl;
          });
        })
    ]

  unfoldable pub login_handler : Request → Handler ext site
  login_handler r = read_body ext site codec.login r.body (login_valid r.secure)

  abbrev register_error : Error → Response formats.Rate
  register_error already_exists = respond_error 409 (codes "email_exists")
  register_error _ = respond_error 500 (codes "register_failed")

  abbrev register_valid : RegisterRequest → Handler ext site
  register_valid req = do
    r ← attempt (register ext auth req.name req.email req.password)
    elim r [
      | err e ↦ pure (register_error e)
      | ok id ↦ pure (respond 201 (register_body (record { user_id = id })))
    ]

  unfoldable pub register_handler : Request → Handler ext site
  register_handler r = read_body ext site codec.register r.body register_valid

  abbrev refresh_error : Error → Response formats.Rate
  refresh_error session_not_found = respond_error 401 (codes "invalid_refresh")
  refresh_error _ = respond_error 500 (codes "refresh_failed")

  unfoldable pub refresh_handler : Request → Handler ext site
  refresh_handler req = elim req.refresh_token [
    | none ↦ fail ext site 400 (codes "refresh_token_required")
    | some token ↦ do
      r ← attempt (refresh ext auth token)
      elim r [
        | err e ↦ pure (refresh_error e)
        | ok result ↦ do
          cookie ← refresh_cookie req.secure result.refresh_token auth.refresh_ttl
          pure (record {
            status = 200;
            cookie = some cookie;
            content = refresh_body (record {
              user_id = result.user_id;
              access_token = result.access_token;
              access_ttl = codec.seconds auth.access_ttl;
              refresh_ttl = codec.seconds auth.refresh_ttl;
              version = result.version;
            });
          })
      ]
  ]
