-- ===== src/Access/Bearer.antt =====
-- internal/http/authn/middleware.go: the middleware that asks for the token alone.
use api_calixio.Prelude.{
  true, false, Option, none, some, ◌≡◌, ◌⊎◌, inl, inr, Bool-cases, Option-cases, arith,
  if◌then◌else◌,
}
use api_calixio.Text.{Text, codes, is_empty}
use api_calixio.External.{External, Claims}
use api_calixio.Exec.{Exec, World, Result, ok, err, Reply-cases, Result-cases, pure, attempt, ◌>>=◌}
use api_calixio.Repository.Sessions.{is_access_revoked}
use api_calixio.Auth.{AuthConfig, parse_token}
use api_calixio.Access.{Verdict, passed, refused, bearer_token, authorize}

module _ (ext : External) (cfg : AuthConfig) where
  open ext use {X}

  abbrev parsed_verdict : Result Claims → Verdict
  parsed_verdict (err e) = refused 401 (codes "invalid_token")
  parsed_verdict (ok c) = passed c.subject

  abbrev token_verdict : Option Text → Exec X Verdict
  token_verdict none = pure (refused 401 (codes "invalid_auth"))
  token_verdict (some token) = do r ← attempt (parse_token ext cfg token); pure (parsed_verdict r)

  unfoldable pub authenticate : Text → Exec X Verdict
  authenticate header =
      if is_empty header
      then pure (refused 401 (codes "missing_auth"))
      else token_verdict (bearer_token header)

  -- The older middleware does what the newer one does without a store of sessions.
  pub authenticate-authorize :
      (header : Text) (w : World X) → authenticate header w ≡ authorize ext cfg false header w
  unfolding authenticate authorize parse_token
  authenticate-authorize header w = ground arith

  -- The router's middleware decides as the older one does; or the older one lets the request pass
  -- as some user and the router's refuses it, because the token is revoked or because the sessions
  -- could not be asked.
  pub authorize_narrows :
      (header : Text) (w : World X)
      → ((authorize ext cfg true header w).0 ≡ (authenticate header w).0)
        ⊎ ((user : Text) × ((authenticate header w).0 ≡ ok (passed user))
            × (((authorize ext cfg true header w).0 ≡ ok (refused 401 (codes "token_revoked")))
                ⊎ ((authorize ext cfg true header w).0
                    ≡ ok (refused 500 (codes "token_check_failed")))))
  unfolding authenticate authorize parse_token is_access_revoked
  authorize_narrows header w = elim (Bool-cases (is_empty header)) [
    | inl e ↦ inl (ground arith)
    | inr e ↦ elim (Option-cases (bearer_token header)) [
      | inl no_token ↦ inl (ground arith)
      | inr (token, b) ↦ elim (Reply-cases (ext.jwt_parse cfg.secret token (ext.now w.outside).0)) [
        | inr (n, bad) ↦ inl (ground arith)
        | inl (c, good) ↦ elim (Bool-cases (is_empty c.jti)) [
          | inl no_id ↦ inl (ground arith)
          | inr has_id ↦
              elim (Result-cases
                (is_access_revoked ext c.jti (record w { outside = (ext.now w.outside).1 })).0) [
                  | inr (x, bad) ↦ inr (c.subject, ground arith, inr (ground arith))
                  | inl (revoked, asked) ↦ elim (Bool-cases revoked) [
                    | inl is_dead ↦ inr (c.subject, ground arith, inl (ground arith))
                    | inr is_alive ↦ inl (ground arith)
                  ]
                ]
        ]
      ]
    ]
  ]
