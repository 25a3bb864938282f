-- ===== src/Access.antt =====
-- internal/http/middleware/auth.go: which requests reach the protected routes.
pub mod Bearer
pub mod Revocation
use api_calixio.Prelude.{
  ℕ, ◌+◌, Bool, true, false, not, ◌&&◌, ◌||◌, Option, none, some, List, [], ◌∷◌, map, leb, ◌==◌,
  if◌then◌else◌,
}
use api_calixio.Text.{Text, codes, text_eq, is_empty}
use api_calixio.External.{External, Claims}
use api_calixio.Exec.{Exec, Result, ok, err, pure, attempt, ◌>>=◌}
use api_calixio.Repository.Sessions.{is_access_revoked}
use api_calixio.Auth.{AuthConfig, parse_token}

-- The request goes on with a user in its context, or it is answered with a status and a code.
pub data Verdict : Type 0 where
  passed : Text → Verdict
  refused : ℕ → Text → Verdict

-- `strings.SplitN(s, " ", 2)`, if it has two parts
abbrev pub cut_space : Text → Option (Text × Text)
cut_space [] = none
cut_space (c ∷ s) =
    let rest = cut_space s in
    if c == b' ' then some ([], s) else elim rest [ none ↦ none | some p ↦ some (c ∷ p.0, p.1) ]

-- `strings.EqualFold` with a word in whose folding no letter outside ASCII takes part
abbrev pub ascii_lower : ℕ → ℕ
ascii_lower c = if leb b'A' c && leb c b'Z' then c + 32 else c

abbrev after_scheme : Option (Text × Text) → Option Text
after_scheme none = none
after_scheme (some (scheme, token)) =
    if text_eq (map ascii_lower scheme) (codes "bearer") then some token else none

-- The token of an `Authorization` header.
unfoldable pub bearer_token : Text → Option Text
bearer_token header = after_scheme (cut_space header)

module _ (ext : External) (cfg : AuthConfig) where
  open ext use {X}

  abbrev revocation_verdict : Claims → Result Bool → Verdict
  revocation_verdict c (err e) = refused 500 (codes "token_check_failed")
  revocation_verdict c (ok true) = refused 401 (codes "token_revoked")
  revocation_verdict c (ok false) = passed c.subject

  -- `has_sessions` is `sessions != nil`.
  abbrev check_claims : Bool → Result Claims → Exec X Verdict
  check_claims has_sessions (err e) = pure (refused 401 (codes "invalid_token"))
  check_claims has_sessions (ok c) =
      if is_empty c.jti || not has_sessions
      then pure (passed c.subject)
      else do r ← attempt (is_access_revoked ext c.jti); pure (revocation_verdict c r)

  abbrev check_token : Bool → Option Text → Exec X Verdict
  check_token has_sessions none = pure (refused 401 (codes "invalid_auth"))
  check_token has_sessions (some token) = do
    r ← attempt (parse_token ext cfg token)
    check_claims has_sessions r

  unfoldable pub authorize : Bool → Text → Exec X Verdict
  authorize has_sessions header =
      if is_empty header
      then pure (refused 401 (codes "missing_auth"))
      else check_token has_sessions (bearer_token header)
