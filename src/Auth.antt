-- ===== src/Auth.antt =====
-- internal/service/auth.go over internal/http/authn/jwt.go.
pub mod Rotation
pub mod Login
use api_calixio.Prelude.{
  ℕ, ◌+◌, Bool, true, false, not, Option, none, some, List, [], ◌∷◌, ltb, if◌then◌else◌,
}
use api_calixio.Text.{Text}
use api_calixio.Integer.{ℤ, add_duration}
use api_calixio.Hex.{hex}
use api_calixio.Records.{User, Session}
use api_calixio.External.{External, Claims}
use api_calixio.Exec.{
  Exec, World, Error, Result, Reply, ok, err, got, failed, external, not_found, invalid_credentials,
  session_not_found, pure, raise, guard, attempt, call, observe, ◌>>=◌, ◌>>◌,
}
use api_calixio.Repository.Users.{create_user, get_by_email}
use api_calixio.Repository.Sessions.{store, get_by_refresh_token_hash, rotate}

-- The settings of `JWTService` and of `AuthService`.
pub record AuthConfig : Type 0 where
  pub secret : Text
  pub access_ttl : ℤ
  pub refresh_ttl : ℤ

pub record LoginResult : Type 0 where
  pub user_id : Text
  pub name : Text
  pub access_token : Text
  pub refresh_token : Text

pub record RefreshResult : Type 0 where
  pub user_id : Text
  pub access_token : Text
  pub refresh_token : Text
  pub version : ℕ

-- `errors.Is(err, repository.ErrNotFound)`
abbrev pub is_not_found : Error → Bool
is_not_found not_found = true
is_not_found _ = false

module _ (ext : External) where
  open ext use {X, now, uuid, random, sha256, bcrypt_hash, bcrypt_match, jwt_sign, jwt_parse}

  unfoldable pub hash_token : Text → Text
  hash_token raw = hex (sha256 raw)

  unfoldable pub generate_refresh_token : Exec X (Text × Text)
  generate_refresh_token = do
    bytes ← call (random 32)
    let raw = hex bytes
    pure (raw, hash_token raw)

  module _ (cfg : AuthConfig) where
    -- `IssueAccessToken`: the token and its id.
    unfoldable pub issue_token : Text → Text → Exec X (Text × Text)
    issue_token user_id username = do
      t ← observe now
      jti ← observe uuid
      let claims : Claims = record {
        jti = jti;
        subject = user_id;
        issued_at = t;
        expires_at = add_duration t cfg.access_ttl;
        username = username;
      }
      token ← call (λ x. (jwt_sign cfg.secret claims, x))
      pure (token, jti)

    unfoldable pub parse_token : Text → Exec X Claims
    parse_token token = do t ← observe now; call (λ x. (jwt_parse cfg.secret token t, x))

    unfoldable pub register : Text → Text → Text → Exec X Text
    register name email password = do
      hash ← call (bcrypt_hash password)
      id ← observe uuid
      created ← create_user ext (record {
        id = id;
        name = name;
        email = email;
        email_confirmed = false;
        password_hash = hash;
        created_at = 0;
      })
      pure created.id

    -- `Login` behind the access token (with its id) and the refresh token (with its hash).
    unfoldable pub keep_session : User → Text × Text → Text × Text → Exec X LoginResult
    keep_session user (token, jti) (raw, hash) = do
      t ← observe now
      id ← observe uuid
      store ext (record {
        id = id;
        user_id = user.id;
        refresh_token_hash = hash;
        access_jti = jti;
        version = 1;
        issued_at = t;
        expires_at = add_duration t cfg.refresh_ttl;
        revoked_at = none;
      })
      pure (record {
        user_id = user.id;
        name = user.name;
        access_token = token;
        refresh_token = raw;
      })

    -- `Login` behind the password check.
    unfoldable pub open_session : User → Exec X LoginResult
    open_session user = do
      access ← issue_token user.id user.name
      fresh ← generate_refresh_token
      keep_session user access fresh

    -- `Login` behind the lookup of the user, whose result it is given.
    unfoldable pub check_password : Text → Result User → Exec X LoginResult
    check_password password (err e) = raise (if is_not_found e then invalid_credentials else e)
    check_password password (ok user) =
        if bcrypt_match user.password_hash password
        then open_session user
        else raise invalid_credentials

    unfoldable pub login : Text → Text → Exec X LoginResult
    login email password = do
      found ← attempt (get_by_email ext email)
      check_password password found

    -- `session.RevokedAt != nil || session.ExpiresAt.Before(s.clock())`
    unfoldable pub is_dead : Session → Exec X Bool
    is_dead s = elim s.revoked_at [
      | some t ↦ pure true
      | none ↦ do t ← observe now; pure (ltb s.expires_at t)
    ]

    -- `Refresh` behind the new access token (with its id) and the new refresh token (with its hash).
    unfoldable pub turn_over : Session → Text × Text → Text × Text → Exec X RefreshResult
    turn_over session (token, jti) (raw, hash) = do
      t ← observe now
      updated ← rotate ext session.id jti hash t (add_duration t cfg.refresh_ttl)
      pure (record {
        user_id = updated.user_id;
        access_token = token;
        refresh_token = raw;
        version = updated.version;
      })

    -- `Refresh` behind the check of the session.
    unfoldable pub renew : Session → Exec X RefreshResult
    renew session = do
      access ← issue_token session.user_id []
      fresh ← generate_refresh_token
      turn_over session access fresh

    unfoldable pub refresh : Text → Exec X RefreshResult
    refresh refresh_token = do
      session ← get_by_refresh_token_hash ext (hash_token refresh_token)
      dead ← is_dead session
      if dead then raise session_not_found else renew session
