-- ===== src/Tests/Accounts.antt =====
-- Users and their sessions.
use api_calixio.Prelude.{
  ◌+◌, ◌≤◌, ◌≢◌, true, false, none, some, [], ◌∷◌, ◌++◌, ◌≡◌, refl, find, any, ◌⊎◌,
}
use api_calixio.Text.{Text, codes, text_eq, is_empty}
use api_calixio.Integer.{pos}
use api_calixio.Hex.{hex}
use api_calixio.Records.{User, Session}
use api_calixio.Exec.{World, ok, err, invalid_credentials}
use api_calixio.Repository.Users.{has_email, get_by_email}
use api_calixio.Repository.Sessions.{
  has_hash, store, rotate, revoke_by_access_jti, get_by_refresh_token_hash,
}
use api_calixio.Repository.Sessions.Unique.{IsUnique}
use api_calixio.Auth.{
  AuthConfig, LoginResult, RefreshResult, hash_token, generate_refresh_token, issue_token,
  keep_session, open_session, check_password, login, is_dead, turn_over, renew, refresh,
}
use api_calixio.Auth.Rotation.{refresh_rotates, refresh_once}
use api_calixio.Auth.Login.{login_opens_session, login_refused}
use api_calixio.External.{Claims}
use api_calixio.Exec.{got}
use api_calixio.Access.{passed, bearer_token, authorize}
use api_calixio.Access.Revocation.{is_revoked, authorize-passed}
use api_calixio.Auth.{parse_token}
use api_calixio.Repository.Sessions.{has_jti, is_access_revoked}
use api_calixio.Tests.Outside.{Outside, ext, start}

abbrev pub cfg : AuthConfig
cfg = record { secret = codes "s"; access_ttl = pos 5; refresh_ttl = pos 50 }

abbrev pub ann : User
ann = record {
  id = codes "u1";
  name = codes "ann";
  email = codes "a@b";
  email_confirmed = false;
  password_hash = codes "pw";
  created_at = 1;
}

abbrev pub session : Session
session = record {
  id = codes "s1";
  user_id = codes "u1";
  refresh_token_hash = hex (codes "t1");
  access_jti = codes "j1";
  version = 1;
  issued_at = 50;
  expires_at = 200;
  revoked_at = none;
}

abbrev pub base : World Outside
base = record {
  users = ann ∷ [];
  sessions = session ∷ [];
  rooms = [];
  media = [];
  jobs = [];
  outside = start;
}

pub base-IsUnique : IsUnique base.sessions
base-IsUnique = (refl, tt)

abbrev refreshed : RefreshResult
refreshed = record {
  user_id = codes "u1";
  access_token = 100 ∷ [];
  refresh_token = codes "65";
  version = 2;
}

abbrev after : World Outside
after = (refresh ext cfg (codes "t1") base).1

refresh_run : refresh ext cfg (codes "t1") base ≡ (ok refreshed, after)
unfolding refresh renew turn_over is_dead generate_refresh_token issue_token hash_token
    get_by_refresh_token_hash rotate text_eq hex
refresh_run = refl

refresh_rotates_example :
    (s n : Session) × (find (has_hash (hash_token ext (codes "t1"))) base.sessions ≡ some s)
    × (s.revoked_at ≡ none)
    × ((ext.now (get_by_refresh_token_hash ext (hash_token ext (codes "t1")) base).1.outside).0
        ≤ s.expires_at)
    × (find (has_hash (hash_token ext refreshed.refresh_token)) after.sessions ≡ some n)
    × (n.id ≡ s.id)
    × (n.user_id ≡ s.user_id)
    × (n.version ≡ s.version + 1)
    × (refreshed.user_id ≡ s.user_id)
    × (refreshed.version ≡ s.version + 1)
refresh_rotates_example =
    refresh_rotates ext cfg (codes "t1") base after refreshed base-IsUnique refresh_run

other_hash : text_eq (hash_token ext refreshed.refresh_token) (hash_token ext (codes "t1")) ≡ false
unfolding hash_token text_eq hex
other_hash = refl

refresh_once_example : (refresh ext cfg (codes "t1") after).0 ≢ ok refreshed
refresh_once_example =
    refresh_once ext cfg (codes "t1") base after after refreshed refreshed base-IsUnique refresh_run
      refl other_hash

abbrev logged_in : LoginResult
logged_in = record {
  user_id = codes "u1";
  name = codes "ann";
  access_token = 100 ∷ [];
  refresh_token = codes "65";
}

abbrev after_login : World Outside
after_login = (login ext cfg (codes "a@b") (codes "pw") base).1

login_run : login ext cfg (codes "a@b") (codes "pw") base ≡ (ok logged_in, after_login)
unfolding login check_password open_session keep_session generate_refresh_token issue_token
    hash_token get_by_email store text_eq hex
login_run = refl

login_opens_session_example :
    (u : User) × (s : Session) × (find (has_email (codes "a@b")) base.users ≡ some u)
    × (ext.bcrypt_match u.password_hash (codes "pw") ≡ true)
    × (logged_in.user_id ≡ u.id)
    × (s.user_id ≡ u.id)
    × (s.version ≡ 1)
    × (s.revoked_at ≡ none)
    × (after_login.sessions ≡ base.sessions ++ (s ∷ []))
    × (find (has_hash (hash_token ext logged_in.refresh_token)) after_login.sessions ≡ some s)
login_opens_session_example =
    login_opens_session ext cfg (codes "a@b") (codes "pw") base after_login logged_in login_run

no_user :
    (u : User)
    → find (has_email (codes "x@y")) base.users ≡ some u
    → ext.bcrypt_match u.password_hash (codes "pw") ≡ false
unfolding text_eq
no_user u h = cc

login_refused_example :
    ((login ext cfg (codes "x@y") (codes "pw") base).0 ≡ err invalid_credentials)
    × ((login ext cfg (codes "x@y") (codes "pw") base).1.sessions ≡ base.sessions)
login_refused_example = login_refused ext cfg (codes "x@y") (codes "pw") base refl no_user

pub header_bearer : bearer_token (codes "BEARER tok") ≡ some (codes "tok")
unfolding bearer_token text_eq
header_bearer = refl

free_run : (authorize ext cfg true (codes "Bearer tok") base).0 ≡ ok (passed (codes "u1"))
unfolding authorize bearer_token parse_token is_access_revoked text_eq
free_run = refl

authorize-passed_example :
    (token : Text) × (c : Claims) × (bearer_token (codes "Bearer tok") ≡ some token)
    × (ext.jwt_parse cfg.secret token (ext.now base.outside).0 ≡ got c)
    × (codes "u1" ≡ c.subject)
    × ((is_empty c.jti ≡ true) ⊎ (is_revoked c.jti base.sessions ≡ false))
authorize-passed_example = authorize-passed ext cfg (codes "Bearer tok") (codes "u1") base free_run

abbrev pub after_revoke : World Outside
after_revoke = (revoke_by_access_jti ext (codes "j1") 60 base).1

pub revoke_run : revoke_by_access_jti ext (codes "j1") 60 base ≡ (ok tt, after_revoke)
unfolding revoke_by_access_jti text_eq
revoke_run = refl

pub known_id : any (has_jti (codes "j1")) base.sessions ≡ true
unfolding text_eq
known_id = refl
