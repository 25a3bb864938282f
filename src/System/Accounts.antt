-- ===== src/System/Accounts.antt =====
-- Accounts: what registering, logging in and refreshing write.
use api_calixio.Prelude.{ap, ◌∙◌, arith, inl, inr, Bool-cases}
use api_calixio.Text.{Text}
use api_calixio.Records.{User, Session}
use api_calixio.External.{External}
use api_calixio.Exec.{Result, ok, err, Result-cases}
use api_calixio.Repository.Users.{get_by_email}
use api_calixio.Repository.Sessions.{get_by_refresh_token_hash}
use api_calixio.Auth.{
  AuthConfig, hash_token, generate_refresh_token, issue_token, keep_session, open_session,
  check_password, login, is_dead, turn_over, renew, refresh, register,
}
use api_calixio.System.Changes.{IsTraced}
use api_calixio.System.Statements.{store-IsTraced, rotate-IsTraced, create_user-IsTraced}
use api_calixio.System.Kept.{IsKept, kept-IsTraced}

module _ (ext : External) (cfg : AuthConfig) where
  open ext use {X}

  issue_token-IsKept : (id name : Text) → IsKept (issue_token ext cfg id name)
  unfolding issue_token
  issue_token-IsKept id name w = ground arith

  fresh_token-IsKept : IsKept (generate_refresh_token ext)
  unfolding generate_refresh_token
  fresh_token-IsKept w = ground arith

  keep_session-IsTraced :
      (user : User) (a b : Text × Text) → IsTraced (keep_session ext cfg user a b)
  unfolding keep_session
  keep_session-IsTraced user a b s w h = grind (arith, store-IsTraced ext)

  open_session-IsTraced : (user : User) → IsTraced (open_session ext cfg user)
  unfolding open_session
  open_session-IsTraced user s w h =
      grind (arith, issue_token-IsKept, fresh_token-IsKept, keep_session-IsTraced)

  get_by_email-IsKept : (email : Text) → IsKept (get_by_email ext email)
  unfolding get_by_email
  get_by_email-IsKept email w = ground arith

  check_password-IsTraced : (p : Text) (r : Result User) → IsTraced (check_password ext cfg p r)
  unfolding check_password
  check_password-IsTraced p (err e) s w h = h
  check_password-IsTraced p (ok user) s w h = grind (arith, open_session-IsTraced)

  pub login-IsTraced : (email p : Text) → IsTraced (login ext cfg email p)
  unfolding login
  login-IsTraced email p s w h = grind (arith, get_by_email-IsKept, check_password-IsTraced)

  turn_over-IsTraced : (x : Session) (a b : Text × Text) → IsTraced (turn_over ext cfg x a b)
  unfolding turn_over
  turn_over-IsTraced x a b s w h = grind (arith, rotate-IsTraced ext)

  renew-IsTraced : (x : Session) → IsTraced (renew ext cfg x)
  unfolding renew
  renew-IsTraced x s w h = grind (arith, issue_token-IsKept, fresh_token-IsKept, turn_over-IsTraced)

  is_dead-IsKept : (x : Session) → IsKept (is_dead ext cfg x)
  unfolding is_dead
  is_dead-IsKept x w = ground arith

  by_hash-IsKept : (h : Text) → IsKept (get_by_refresh_token_hash ext h)
  unfolding get_by_refresh_token_hash
  by_hash-IsKept h w = ground arith

  pub refresh-IsTraced : (token : Text) → IsTraced (refresh ext cfg token)
  unfolding refresh
  refresh-IsTraced token s w h =
      let found = get_by_refresh_token_hash ext (hash_token ext token) in
      let v = (found w).1 in
      let asked = kept-IsTraced found (by_hash-IsKept (hash_token ext token)) s w h in
      elim (Result-cases (found w).0) [
        | inr (e, bad) ↦ rw (bad, refresh) asked
        | inl (x, hit) ↦
            let u = (is_dead ext cfg x v).1 in
            let timed = kept-IsTraced (is_dead ext cfg x) (is_dead-IsKept x) s v asked in
            elim (Result-cases (is_dead ext cfg x v).0) [
              | inr (e, bad) ↦ rw (hit, bad, refresh) timed
              | inl (dead, told) ↦ elim (Bool-cases dead) [
                | inl is_so ↦ rw (hit, told ∙ ap ok is_so, refresh) timed
                | inr not_so ↦ rw (hit, told ∙ ap ok not_so, refresh) (renew-IsTraced x s u timed)
              ]
            ]
      ]

  pub register-IsTraced : (name email p : Text) → IsTraced (register ext cfg name email p)
  unfolding register
  register-IsTraced name email p s w h = grind (arith, create_user-IsTraced ext)
