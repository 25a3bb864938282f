-- ===== src/Auth/Login.antt =====
-- Logging in and registering.
use api_calixio.Prelude.{
  true, false, none, some, List, [], ◌∷◌, ◌++◌, ◌≡◌, refl, ap, ap₂, sym, subst, ◌∙◌, arith, find,
  any, Bool-cases, Option-cases, inl, inr, or_false_left, or_false_right,
}
use api_calixio.Text.{Text}
use api_calixio.Text.Laws.{text_eq_refl}
use api_calixio.Records.{User, Session}
use api_calixio.External.{External}
use api_calixio.Exec.{World, Result, ok, err, got, >>=-eq-ok, invalid_credentials}
use api_calixio.Repository.Users.{has_email, get_by_email}
use api_calixio.Repository.Sessions.{has_hash, session_conflicts, store}
use api_calixio.Integer.{add_duration}
use api_calixio.Auth.Rotation.{generate-ok, sessions-issue_token}
use api_calixio.Auth.{
  AuthConfig, LoginResult, hash_token, generate_refresh_token, issue_token, keep_session,
  open_session, check_password, login,
}

-- A new last row that conflicts with none before it is found by its hash.
find-stored :
    (ss : List Session) (n : Session)
    → any (session_conflicts n) ss ≡ false
    → find (has_hash n.refresh_token_hash) (ss ++ (n ∷ [])) ≡ some n
find-stored [] n h = rw (text_eq_refl n.refresh_token_hash)
find-stored (s ∷ ss) n h =
    let fresh : session_conflicts n s ≡ false = or_false_left _ _ h in
    let miss : has_hash n.refresh_token_hash s ≡ false = ground arith in
    rw miss (find-stored ss n (or_false_right (session_conflicts n s) _ h))

module _ (ext : External) where
  open ext use {X, query, bcrypt_match, violation, pg_code}

  store-ok :
      (s : Session) (w : World X) {a : Unit {0}}
      → (store ext s w).0 ≡ ok a
      → (any (session_conflicts s) w.sessions ≡ false)
        × ((store ext s w).1.sessions ≡ w.sessions ++ (s ∷ []))
  unfolding store
  store-ok s w h = ground arith

  email-ok :
      (email : Text) (w : World X) {u : User}
      → (get_by_email ext email w).0 ≡ ok u
      → (find (has_email email) w.users ≡ some u)
        × ((get_by_email ext email w).1.sessions ≡ w.sessions)
  unfolding get_by_email
  email-ok email w h = ground arith

module _ (ext : External) (cfg : AuthConfig) where
  open ext use {X, query, bcrypt_match, now, uuid}

  record IsOpened (u : User) (old new : List Session) (r : LoginResult) : Type 0 where
    session : Session
    user : session.user_id ≡ u.id
    named : (r.user_id ≡ u.id) × (r.name ≡ u.name)
    hashed : session.refresh_token_hash ≡ hash_token ext r.refresh_token
    first : session.version ≡ 1
    live : session.revoked_at ≡ none
    free : any (session_conflicts session) old ≡ false
    written : new ≡ old ++ (session ∷ [])

  keep_session-ok :
      (u : User) (p q : Text × Text) (w : World X) {v : World X} {r : LoginResult}
      → q.1 ≡ hash_token ext q.0
      → keep_session ext cfg u p q w ≡ (ok r, v)
      → IsOpened u w.sessions v.sessions r
  unfolding keep_session
  keep_session-ok u p q w {v} {r} hashed h =
      let (t, x1) = now w.outside in
      let (id, x2) = uuid x1 in
      let row : Session = record {
        id = id;
        user_id = u.id;
        refresh_token_hash = q.1;
        access_jti = p.1;
        version = 1;
        issued_at = t;
        expires_at = add_duration t cfg.refresh_ttl;
        revoked_at = none;
      } in
      let w2 : World X = record w { outside = x2 } in
      let (_, e, h') = >>=-eq-ok (store ext row) _ w2 h in
      let (free, written) = store-ok ext row w2 e in
      record {
        session = row;
        user = refl;
        named = (cc, cc);
        hashed = hashed ∙ ap (hash_token ext) (cc);
        first = refl;
        live = refl;
        free = free;
        written = cc;
      }

  open_session-ok :
      (u : User) (w : World X) {v : World X} {r : LoginResult}
      → open_session ext cfg u w ≡ (ok r, v)
      → IsOpened u w.sessions v.sessions r
  unfolding open_session
  open_session-ok u w {v} {r} h =
      let (p, _, h1) = >>=-eq-ok (issue_token ext cfg u.id u.name) _ w h in
      let w1 = (issue_token ext cfg u.id u.name w).1 in
      let (q, e2, h2) = >>=-eq-ok (generate_refresh_token ext) _ w1 h1 in
      let (hashed, kept) = generate-ok ext w1 e2 in
      subst (λ ss. IsOpened u ss v.sessions r) (kept ∙ sessions-issue_token ext cfg u.id u.name w)
        (keep_session-ok u p q (generate_refresh_token ext w1).1 hashed h2)

  check_password-ok :
      (password : Text) (f : Result User) (w : World X) {v : World X} {r : LoginResult}
      → check_password ext cfg password f w ≡ (ok r, v)
      → (u : User) × (f ≡ ok u)
        × (bcrypt_match u.password_hash password ≡ true)
        × IsOpened u w.sessions v.sessions r
  unfolding check_password
  check_password-ok password (err e) w h = cc
  check_password-ok password (ok u) w h =
      elim (Bool-cases (bcrypt_match u.password_hash password)) [
        | inl good ↦ (u, refl, good, open_session-ok u w (rw good at h))
        | inr bad ↦ absurd (cc (rw bad at h))
      ]

  -- A successful login found a user of that email whose password matches, and appended to the
  -- sessions one unrevoked session of version 1 for that user, which the lookup by the hash of
  -- the returned refresh token finds; the result names the user.
  pub login_opens_session :
      (email password : Text) (w v : World X) (r : LoginResult)
      → login ext cfg email password w ≡ (ok r, v)
      → (u : User) × (s : Session) × (find (has_email email) w.users ≡ some u)
        × (bcrypt_match u.password_hash password ≡ true)
        × (r.user_id ≡ u.id)
        × (s.user_id ≡ u.id)
        × (s.version ≡ 1)
        × (s.revoked_at ≡ none)
        × (v.sessions ≡ w.sessions ++ (s ∷ []))
        × (find (has_hash (hash_token ext r.refresh_token)) v.sessions ≡ some s)
  unfolding login
  login_opens_session email password w v r h =
      let g = get_by_email ext email w in
      let (u, e, good, o) = check_password-ok password g.0 g.1 h in
      let (found, kept) = email-ok ext email w e in
      let s = o.session in
      let written : v.sessions ≡ w.sessions ++ (s ∷ []) =
        o.written ∙ ap (λ ss. ss ++ (s ∷ [])) kept in
      let free : any (session_conflicts s) w.sessions ≡ false = rw kept at o.free in
      (
        u,
        s,
        found,
        good,
        o.named.0,
        o.user,
        o.first,
        o.live,
        written,
        ap₂ (λ hash ss. find (has_hash hash) ss) (sym o.hashed) written
            ∙ find-stored w.sessions s free,
      )

  -- An unknown email and a wrong password are refused alike: with `ErrInvalidCredentials`, and no
  -- session is added. The one hypothesis is that the database answers the lookup.
  pub login_refused :
      (email password : Text) (w : World X)
      → (query w.outside).0 ≡ got tt
      → ((u : User)
          → find (has_email email) w.users ≡ some u
          → bcrypt_match u.password_hash password ≡ false)
      → ((login ext cfg email password w).0 ≡ err invalid_credentials)
        × ((login ext cfg email password w).1.sessions ≡ w.sessions)
  unfolding login get_by_email check_password
  login_refused email password w up wrong = elim (Option-cases (find (has_email email) w.users)) [
    | inl missing ↦ ground arith
    | inr (u, found) ↦ let bad = wrong u found in ground arith
  ]
