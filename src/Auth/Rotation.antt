-- ===== src/Auth/Rotation.antt =====
-- Refresh tokens: how a login opens a session and a refresh turns its token over.
use mathlib.Core.Option.{some-injective, none-ne-some}
use api_calixio.Prelude.{
  ℕ, ◌+◌, ◌≤◌, false, none, some, List, [], ◌≡◌, refl, ap, sym, subst, ◌∙◌, arith, find, any, ◌≢◌,
}
use api_calixio.Text.{Text, text_eq}
use api_calixio.Records.{Session}
use api_calixio.External.{External}
use api_calixio.Integer.{add_duration}
use api_calixio.Exec.{World, ok, >>=-eq-ok}
use api_calixio.Repository.Sql.{update_where}
use api_calixio.Repository.Sessions.{
  has_hash, is_live, rotated, rotation_conflicts, rotate, get_by_refresh_token_hash,
}
use api_calixio.Repository.Sessions.Unique.{IsUnique}
use api_calixio.Repository.Sessions.Lookup.{find-new_hash, find-old_hash, find-live, self_live}
use api_calixio.Auth.{
  AuthConfig, RefreshResult, hash_token, generate_refresh_token, issue_token, is_dead, renew,
  turn_over, refresh,
}

module _ (ext : External) where
  open ext use {X, now}

  -- a lookup that returns changes no table
  lookup-ok :
      (hash : Text) (w : World X) {s : Session}
      → (get_by_refresh_token_hash ext hash w).0 ≡ ok s
      → (find (has_hash hash) w.sessions ≡ some s)
        × ((get_by_refresh_token_hash ext hash w).1.sessions ≡ w.sessions)
  unfolding get_by_refresh_token_hash
  lookup-ok hash w h = ground arith

  rotate-ok :
      (id jti hash : Text) (issued expires : ℕ) (w : World X) {n : Session}
      → (rotate ext id jti hash issued expires w).0 ≡ ok n
      → (s : Session) × (find (is_live id) w.sessions ≡ some s)
        × (n ≡ rotated jti hash issued expires s)
        × (any (rotation_conflicts id jti hash) w.sessions ≡ false)
        × ((rotate ext id jti hash issued expires w).1.sessions
            ≡ update_where (is_live id) (rotated jti hash issued expires) w.sessions)
  unfolding rotate
  rotate-ok id jti hash issued expires w h = ground arith

  pub generate-ok :
      (w : World X) {p : Text × Text}
      → (generate_refresh_token ext w).0 ≡ ok p
      → (p.1 ≡ hash_token ext p.0) × ((generate_refresh_token ext w).1.sessions ≡ w.sessions)
  unfolding generate_refresh_token
  generate-ok w h = ground arith

module _ (ext : External) (cfg : AuthConfig) where
  open ext use {X, now}

  is_dead-ok :
      (s : Session) (w : World X)
      → (is_dead ext cfg s w).0 ≡ ok false
      → (s.revoked_at ≡ none)
        × ((now w.outside).0 ≤ s.expires_at)
        × ((is_dead ext cfg s w).1.sessions ≡ w.sessions)
  unfolding is_dead
  is_dead-ok s w h = ground arith

  pub sessions-issue_token :
      (id name : Text) (w : World X) → (issue_token ext cfg id name w).1.sessions ≡ w.sessions
  unfolding issue_token
  sessions-issue_token id name w = ground arith

  -- A renewal is one rotation of the row, under the hash of the token that it returns.
  record Renewal (s : Session) (old new : List Session) (r : RefreshResult) : Type 0 where
    jti : Text
    issued : ℕ
    expires : ℕ
    row : Session
    found : find (is_live s.id) old ≡ some row
    user : r.user_id ≡ row.user_id
    version : r.version ≡ row.version + 1
    free : any (rotation_conflicts s.id jti (hash_token ext r.refresh_token)) old ≡ false
    written :
        new
        ≡ update_where
            (is_live s.id)
            (rotated jti (hash_token ext r.refresh_token) issued expires)
            old

  turn_over-ok :
      (s : Session) (p q : Text × Text) (w : World X) {v : World X} {r : RefreshResult}
      → q.1 ≡ hash_token ext q.0
      → turn_over ext cfg s p q w ≡ (ok r, v)
      → Renewal s w.sessions v.sessions r
  unfolding turn_over
  turn_over-ok s p q w {v} {r} hashed h =
      let t = (now w.outside).0 in
      let u : World X = record w { outside = (now w.outside).1 } in
      let expires = add_duration t cfg.refresh_ttl in
      let (n, e, h') = >>=-eq-ok (rotate ext s.id p.1 q.1 t expires) _ u h in
      let (row, found, same, free, written) = rotate-ok ext s.id p.1 q.1 t expires u e in
      let token : r.refresh_token ≡ q.0 = cc in
      record {
        jti = p.1;
        issued = t;
        expires = expires;
        row = row;
        found = found;
        user = cc;
        version = cc;
        free = rw (token, ← hashed) free;
        written = rw (token, ← hashed) (cc);
      }

  renew-ok :
      (s : Session) (w : World X) {v : World X} {r : RefreshResult}
      → renew ext cfg s w ≡ (ok r, v)
      → Renewal s w.sessions v.sessions r
  unfolding renew
  renew-ok s w {v} {r} h =
      let (p, _, h1) = >>=-eq-ok (issue_token ext cfg s.user_id []) _ w h in
      let u = (issue_token ext cfg s.user_id [] w).1 in
      let (q, e2, h2) = >>=-eq-ok (generate_refresh_token ext) _ u h1 in
      let (hashed, kept) = generate-ok ext u e2 in
      subst (λ ss. Renewal s ss v.sessions r) (kept ∙ sessions-issue_token s.user_id [] w)
        (turn_over-ok s p q (generate_refresh_token ext u).1 hashed h2)

  -- What a successful refresh has done, for the token `t` that it was given.
  record IsRefreshed (t : Text) (w v : World X) (r : RefreshResult) : Type 0 where
    session : Session
    held : find (has_hash (hash_token ext t)) w.sessions ≡ some session
    unrevoked : session.revoked_at ≡ none
    in_time :
        (now (get_by_refresh_token_hash ext (hash_token ext t) w).1.outside).0 ≤ session.expires_at
    renewal : Renewal session w.sessions v.sessions r

  refresh-ok :
      (t : Text) (w : World X) {v : World X} {r : RefreshResult}
      → refresh ext cfg t w ≡ (ok r, v)
      → IsRefreshed t w v r
  unfolding refresh
  refresh-ok t w {v} {r} h =
      let hash = hash_token ext t in
      let (s, e1, h1) = >>=-eq-ok (get_by_refresh_token_hash ext hash) _ w h in
      let (held, same) = lookup-ok ext hash w e1 in
      let u = (get_by_refresh_token_hash ext hash w).1 in
      let (dead, e2, h2) = >>=-eq-ok (is_dead ext cfg s) _ u h1 in
      let alive : dead ≡ false = ground arith in
      let (unrevoked, in_time, kept) = is_dead-ok s u (rw alive at e2) in
      record {
        session = s;
        held = held;
        unrevoked = unrevoked;
        in_time = in_time;
        renewal =
            subst (λ ss. Renewal s ss v.sessions r) (kept ∙ same)
              (renew-ok s (is_dead ext cfg s u).1 (rw alive at h2));
      }

  -- A successful refresh of a table with unique columns found the token in an unrevoked session
  -- whose expiry is not before the clock, and left that same session (its id, its user) under the
  -- hash of the new token, its version one higher; the result reports that user and version.
  pub refresh_rotates :
      (t : Text) (w v : World X) (r : RefreshResult)
      → IsUnique w.sessions
      → refresh ext cfg t w ≡ (ok r, v)
      → (s n : Session) × (find (has_hash (hash_token ext t)) w.sessions ≡ some s)
        × (s.revoked_at ≡ none)
        × ((now (get_by_refresh_token_hash ext (hash_token ext t) w).1.outside).0 ≤ s.expires_at)
        × (find (has_hash (hash_token ext r.refresh_token)) v.sessions ≡ some n)
        × (n.id ≡ s.id)
        × (n.user_id ≡ s.user_id)
        × (n.version ≡ s.version + 1)
        × (r.user_id ≡ s.user_id)
        × (r.version ≡ s.version + 1)
  refresh_rotates t w v r u h =
      let done = refresh-ok t w h in
      let renewed = done.renewal in
      let s = done.session in
      let same : renewed.row ≡ s = some-injective _ _ (
        sym renewed.found ∙ find-live (hash_token ext t) w.sessions s u done.unrevoked done.held) in
      (
        s,
        rotated renewed.jti (hash_token ext r.refresh_token) renewed.issued renewed.expires s,
        done.held,
        done.unrevoked,
        done.in_time,
        ap (find (has_hash (hash_token ext r.refresh_token))) renewed.written
            ∙ find-new_hash s.id renewed.jti (hash_token ext r.refresh_token) renewed.issued
                renewed.expires w.sessions s u renewed.free (renewed.found ∙ ap some same),
        refl,
        refl,
        refl,
        renewed.user ∙ ap (λ (x : Session). x.user_id) same,
        renewed.version ∙ ap (λ (x : Session). x.version + 1) same,
      )

  -- A refresh token works once: after a successful refresh on a table with unique columns, no
  -- refresh with the same token succeeds in a world with the sessions that the first one left,
  -- unless the new token has the hash of the old one.
  pub refresh_once :
      (t : Text) (w v u : World X) (r r' : RefreshResult)
      → IsUnique w.sessions
      → refresh ext cfg t w ≡ (ok r, v)
      → u.sessions ≡ v.sessions
      → text_eq (hash_token ext r.refresh_token) (hash_token ext t) ≡ false
      → (refresh ext cfg t u).0 ≢ ok r'
  refresh_once t w v u r r' unique h kept ne again =
      let done = refresh-ok t w h in
      let renewed = done.renewal in
      let s = done.session in
      let gone =
        find-old_hash s.id renewed.jti (hash_token ext r.refresh_token) renewed.issued
          renewed.expires (hash_token ext t) w.sessions s unique ne done.held
          (self_live s done.unrevoked) in
      let twice : IsRefreshed t u (refresh ext cfg t u).1 r' =
        refresh-ok t u (ap (λ a. (a, (refresh ext cfg t u).1)) again) in
      let absent : find (has_hash (hash_token ext t)) u.sessions ≡ none =
        rw (kept, renewed.written) gone in
      none-ne-some twice.session (sym absent ∙ twice.held)
