-- ===== src/Access/Revocation.antt =====
-- A revoked access token does not pass.
use api_calixio.Prelude.{
  ℕ, Bool, true, false, not, ◌&&◌, some, List, [], ◌∷◌, ◌≡◌, ◌≢◌, ◌⊎◌, ap, sym, ◌∙◌, arith, any,
  Bool-cases, Option-cases, inl, inr,
}
use api_calixio.Text.{Text, is_empty}
use api_calixio.Records.{Session}
use api_calixio.External.{External, Claims}
use api_calixio.Exec.{World, ok, got, Reply-cases}
use api_calixio.Repository.Sql.{update_where, is_null}
use api_calixio.Repository.Sessions.{has_jti, is_access_revoked, revoke_by_access_jti}
use api_calixio.Auth.{AuthConfig, parse_token}
use api_calixio.Access.{passed, bearer_token, authorize}

-- there is a revoked session with this id of its access token
abbrev pub is_revoked : Text → List Session → Bool
is_revoked jti ss = any (λ s. has_jti jti s && not (is_null s.revoked_at)) ss

pub revoked_rows :
    (jti : Text) (t : ℕ) (ss : List Session)
    → any (has_jti jti) ss ≡ true
    → is_revoked jti (
        update_where
          (λ s. has_jti jti s && is_null s.revoked_at)
          (λ s. record s { revoked_at = some t })
          ss)
      ≡ true
revoked_rows jti t [] h = cc
revoked_rows jti t (s ∷ ss) h = ground (arith, revoked_rows jti t ss)

got-injective : {A : Type 0} {a b : A} → got a ≡ got b → a ≡ b
got-injective h = ground arith

module _ (ext : External) (cfg : AuthConfig) where
  open ext use {X, now, jwt_parse, query}

  pub revoke-ok :
      (jti : Text) (t : ℕ) (w v : World X) (a : Unit {0})
      → revoke_by_access_jti ext jti t w ≡ (ok a, v)
      → v.sessions
        ≡ update_where
            (λ s. has_jti jti s && is_null s.revoked_at)
            (λ s. record s { revoked_at = some t })
            w.sessions
  unfolding revoke_by_access_jti
  revoke-ok jti t w v a h = ground arith

  -- A request passes only with a bearer token whose claims the JWT package accepts at that time;
  -- it passes as the subject of the claims; and, where sessions are kept, no session with the id
  -- of the token is revoked, unless that id is empty.
  pub authorize-passed :
      (header user : Text) (w : World X)
      → (authorize ext cfg true header w).0 ≡ ok (passed user)
      → (token : Text) × (c : Claims) × (bearer_token header ≡ some token)
        × (jwt_parse cfg.secret token (now w.outside).0 ≡ got c)
        × (user ≡ c.subject)
        × ((is_empty c.jti ≡ true) ⊎ (is_revoked c.jti w.sessions ≡ false))
  unfolding authorize parse_token is_access_revoked
  authorize-passed header user w h = elim (Bool-cases (is_empty header)) [
    | inl e ↦ ground arith
    | inr e ↦ elim (Option-cases (bearer_token header)) [
      | inl no_token ↦ ground arith
      | inr (token, b) ↦ elim (Reply-cases (jwt_parse cfg.secret token (now w.outside).0)) [
        | inr (n, bad) ↦ ground arith
        | inl (c, good) ↦ elim (Bool-cases (is_empty c.jti)) [
          | inl no_id ↦ (token, c, b, good, ground arith, inl no_id)
          | inr has_id ↦ (token, c, b, good, ground arith, inr (ground arith))
        ]
      ]
    ]
  ]

  -- A token whose id a revoked session has does not pass.
  pub revoked_row_refused :
      (jti header token user : Text) (c : Claims) (u : World X)
      → is_revoked jti u.sessions ≡ true
      → bearer_token header ≡ some token
      → jwt_parse cfg.secret token (now u.outside).0 ≡ got c
      → c.jti ≡ jti
      → is_empty jti ≡ false
      → (authorize ext cfg true header u).0 ≢ ok (passed user)
  revoked_row_refused jti header token user c u rows bearer parsed named filled through =
      let (token', c', b, good, who, state) = authorize-passed header user u through in
      let same_token : token' ≡ token = ground arith in
      let same_claims : c' ≡ c =
        got-injective
          (sym good ∙ ap (λ p. jwt_parse cfg.secret p (now u.outside).0) same_token ∙ parsed) in
      let same : c'.jti ≡ jti = ap (λ z. z.jti) same_claims ∙ named in
      elim state [
        | inl empty ↦
            let clash : true ≡ false = sym empty ∙ ap is_empty same ∙ filled in ground arith
        | inr live ↦
            let clash : true ≡ false =
              sym rows ∙ ap (λ i. is_revoked i u.sessions) (sym same) ∙ live in
            ground arith
      ]

  -- After `RevokeByAccessJTI` has succeeded for an id that a session has, a token with this id,
  -- which is not empty, does not pass in any later state with the sessions that it left, whatever
  -- else happened: the request is refused or fails.
  pub revoked_token_refused :
      (jti header token user : Text) (c : Claims) (t : ℕ) (w v u : World X) (a : Unit {0})
      → any (has_jti jti) w.sessions ≡ true
      → revoke_by_access_jti ext jti t w ≡ (ok a, v)
      → u.sessions ≡ v.sessions
      → bearer_token header ≡ some token
      → jwt_parse cfg.secret token (now u.outside).0 ≡ got c
      → c.jti ≡ jti
      → is_empty jti ≡ false
      → (authorize ext cfg true header u).0 ≢ ok (passed user)
  revoked_token_refused jti header token user c t w v u a known revoked kept bearer parsed named
        filled =
      let rows : is_revoked jti u.sessions ≡ true =
        ap (is_revoked jti) (kept ∙ revoke-ok jti t w v a revoked)
        ∙ revoked_rows jti t w.sessions known in
      revoked_row_refused jti header token user c u rows bearer parsed named filled
