-- ===== src/Repository/Sessions/Unique.antt =====
-- The unique columns of the sessions table stay unique under every statement.
use api_calixio.Prelude.{
  ℕ, Bool, false, some, List, [], ◌∷◌, ◌&&◌, ◌≡◌, refl, arith, any, if◌then◌else◌, or_false,
  or_false_left, or_false_right,
}
use api_calixio.Text.{Text}
use api_calixio.Text.Laws.{text_eq_iff, text_eq_sym}
use api_calixio.Records.{Session}
use api_calixio.External.{External}
use api_calixio.Exec.{World}
use api_calixio.Repository.Rows.{IsPairwise, snoc-IsPairwise, update-IsPairwise}
use api_calixio.Repository.Sql.{update_where, is_null}
use api_calixio.Repository.Sessions.{
  has_jti, is_live, session_conflicts, rotated, rotation_conflicts, store, rotate,
  revoke_by_access_jti,
}

-- No two rows share their id, their refresh token hash or their access token id.
abbrev pub IsUnique : List Session → Type 0
IsUnique ss = IsPairwise session_conflicts ss

pub conflicts_sym : (r s : Session) → session_conflicts r s ≡ session_conflicts s r
conflicts_sym r s = rw (
  text_eq_sym s.id r.id,
  text_eq_sym s.refresh_token_hash r.refresh_token_hash,
  text_eq_sym s.access_jti r.access_jti,
)

module _ (id jti hash : Text) (issued expires : ℕ) where
  abbrev turn : Session → Session
  turn s = if is_live id s then rotated jti hash issued expires s else s

  turn_apart :
      (r s : Session)
      → session_conflicts r s ≡ false
      → rotation_conflicts id jti hash r ≡ false
      → rotation_conflicts id jti hash s ≡ false
      → session_conflicts (turn r) (turn s) ≡ false
  turn_apart r s apart hr hs = ground (
    arith,
    text_eq_iff r.id id,
    text_eq_iff s.id id,
    text_eq_iff s.id r.id,
    text_eq_sym hash r.refresh_token_hash,
    text_eq_sym jti r.access_jti,
  )

  turn_apart_all :
      (r : Session) (ss : List Session)
      → any (session_conflicts r) ss ≡ false
      → rotation_conflicts id jti hash r ≡ false
      → any (rotation_conflicts id jti hash) ss ≡ false
      → any
          (session_conflicts (turn r))
          (update_where (is_live id) (rotated jti hash issued expires) ss)
        ≡ false
  turn_apart_all r [] apart hr hs = refl
  turn_apart_all r (s ∷ ss) apart hr hs =
      or_false _ _ (turn_apart r s (or_false_left _ _ apart) hr (or_false_left _ _ hs)) (
        turn_apart_all r ss (or_false_right (session_conflicts r s) _ apart) hr
          (or_false_right (rotation_conflicts id jti hash s) _ hs))

  pub rotate_rows-IsUnique :
      (ss : List Session)
      → any (rotation_conflicts id jti hash) ss ≡ false
      → IsUnique ss
      → IsUnique (update_where (is_live id) (rotated jti hash issued expires) ss)
  rotate_rows-IsUnique [] h u = tt
  rotate_rows-IsUnique (s ∷ ss) h (fresh, u) = (
    turn_apart_all s ss fresh (ground arith) (ground arith),
    rotate_rows-IsUnique ss (ground arith) u,
  )

module _ (p : Session → Bool) (t : ℕ) where
  abbrev revoked : Session → Session
  revoked s = record s { revoked_at = some t }

  revoke_rows-IsUnique : (ss : List Session) → IsUnique ss → IsUnique (update_where p revoked ss)
  revoke_rows-IsUnique ss u =
      update-IsPairwise session_conflicts p revoked ss (λ r s. refl) (λ r s. refl) u

module _ (ext : External) where
  open ext use {X}

  -- `Store`, whether it goes through or fails, keeps the id, the refresh token hash and the access
  -- token id unique among the sessions.
  pub store-IsUnique :
      (s : Session) (w : World X) → IsUnique w.sessions → IsUnique (store ext s w).1.sessions
  unfolding store
  store-IsUnique s w u =
      ground (arith, snoc-IsPairwise session_conflicts w.sessions s conflicts_sym)

  -- `Rotate`, whether it goes through or fails, keeps the three columns unique.
  pub rotate-IsUnique :
      (id jti hash : Text) (issued expires : ℕ) (w : World X)
      → IsUnique w.sessions
      → IsUnique (rotate ext id jti hash issued expires w).1.sessions
  unfolding rotate
  rotate-IsUnique id jti hash issued expires w u =
      ground (arith, rotate_rows-IsUnique id jti hash issued expires w.sessions)

  -- `RevokeByAccessJTI`, whether it goes through or fails, keeps the three columns unique.
  revoke-IsUnique :
      (jti : Text) (t : ℕ) (w : World X)
      → IsUnique w.sessions
      → IsUnique (revoke_by_access_jti ext jti t w).1.sessions
  unfolding revoke_by_access_jti
  revoke-IsUnique jti t w u =
      ground
        (arith, revoke_rows-IsUnique (λ s. has_jti jti s && is_null s.revoked_at) t w.sessions u)
