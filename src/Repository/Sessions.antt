-- ===== src/Repository/Sessions.antt =====
-- internal/repository/tokens.go
pub mod Unique
pub mod Lookup
use api_calixio.Prelude.{
  ℕ, ◌+◌, Bool, true, false, not, Option, none, some, List, [], ◌∷◌, ◌++◌, ◌||◌, ◌&&◌, find, any,
  if◌then◌else◌,
}
use api_calixio.Text.{Text, text_eq}
use api_calixio.Records.{User, Session}
use api_calixio.External.{External}
use api_calixio.Repository.Sql.{update_where, is_null}
use api_calixio.Exec.{
  Exec, World, Error, Result, ok, err, external, session_not_found, pure, raise, gets, modify,
  from_option, call, ◌>>=◌, ◌>>◌,
}

abbrev pub has_hash : Text → Session → Bool
has_hash hash s = text_eq s.refresh_token_hash hash

abbrev pub has_jti : Text → Session → Bool
has_jti jti s = text_eq s.access_jti jti

-- `WHERE id = $1 AND revoked_at IS NULL`
abbrev pub is_live : Text → Session → Bool
is_live id s = text_eq s.id id && is_null s.revoked_at

-- The primary key and the two unique columns.
abbrev pub session_conflicts : Session → Session → Bool
session_conflicts new s =
    text_eq s.id new.id || has_hash new.refresh_token_hash s || has_jti new.access_jti s

-- What a rotation writes into a row.
abbrev pub rotated : Text → Text → ℕ → ℕ → Session → Session
rotated jti hash issued expires s = record s {
  refresh_token_hash = hash;
  access_jti = jti;
  version = s.version + 1;
  issued_at = issued;
  expires_at = expires;
}

-- Another row than `id` holds one of the new unique values.
abbrev pub rotation_conflicts : Text → Text → Text → Session → Bool
rotation_conflicts id jti hash s = not (text_eq s.id id) && (has_hash hash s || has_jti jti s)

module _ (ext : External) where
  open ext use {X, query, violation}

  unfoldable pub store : Session → Exec X (Unit {0})
  store session = do
    call query
    taken ← gets (λ w. any (session_conflicts session) w.sessions)
    known ← gets (λ w. any (λ (u : User). text_eq u.id session.user_id) w.users)
    if taken || not known
        then raise (external violation)
        else modify (λ w. record w { sessions = w.sessions ++ (session ∷ []) })

  unfoldable pub get_by_refresh_token_hash : Text → Exec X Session
  get_by_refresh_token_hash hash = do
    call query
    found ← gets (λ w. find (has_hash hash) w.sessions)
    from_option found session_not_found

  unfoldable pub rotate : Text → Text → Text → ℕ → ℕ → Exec X Session
  rotate id jti hash issued expires = do
    call query
    found ← gets (λ w. find (is_live id) w.sessions)
    old ← from_option found session_not_found
    taken ← gets (λ w. any (rotation_conflicts id jti hash) w.sessions)
    if taken then raise (external violation) else do
      let set_row = rotated jti hash issued expires
      modify (λ w. record w { sessions = update_where (is_live id) set_row w.sessions })
      pure (set_row old)

  unfoldable pub is_access_revoked : Text → Exec X Bool
  is_access_revoked jti = do
    call query
    gets (λ w. any (λ s. has_jti jti s && not (is_null s.revoked_at)) w.sessions)

  unfoldable pub revoke_by_access_jti : Text → ℕ → Exec X (Unit {0})
  revoke_by_access_jti jti revoked = do
    call query
    modify (λ w. record w {
      sessions =
          update_where (λ s. has_jti jti s && is_null s.revoked_at)
            (λ s. record s { revoked_at = some revoked }) w.sessions;
    })
