-- ===== src/System/Invariants.antt =====
-- What holds in every world that the program comes to, whatever is asked of it, whatever fails, and
-- in whatever order.
use api_calixio.Prelude.{
  ℕ, [], ◌∷◌, subst, true, false, none, some, Option-cases, List, ◌≡◌, ◌≢◌, arith, find, any, inl,
  inr, ap, ◌∙◌,
}
use api_calixio.Text.{Text, is_empty}
use api_calixio.Records.{Media}
use api_calixio.External.{External, Claims}
use api_calixio.Machine.{Machine}
use api_calixio.Exec.{World, ok, got}
use api_calixio.Repository.Rows.{any-found, any-missing}
use api_calixio.Repository.MediaRows.{is_kept}
use api_calixio.Repository.Sessions.{has_jti, revoke_by_access_jti}
use api_calixio.Access.{passed, bearer_token, authorize}
use api_calixio.Access.Revocation.{is_revoked, revoke-ok, revoked_rows, revoked_row_refused}
use api_calixio.Upload.Deletion.{delete_media}
use api_calixio.Upload.Deletion.Prefixes.{delete_media-ok}
use api_calixio.Transcoder.Commands.{TranscoderService}
use api_calixio.Http.Codec.{Site}
use api_calixio.Http.Router.{Route, Match}
use api_calixio.System.Changes.{tables, Trace, none_yet, Trace-keeps}
use api_calixio.System.Constraints.{IsConsistent, Change-IsConsistent}
use api_calixio.System.Lasting.{
  has_media, is_gone, Change-is_revoked, Change-has_media, Change-is_gone,
}
use api_calixio.System.History.{IsHistory, Trace-IsHistory}
use api_calixio.System.MediaItems.{delete_media-IsTraced}
use api_calixio.System.Reachable.{Reachable, Reachable-Trace}

has_media-found :
    (id : Text) (ms : List Media) (m : Media)
    → find (is_kept id) ms ≡ some m
    → has_media id ms ≡ true
has_media-found id [] m h = cc
has_media-found id (n ∷ ms) m h = ground (arith, has_media-found id ms m)

is_gone-missing : (id : Text) (ms : List Media) → is_gone id ms ≡ true → find (is_kept id) ms ≡ none
is_gone-missing id ms h = elim (Option-cases (find (is_kept id) ms)) [
  | inl e ↦ e
  | inr (m, e) ↦ let bad = any-found (is_kept id) ms m e in ground arith
]

module _ (ext : External) (m : Machine ext.X) (site : Site ext) (transcoder : TranscoderService)
    (find_route : List Route → Text → Text → Match) where
  open ext use {X, now, jwt_parse}

  abbrev Later : World X → World X → Type 0
  Later v w = Reachable ext m site transcoder find_route v w

  trace : {v w : World X} → Later v w → Trace (tables v) (tables w)
  trace r = Reachable-Trace ext m site transcoder find_route r

  -- The primary keys, the unique columns and the foreign keys that the migrations declare hold in
  -- every world that the program comes to from one where they hold.
  pub Reachable-IsConsistent :
      {v w : World X} → Later v w → IsConsistent (tables v) → IsConsistent (tables w)
  Reachable-IsConsistent r c = Trace-keeps IsConsistent Change-IsConsistent (trace r) c

  -- In every world that the program comes to, each row of the former world is still in its place:
  -- a user unchanged; a session with its id and user, its version not lower, and unchanged if it was
  -- revoked; a room with its id, name, owner and creation, and with its status and end if it was not
  -- active; a media item with its id, owner, name, object and creation, and unchanged if it was deleted.
  pub Reachable-IsHistory : {v w : World X} → Later v w → IsHistory (tables v) (tables w)
  Reachable-IsHistory r = Trace-IsHistory (trace r)

  -- After a deletion by its owner has succeeded, a media item is not found in any world that the
  -- program comes to: no later request, upload or turn of the worker brings it back.
  pub deleted_for_good :
      (owner id : Text) (w v u : World X) (a : Unit {0})
      → delete_media ext site.upload owner id w ≡ (ok a, v)
      → Later v u
      → find (is_kept id) u.media ≡ none
  deleted_for_good owner id w v u a h r =
      let (item, found, mine, emptied, missing) =
        delete_media-ok ext site.upload owner id w v a h in
      let done : Trace (tables w) (tables v) =
        subst (λ q. Trace (tables w) (tables q.1)) h
          (delete_media-IsTraced ext site.upload owner id (tables w) w none_yet) in
      let there =
        Trace-keeps (λ s. has_media id s.media ≡ true) (Change-has_media id) done
          (has_media-found id w.media item found) in
      let none_kept = any-missing (is_kept id) v.media missing in
      let gone : is_gone id v.media ≡ true = ground arith in
      is_gone-missing id u.media
        (Trace-keeps (λ s. is_gone id s.media ≡ true) (Change-is_gone id) (trace r) gone)

  -- After `RevokeByAccessJTI` has succeeded for an id that a session has, a token with this id, which
  -- is not empty, passes the middleware in no world that the program comes to.
  pub revoked_for_good :
      (jti header token user : Text) (c : Claims) (t : ℕ) (w v u : World X) (a : Unit {0})
      → any (has_jti jti) w.sessions ≡ true
      → revoke_by_access_jti ext jti t w ≡ (ok a, v)
      → Later v u
      → bearer_token header ≡ some token
      → jwt_parse site.auth.secret token (now u.outside).0 ≡ got c
      → c.jti ≡ jti
      → is_empty jti ≡ false
      → (authorize ext site.auth true header u).0 ≢ ok (passed user)
  revoked_for_good jti header token user c t w v u a known revoked r bearer parsed named filled =
      let rows : is_revoked jti v.sessions ≡ true =
        ap (is_revoked jti) (revoke-ok ext site.auth jti t w v a revoked)
        ∙ revoked_rows jti t w.sessions known in
      let still =
        Trace-keeps (λ s. is_revoked jti s.sessions ≡ true) (Change-is_revoked jti) (trace r)
          rows in
      revoked_row_refused ext site.auth jti header token user c u still bearer parsed named filled
