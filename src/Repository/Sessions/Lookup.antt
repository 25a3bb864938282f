-- ===== src/Repository/Sessions/Lookup.antt =====
-- What a rotation does to the lookup by refresh token hash.
use mathlib.Core.Option.{some-injective}
use api_calixio.Prelude.{
  ℕ, true, false, none, some, List, [], ◌∷◌, ◌≡◌, refl, ap, sym, ◌∙◌, arith, find, any, Bool-cases,
  inl, inr, or_false, or_false_left, or_false_right, find-holds, any-find,
}
use api_calixio.Text.{Text, text_eq}
use api_calixio.Text.Laws.{text_eq_iff, text_eq_refl, text_eq→eq, text_eq_sym}
use api_calixio.Records.{Session}
use api_calixio.Repository.Sql.{update_where}
use api_calixio.Repository.Sessions.{
  has_hash, is_live, session_conflicts, rotated, rotation_conflicts,
}
use api_calixio.Repository.Sessions.Unique.{IsUnique}

apart_hash :
    (x s : Session)
    → session_conflicts x s ≡ false
    → text_eq s.refresh_token_hash x.refresh_token_hash ≡ false
apart_hash x s h = ground arith

module _ (id jti hash : Text) (issued expires : ℕ) where
  abbrev turned : List Session → List Session
  turned = update_where (is_live id) (rotated jti hash issued expires)

  -- a row before the rotated one has another id, so it does not hold the new hash
  other_hash :
      (x s : Session)
      → session_conflicts x s ≡ false
      → is_live id s ≡ true
      → rotation_conflicts id jti hash x ≡ false
      → (is_live id x ≡ false) × (has_hash hash x ≡ false)
  other_hash x s apart live free =
      ground (arith, text_eq_iff x.id id, text_eq_iff s.id id, text_eq_iff s.id x.id)

  pub find-new_hash :
      (ss : List Session) (s : Session)
      → IsUnique ss
      → any (rotation_conflicts id jti hash) ss ≡ false
      → find (is_live id) ss ≡ some s
      → find (has_hash hash) (turned ss) ≡ some (rotated jti hash issued expires s)
  find-new_hash [] s u free h = cc
  find-new_hash (x ∷ ss) s (fresh, u) free h = elim (Bool-cases (is_live id x)) [
    | inl e ↦ rw e (
        rw (text_eq_refl hash) (
          ap (λ y. some (rotated jti hash issued expires y)) (some-injective x s (sym (rw e) ∙ h))))
    | inr e ↦
        let h' = rw e at h in
        let apart = any-find (session_conflicts x) (is_live id) ss s fresh h' in
        let (_, miss) =
          other_hash x s apart (find-holds (is_live id) ss s h') (or_false_left _ _ free) in
        rw e (
          rw miss
            (find-new_hash ss s u (or_false_right (rotation_conflicts id jti hash x) _ free) h'))
  ]

  -- no row that lacks a hash gets it, unless it is the new one
  find-absent :
      (old : Text) (ss : List Session)
      → text_eq hash old ≡ false
      → any (has_hash old) ss ≡ false
      → find (has_hash old) (turned ss) ≡ none
  find-absent old [] ne h = refl
  find-absent old (x ∷ ss) ne h = elim (Bool-cases (is_live id x)) [
    | inl e ↦ rw e (rw (ne, find-absent old ss ne (or_false_right (has_hash old x) _ h)))
    | inr e ↦ rw e (
        rw (or_false_left (has_hash old x) _ h)
          (find-absent old ss ne (or_false_right (has_hash old x) _ h)))
  ]

  same_hash_free :
      (old : Text) (x : Session) (ss : List Session)
      → has_hash old x ≡ true
      → any (session_conflicts x) ss ≡ false
      → any (has_hash old) ss ≡ false
  same_hash_free old x [] e fresh = refl
  same_hash_free old x (s ∷ ss) e fresh =
      or_false _ _
        (rw (sym (text_eq→eq x.refresh_token_hash old e))
          (apart_hash x s (or_false_left (session_conflicts x s) _ fresh)))
        (same_hash_free old x ss e (or_false_right (session_conflicts x s) _ fresh))

  -- after the rotation of the row that held a hash, no row holds it
  pub find-old_hash :
      (old : Text) (ss : List Session) (s : Session)
      → IsUnique ss
      → text_eq hash old ≡ false
      → find (has_hash old) ss ≡ some s
      → is_live id s ≡ true
      → find (has_hash old) (turned ss) ≡ none
  find-old_hash old [] s u ne h live = refl
  find-old_hash old (x ∷ ss) s (fresh, u) ne h live = elim (Bool-cases (has_hash old x)) [
    | inl e ↦
        let same : x ≡ s = some-injective x s (sym (rw e) ∙ h) in
        let turns : is_live id x ≡ true = rw same live in
        rw (turns, ne) (find-absent old ss ne (same_hash_free old x ss e fresh))
    | inr e ↦
        let rest = find-old_hash old ss s u ne (rw e at h) live in
        elim (Bool-cases (is_live id x)) [ inl l ↦ rw (l, ne) rest | inr l ↦ rw (l, e) rest ]
  ]

pub self_live : (s : Session) → s.revoked_at ≡ none → is_live s.id s ≡ true
self_live s h = rw (text_eq_refl s.id, h)

apart_id : (x s : Session) → session_conflicts x s ≡ false → is_live s.id x ≡ false
apart_id x s h = ground (arith, text_eq_sym x.id s.id)

-- The row that an unrevoked session's hash finds is also found by its id.
pub find-live :
    (hash : Text) (ss : List Session) (s : Session)
    → IsUnique ss
    → s.revoked_at ≡ none
    → find (has_hash hash) ss ≡ some s
    → find (is_live s.id) ss ≡ some s
find-live hash [] s u live h = cc
find-live hash (x ∷ ss) s (fresh, u) live h = elim (Bool-cases (has_hash hash x)) [
  | inl e ↦
      let same : x ≡ s = some-injective x s (sym (rw e) ∙ h) in
      let hit : is_live s.id x ≡ true = rw same (self_live s live) in rw hit (ap some same)
  | inr e ↦
      let h' = rw e at h in
      let miss : is_live s.id x ≡ false =
        apart_id x s (any-find (session_conflicts x) (has_hash hash) ss s fresh h') in
      rw miss (find-live hash ss s u live h')
]
