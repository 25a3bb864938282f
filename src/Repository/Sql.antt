-- ===== src/Repository/Sql.antt =====
-- Statements on a table as a list of rows.
use api_calixio.Prelude.{
  Bool, true, false, Option, none, some, List, [], ◌∷◌, ◌≡◌, refl, find, if◌then◌else◌, Bool-cases,
  inl, inr,
}

-- `UPDATE ... SET f WHERE p`
abbrev pub update_where {ℓ} : {A : Type ℓ} → (A → Bool) → (A → A) → List A → List A
update_where p f [] = []
update_where p f (r ∷ rows) = (if p r then f r else r) ∷ update_where p f rows

abbrev pub is_null {ℓ} : {A : Type ℓ} → Option A → Bool
is_null none = true
is_null (some a) = false

abbrev pub changed {ℓ} : {A : Type ℓ} → (A → Bool) → (A → A) → A → A
changed p f r = if p r then f r else r

abbrev pub on_some {ℓ} : {A : Type ℓ} → (A → A) → Option A → Option A
on_some g none = none
on_some g (some a) = some (g a)

-- A lookup whose test the update does not affect finds the row as the update left it.
pub find-update_where {ℓ} :
    {A : Type ℓ} (q p : A → Bool) (f : A → A) (rows : List A)
    → ((r : A) → q (f r) ≡ q r)
    → find q (update_where p f rows) ≡ on_some (changed p f) (find q rows)
find-update_where q p f [] keep = refl
find-update_where q p f (r ∷ rows) keep = elim (Bool-cases (p r)) [
  | inl e ↦ elim (Bool-cases (q r)) [
    | inl hit ↦ rw e (rw (keep r, hit) (rw e))
    | inr miss ↦ rw e (rw (keep r, miss) (find-update_where q p f rows keep))
  ]
  | inr e ↦ elim (Bool-cases (q r)) [
    | inl hit ↦ rw e (rw hit (rw e))
    | inr miss ↦ rw e (rw miss (find-update_where q p f rows keep))
  ]
]
