-- ===== src/Repository/Rows.antt =====
-- Lists of rows under an INSERT at the end and an UPDATE: tests on all rows, on some row, and rows
-- that are pairwise apart.
use api_calixio.Prelude.{
  Bool, true, false, List, [], ◌∷◌, ◌++◌, ◌||◌, ◌≡◌, refl, ◌∙◌, arith, any, all, find, none, some,
  Bool-cases, inl, inr,
}
use api_calixio.Repository.Sql.{update_where}

module _ {A : Type 0} where
  pub any-snoc : (p : A → Bool) (xs : List A) (x : A) → any p (xs ++ (x ∷ [])) ≡ (any p xs || p x)
  any-snoc p [] x = ground arith
  any-snoc p (y ∷ xs) x = ground (arith, any-snoc p xs x)

  pub any-grows :
      (p : A → Bool) (xs : List A) (x : A) → any p xs ≡ true → any p (xs ++ (x ∷ [])) ≡ true
  any-grows p xs x h = rw any-snoc (ground arith)

  pub any-found : (p : A → Bool) (xs : List A) (x : A) → find p xs ≡ some x → any p xs ≡ true
  any-found p [] x h = cc
  any-found p (y ∷ xs) x h = ground (arith, any-found p xs x)

  pub any-missing : (p : A → Bool) (xs : List A) → find p xs ≡ none → any p xs ≡ false
  any-missing p [] h = refl
  any-missing p (y ∷ xs) h = ground (arith, any-missing p xs)

  -- An UPDATE that a test does not see.
  pub any-update :
      (p q : A → Bool) (f : A → A) (xs : List A)
      → ((x : A) → q (f x) ≡ q x)
      → any q (update_where p f xs) ≡ any q xs
  any-update p q f [] keep = refl
  any-update p q f (x ∷ xs) keep =
      let rest = any-update p q f xs keep in let here = keep x in ground arith

  pub all-snoc :
      (p : A → Bool) (xs : List A) (x : A)
      → all p xs ≡ true
      → p x ≡ true
      → all p (xs ++ (x ∷ [])) ≡ true
  all-snoc p [] x h k = ground arith
  all-snoc p (y ∷ xs) x h k = ground (arith, all-snoc p xs x)

  pub all-update :
      (p q : A → Bool) (f : A → A) (xs : List A)
      → ((x : A) → q x ≡ true → q (f x) ≡ true)
      → all q xs ≡ true
      → all q (update_where p f xs) ≡ true
  all-update p q f [] keep h = h
  all-update p q f (x ∷ xs) keep h =
      let rest = all-update p q f xs keep in let here = keep x in ground arith

  pub all-weaken :
      (p q : A → Bool) (xs : List A)
      → ((x : A) → p x ≡ true → q x ≡ true)
      → all p xs ≡ true
      → all q xs ≡ true
  all-weaken p q [] k h = h
  all-weaken p q (x ∷ xs) k h = let rest = all-weaken p q xs k in let here = k x in ground arith

  -- No row conflicts with a later one.
  abbrev pub IsPairwise : (A → A → Bool) → List A → Type 0
  IsPairwise c [] = Unit
  IsPairwise c (x ∷ xs) = (any (c x) xs ≡ false) × IsPairwise c xs

  pub snoc-IsPairwise :
      (c : A → A → Bool) (xs : List A) (x : A)
      → ((y z : A) → c y z ≡ c z y)
      → any (c x) xs ≡ false
      → IsPairwise c xs
      → IsPairwise c (xs ++ (x ∷ []))
  snoc-IsPairwise c [] x sym_c h u = (refl, tt)
  snoc-IsPairwise c (y ∷ xs) x sym_c h (fresh, u) =
      let swapped = sym_c y x in
      (rw any-snoc (ground arith), snoc-IsPairwise c xs x sym_c (ground arith) u)

  any-same : (p q : A → Bool) (xs : List A) → ((x : A) → p x ≡ q x) → any p xs ≡ any q xs
  any-same p q [] h = refl
  any-same p q (x ∷ xs) h = let rest = any-same p q xs h in let here = h x in ground arith

  -- An UPDATE that leaves the unique columns alone.
  pub update-IsPairwise :
      (c : A → A → Bool) (p : A → Bool) (f : A → A) (xs : List A)
      → ((x y : A) → c (f x) y ≡ c x y)
      → ((x y : A) → c x (f y) ≡ c x y)
      → IsPairwise c xs
      → IsPairwise c (update_where p f xs)
  update-IsPairwise c p f [] l r u = tt
  update-IsPairwise c p f (x ∷ xs) l r (fresh, u) = elim (Bool-cases (p x)) [
    | inl e ↦ rw e (
      any-update p (c (f x)) f xs (r (f x)) ∙ any-same (c (f x)) (c x) xs (l x) ∙ fresh,
      update-IsPairwise c p f xs l r u,
    )
    | inr e ↦ rw e (any-update p (c x) f xs (r x) ∙ fresh, update-IsPairwise c p f xs l r u)
  ]
