-- ===== src/Text/Laws.antt =====
-- Laws of the text functions: equality, and splitting against joining.
use api_calixio.Prelude.{ℕ, true, List, [], ◌∷◌, ◌++◌, ◌≡◌, ◌↔◌, ◌≢◌, refl, ap, ◌∙◌, arith, all}
use api_calixio.Text.{Text, text_eq, split, join, lacks, cons_head, has_prefix}

pub text_eq_refl : (s : Text) → text_eq s s ≡ true
unfolding text_eq
text_eq_refl [] = refl
text_eq_refl (c ∷ s) = ground (arith, text_eq_refl s)

pub text_eq→eq : (s t : Text) → text_eq s t ≡ true → s ≡ t
unfolding text_eq
text_eq→eq [] [] h = refl
text_eq→eq [] (d ∷ t) h = cc
text_eq→eq (c ∷ s) [] h = cc
text_eq→eq (c ∷ s) (d ∷ t) h = ground (arith, text_eq→eq s t)

pub text_eq_iff : (s t : Text) → (text_eq s t ≡ true) ↔ (s ≡ t)
text_eq_iff s t = (text_eq→eq s t, λ e. rw e (text_eq_refl t))

-- Splitting a text that lacks the separator gives the text itself.
pub split_of_lacks : (s : Text) (sep : ℕ) → lacks sep s ≡ true → split s sep ≡ s ∷ []
unfolding split
split_of_lacks [] sep h = refl
split_of_lacks (c ∷ s) sep h = ground (arith, split_of_lacks s sep)

pub split-append :
    (s t : Text) (sep : ℕ) → lacks sep s ≡ true → split (s ++ (sep ∷ t)) sep ≡ s ∷ split t sep
unfolding split
split-append [] t sep h = ground arith
split-append (c ∷ s) t sep h = ground (arith, split-append s t sep)

pub split-join :
    (p : Text) (ps : List Text) (sep : ℕ)
    → all (lacks sep) (p ∷ ps) ≡ true
    → split (join (p ∷ ps) sep) sep ≡ p ∷ ps
unfolding join
split-join p [] sep h = split_of_lacks p sep (ground arith)
split-join p (q ∷ ps) sep h =
    split-append p _ sep (ground arith) ∙ ap (◌∷◌ p) (split-join q ps sep (ground arith))

pub split-ne-nil : (s : Text) (sep : ℕ) → split s sep ≢ []
unfolding split
split-ne-nil [] sep = λ e. cc
split-ne-nil (c ∷ s) sep = ground (arith, split-ne-nil s sep)

join-cons_head :
    (c : ℕ) (ps : List Text) (sep : ℕ) → ps ≢ [] → join (cons_head c ps) sep ≡ c ∷ join ps sep
unfolding join
join-cons_head c [] sep h = absurd (h refl)
join-cons_head c (p ∷ []) sep h = refl
join-cons_head c (p ∷ q ∷ ps) sep h = refl

join-nil-cons : (ps : List Text) (sep : ℕ) → ps ≢ [] → join ([] ∷ ps) sep ≡ sep ∷ join ps sep
unfolding join
join-nil-cons [] sep h = absurd (h refl)
join-nil-cons (p ∷ ps) sep h = refl

pub join-split : (s : Text) (sep : ℕ) → join (split s sep) sep ≡ s
unfolding split
join-split [] sep = unfold join in refl
join-split (c ∷ s) sep = ground (
  arith,
  join-split s sep,
  split-ne-nil s sep,
  join-cons_head c (split s sep) sep,
  join-nil-cons (split s sep) sep,
)

pub has_prefix-append : (p s : Text) → has_prefix (p ++ s) p ≡ true
unfolding has_prefix
has_prefix-append [] [] = refl
has_prefix-append [] (c ∷ s) = refl
has_prefix-append (d ∷ p) s = ground (arith, has_prefix-append p s)

pub text_eq_sym : (s t : Text) → text_eq s t ≡ text_eq t s
unfolding text_eq
text_eq_sym [] [] = refl
text_eq_sym [] (d ∷ t) = refl
text_eq_sym (c ∷ s) [] = refl
text_eq_sym (c ∷ s) (d ∷ t) = ground (arith, text_eq_sym s t)
