-- ===== src/Text/FilePath/Laws.antt =====
-- Paths of plain segments: `path.Join` only puts the slashes in.
use api_calixio.Prelude.{
  ℕ, Bool, true, false, List, [], ◌∷◌, ◌++◌, ◌≡◌, refl, sym, ap, ◌∙◌, arith, all, reverse,
  append_assoc, append-nil, ◌==◌,
}
use mathlib.Core.List.{reverse-cons}
use api_calixio.Text.{Text, split, join, lacks, slash}
use api_calixio.Text.Laws.{split-join}
use api_calixio.Text.FilePath.{resolve, enter, clean, path_join, plain, or_dot}

pub plain-lacks : (s : Text) → plain s ≡ true → lacks slash s ≡ true
unfolding plain
plain-lacks s h = ground arith

enter-plain : (r : Bool) (s : Text) (st : List Text) → plain s ≡ true → enter r s st ≡ s ∷ st
unfolding plain
enter-plain r s st h = ground arith

pub all-plain-lacks : (ps : List Text) → all plain ps ≡ true → all (lacks slash) ps ≡ true
all-plain-lacks [] h = refl
all-plain-lacks (p ∷ ps) h = ground (arith, plain-lacks p, all-plain-lacks ps)

pub resolve-plain :
    (r : Bool) (st ss : List Text) → all plain ss ≡ true → resolve r st ss ≡ reverse st ++ ss
unfolding resolve
resolve-plain r st [] h = sym (append-nil (reverse st))
resolve-plain r st (s ∷ ss) h = rw (enter-plain r s st (ground arith)) (
    resolve-plain r (s ∷ st) ss (ground arith)
    ∙ (rw reverse-cons (append_assoc (reverse st) (s ∷ []) ss)))

pub join-cons :
    (c : ℕ) (s : Text) (ps : List Text) (sep : ℕ) → join ((c ∷ s) ∷ ps) sep ≡ c ∷ join (s ∷ ps) sep
unfolding join
join-cons c s [] sep = refl
join-cons c s (p ∷ ps) sep = refl

-- A relative path is cleaned segment by segment.
pub clean-relative :
    (c : ℕ) (s : Text)
    → (c == slash) ≡ false
    → clean (c ∷ s) ≡ or_dot (join (resolve false [] (split (c ∷ s) slash)) slash)
unfolding clean
clean-relative c s h = rw h

-- Joining plain segments puts a slash between them and changes nothing else.
pub path_join-plain :
    (p : Text) (ps : List Text)
    → all plain (p ∷ ps) ≡ true
    → path_join (p ∷ ps) ≡ join (p ∷ ps) slash
unfolding path_join
path_join-plain [] ps h = absurd (unfold plain in ground arith)
path_join-plain (c ∷ s) ps h = rw (
  join-cons c s ps slash,
  clean-relative c (join (s ∷ ps) slash) (unfold plain in ground arith),
  ← join-cons c s ps slash,
  split-join (c ∷ s) ps slash (all-plain-lacks ((c ∷ s) ∷ ps) h),
  resolve-plain false [] ((c ∷ s) ∷ ps) h,
  join-cons c s ps slash,
)

-- A path in front of further elements counts by its segments.
pub join-join :
    (p : Text) (ps : List Text) (q : Text) (qs : List Text) (sep : ℕ)
    → join (join (p ∷ ps) sep ∷ q ∷ qs) sep ≡ join (p ∷ ps ++ (q ∷ qs)) sep
unfolding join
join-join p [] q qs sep = refl
join-join p (r ∷ ps) q qs sep =
    append_assoc p (sep ∷ join (r ∷ ps) sep) (sep ∷ join (q ∷ qs) sep)
    ∙ ap (λ t. p ++ (sep ∷ t)) (join-join r ps q qs sep)

pub all-append :
    (ps qs : List Text) → all plain ps ≡ true → all plain qs ≡ true → all plain (ps ++ qs) ≡ true
all-append [] qs h k = k
all-append (p ∷ ps) qs h k = ground (arith, all-append ps qs)
