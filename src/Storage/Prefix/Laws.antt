-- ===== src/Storage/Prefix/Laws.antt =====
-- The cleaner finds the media item, and the prefix that `DeleteMedia` deletes, from any object key
-- below the item's directory.
use api_calixio.Prelude.{
  ℕ, Bool, true, false, not, ◌&&◌, some, List, [], ◌∷◌, ◌++◌, ◌≡◌, refl, ◌∙◌, sym, ap, arith, all,
  ◌==◌, reverse, reverse-append, reverse-reverse, append_assoc,
}
use mathlib.Core.List.{reverse-cons}
use api_calixio.Text.{
  Text, text_eq, is_empty, split, join, slash, trim_space, trim, lacks, is_space, trim_left,
}
use api_calixio.Text.Laws.{split-join, text_eq_refl}
use api_calixio.Text.FilePath.{path_join, plain}
use api_calixio.Text.FilePath.Laws.{
  path_join-plain, plain-lacks, all-plain-lacks, join-join, all-append,
}
use api_calixio.Storage.Prefix.{
  extract_media_prefix, media_prefix, from_parts, users_dir, media_dir,
}

-- A text whose first and last characters fail the test is not trimmed.
abbrev pub starts : (ℕ → Bool) → Text → Bool
starts p [] = false
starts p (c ∷ s) = not (p c)

trim_left_of_starts : (p : ℕ → Bool) (s : Text) → starts p s ≡ true → trim_left p s ≡ s
trim_left_of_starts p [] h = cc
trim_left_of_starts p (c ∷ s) h = ground arith

pub trim_kept :
    (p : ℕ → Bool) (s : Text) → starts p s ≡ true → starts p (reverse s) ≡ true → trim p s ≡ s
trim_kept p s h k =
    rw (trim_left_of_starts p s h, trim_left_of_starts p (reverse s) k, reverse-reverse)

-- A segment that no trimming changes and that is no special path element.
pub plain-starts : (s : Text) → plain s ≡ true → starts (λ c. c == slash) s ≡ true
unfolding plain
plain-starts [] h = cc
plain-starts (c ∷ s) h = ground arith

pub starts-append : (p : ℕ → Bool) (s t : Text) → starts p s ≡ true → starts p (s ++ t) ≡ true
starts-append p [] t h = cc
starts-append p (c ∷ s) t h = h

lacks-append : (c : ℕ) (s t : Text) → lacks c (s ++ t) ≡ (lacks c s && lacks c t)
lacks-append c [] t = refl
lacks-append c (d ∷ s) t = ground (arith, lacks-append c s t)

pub lacks-reverse : (c : ℕ) (s : Text) → lacks c (reverse s) ≡ lacks c s
lacks-reverse c [] = refl
lacks-reverse c (d ∷ s) =
    rw (reverse-cons d s, lacks-append c (reverse s) (d ∷ []), lacks-reverse c s) (ground arith)

pub starts_of_lacks :
    (q : ℕ → Bool) (c : ℕ) (s : Text)
    → starts q s ≡ true
    → lacks c s ≡ true
    → starts (λ d. d == c) s ≡ true
starts_of_lacks q c [] h k = cc
starts_of_lacks q c (d ∷ s) h k = ground arith

-- No white space anywhere, and a plain path segment: user ids and media ids are such.
unfoldable pub solid : Text → Bool
solid s = plain s && all (λ c. not (is_space c)) s

no_space_starts :
    (s : Text)
    → is_empty s ≡ false
    → all (λ c. not (is_space c)) s ≡ true
    → starts is_space s ≡ true
no_space_starts [] h k = cc
no_space_starts (c ∷ s) h k = ground arith

all-reverse-append : (p : ℕ → Bool) (s t : Text) → all p (s ++ t) ≡ (all p s && all p t)
all-reverse-append p [] t = refl
all-reverse-append p (c ∷ s) t = ground (arith, all-reverse-append p s t)

all-reverse : (p : ℕ → Bool) (s : Text) → all p (reverse s) ≡ all p s
all-reverse p [] = refl
all-reverse p (d ∷ s) =
    rw (reverse-cons d s, all-reverse-append p (reverse s) (d ∷ []), all-reverse p s) (ground arith)

is_empty-reverse : (s : Text) → is_empty (reverse s) ≡ is_empty s
is_empty-reverse [] = refl
is_empty-reverse (d ∷ s) = rw reverse-cons (behind (reverse s))
  where
    behind : (t : Text) → is_empty (t ++ (d ∷ [])) ≡ false
    behind [] = refl
    behind (c ∷ t) = refl

pub solid-plain : (s : Text) → solid s ≡ true → plain s ≡ true
unfolding solid
solid-plain s h = ground arith

pub solid-trim_space : (s : Text) → solid s ≡ true → trim_space s ≡ s
unfolding solid trim_space
solid-trim_space s h =
    let full : is_empty s ≡ false = unfold plain in ground arith in
    let clear : all (λ c. not (is_space c)) s ≡ true = ground arith in
    trim_kept is_space s (no_space_starts s full clear) (
      no_space_starts (reverse s) (is_empty-reverse s ∙ full)
        (all-reverse (λ c. not (is_space c)) s ∙ clear))

solid-not-empty : (s : Text) → solid s ≡ true → is_empty (trim_space s) ≡ false
solid-not-empty s h = rw (solid-trim_space s h) (unfold solid plain in ground arith)

join-last :
    (p : Text) (ps : List Text) (f : Text) (sep : ℕ)
    → join (p ∷ ps ++ (f ∷ [])) sep ≡ join (p ∷ ps) sep ++ (sep ∷ f)
unfolding join
join-last p ps f sep = sym (join-join p ps f [] sep)

plain-users_dir : plain users_dir ≡ true
unfolding plain text_eq
plain-users_dir = refl

plain-media_dir : plain media_dir ≡ true
unfolding plain text_eq
plain-media_dir = refl

from_parts-item :
    (o i : Text) (rest : List Text)
    → solid o ≡ true
    → solid i ≡ true
    → from_parts (users_dir ∷ o ∷ media_dir ∷ i ∷ rest) ≡ some (i, media_prefix o i)
unfolding from_parts media_prefix
from_parts-item o i rest ho hi =
    rw (text_eq_refl users_dir, text_eq_refl media_dir, solid-not-empty o ho, solid-not-empty i hi)

module _ (owner id : Text) (fs : List Text) (f : Text) where
  abbrev inner : List Text
  inner = owner ∷ media_dir ∷ id ∷ fs ++ (f ∷ [])

  parts-plain :
      solid owner ≡ true
      → solid id ≡ true
      → all plain fs ≡ true
      → plain f ≡ true
      → all plain (users_dir ∷ inner) ≡ true
  parts-plain ho hi hs hf = rw plain-users_dir (
      all-append (owner ∷ media_dir ∷ id ∷ fs) (f ∷ [])
        (rw (solid-plain owner ho, plain-media_dir, solid-plain id hi) hs) (rw hf))

  key_start : (q : ℕ → Bool) → q b'u' ≡ false → starts q (join (users_dir ∷ inner) slash) ≡ true
  unfolding join
  key_start q h = ground arith

  key_end :
      (q : ℕ → Bool)
      → starts q (reverse f) ≡ true
      → starts q (reverse (join (users_dir ∷ inner) slash)) ≡ true
  key_end q h =
      rw
        (
          join-last users_dir (owner ∷ media_dir ∷ id ∷ fs) f slash,
          reverse-append (join (users_dir ∷ owner ∷ media_dir ∷ id ∷ fs) slash) (slash ∷ f),
          reverse-cons slash f,
          append_assoc,
        )
        (starts-append q (reverse f) _ h)

  trim_space-key :
      starts is_space (reverse f) ≡ true
      → trim_space (join (users_dir ∷ inner) slash) ≡ join (users_dir ∷ inner) slash
  unfolding trim_space
  trim_space-key he =
      trim_kept is_space _ (key_start is_space (unfold is_space in refl)) (key_end is_space he)

  trim-key :
      starts is_space (reverse f) ≡ true
      → plain f ≡ true
      → trim (λ c. c == slash) (join (users_dir ∷ inner) slash) ≡ join (users_dir ∷ inner) slash
  trim-key he hf =
      trim_kept (λ c. c == slash) _ (key_start (λ c. c == slash) refl)
        (key_end (λ c. c == slash)
          (starts_of_lacks is_space slash (reverse f) he
            (lacks-reverse slash f ∙ plain-lacks f hf)))

  -- The key of an object below a media directory is cut back to the media id and to the prefix
  -- that `DeleteMedia` deletes: for ids of plain characters without white space, plain inner
  -- segments, and a plain last segment that does not end in white space.
  pub extract-object_key :
      solid owner ≡ true
      → solid id ≡ true
      → all plain fs ≡ true
      → plain f ≡ true
      → starts is_space (reverse f) ≡ true
      → extract_media_prefix (path_join (users_dir ∷ owner ∷ media_dir ∷ id ∷ fs ++ (f ∷ [])))
        ≡ some (id, media_prefix owner id)
  unfolding extract_media_prefix
  extract-object_key ho hi hs hf he =
      let good = parts-plain ho hi hs hf in
      let parts_of = λ (t : Text). from_parts (split t slash) in
      let cut = λ (t : Text). trim (λ c. c == slash) t in
      ap (λ t. parts_of (cut (trim_space t))) (path_join-plain users_dir inner good)
      ∙ ap (λ t. parts_of (cut t)) (trim_space-key he)
      ∙ ap parts_of (trim-key he hf)
      ∙ ap from_parts (split-join users_dir inner slash (all-plain-lacks (users_dir ∷ inner) good))
      ∙ from_parts-item owner id (fs ++ (f ∷ [])) ho hi
