-- ===== src/Text.antt =====
-- Go's `strings` and `path` on texts, as far as the program uses them. A text is the list of the
-- code points of a valid UTF-8 string, so the empty text is `[]`.
pub mod Laws
pub mod FilePath
pub mod Decimal
use Prim.Native.Char.{code}
use Prim.Native.String.{String}
use api_calixio.Prelude.{
  ℕ, Bool, true, false, not, ◌&&◌, ◌||◌, Option, none, some, List, [], ◌∷◌, ◌++◌, map, reverse, leb,
  ◌==◌, if◌then◌else◌,
}

abbrev pub Text : Type 0
Text = List ℕ

-- A literal of the source.
abbrev pub codes : String → Text
codes String.[] = []
codes (String.◌∷◌ c s) = code c ∷ codes s

unfoldable pub text_eq : Text → Text → Bool
text_eq [] [] = true
text_eq [] (d ∷ t) = false
text_eq (c ∷ s) [] = false
text_eq (c ∷ s) (d ∷ t) = (c == d) && text_eq s t

-- `s == ""`
abbrev pub is_empty : Text → Bool
is_empty [] = true
is_empty (c ∷ s) = false

-- `unicode.IsSpace`
unfoldable pub is_space : ℕ → Bool
is_space c =
    (leb 9 c && leb c 13)
    || c == 32
    || c == 0x85
    || c == 0xa0
    || c == 0x1680
    || (leb 0x2000 c && leb c 0x200a)
    || c == 0x2028
    || c == 0x2029
    || c == 0x202f
    || c == 0x205f
    || c == 0x3000

-- `strings.TrimLeft` and `strings.TrimRight` with the set of characters as a test
abbrev pub trim_left : (ℕ → Bool) → Text → Text
trim_left p [] = []
trim_left p (c ∷ s) = let rest = trim_left p s in if p c then rest else c ∷ s

abbrev pub trim_right : (ℕ → Bool) → Text → Text
trim_right p s = reverse (trim_left p (reverse s))

abbrev pub trim : (ℕ → Bool) → Text → Text
trim p s = trim_right p (trim_left p s)

unfoldable pub trim_space : Text → Text
unfolding is_space
trim_space s = trim is_space s

-- `strings.HasPrefix(s, p)` and `strings.HasSuffix(s, p)`
unfoldable pub has_prefix : Text → Text → Bool
has_prefix s [] = true
has_prefix [] (d ∷ p) = false
has_prefix (c ∷ s) (d ∷ p) = (c == d) && has_prefix s p

unfoldable pub has_suffix : Text → Text → Bool
unfolding has_prefix
has_suffix s p = has_prefix (reverse s) (reverse p)

-- `strings.Split` at a separator of one character
abbrev cons_head : ℕ → List Text → List Text
cons_head c [] = (c ∷ []) ∷ []
cons_head c (p ∷ ps) = (c ∷ p) ∷ ps

unfoldable pub split : Text → ℕ → List Text
split [] sep = [] ∷ []
split (c ∷ s) sep = let rest = split s sep in if c == sep then [] ∷ rest else cons_head c rest

-- `strings.Join` with a separator of one character
unfoldable pub join : List Text → ℕ → Text
join [] sep = []
join (p ∷ []) sep = p
join (p ∷ q ∷ ps) sep = p ++ (sep ∷ join (q ∷ ps) sep)

-- The text before the first `c`, if there is one: `s[:strings.Index(s, c)]`.
unfoldable pub before : ℕ → Text → Option Text
before c [] = none
before c (d ∷ s) =
    let rest = before c s in
    if d == c then some [] else elim rest [ none ↦ none | some t ↦ some (d ∷ t) ]

-- `strings.ReplaceAll` of one character by another
abbrev pub replace_all : ℕ → ℕ → Text → Text
replace_all old new = map (λ c. if c == old then new else c)

abbrev pub lacks : ℕ → Text → Bool
lacks c [] = true
lacks c (d ∷ s) = not (d == c) && lacks c s

abbrev pub slash : ℕ
slash = b'/'

abbrev pub dot : Text
dot = b'.' ∷ []

abbrev pub dot_dot : Text
dot_dot = b'.' ∷ b'.' ∷ []
