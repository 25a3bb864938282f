-- ===== src/Text/FilePath.antt =====
-- Go's `path.Clean`, `path.Join`, `path.Dir` and `filepath.Base`, `filepath.Ext` on Unix.
pub mod Laws
use api_calixio.Prelude.{
  Bool, true, false, not, ◌&&◌, ◌||◌, Option, none, some, List, [], ◌∷◌, ◌++◌, reverse, ◌==◌, drop,
  length, if◌then◌else◌,
}
use api_calixio.Text.{Text, text_eq, is_empty, trim_right, split, join, lacks, slash, dot, dot_dot}

-- What a `..` does to the segments so far, the last one first: at the root it is dropped, behind
-- nothing or behind another `..` it is kept.
abbrev back : Bool → List Text → List Text
back rooted [] = if rooted then [] else dot_dot ∷ []
back rooted (t ∷ st) = if text_eq t dot_dot then dot_dot ∷ t ∷ st else st

abbrev enter : Bool → Text → List Text → List Text
enter rooted s st =
    if is_empty s || text_eq s dot then st else if text_eq s dot_dot then back rooted st else s ∷ st

unfoldable pub resolve : Bool → List Text → List Text → List Text
resolve rooted st [] = reverse st
resolve rooted st (s ∷ ss) = resolve rooted (enter rooted s st) ss

abbrev pub or_dot : Text → Text
or_dot [] = dot
or_dot (c ∷ s) = c ∷ s

unfoldable pub clean : Text → Text
unfolding resolve
clean [] = dot
clean (c ∷ s) =
    if c == slash
    then slash ∷ join (resolve true [] (split s slash)) slash
    else or_dot (join (resolve false [] (split (c ∷ s) slash)) slash)

-- `path.Join`, and `filepath.Join`: empty elements in front are left out.
unfoldable pub path_join : List Text → Text
path_join [] = []
path_join ([] ∷ ps) = path_join ps
path_join ((c ∷ s) ∷ ps) = clean (join ((c ∷ s) ∷ ps) slash)

-- A segment that `clean` leaves alone.
unfoldable pub plain : Text → Bool
plain s = lacks slash s && not (is_empty s) && not (text_eq s dot) && not (text_eq s dot_dot)

-- The text behind the last slash, and the text up to and with it.
abbrev pub last_of : Text → List Text → Text
last_of d [] = d
last_of d (p ∷ ps) = last_of p ps

abbrev init_of : List Text → List Text
init_of [] = []
init_of (p ∷ []) = []
init_of (p ∷ q ∷ ps) = p ∷ init_of (q ∷ ps)

-- `path.Dir`
unfoldable pub dir : Text → Text
unfolding clean
dir p = elim (init_of (split p slash)) [
  | [] ↦ dot
  | q ∷ qs ↦ clean (join (q ∷ qs) slash ++ (slash ∷ []))
]

-- `filepath.Base`
unfoldable pub base : Text → Text
base [] = dot
base (c ∷ s) =
    let t = trim_right (λ d. d == slash) (c ∷ s) in
    if is_empty t then slash ∷ [] else last_of [] (split t slash)

-- What stands before the last dot of a text without a slash, if it has a dot: `filepath.Ext` is
-- the rest, and the name without its extension is this.
unfoldable pub stem : Text → Option Text
stem [] = none
stem (c ∷ s) =
    let rest = stem s in
    elim rest [ some t ↦ some (c ∷ t) | none ↦ if c == b'.' then some [] else none ]

-- `filepath.Ext`: the last segment from its last dot on.
unfoldable pub extension : Text → Text
unfolding stem
extension p =
    let name = last_of [] (split p slash) in
    elim (stem name) [ none ↦ [] | some t ↦ drop (length t) name ]
