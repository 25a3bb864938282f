-- ===== src/Config/Environment.antt =====
-- The environment of the process and the file `.env`: the helpers of internal/config/config.go.
use api_calixio.Prelude.{
  ℕ, Bool, not, ◌&&◌, ◌||◌, Option, none, some, List, [], ◌∷◌, ◌≡◌, refl, ap, ◌∙◌, arith, ◌==◌,
  if◌then◌else◌, Bool-cases, inl, inr,
}
use api_calixio.Text.{Text, codes, text_eq, is_empty, has_prefix, trim_space, split}
use api_calixio.Text.Laws.{text_eq→eq}
use api_calixio.Integer.{ℤ}
use api_calixio.Exec.{Reply, Result, got, failed, ok, err, external}

-- The variables with their values; the first entry of a name counts.
abbrev pub Env : Type 0
Env = List (Text × Text)

-- `os.LookupEnv`
abbrev pub lookup_env : Env → Text → Option Text
lookup_env [] key = none
lookup_env (v ∷ vs) key = let rest = lookup_env vs key in if text_eq v.0 key then some v.1 else rest

-- `os.Getenv`
abbrev pub value_or_empty : Option Text → Text
value_or_empty none = []
value_or_empty (some v) = v

abbrev pub get_env_value : Env → Text → Text
get_env_value env key = value_or_empty (lookup_env env key)

-- What there is at the path: no file, an error, or the lines with the error that ended them.
pub data DotEnv : Type 0 where
  missing : DotEnv
  unreadable : ℕ → DotEnv
  lines_of : List Text → Option ℕ → DotEnv

-- `strings.SplitN(line, "=", 2)`, if it has two parts
abbrev pub cut_equals : Text → Option (Text × Text)
cut_equals [] = none
cut_equals (c ∷ s) =
    let rest = cut_equals s in
    if c == b'=' then some ([], s) else elim rest [ none ↦ none | some p ↦ some (c ∷ p.0, p.1) ]

abbrev trimmed_pair : Option (Text × Text) → Option (Text × Text)
trimmed_pair none = none
trimmed_pair (some (key, val)) =
    if is_empty (trim_space key) then none else some (trim_space key, trim_space val)

-- The variable that a line sets, if it sets one.
unfoldable pub parse_line : Text → Option (Text × Text)
parse_line raw =
    let line = trim_space raw in
    if is_empty line || has_prefix line (codes "#") then none else trimmed_pair (cut_equals line)

abbrev pub or_setting : Option Text → Option Text → Option Text
or_setting (some v) o = some v
or_setting none o = o

-- `settable` says whether `os.Setenv` accepts a name and a value; its error is dropped.
module _ (settable : Text → Text → Bool) where
  -- A variable that is set stays as it is.
  abbrev pub set_if_absent : Env → Option (Text × Text) → Env
  set_if_absent env none = env
  set_if_absent env (some (key, val)) = elim (lookup_env env key) [
    | some v ↦ env
    | none ↦ if settable key val then (key, val) ∷ env else env
  ]

  -- The loop of `loadDotEnv` over the lines.
  unfoldable pub load_lines : Env → List Text → Env
  load_lines env [] = env
  load_lines env (l ∷ ls) = load_lines (set_if_absent env (parse_line l)) ls

  abbrev ended : Option ℕ → Env → Result Env
  ended none env = ok env
  ended (some n) env = err (external n)

  -- `loadDotEnv`; the variables that were set before an error stay set, but nothing reads them.
  unfoldable pub load_dot_env : DotEnv → Env → Result Env
  load_dot_env missing env = ok env
  load_dot_env (unreadable n) env = err (external n)
  load_dot_env (lines_of ls e) env = ended e (load_lines env ls)

  -- The value that a list of lines gives a name: that of the first line that sets it.
  abbrev sets : Text → Option (Text × Text) → Option Text → Option Text
  sets name none rest = rest
  sets name (some (key, val)) rest = if text_eq key name && settable key val then some val else rest

  abbrev pub first_setting : List Text → Text → Option Text
  first_setting [] name = none
  first_setting (l ∷ ls) name = sets name (parse_line l) (first_setting ls name)

  lookup-set_if_absent :
      (env : Env) (line : Option (Text × Text)) (name : Text) (rest : Option Text)
      → or_setting (lookup_env (set_if_absent env line) name) rest
        ≡ or_setting (lookup_env env name) (sets name line rest)
  lookup-set_if_absent env none name rest = refl
  lookup-set_if_absent env (some (key, val)) name rest = elim (Bool-cases (text_eq key name)) [
    | inl e ↦
        let same : lookup_env env key ≡ lookup_env env name =
          ap (lookup_env env) (text_eq→eq key name e) in
        ground arith
    | inr e ↦ ground arith
  ]

  -- Reading the lines gives a variable its old value, if it had one, and otherwise the value of the
  -- first line that sets it.
  pub lookup-load_lines :
      (env : Env) (ls : List Text) (name : Text)
      → lookup_env (load_lines env ls) name
        ≡ or_setting (lookup_env env name) (first_setting ls name)
  unfolding load_lines
  lookup-load_lines env [] name = ground arith
  lookup-load_lines env (l ∷ ls) name =
      lookup-load_lines (set_if_absent env (parse_line l)) ls name
      ∙ lookup-set_if_absent env (parse_line l) name (first_setting ls name)

-- `getenv`
unfoldable pub getenv : Env → Text → Text → Text
getenv env key fallback =
    if not (is_empty (get_env_value env key)) then get_env_value env key else fallback

abbrev reply_or : ℤ → Reply ℤ → ℤ
reply_or fallback (got n) = n
reply_or fallback (failed e) = fallback

-- `getenvInt`, `getenvInt64` and `getenvDuration`, with the parser of each
unfoldable pub getenv_number : (Text → Reply ℤ) → Env → Text → ℤ → ℤ
getenv_number parse env key fallback =
    if is_empty (get_env_value env key)
    then fallback
    else reply_or fallback (parse (get_env_value env key))

abbrev trimmed_items : List Text → List Text
trimmed_items [] = []
trimmed_items (p ∷ ps) =
    let rest = trimmed_items ps in
    let item = trim_space p in if is_empty item then rest else item ∷ rest

abbrev items_or : List Text → List Text → List Text
items_or fallback [] = fallback
items_or fallback (i ∷ is) = i ∷ is

-- `getenvCSV`
unfoldable pub getenv_csv : Env → Text → List Text → List Text
getenv_csv env key fallback =
    if is_empty (get_env_value env key)
    then fallback
    else items_or fallback (trimmed_items (split (get_env_value env key) b','))
