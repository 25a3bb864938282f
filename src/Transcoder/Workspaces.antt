-- ===== src/Transcoder/Workspaces.antt =====
-- The directories that the transcoder tries: `tempBaseDirs` of
-- internal/service/media_transcoder.go.
use api_calixio.Prelude.{
  true, false, ◌||◌, List, [], ◌∷◌, ◌++◌, ◌≡◌, refl, subst, ◌∙◌, arith, any, if◌then◌else◌,
  Bool-cases, inl, inr,
}
use api_calixio.Text.{Text, codes, text_eq, is_empty, trim_space, dot, join, split}
use api_calixio.Text.Laws.{text_eq_refl, text_eq_sym}
use api_calixio.Text.FilePath.{clean}

-- The closure `add`.
unfoldable pub add_dir : List Text → Text → List Text
add_dir out dir =
    let trimmed = trim_space dir in
    if is_empty trimmed
    then out
    else if any (text_eq (clean trimmed)) out
    then out
    else out ++ (clean trimmed ∷ [])

unfoldable pub temp_base_dirs : Text → Text → List Text
temp_base_dirs work_dir temp_dir =
    add_dir (add_dir (add_dir (add_dir [] work_dir) temp_dir) (codes "/var/tmp")) dot

-- no directory occurs twice
abbrev pub IsDistinct : List Text → Type 0
IsDistinct [] = Unit
IsDistinct (d ∷ ds) = (any (text_eq d) ds ≡ false) × IsDistinct ds

any-snoc :
    (d e : Text) (ds : List Text)
    → any (text_eq d) (ds ++ (e ∷ [])) ≡ any (text_eq d) ds || text_eq d e
any-snoc d e [] = ground arith
any-snoc d e (x ∷ ds) = ground (arith, any-snoc d e ds)

snoc-IsDistinct :
    (ds : List Text) (e : Text)
    → any (text_eq e) ds ≡ false
    → IsDistinct ds
    → IsDistinct (ds ++ (e ∷ []))
snoc-IsDistinct [] e h u = (refl, tt)
snoc-IsDistinct (d ∷ ds) e h (fresh, u) =
    let apart : text_eq d e ≡ false = text_eq_sym d e ∙ ground arith in
    (any-snoc d e ds ∙ ground arith, snoc-IsDistinct ds e (ground arith) u)

add_dir-IsDistinct : (ds : List Text) (dir : Text) → IsDistinct ds → IsDistinct (add_dir ds dir)
unfolding add_dir
add_dir-IsDistinct ds dir u = elim (Bool-cases (is_empty (trim_space dir))) [
  | inl e ↦ rw (e, add_dir) u
  | inr e ↦ elim (Bool-cases (any (text_eq (clean (trim_space dir))) ds)) [
    | inl seen ↦ rw (e, seen, add_dir) u
    | inr fresh ↦ rw (e, fresh, add_dir) (snoc-IsDistinct ds (clean (trim_space dir)) fresh u)
  ]
]

add_dir-holds :
    (ds : List Text) (dir : Text)
    → is_empty (trim_space dir) ≡ false
    → any (text_eq (clean (trim_space dir))) (add_dir ds dir) ≡ true
unfolding add_dir
add_dir-holds ds dir e = elim (Bool-cases (any (text_eq (clean (trim_space dir))) ds)) [
  | inl seen ↦ rw (e, seen, add_dir) seen
  | inr fresh ↦
      rw (e, fresh, add_dir)
        (any-snoc (clean (trim_space dir)) (clean (trim_space dir)) ds
          ∙ ground (arith, text_eq_refl (clean (trim_space dir))))
]

dot_kept : clean (trim_space dot) ≡ dot
unfolding clean trim_space join split text_eq
dot_kept = refl

dot_full : is_empty (trim_space dot) ≡ false
unfolding trim_space
dot_full = refl

-- Whatever the settings are, the directories to try are distinct, and the current directory is
-- among them, so there is always one.
pub temp_base_dirs-IsDistinct :
    (work_dir temp_dir : Text)
    → IsDistinct (temp_base_dirs work_dir temp_dir)
      × (any (text_eq dot) (temp_base_dirs work_dir temp_dir) ≡ true)
unfolding temp_base_dirs
temp_base_dirs-IsDistinct work_dir temp_dir =
    let ds = add_dir (add_dir (add_dir [] work_dir) temp_dir) (codes "/var/tmp") in
    (
      add_dir-IsDistinct ds dot (
          add_dir-IsDistinct _ (codes "/var/tmp")
            (add_dir-IsDistinct _ temp_dir (add_dir-IsDistinct [] work_dir tt))),
      subst (λ d. any (text_eq d) (add_dir ds dot) ≡ true) dot_kept (add_dir-holds ds dot dot_full),
    )
