-- ===== src/Storage/Prefix.antt =====
-- `extractMediaPrefix` of internal/service/storage.go, and the object keys of a media item, which
-- internal/service/media_upload.go and media_transcoder.go build with `path.Join`.
pub mod Laws
use api_calixio.Prelude.{
  ℕ, Bool, true, false, not, ◌&&◌, ◌||◌, Option, none, some, List, [], ◌∷◌, ◌++◌, ◌≡◌, refl, ◌∙◌,
  sym, ap, arith, ltb, if◌then◌else◌, length, all, ◌==◌,
}
use api_calixio.Text.{
  Text, codes, text_eq, is_empty, split, join, slash, trim_space, trim, lacks, is_space,
}
use api_calixio.Text.Laws.{split-join, split-append, text_eq_refl}
use api_calixio.Text.FilePath.{path_join, plain}
use api_calixio.Text.FilePath.Laws.{path_join-plain, plain-lacks}

abbrev pub users_dir : Text
users_dir = codes "users"

abbrev pub media_dir : Text
media_dir = codes "media"

-- The three results `mediaID, prefix, ok` are an `Option` of the first two.
from_parts : List Text → Option (Text × Text)
from_parts (p ∷ o ∷ q ∷ i ∷ rest) =
    if not (text_eq p users_dir) || not (text_eq q media_dir)
    then none
    else if is_empty (trim_space o) || is_empty (trim_space i)
    then none
    else some (i, path_join (p ∷ o ∷ q ∷ i ∷ []) ++ (slash ∷ []))
from_parts _ = none

unfoldable pub extract_media_prefix : Text → Option (Text × Text)
unfolding from_parts
extract_media_prefix key = from_parts (split (trim (λ c. c == slash) (trim_space key)) slash)

-- `path.Join("users", owner, "media", id) + "/"`
unfoldable pub media_prefix : Text → Text → Text
media_prefix owner id = path_join (users_dir ∷ owner ∷ media_dir ∷ id ∷ []) ++ (slash ∷ [])
