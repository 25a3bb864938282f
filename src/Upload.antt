-- ===== src/Upload.antt =====
-- internal/service/media_upload.go: the service's settings, and the names that it makes.
pub mod Intake
pub mod Playback
pub mod Deletion
use api_calixio.Prelude.{
  ℕ, zero, suc, ◌+◌, Bool, true, false, not, ◌||◌, Option, none, some, List, [], ◌∷◌, ◌++◌, any,
  map, leb, ltb, if◌then◌else◌,
}
use api_calixio.Text.{Text, codes, text_eq, is_empty, trim_space, before, replace_all, slash, dot}
use api_calixio.Text.FilePath.{path_join, base, stem}
use api_calixio.Integer.{ℤ, pos, negsuc, is_pos}
use api_calixio.External.{External}
use api_calixio.Storage.Objects.{StorageService}

-- `MediaUploadService`, without the repository: a `transcoder` is the capacity of its queue, and
-- `has_cache` says that `cache` is not nil.
pub record UploadService : Type 0 where
  pub storage : StorageService
  pub transcoder : Option ℕ
  pub has_cache : Bool
  pub max_size_bytes : ℕ
  pub allowed_mime_types : List Text
  pub presign_ttl : ℤ
  pub playback_ttl : ℤ

pub record NewUploadServiceInput : Type 0 where
  pub storage : StorageService
  pub transcoder : Option ℕ
  pub has_cache : Bool
  pub max_size_bytes : ℤ
  pub allowed_mime_types : List Text
  pub presign_url_ttl : ℤ
  pub playback_signed_ttl : ℤ

-- `strings.ToLower`, with what `unicode.ToLower` does outside ASCII
abbrev pub lower_rune : (ℕ → ℕ) → ℕ → ℕ
lower_rune wide c =
    if ltb c b'A' then c else if leb c b'Z' then c + 32 else if ltb c 128 then c else wide c

abbrev pub lower : (ℕ → ℕ) → Text → Text
lower wide = map (lower_rune wide)

-- The keys of the map `allowed`, for a list of types that may be empty.
abbrev pub or_default_types : List Text → List Text
or_default_types [] =
    codes "video/mp4"
    ∷ codes "video/webm"
    ∷ codes "video/quicktime"
    ∷ codes "video/x-msvideo"
    ∷ codes "video/matroska"
    ∷ codes "video/x-matroska"
    ∷ []
or_default_types (t ∷ ts) = t ∷ ts

abbrev pub normalized_types : (ℕ → ℕ) → List Text → List Text
normalized_types wide [] = []
normalized_types wide (t ∷ ts) =
    let rest = normalized_types wide ts in
    let n = trim_space (lower wide t) in if is_empty n then rest else n ∷ rest

abbrev pub size_or_default : ℤ → ℕ
size_or_default (pos zero) = 10737418240
size_or_default (pos (suc n)) = suc n
size_or_default (negsuc n) = 10737418240

-- `NewMediaUploadService`
unfoldable pub new_upload_service : (ℕ → ℕ) → NewUploadServiceInput → UploadService
new_upload_service wide i = record {
  storage = i.storage;
  transcoder = i.transcoder;
  has_cache = i.has_cache;
  max_size_bytes = size_or_default i.max_size_bytes;
  allowed_mime_types = or_default_types (normalized_types wide i.allowed_mime_types);
  presign_ttl = if is_pos i.presign_url_ttl then i.presign_url_ttl else pos 900000000000;
  playback_ttl = if is_pos i.playback_signed_ttl then i.playback_signed_ttl else pos 10800000000000;
}

unfoldable pub normalize_mime : (ℕ → ℕ) → Text → Text
normalize_mime wide mime =
    let n = lower wide (trim_space mime) in
    elim (before b';' n) [ none ↦ n | some t ↦ trim_space t ]

unfoldable pub is_allowed_mime : (ℕ → ℕ) → UploadService → Text → Bool
is_allowed_mime wide s mime = any (text_eq (normalize_mime wide mime)) s.allowed_mime_types

unfoldable pub sanitize_filename : Text → Text
sanitize_filename name =
    let safe = base (trim_space name) in
    if is_empty safe || text_eq safe dot || text_eq safe (slash ∷ [])
    then codes "file"
    else replace_all b' ' b'_' safe

-- `buildTitleFromFilename`, of a name without a slash
unfoldable pub build_title_from_filename : Text → Text
build_title_from_filename name =
    let title = trim_space (elim (stem name) [ some t ↦ t | none ↦ name ]) in
    if is_empty title then codes "media" else title

abbrev pub has_blank : Text → Text → Bool
has_blank a b = is_empty (trim_space a) || is_empty (trim_space b)

-- `path.Join("users", owner, "media", id, folder, file)`
unfoldable pub object_key : Text → Text → Text → Text → Text
object_key owner id folder file =
    path_join (codes "users" ∷ owner ∷ codes "media" ∷ id ∷ folder ∷ file ∷ [])

unfoldable pub playback_cache_key : Text → Text
playback_cache_key media_id = codes "media:playback:v2:" ++ media_id

unfoldable pub playback_manifest_token_key : Text → Text
playback_manifest_token_key token = codes "media:playback:manifest:v1:" ++ token
