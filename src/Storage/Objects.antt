-- ===== src/Storage/Objects.antt =====
-- internal/service/storage.go: the calls of S3.
pub mod Batches
use api_calixio.Prelude.{
  ℕ, zero, suc, ◌+◌, Bool, true, false, not, Option, none, some, List, [], ◌∷◌, ◌++◌, any, length,
  ◌==◌, if◌then◌else◌,
}
use api_calixio.Text.{Text, codes, text_eq, is_empty, slash, trim_space, trim_left, trim_right}
use api_calixio.Integer.{ℤ, pos, is_pos}
use api_calixio.External.{External, ObjectHead}
use api_calixio.Exec.{
  Exec, World, ok, err, got, failed, external, not_found, bucket_not_configured, prefix_required,
  pure, raise, gets, call, from_option, guard, ◌>>=◌, ◌>>◌,
}
use api_calixio.Storage.Prefix.{extract_media_prefix}

pub record StorageService : Type 0 where
  pub bucket : Text
  pub region : Text
  pub endpoint : Text
  pub public_url : Text

abbrev pub is_slash : ℕ → Bool
is_slash c = c == slash

-- `generateObjectURL`
unfoldable pub generate_object_url : StorageService → Text → Text
generate_object_url s key =
    if not (is_empty s.public_url)
    then trim_right is_slash s.public_url ++ codes "/" ++ trim_left is_slash key
    else if not (is_empty s.endpoint)
    then trim_right is_slash s.endpoint
      ++ codes "/"
      ++ trim_left is_slash s.bucket
      ++ codes "/"
      ++ trim_left is_slash key
    else codes "https://"
      ++ s.bucket
      ++ codes ".s3."
      ++ s.region
      ++ codes ".amazonaws.com/"
      ++ trim_left is_slash key

-- `if expires <= 0 { expires = 15 * time.Minute }`
abbrev pub expiry : ℤ → ℤ
expiry d = if is_pos d then d else pos 900000000000

abbrev pub batch_limit : ℕ
batch_limit = 1000

-- `if _, exists := prefixes[mediaID]; !exists { ... }`
abbrev pub add_prefix : List (Text × Text) → Option (Text × Text) → List (Text × Text)
add_prefix ps none = ps
add_prefix ps (some (id, prefix)) =
    if any (λ p. text_eq p.0 id) ps then ps else ps ++ ((id, prefix) ∷ [])

-- The entries that one page adds to the map.
abbrev pub add_prefixes : List (Text × Text) → List Text → List (Text × Text)
add_prefixes ps [] = ps
add_prefixes ps (k ∷ ks) = add_prefixes (add_prefix ps (extract_media_prefix (trim_space k))) ks

module _ (ext : External) (s : StorageService) where
  open ext use {
    X, presign_put, presign_get, head_object, get_object, page_count, list_page, delete_objects,
  }

  abbrev pub configured : Exec X (Unit {0})
  configured = guard (not (is_empty s.bucket)) bucket_not_configured

  unfoldable pub presign_put_object : Text → Text → ℤ → Exec X Text
  presign_put_object key content_type expires = do
    configured
    call (presign_put s.bucket key content_type (expiry expires))

  unfoldable pub presign_get_object : Text → ℤ → Exec X Text
  presign_get_object key expires = do configured; call (presign_get s.bucket key (expiry expires))

  unfoldable pub head : Text → Exec X ObjectHead
  head key = do configured; found ← call (head_object s.bucket key); from_option found not_found

  unfoldable pub get_object_bytes : Text → Exec X Text
  get_object_bytes key = do configured; call (get_object s.bucket key)

  -- The closure `flush`: what is left in `toDelete`.
  unfoldable pub flush : List Text → Exec X (List Text)
  flush [] = pure []
  flush (k ∷ ks) = do call (delete_objects s.bucket (k ∷ ks)); pure []

  -- One key of a page.
  unfoldable pub add_key : List Text → Text → Exec X (List Text)
  add_key pending raw =
      let key = trim_space raw in
      let longer = pending ++ (key ∷ []) in
      if is_empty key
      then pure pending
      else if length longer == batch_limit
      then flush longer
      else pure longer

  unfoldable pub add_keys : List Text → List Text → Exec X (List Text)
  add_keys pending [] = pure pending
  add_keys pending (k ∷ ks) = do next ← add_key pending k; add_keys next ks

  -- The pages from number `i` on, `left` of them.
  unfoldable pub delete_pages : Text → ℕ → ℕ → List Text → Exec X (List Text)
  delete_pages prefix zero i pending = flush pending
  delete_pages prefix (suc left) i pending = do
    page ← call (list_page s.bucket prefix i)
    next ← add_keys pending page
    delete_pages prefix left (i + 1) next

  unfoldable pub delete_objects_by_prefix : Text → Exec X (Unit {0})
  delete_objects_by_prefix prefix = do
    configured
    guard (not (is_empty (trim_space prefix))) prefix_required
    pages ← gets (λ w. page_count s.bucket (trim_space prefix) w.outside)
    delete_pages (trim_space prefix) pages 0 []
    pure tt

  unfoldable pub list_pages : ℕ → ℕ → List (Text × Text) → Exec X (List (Text × Text))
  list_pages zero i ps = pure ps
  list_pages (suc left) i ps = do
    page ← call (list_page s.bucket (codes "users/") i)
    list_pages left (i + 1) (add_prefixes ps page)

  -- The map as the list of its entries, in the order of the listing.
  unfoldable pub list_media_prefixes : Exec X (List (Text × Text))
  list_media_prefixes = do
    configured
    pages ← gets (λ w. page_count s.bucket (codes "users/") w.outside)
    list_pages pages 0 []
