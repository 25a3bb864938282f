-- ===== src/Upload/Playback/Manifest.antt =====
-- The signed playlist.
use api_calixio.Prelude.{
  true, false, List, [], ◌∷◌, ◌≡◌, refl, ap, arith, all, Bool-cases, inl, inr, and_left, and_right,
}
use api_calixio.Text.{Text, split, join, trim_space}
use api_calixio.Text.FilePath.{path_join}
use api_calixio.Text.Laws.{join-split}
use api_calixio.Integer.{ℤ}
use api_calixio.External.{External}
use api_calixio.Exec.{World, ok, got, pure-ok, >>=-eq-ok}
use api_calixio.Storage.Objects.{presign_get_object, expiry}
use api_calixio.Upload.{UploadService}
use api_calixio.Upload.Playback.{is_kept_line, line_feed, sign_line, sign_lines, sign_manifest}

module _ (ext : External) (s : UploadService) where
  open ext use {X, presign_get}

  -- How the lines of a playlist correspond to those of the signed one: a line that names no object
  -- is kept, and any other becomes a URL that the presigner made for the key it names below the
  -- directory.
  pub data IsSigned (base_dir : Text) (ttl : ℤ) : List Text → List Text → Type 0 where
    no_lines : IsSigned base_dir ttl [] []
    kept_line :
        {raws lines : List Text} (raw : Text)
        → is_kept_line raw ≡ true
        → IsSigned base_dir ttl raws lines
        → IsSigned base_dir ttl (raw ∷ raws) (raw ∷ lines)
    signed_line :
        {raws lines : List Text} (raw url : Text) (x : X)
        → is_kept_line raw ≡ false
        → (presign_get s.storage.bucket
            (path_join (base_dir ∷ trim_space raw ∷ []))
            (expiry ttl)
            x).0
          ≡ got url
        → IsSigned base_dir ttl raws lines
        → IsSigned base_dir ttl (raw ∷ raws) (url ∷ lines)

  presign-ok :
      (key : Text) (ttl : ℤ) (w : World X) {url : Text}
      → (presign_get_object ext s.storage key ttl w).0 ≡ ok url
      → (presign_get s.storage.bucket key (expiry ttl) w.outside).0 ≡ got url
  unfolding presign_get_object
  presign-ok key ttl w h = ground arith

  sign_lines-ok :
      (base_dir : Text) (ttl : ℤ) (raws lines : List Text) (w v : World X)
      → sign_lines ext s base_dir ttl raws w ≡ (ok lines, v)
      → IsSigned base_dir ttl raws lines
  unfolding sign_lines sign_line
  sign_lines-ok base_dir ttl [] lines w v h = let (e, same) = pure-ok [] w h in rw e no_lines
  sign_lines-ok base_dir ttl (raw ∷ raws) lines w v h =
      let (line, e, h1) = >>=-eq-ok (sign_line ext s base_dir ttl raw) _ w h in
      let u = (sign_line ext s base_dir ttl raw w).1 in
      let (rest, e2, h2) = >>=-eq-ok (sign_lines ext s base_dir ttl raws) _ u h1 in
      let u2 = (sign_lines ext s base_dir ttl raws u).1 in
      let tail = sign_lines-ok base_dir ttl raws rest u u2 (ap (λ a. (a, u2)) e2) in
      let (both, same) = pure-ok (line ∷ rest) u2 h2 in
      elim (Bool-cases (is_kept_line raw)) [
        | inl k ↦
            let same_line : line ≡ raw = ground arith in rw (both, same_line) (kept_line raw k tail)
        | inr k ↦
            let key = path_join (base_dir ∷ trim_space raw ∷ []) in
            rw both (signed_line raw line w.outside k (presign-ok key ttl w (rw k at e)) tail)
      ]

  -- A playlist that was signed has the lines of the original in their order, each one kept or
  -- signed as `IsSigned` says, joined by line feeds.
  pub sign_manifest-IsSigned :
      (base_dir manifest : Text) (ttl : ℤ) (w v : World X) (signed : Text)
      → sign_manifest ext s base_dir manifest ttl w ≡ (ok signed, v)
      → (lines : List Text) × (signed ≡ join lines line_feed)
        × IsSigned base_dir ttl (split manifest line_feed) lines
  unfolding sign_manifest
  sign_manifest-IsSigned base_dir manifest ttl w v signed h =
      let raws = split manifest line_feed in
      let (lines, e, h1) = >>=-eq-ok (sign_lines ext s base_dir ttl raws) _ w h in
      let u = (sign_lines ext s base_dir ttl raws w).1 in
      let (joined, same) = pure-ok (join lines line_feed) u h1 in
      (lines, joined, sign_lines-ok base_dir ttl raws lines w u (ap (λ a. (a, u)) e))

  sign_lines-kept :
      (base_dir : Text) (ttl : ℤ) (raws : List Text) (w : World X)
      → all is_kept_line raws ≡ true
      → sign_lines ext s base_dir ttl raws w ≡ (ok raws, w)
  unfolding sign_lines sign_line
  sign_lines-kept base_dir ttl [] w h = refl
  sign_lines-kept base_dir ttl (raw ∷ raws) w h =
      let k : is_kept_line raw ≡ true = and_left _ _ h in
      let rest = sign_lines-kept base_dir ttl raws w (and_right (is_kept_line raw) _ h) in
      rw (k, rest) refl

  -- A playlist whose lines are all blank, tags or URLs already is returned as it is, and nothing
  -- is asked of S3.
  pub sign_manifest-kept :
      (base_dir manifest : Text) (ttl : ℤ) (w : World X)
      → all is_kept_line (split manifest line_feed) ≡ true
      → sign_manifest ext s base_dir manifest ttl w ≡ (ok manifest, w)
  unfolding sign_manifest
  sign_manifest-kept base_dir manifest ttl w h =
      rw
        (sign_lines-kept base_dir ttl (split manifest line_feed) w h, join-split manifest line_feed)
        refl
