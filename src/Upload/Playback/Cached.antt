-- ===== src/Upload/Playback/Cached.antt =====
-- Who may read a playback.
use api_calixio.Prelude.{true, none, some, ◌≡◌, ap, sym, ◌∙◌, arith, find}
use api_calixio.Text.{Text, text_eq}
use api_calixio.Text.Laws.{text_eq→eq}
use api_calixio.Records.{Media, is_media_ready}
use api_calixio.External.{External}
use api_calixio.Exec.{World, ok, >>=-eq-ok, unless-raise-ok, if-raise-ok}
use api_calixio.Repository.MediaRows.{is_kept, get_by_id}
use api_calixio.Upload.{UploadService, has_blank}
use api_calixio.Upload.Deletion.Prefixes.{media-ok}
use api_calixio.Upload.Playback.{
  CacheFormats, PlaybackOutput, build_playback, cached_record, fresh_playback, get_playback,
}

module _ (ext : External) (s : UploadService) where
  open ext use {X}

  build_playback-ready :
      (m : Media) (w v : World X) (out : PlaybackOutput)
      → build_playback ext s m w ≡ (ok out, v)
      → is_media_ready m.status ≡ true
  unfolding build_playback
  build_playback-ready m w v out h =
      let (ready, rest) = unless-raise-ok (is_media_ready m.status) _ _ _ h in ready

module _ (ext : External) (s : UploadService) (fmt : CacheFormats) where
  open ext use {X, redis_get}

  cached_record-media : (id : Text) (w : World X) → (cached_record ext s fmt id w).1.media ≡ w.media
  unfolding cached_record
  cached_record-media id w = ground arith

  -- With no cache at all, or with nothing usable in it, only the owner reads the playback of a
  -- media item that is not deleted and that is ready.
  pub get_playback-owner :
      (owner id : Text) (w v : World X) (out : PlaybackOutput)
      → (cached_record ext s fmt id w).0 ≡ ok none
      → get_playback ext s fmt owner id w ≡ (ok out, v)
      → (m : Media) × (find (is_kept id) w.media ≡ some m)
        × (m.owner_user_id ≡ owner)
        × (is_media_ready m.status ≡ true)
  unfolding get_playback fresh_playback
  get_playback-owner owner id w v out miss h =
      let (filled, h1) = if-raise-ok (has_blank owner id) _ _ _ h in
      let u = (cached_record ext s fmt id w).1 in
      let (hit, e, h2) = >>=-eq-ok (cached_record ext s fmt id) _ w h1 in
      let same : hit ≡ none = ground arith in
      let (m, e3, h3) = >>=-eq-ok (get_by_id ext id) _ u (rw same at h2) in
      let u2 = (get_by_id ext id u).1 in
      let (mine, h4) = unless-raise-ok (text_eq m.owner_user_id owner) _ _ _ h3 in
      let (built, e5, h5) = >>=-eq-ok (build_playback ext s m) _ u2 h4 in
      let (found, kept) = media-ok ext s id u e3 in
      (
        m,
        ap (find (is_kept id)) (sym (cached_record-media id w)) ∙ found,
        text_eq→eq _ _ mine,
        build_playback-ready ext s m u2 (build_playback ext s m u2).1 built
            (ap (λ a. (a, (build_playback ext s m u2).1)) e5),
      )
