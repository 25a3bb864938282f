-- ===== src/Upload/Playback/Sharing.antt =====
-- What the cache of playbacks gives to whom.
use api_calixio.Prelude.{
  Bool, ℕ, if◌then◌else◌, true, false, Option, none, some, ◌≡◌, refl, ap, sym, ◌∙◌, arith,
}
use api_calixio.Text.{Text, text_eq, is_empty, trim_space}
use api_calixio.Records.{Media}
use api_calixio.External.{External}
use api_calixio.Exec.{
  Exec, ◌>>◌, World, ok, got, attempt, pure, ◌>>=◌, pure-ok, >>=-eq-ok, unless-raise-ok,
  if-raise-ok,
}
use api_calixio.Repository.MediaRows.{get_by_id}
use api_calixio.Upload.{UploadService, has_blank, playback_cache_key, playback_manifest_token_key}
use api_calixio.Upload.Playback.{
  CacheFormats, PlaybackCacheRecord, PlaybackOutput, build_playback, new_manifest_token,
  build_manifest_proxy_url, cached_record, cache_record, from_cache, put_record, fresh_playback,
  get_playback,
}

-- The keys of the playbacks are not those of the tokens.
keys_apart :
    (id token : Text) → text_eq (playback_cache_key id) (playback_manifest_token_key token) ≡ false
unfolding playback_cache_key playback_manifest_token_key text_eq
keys_apart id token = refl

module _ (ext : External) (s : UploadService) (fmt : CacheFormats) where
  open ext use {X, random, redis_get, redis_set}
  open fmt use {encode, decode, format_time, parse_time}

  module _ (cache_on : s.has_cache ≡ true)
      (set : (k q : Text) (x : X) → (redis_set k q s.playback_ttl x).0 ≡ got tt)
      (stored : (k q : Text) (x : X)
        → (redis_set k q s.playback_ttl x).0 ≡ got tt
        → (redis_get k (redis_set k q s.playback_ttl x).1).0 ≡ got (some q))
      (apart : (k l q : Text) (x : X)
        → text_eq k l ≡ false
        → (redis_get k (redis_set l q s.playback_ttl x).1).0 ≡ (redis_get k x).0)
      (drawn : (k : Text) (n : ℕ) (x : X)
        → (redis_get k (random n x).1).0 ≡ (redis_get k x).0) where
    proxy_url-cached :
        (id media_id : Text) (w : World X)
        → (redis_get
            (playback_cache_key id)
            (build_manifest_proxy_url ext s media_id w).1.outside).0
          ≡ (redis_get (playback_cache_key id) w.outside).0
    unfolding build_manifest_proxy_url new_manifest_token
    proxy_url-cached id media_id w =
        let key = playback_cache_key id in
        let draw = drawn key 16 w.outside in
        let put : (token : Text) (x : X)
            → (redis_get key
                (redis_set (playback_manifest_token_key token) media_id s.playback_ttl x).1).0
              ≡ (redis_get key x).0 =
          λ token x.
            apart key (playback_manifest_token_key token) media_id x (keys_apart id token) in
        grind (arith, put)

    put-cached :
        (id p : Text) (out : PlaybackOutput) (w : World X)
        → encode (cache_record ext s fmt out) ≡ got p
        → (redis_get (playback_cache_key id) (put_record ext s fmt id out w).1.outside).0
          ≡ got (some p)
    unfolding put_record
    put-cached id p out w e =
        let a =
          stored (playback_cache_key id) p w.outside (set (playback_cache_key id) p w.outside) in
        ground arith

    proxy_url-ok :
        (id : Text) (w : World X)
        → (url : Option Text) × ((build_manifest_proxy_url ext s id w).0 ≡ ok url)
    unfolding build_manifest_proxy_url
    proxy_url-ok id w = rw (cache_on, build_manifest_proxy_url) (_, refl)

    from_cache-ok :
        (r : PlaybackCacheRecord) (t : ℕ) (w : World X)
        → (url : Option Text) × ((from_cache ext s fmt (r, t) w).0
            ≡ ok (record {
              media_id = r.media_id;
              status = r.status;
              manifest = r.manifest;
              manifest_url = url;
              preview_url = r.preview_url;
              expires_at = t;
            }))
    unfolding from_cache
    from_cache-ok r t w = let (url, e) = proxy_url-ok r.media_id w in (url, rw (e, from_cache) refl)

    cached-found :
        (id p : Text) (r : PlaybackCacheRecord) (t : ℕ) (w : World X)
        → (redis_get (playback_cache_key id) w.outside).0 ≡ got (some p)
        → is_empty (trim_space p) ≡ false
        → decode p ≡ got r
        → parse_time r.expires_at ≡ got t
        → (cached_record ext s fmt id w).0 ≡ ok (some (r, t))
    unfolding cached_record
    cached-found id p r t w found filled read dated = ground arith

    -- What `GetPlayback` does with a playback that was built.
    abbrev shown : Bool → Text → PlaybackOutput → Exec X PlaybackOutput
    shown has_cache id o = do
      if has_cache then attempt (put_record ext s fmt id o) >>= (λ r. pure tt) else pure tt
      url ← build_manifest_proxy_url ext s o.media_id
      pure (record o { manifest_url = url })

    shown-cached :
        (id p : Text) (o out : PlaybackOutput) (w v : World X)
        → shown s.has_cache id o w ≡ (ok out, v)
        → encode (cache_record ext s fmt out) ≡ got p
        → (redis_get (playback_cache_key id) v.outside).0 ≡ got (some p)
    shown-cached id p o out w v h e =
        let u = (put_record ext s fmt id o w).1 in
        let h1 : shown true id o w ≡ (ok out, v) = ap (λ b. shown b id o w) (sym cache_on) ∙ h in
        let (url, e2, h2) = >>=-eq-ok (build_manifest_proxy_url ext s o.media_id) _ u h1 in
        let u2 = (build_manifest_proxy_url ext s o.media_id u).1 in
        let (same, last) = pure-ok (record o { manifest_url = url }) u2 h2 in
        let cached =
          put-cached id p o w (ap (λ x. encode (cache_record ext s fmt x)) (sym same) ∙ e) in
        ap (λ x. (redis_get (playback_cache_key id) x.outside).0) last
        ∙ proxy_url-cached id o.media_id u
        ∙ cached

    fresh-cached :
        (id p : Text) (m : Media) (w v : World X) (out : PlaybackOutput)
        → fresh_playback ext s fmt id m w ≡ (ok out, v)
        → encode (cache_record ext s fmt out) ≡ got p
        → (redis_get (playback_cache_key id) v.outside).0 ≡ got (some p)
    unfolding fresh_playback
    fresh-cached id p m w v out h e =
        let (o, e1, h1) = >>=-eq-ok (build_playback ext s m) (shown s.has_cache id) w h in
        shown-cached id p o out (build_playback ext s m w).1 v h1 e

    -- With a cache that answers and keeps what is set in it, and a record that JSON and the format of
    -- its time give back: once somebody has got a playback that was not in the cache, anybody who names
    -- the media item, its owner or not, gets the same one, but for the address with a new token and for
    -- the time as it was read back.
    pub get_playback_shares :
        (owner other id p : Text) (t : ℕ) (w v : World X) (out : PlaybackOutput)
        → has_blank other id ≡ false
        → (cached_record ext s fmt id w).0 ≡ ok none
        → get_playback ext s fmt owner id w ≡ (ok out, v)
        → encode (cache_record ext s fmt out) ≡ got p
        → is_empty (trim_space p) ≡ false
        → decode p ≡ got (cache_record ext s fmt out)
        → parse_time (format_time out.expires_at) ≡ got t
        → (url : Option Text) × ((get_playback ext s fmt other id v).0
            ≡ ok (record out { manifest_url = url; expires_at = t }))
    unfolding get_playback
    get_playback_shares owner other id p t w v out named miss h e filled read dated =
        let (full, h1) = if-raise-ok (has_blank owner id) _ _ _ h in
        let u = (cached_record ext s fmt id w).1 in
        let (hit, e2, h2) = >>=-eq-ok (cached_record ext s fmt id) _ w h1 in
        let same : hit ≡ none = ground arith in
        let (m, e3, h3) = >>=-eq-ok (get_by_id ext id) _ u (rw same at h2) in
        let u2 = (get_by_id ext id u).1 in
        let (mine, h4) = unless-raise-ok (text_eq m.owner_user_id owner) _ _ _ h3 in
        let kept = fresh-cached id p m u2 v out h4 e in
        let found = cached-found id p (cache_record ext s fmt out) t v kept filled read dated in
        let (url, served) =
          from_cache-ok (cache_record ext s fmt out) t (cached_record ext s fmt id v).1 in
        (url, rw (named, found, get_playback) served)
