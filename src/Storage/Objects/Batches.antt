-- ===== src/Storage/Objects/Batches.antt =====
-- How the keys under a prefix are deleted in batches.
use api_calixio.Prelude.{
  ℕ, zero, suc, ◌+◌, ◌≤◌, ◌<◌, true, false, not, List, [], ◌∷◌, ◌++◌, length, all, ◌==◌, ◌≡◌, refl,
  arith, Bool-cases, inl, inr, ◌⊎◌, length-append, ==_iff,
}
use api_calixio.Text.{Text, is_empty, trim_space}
use api_calixio.External.{External}
use api_calixio.Exec.{World, pure, Result, ok, err, Reply, got, failed, ◌>>=◌}
use api_calixio.Storage.Objects.{
  StorageService, batch_limit, flush, add_key, add_keys, delete_pages, delete_objects_by_prefix,
}

-- a batch that S3 takes: some keys, at most a thousand, none of them empty
abbrev pub IsBatch : List Text → Type 0
IsBatch ks = (1 ≤ length ks) × (length ks ≤ 1000) × (all (λ k. not (is_empty k)) ks ≡ true)

-- what is collected between two batches
abbrev IsPending : List Text → Type 0
IsPending ks = (length ks < 1000) × (all (λ k. not (is_empty k)) ks ≡ true)

got_or_not : {A : Type 0} (r : Reply A) → ((a : A) × (r ≡ got a)) ⊎ ((n : ℕ) × (r ≡ failed n))
got_or_not (got a) = inl (a, refl)
got_or_not (failed n) = inr (n, refl)

all-snoc :
    (ks : List Text) (k : Text)
    → all (λ j. not (is_empty j)) ks ≡ true
    → is_empty k ≡ false
    → all (λ j. not (is_empty j)) (ks ++ (k ∷ [])) ≡ true
all-snoc [] k h e = rw e refl
all-snoc (j ∷ ks) k h e = ground (arith, all-snoc ks k)

module _ (ext : External) (s : StorageService) where
  open ext use {X, page_count, list_page, delete_objects}

  module _ (Inv : X → Type 0)
      (listing : (p : Text) (i : ℕ) (x : X) → Inv x → Inv (list_page s.bucket p i x).1)
      (deleting : (ks : List Text) (x : X)
        → IsBatch ks
        → Inv x
        → Inv (delete_objects s.bucket ks x).1) where
    -- a step keeps the invariant, and hands on a batch that is not full
    abbrev Keeps : Result (List Text) × World X → Type 0
    Keeps (ok ks, w) = Inv w.outside × IsPending ks
    Keeps (err e, w) = Inv w.outside

    flush-Keeps :
        (ks : List Text) (w : World X)
        → length ks ≤ 1000
        → all (λ k. not (is_empty k)) ks ≡ true
        → Inv w.outside
        → Keeps (flush ext s ks w)
    unfolding flush
    flush-Keeps [] w n f h = (h, (omega arith, refl))
    flush-Keeps (k ∷ ks) w n f h =
        let after = deleting (k ∷ ks) w.outside (omega arith, n, f) h in
        elim (got_or_not (delete_objects s.bucket (k ∷ ks) w.outside).0) [
          | inl (a, e) ↦ rw (e, flush) (after, (omega arith, refl))
          | inr (n, e) ↦ rw (e, flush) after
        ]

    -- `m >>= f` where each part keeps the invariant
    bind-Keeps :
        (r : Result (List Text) × World X) (f : List Text → World X → Result (List Text) × World X)
        → Keeps r
        → ((ks : List Text) (w : World X) → Inv w.outside → IsPending ks → Keeps (f ks w))
        → Keeps (((λ w. r) >>= f) r.1)
    bind-Keeps (ok ks, w) f (h, p) step = step ks w h p
    bind-Keeps (err e, w) f h step = h

    add_key-Keeps :
        (ks : List Text) (raw : Text) (w : World X)
        → Inv w.outside
        → IsPending ks
        → Keeps (add_key ext s ks raw w)
    unfolding add_key
    add_key-Keeps ks raw w h (n, f) = elim (Bool-cases (is_empty (trim_space raw))) [
      | inl e ↦ rw (e, add_key) (h, (n, f))
      | inr e ↦
          let key = trim_space raw in
          let longer = ks ++ (key ∷ []) in
          let grown : length longer ≡ length ks + 1 = length-append ks (key ∷ []) in
          let filled = all-snoc ks key f e in
          elim (Bool-cases (length longer == batch_limit)) [
            | inl full ↦ rw (e, full, add_key) (flush-Keeps longer w (omega arith) filled h)
            | inr room ↦
                let short : length longer < 1000 = ground (arith, ==_iff (length longer) 1000) in
                rw (e, room, add_key) (h, (short, filled))
          ]
    ]

    add_keys-Keeps :
        (ks raws : List Text) (w : World X)
        → Inv w.outside
        → IsPending ks
        → Keeps (add_keys ext s ks raws w)
    unfolding add_keys
    add_keys-Keeps ks [] w h p = (h, p)
    add_keys-Keeps ks (raw ∷ raws) w h p =
        bind-Keeps (add_key ext s ks raw w) (λ next. add_keys ext s next raws)
          (add_key-Keeps ks raw w h p) (λ next u. add_keys-Keeps next raws u)

    delete_pages-Keeps :
        (prefix : Text) (left i : ℕ) (ks : List Text) (w : World X)
        → Inv w.outside
        → IsPending ks
        → Keeps (delete_pages ext s prefix left i ks w)
    unfolding delete_pages
    delete_pages-Keeps prefix zero i ks w h (n, f) = flush-Keeps ks w (omega arith) f h
    delete_pages-Keeps prefix (suc left) i ks w h p =
        let after = listing prefix i w.outside h in
        elim (got_or_not (list_page s.bucket prefix i w.outside).0) [
          | inl (raws, e) ↦
              let u = record w { outside = (list_page s.bucket prefix i w.outside).1 } in
              rw (e, delete_pages)
                (bind-Keeps (add_keys ext s ks raws u)
                  (λ next. delete_pages ext s prefix left (i + 1) next)
                  (add_keys-Keeps ks raws u after p)
                  (λ next v. delete_pages-Keeps prefix left (i + 1) next v))
          | inr (n, e) ↦ rw (e, delete_pages) after
        ]

    outside-Keeps : (r : Result (List Text) × World X) → Keeps r → Inv r.1.outside
    outside-Keeps (ok ks, w) k = k.0
    outside-Keeps (err e, w) k = k

    done-Keeps :
        (r : Result (List Text) × World X)
        → Inv r.1.outside
        → Inv (((λ w. r) >>= (λ ks. pure tt)) r.1).1.outside
    done-Keeps (ok ks, w) h = h
    done-Keeps (err e, w) h = h

    -- Everything that deleting the objects under a prefix does to S3, whether it succeeds or fails,
    -- is listing pages and deleting batches of at least one and at most 1000 keys, none of them
    -- empty: a property of the outside that these keep is kept by the whole call.
    pub delete_objects_by_prefix-IsBatch :
        (prefix : Text) (w : World X)
        → Inv w.outside
        → Inv (delete_objects_by_prefix ext s prefix w).1.outside
    unfolding delete_objects_by_prefix
    delete_objects_by_prefix-IsBatch prefix w h =
        let pages = page_count s.bucket (trim_space prefix) w.outside in
        let all_pages =
          outside-Keeps (delete_pages ext s (trim_space prefix) pages 0 [] w)
            (delete_pages-Keeps (trim_space prefix) pages 0 [] w h (omega arith, refl)) in
        elim (Bool-cases (is_empty s.bucket)) [
          | inl e ↦ rw (e, delete_objects_by_prefix) h
          | inr e ↦ elim (Bool-cases (is_empty (trim_space prefix))) [
            | inl e2 ↦ rw (e, e2, delete_objects_by_prefix) h
            | inr e2 ↦
                rw (e, e2, delete_objects_by_prefix)
                  (done-Keeps (delete_pages ext s (trim_space prefix) pages 0 [] w) all_pages)
          ]
        ]
