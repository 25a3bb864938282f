-- ===== src/Cleanup.antt =====
-- internal/service/media_cleanup.go: deleting the objects of media items that the database does not
-- have.
pub mod Orphans
use api_calixio.Prelude.{
  ℕ, zero, suc, ◌+◌, Bool, true, false, not, List, [], ◌∷◌, ◌++◌, any, filter, map, length, take,
  drop, if◌then◌else◌,
}
use api_calixio.Text.{Text, text_eq, is_empty, trim_space}
use api_calixio.Integer.{ℤ, pos, negsuc}
use api_calixio.External.{External}
use api_calixio.Exec.{Exec, World, Result, ok, err, pure, ◌>>=◌, ◌>>◌}
use api_calixio.Repository.MediaRows.{list_existing_ids}
use api_calixio.Storage.Objects.{StorageService, list_media_prefixes, delete_objects_by_prefix}

-- `if batchSize <= 0 { batchSize = 1000 }`
abbrev pub batch_or_default : ℤ → ℕ
batch_or_default (pos zero) = 1000
batch_or_default (pos (suc n)) = suc n
batch_or_default (negsuc n) = 1000

abbrev pub known : List Text → Text → Bool
known existing id = any (text_eq id) existing

abbrev pub entry_id : Text × Text → Text
entry_id e = e.0

abbrev pub is_named : Text × Text → Bool
is_named e = not (is_empty (trim_space e.0))

-- What one round of the loop adds to `deletedCount, failedCount`.
abbrev pub tally : Result (Unit {0}) → ℕ × ℕ → ℕ × ℕ
tally (ok a) (deleted, bad) = (deleted + 1, bad)
tally (err e) (deleted, bad) = (deleted, bad + 1)

module _ (ext : External) (s : StorageService) where
  open ext use {X}

  -- The loop over the chunks of the identifiers that are left, on fuel.
  unfoldable pub collect_existing : ℕ → ℕ → List Text → List Text → Exec X (List Text)
  collect_existing fuel batch [] existing = pure existing
  collect_existing zero batch (i ∷ ids) existing = pure existing
  collect_existing (suc fuel) batch (i ∷ ids) existing = do
    chunk ← list_existing_ids ext (take batch (i ∷ ids))
    collect_existing fuel batch (drop batch (i ∷ ids)) (existing ++ chunk)

  -- The loop over the identifiers, each with its prefix, with the counts so far.
  unfoldable pub delete_orphans : List Text → List (Text × Text) → ℕ × ℕ → Exec X (ℕ × ℕ)
  delete_orphans existing [] counts w = (ok counts, w)
  delete_orphans existing (e ∷ es) counts w =
      let (r, u) = delete_objects_by_prefix ext s e.1 w in
      elim (known existing e.0) [
        | true ↦ delete_orphans existing es counts w
        | false ↦ delete_orphans existing es (tally r counts) u
      ]

  -- What is done with the entries that have an identifier, in the order in which the map gives
  -- them: the numbers of scanned, deleted and failed items.
  unfoldable pub clean_entries : ℕ → List (Text × Text) → Exec X (ℕ × ℕ × ℕ)
  clean_entries batch entries = do
    existing ← collect_existing (length entries) batch (map entry_id entries) []
    counts ← delete_orphans existing entries (0, 0)
    pure (length entries, counts.0, counts.1)

  abbrev pub unless_none :
      (List (Text × Text) → List (Text × Text)) → ℕ → List (Text × Text) → Exec X (ℕ × ℕ × ℕ)
  unless_none order batch [] = pure (0, 0, 0)
  unless_none order batch (e ∷ es) = clean_entries batch (order (filter is_named (e ∷ es)))

  -- `RunOnce`; `order` is the order in which Go runs through the map.
  unfoldable pub run_once : (List (Text × Text) → List (Text × Text)) → ℤ → Exec X (ℕ × ℕ × ℕ)
  run_once order batch_size = do
    prefixes ← list_media_prefixes ext s
    unless_none order (batch_or_default batch_size) prefixes
