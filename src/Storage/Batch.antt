-- ===== src/Storage/Batch.antt =====
-- processDeletionBatch and processAvailableDeletions of backend/internal/storage/deletion_worker.go, and
-- how long the loop over batches goes on. The goroutines of a batch work on rows of their own; they are
-- run in order here. What store.Delete answers and which statements succeed are given for each row, and
-- what a batch finds outside, its clock included, for each batch; the statements of one batch read the
-- clock of its claim.
use online_prorab.Common.{
  ℕ, zero, suc, Bool, true, false, not, ◌&&◌, Option, none, some, List, [], ◌∷◌, length,
  count_where, leb, ◌==◌, if◌then◌else◌,
}
use online_prorab.Storage.{
  Deletion, deletion_batch_size, is_claimable, claim_pending_deletions, mark_deletion_complete,
  reschedule_deletion, release_deletion_claim,
}

-- What happens to one claimed row: whether the object is deleted, and whether the statement that
-- records the outcome succeeds.
pub record Fate : Type 0 where
  pub deleted : Bool
  pub recorded : Bool

unfoldable pub process_item : Fate → ℕ → Deletion → List Deletion → List Deletion
process_item f now item ds =
    if f.deleted
    then mark_deletion_complete f.recorded item.id ds
    else reschedule_deletion f.recorded now item ds

unfoldable pub release_all : Bool → ℕ → List Deletion → List Deletion → List Deletion
release_all up now [] ds = ds
release_all up now (i ∷ is) ds = release_all up now is (release_deletion_claim up now i.id ds)

-- The context is cancelled after `started` rows; the claims of the others are released.
unfoldable pub process_items :
    (Deletion → Fate) → (started now : ℕ) → List Deletion → List Deletion → List Deletion
process_items fate started now [] ds = ds
process_items fate zero now (i ∷ is) ds = release_all true now (i ∷ is) ds
process_items fate (suc started) now (i ∷ is) ds =
    process_items fate started now is (process_item (fate i) now i ds)

-- Whether another batch may follow, and the table.
abbrev pub after_claim :
    (Deletion → Fate)
    → (started now : ℕ) → Option (List Deletion) × List Deletion
    → Bool × List Deletion
after_claim fate started now (none, ds) = (false, ds)
after_claim fate started now (some items, ds) = (
  length items == deletion_batch_size && leb (length items) started,
  process_items fate started now items ds,
)

unfoldable pub process_deletion_batch :
    (up : Bool) → (Deletion → Fate) → (started now : ℕ) → List Deletion → Bool × List Deletion
process_deletion_batch up fate started now ds =
    after_claim fate started now (claim_pending_deletions up now ds)

-- What a batch finds outside: whether the context is alive before it, whether its claim succeeds, what happens to its rows, how many are started
-- before a cancellation, and the database's clock.
pub record Round : Type 0 where
  pub alive : Bool
  pub up : Bool
  pub fate : Deletion → Fate
  pub started : ℕ
  pub now : ℕ

-- The loop, for at most `fuel` batches, the `n`-th of which finds `rounds n`; `none` where that is not
-- enough.
unfoldable pub process_available_deletions :
    (rounds : ℕ → Round) → (fuel : ℕ) → List Deletion → Option (List Deletion)
process_available_deletions rounds zero ds = none
process_available_deletions rounds (suc fuel) ds =
    let r = rounds 0 in
    let (again, ds') = process_deletion_batch r.up r.fate r.started r.now ds in
    let rest = process_available_deletions (λ n. rounds (suc n)) fuel ds' in
    if not r.alive then some ds else if again then rest else some ds'

abbrev pub due : ℕ → List Deletion → ℕ
due now = count_where (is_claimable now)
