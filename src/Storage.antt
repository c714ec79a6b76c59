-- ===== src/Storage.antt =====
-- backend/internal/storage/deletion_worker.go: the outbox of object deletions. Times are in
-- nanoseconds.
pub mod Retry
pub mod Lease
pub mod Claims
pub mod Batch
pub mod Key
use online_prorab.Common.{
  ℕ, zero, suc, ◌+◌, ◌-◌, ◌*◌, ◌/◌, ◌^◌, String, Bool, true, false, not, ◌&&◌, ◌||◌, Option, none,
  some, List, [], ◌∷◌, ◌++◌, leb, ltb, ◌==◌, if◌then◌else◌, update_where, delete_where,
}
use online_prorab.Common.Int.{ℤ, pos, negsuc}

abbrev pub second : ℕ
second = 1000000000

abbrev pub deletion_batch_size : ℕ
deletion_batch_size = 10

abbrev pub deletion_lease : ℕ
deletion_lease = 300 * second

abbrev pub deletion_retry_base : ℕ
deletion_retry_base = 5 * second

abbrev pub deletion_retry_max : ℕ
deletion_retry_max = 3600 * second

abbrev at_least_zero : ℤ → ℕ
at_least_zero (pos n) = n
at_least_zero (negsuc n) = 0

abbrev capped : ℕ → ℕ
capped n = if ltb n 10 then n else 10

-- The product of 5 s and a power of two below 2^11 is exact in a float64.
unfoldable pub deletion_retry_delay : ℤ → ℕ
deletion_retry_delay attempts =
    let delay = deletion_retry_base * 2 ^ capped (at_least_zero attempts) in
    if ltb deletion_retry_max delay then deletion_retry_max else delay

-- A row of `file_storage_deletions`.
pub record Deletion : Type 0 where
  pub id : ℕ
  pub storage_path : String
  pub attempts : ℕ
  pub available_at : ℕ
  pub locked_until : Option ℕ

abbrev pub is_unlocked : ℕ → Option ℕ → Bool
is_unlocked now none = true
is_unlocked now (some until) = leb until now

abbrev pub is_claimable : ℕ → Deletion → Bool
is_claimable now d = leb d.available_at now && is_unlocked now d.locked_until

-- ORDER BY available_at, id.
abbrev precedes : Deletion → Deletion → Bool
precedes a b =
    ltb a.available_at b.available_at || a.available_at == b.available_at && leb a.id b.id

unfoldable pub insert_ordered : Deletion → List Deletion → List Deletion
insert_ordered d [] = d ∷ []
insert_ordered d (x ∷ xs) =
    let rest = insert_ordered d xs in if precedes d x then d ∷ x ∷ xs else x ∷ rest

unfoldable pub candidates : ℕ → List Deletion → List Deletion
candidates now [] = []
candidates now (d ∷ ds) =
    let rest = candidates now ds in if is_claimable now d then insert_ordered d rest else rest

unfoldable pub first : ℕ → List Deletion → List Deletion
first zero ds = []
first (suc n) [] = []
first (suc n) (d ∷ ds) = d ∷ first n ds

unfoldable pub has_id : List Deletion → ℕ → Bool
has_id [] id = false
has_id (d ∷ ds) id = d.id == id || has_id ds id

-- The claimed rows, and the table with their leases; `none` where the database refuses.
unfoldable pub claim_pending_deletions :
    Bool → ℕ → List Deletion → Option (List Deletion) × List Deletion
claim_pending_deletions up now ds =
    if up
    then (let chosen = first deletion_batch_size (candidates now ds) in
        (
          some chosen,
          update_where (λ d. has_id chosen d.id)
              (λ d. record d { locked_until = some (now + deletion_lease) }) ds,
        ))
    else (none, ds)

unfoldable pub mark_deletion_complete : Bool → ℕ → List Deletion → List Deletion
mark_deletion_complete up id ds = if up then delete_where (λ d. d.id == id) ds else ds

-- `int(delay.Seconds())` drops nothing: every delay is a whole number of seconds.
unfoldable pub reschedule_deletion : Bool → ℕ → Deletion → List Deletion → List Deletion
reschedule_deletion up now item ds =
    if up
    then update_where (λ d. d.id == item.id)
        (λ d. record d {
          attempts = d.attempts + 1;
          available_at = now + deletion_retry_delay (pos item.attempts) / second * second;
          locked_until = none;
        })
        ds
    else ds

abbrev sooner : ℕ → ℕ → ℕ
sooner a b = if ltb a b then a else b

-- One item of releaseDeletionClaims.
unfoldable pub release_deletion_claim : Bool → ℕ → ℕ → List Deletion → List Deletion
release_deletion_claim up now id ds =
    if up
    then update_where (λ d. d.id == id)
        (λ d. record d { locked_until = none; available_at = sooner d.available_at now }) ds
    else ds
