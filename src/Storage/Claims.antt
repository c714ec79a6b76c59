-- ===== src/Storage/Claims.antt =====
-- What a claim takes, and that nobody else takes it while its lease lasts.
use online_prorab.Common.{
  ℕ, zero, suc, ◌+◌, ◌≤◌, ◌<◌, ◌≡◌, refl, Bool, true, false, not, some, List, [], ◌∷◌, ◌++◌, arith,
  length, update_where, ◌==◌, ◌||◌, Bool-cases, inl, inr, ap, ◌∙◌,
}
use online_prorab.Common.Order.{all_where}
use online_prorab.Storage.{
  Deletion, deletion_batch_size, deletion_lease, is_claimable, candidates, insert_ordered, first,
  claim_pending_deletions, has_id, mark_deletion_complete, reschedule_deletion,
  release_deletion_claim,
}
use online_prorab.Storage.Lease.{
  is_until, IsLeased, leased_out, update-IsLeased, delete-IsLeased, append-IsLeased, has_id-first,
  claimed-IsLeased,
}

length-first : (n : ℕ) (ds : List Deletion) → length (first n ds) ≤ n
unfolding first
length-first zero ds = omega arith
length-first (suc n) [] = omega arith
length-first (suc n) (d ∷ ds) = omega (arith, length-first n ds)

abbrev pub AllClaimable : ℕ → List Deletion → Type 0
AllClaimable now [] = Unit {0}
AllClaimable now (d ∷ ds) = (is_claimable now d ≡ true) × AllClaimable now ds

insert-AllClaimable :
    (now : ℕ) (d : Deletion) (ds : List Deletion)
    → is_claimable now d ≡ true
    → AllClaimable now ds
    → AllClaimable now (insert_ordered d ds)
unfolding insert_ordered
insert-AllClaimable now d [] h v = (h, tt)
insert-AllClaimable now d (x ∷ xs) h v = ground (arith, insert-AllClaimable now d xs h v.1)

candidates-AllClaimable : (now : ℕ) (ds : List Deletion) → AllClaimable now (candidates now ds)
unfolding candidates
candidates-AllClaimable now [] = tt
candidates-AllClaimable now (d ∷ ds) = elim (Bool-cases (is_claimable now d)) [
  | inl t ↦
      ground
        (arith, insert-AllClaimable now d (candidates now ds) t (candidates-AllClaimable now ds))
  | inr f ↦ ground (arith, candidates-AllClaimable now ds)
]

first-AllClaimable :
    (now n : ℕ) (ds : List Deletion) → AllClaimable now ds → AllClaimable now (first n ds)
unfolding first
first-AllClaimable now zero ds v = tt
first-AllClaimable now (suc n) [] v = tt
first-AllClaimable now (suc n) (d ∷ ds) v = (v.0, first-AllClaimable now n ds v.1)

-- A claim takes at most ten rows, all of them due and not leased to anybody.
pub claim_due :
    (up : Bool) (now : ℕ) (ds ds' chosen : List Deletion)
    → claim_pending_deletions up now ds ≡ (some chosen, ds')
    → (length chosen ≤ deletion_batch_size) × AllClaimable now chosen
unfolding claim_pending_deletions
claim_due up now ds ds' chosen h = ground (
  arith,
  length-first deletion_batch_size (candidates now ds),
  first-AllClaimable now deletion_batch_size (candidates now ds) (candidates-AllClaimable now ds),
)

-- What the workers and the handlers do to the table.
pub data Action : Type 0 where
  claim : (up : Bool) (now : ℕ) → Action
  complete : (up : Bool) (id : ℕ) → Action
  reschedule : (up : Bool) (now : ℕ) → Deletion → Action
  release : (up : Bool) (now id : ℕ) → Action
  enqueue : Deletion → Action

unfoldable pub act : List Deletion → Action → List Deletion
act ds (claim up now) = (claim_pending_deletions up now ds).1
act ds (complete up id) = mark_deletion_complete up id ds
act ds (reschedule up now item) = reschedule_deletion up now item ds
act ds (release up now id) = release_deletion_claim up now id ds
act ds (enqueue d) = ds ++ d ∷ []

unfoldable pub acts : List Deletion → List Action → List Deletion
acts ds [] = ds
acts ds (a ∷ actions) = acts (act ds a) actions

-- A claim before the lease ends, or an action on another row.
abbrev pub Spares : (id end : ℕ) → Action → Type 0
Spares id end (claim up now) = now < end
Spares id end (complete up other) = (other == id) ≡ false
Spares id end (reschedule up now item) = (item.id == id) ≡ false
Spares id end (release up now other) = (other == id) ≡ false
Spares id end (enqueue d) = (d.id == id) ≡ false

abbrev pub AllSpare : (id end : ℕ) → List Action → Type 0
AllSpare id end [] = Unit {0}
AllSpare id end (a ∷ actions) = Spares id end a × AllSpare id end actions

unclaimed :
    (id now end : ℕ) (ds : List Deletion)
    → now < end
    → IsLeased id end ds
    → has_id (first deletion_batch_size (candidates now ds)) id ≡ false
unclaimed id now end ds lt h =
    has_id-first deletion_batch_size id (candidates now ds) (leased_out id now end ds lt h)

act-IsLeased :
    (id end : ℕ) (ds : List Deletion) (a : Action)
    → Spares id end a
    → IsLeased id end ds
    → IsLeased id end (act ds a)
unfolding act claim_pending_deletions mark_deletion_complete reschedule_deletion
    release_deletion_claim
act-IsLeased id end ds (claim false now) lt h = h
act-IsLeased id end ds (claim true now) lt h =
    let chosen = first deletion_batch_size (candidates now ds) in
    let free = unclaimed id now end ds lt h in
    update-IsLeased (λ d. has_id chosen d.id)
      (λ d. record d { locked_until = some (now + deletion_lease) }) id end ds (λ d. refl)
      (λ d own. let same : d.id ≡ id = ground arith in ap (has_id chosen) same ∙ free) h
act-IsLeased id end ds (complete false other) apart h = h
act-IsLeased id end ds (complete true other) apart h =
    delete-IsLeased (λ d. d.id == other) id end ds h
act-IsLeased id end ds (reschedule false now item) apart h = h
act-IsLeased id end ds (reschedule true now item) apart h =
    update-IsLeased (λ d. d.id == item.id) _ id end ds (λ d. refl) (λ d own. ground arith) h
act-IsLeased id end ds (release false now other) apart h = h
act-IsLeased id end ds (release true now other) apart h =
    update-IsLeased (λ d. d.id == other) _ id end ds (λ d. refl) (λ d own. ground arith) h
act-IsLeased id end ds (enqueue d) apart h = append-IsLeased id end ds d apart h

acts-IsLeased :
    (id end : ℕ) (ds : List Deletion) (actions : List Action)
    → AllSpare id end actions
    → IsLeased id end ds
    → IsLeased id end (acts ds actions)
unfolding acts
acts-IsLeased id end ds [] spares h = h
acts-IsLeased id end ds (a ∷ actions) (spare, spares) h =
    acts-IsLeased id end (act ds a) actions spares (act-IsLeased id end ds a spare h)

-- What one worker has claimed, no other claims before the lease of five minutes ends, whatever claims and
-- whatever completions, retries, releases and insertions of other rows come in between; the row itself
-- is neither completed nor put off nor released in between.
pub claim_exclusive :
    (up up' : Bool) (now later id : ℕ) (ds ds' ds'' chosen again : List Deletion)
    (actions : List Action)
    → claim_pending_deletions up now ds ≡ (some chosen, ds')
    → has_id chosen id ≡ true
    → AllSpare id (now + deletion_lease) actions
    → later < now + deletion_lease
    → claim_pending_deletions up' later (acts ds' actions) ≡ (some again, ds'')
    → has_id again id ≡ false
unfolding claim_pending_deletions
claim_exclusive up up' now later id ds ds' ds'' chosen again actions h mine spares lt k =
    let end = now + deletion_lease in
    let held : IsLeased id end ds' =
      ap (all_where (λ d. not (d.id == id) || is_until end d.locked_until)) leased_rows
      ∙ claimed-IsLeased chosen ds id end mine in
    let taken : again ≡ first deletion_batch_size (candidates later (acts ds' actions)) =
      ground arith in
    ap (λ t. has_id t id) taken
    ∙ unclaimed id later end (acts ds' actions) lt (acts-IsLeased id end ds' actions spares held)
  where
    leased_rows :
        ds'
        ≡ update_where
            (λ d. has_id chosen d.id)
            (λ d. record d { locked_until = some (now + deletion_lease) })
            ds
    leased_rows = ground (arith, h)
