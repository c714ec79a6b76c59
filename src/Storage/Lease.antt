-- ===== src/Storage/Lease.antt =====
-- The leases of claimPendingDeletions of backend/internal/storage/deletion_worker.go: a row that is leased
-- is no candidate, and what keeps its lease.
use online_prorab.Common.{
  ℕ, zero, suc, ◌<◌, ◌≡◌, refl, Bool, true, false, not, Option, none, some, List, [], ◌∷◌, ◌++◌,
  arith, update_where, delete_where, ◌==◌, ◌||◌, Bool-cases, Option-cases, inl, inr, ap, ◌∙◌,
}
use online_prorab.Common.Order.{all_where}
use online_prorab.Storage.{Deletion, candidates, insert_ordered, first, has_id}

has_id-insert :
    (id : ℕ) (d : Deletion) (ds : List Deletion)
    → has_id (insert_ordered d ds) id ≡ (d.id == id || has_id ds id)
unfolding has_id insert_ordered
has_id-insert id d [] = refl
has_id-insert id d (x ∷ xs) = ground (arith, has_id-insert id d xs)

abbrev pub is_until : ℕ → Option ℕ → Bool
is_until end none = false
is_until end (some until) = until == end

-- Every row under the id is leased until `end`.
abbrev pub IsLeased : ℕ → ℕ → List Deletion → Type 0
IsLeased id end ds = all_where (λ d. not (d.id == id) || is_until end d.locked_until) ds ≡ true

-- A row that is leased until after `later` is not a candidate then.
pub leased_out :
    (id later end : ℕ) (ds : List Deletion)
    → later < end
    → IsLeased id end ds
    → has_id (candidates later ds) id ≡ false
unfolding candidates all_where
leased_out id later end [] lt h = unfold has_id in refl
leased_out id later end (d ∷ ds) lt h =
    let rest = leased_out id later end ds lt (ground arith) in
    elim (Bool-cases (d.id == id)) [
      | inl own ↦
          let held : is_until end d.locked_until ≡ true = ground arith in
          elim (Option-cases d.locked_until) [
            | inl none_held ↦ absurd (ground arith)
            | inr (until, e) ↦ ground arith
          ]
      | inr differs ↦ ground (arith, rest, has_id-insert id d (candidates later ds))
    ]

pub update-IsLeased :
    (p : Deletion → Bool) (f : Deletion → Deletion) (id end : ℕ) (ds : List Deletion)
    → ((d : Deletion) → (f d).id ≡ d.id)
    → ((d : Deletion) → (d.id == id) ≡ true → p d ≡ false)
    → IsLeased id end ds
    → IsLeased id end (update_where p f ds)
unfolding all_where update_where
update-IsLeased p f id end [] keeps spares h = refl
update-IsLeased p f id end (d ∷ ds) keeps spares h =
    ground (arith, keeps d, spares d, update-IsLeased p f id end ds keeps spares)

pub delete-IsLeased :
    (p : Deletion → Bool) (id end : ℕ) (ds : List Deletion)
    → IsLeased id end ds
    → IsLeased id end (delete_where p ds)
unfolding all_where delete_where
delete-IsLeased p id end [] h = refl
delete-IsLeased p id end (d ∷ ds) h = ground (arith, delete-IsLeased p id end ds)

pub append-IsLeased :
    (id end : ℕ) (ds : List Deletion) (d : Deletion)
    → (d.id == id) ≡ false
    → IsLeased id end ds
    → IsLeased id end (ds ++ d ∷ [])
unfolding all_where
append-IsLeased id end [] d other h = ground arith
append-IsLeased id end (x ∷ ds) d other h = ground (arith, append-IsLeased id end ds d other)

pub has_id-first :
    (n id : ℕ) (ds : List Deletion) → has_id ds id ≡ false → has_id (first n ds) id ≡ false
unfolding first has_id
has_id-first zero id ds h = refl
has_id-first (suc n) id [] h = refl
has_id-first (suc n) id (d ∷ ds) h = ground (arith, has_id-first n id ds)

-- Who claims a row leases it.
pub claimed-IsLeased :
    (chosen ds : List Deletion) (id end : ℕ)
    → has_id chosen id ≡ true
    → IsLeased id end
        (update_where (λ d. has_id chosen d.id) (λ d. record d { locked_until = some end }) ds)
unfolding all_where update_where
claimed-IsLeased chosen [] id end mine = refl
claimed-IsLeased chosen (d ∷ ds) id end mine = elim (Bool-cases (d.id == id)) [
  | inl own ↦
      let same : d.id ≡ id = ground arith in
      let taken : has_id chosen d.id ≡ true = ap (has_id chosen) same ∙ mine in
      ground (arith, taken, claimed-IsLeased chosen ds id end mine)
  | inr other ↦ ground (arith, claimed-IsLeased chosen ds id end mine)
]
