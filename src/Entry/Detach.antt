-- ===== src/Entry/Detach.antt =====
-- What the deletion of a file leaves.
use online_prorab.Common.{
  ℕ, String, ◌≡◌, refl, Bool, true, false, not, ◌&&◌, Option, none, some, List, [], ◌∷◌, ◌++◌,
  arith, eq_refl, count_where, update_where, if◌then◌else◌, ◌==◌, ◌⊎◌, inl, inr, Bool-cases,
}
use online_prorab.Database.{
  Env, begin, commit, delete_file, queue_deletion, detach_receipts, insert_audit, file_store,
  delete_object, requeue_deletion,
}
use online_prorab.Project.{Outcome, accepted, refused}
use online_prorab.Entry.{Row, CostItem, File, Books, is_current, set_body, set_deleted}
use online_prorab.Entry.Writes.{
  Effect, changed, failed, dropping, refers_to, detached, is_queued, enqueue_storage_deletion,
  finish_deletion, queue_then_finish, delete_file_metadata, remove_stored_file, or_same,
}

count-set_deleted :
    {A : Type 0} (now : ℕ) (id : String) (rows : List (Row A))
    → count_where (is_current id) (update_where (is_current id) (set_deleted now) rows) ≡ 0
unfolding count_where update_where
count-set_deleted now id [] = refl
count-set_deleted now id (r ∷ rows) = ground (arith, count-set_deleted now id rows)

detach_one :
    {W : Type 0} (id : String) (r : Row (CostItem W)) (c : Bool)
    → refers_to id r ≡ c
    → refers_to id (if c then set_body detached r else r) ≡ false
detach_one id r true h = refl
detach_one id r false h = h

count-detached :
    {W : Type 0} (id : String) (rows : List (Row (CostItem W)))
    → count_where (refers_to id) (update_where (refers_to id) (set_body detached) rows) ≡ 0
unfolding count_where update_where
count-detached id [] = refl
count-detached id (r ∷ rows) =
    ground (arith, detach_one id r (refers_to id r) refl, count-detached id rows)

queued_last : (path : String) (ps : List String) → is_queued (ps ++ path ∷ []) path ≡ true
unfolding is_queued
queued_last path [] = ground (arith, eq_refl path)
queued_last path (p ∷ ps) = ground (arith, queued_last path ps)

enqueue-IsQueued :
    (up : Bool) (path : String) (ps qs : List String)
    → enqueue_storage_deletion up path ps ≡ some qs
    → is_queued qs path ≡ true
unfolding enqueue_storage_deletion
enqueue-IsQueued up path ps qs h = ground (arith, queued_last path ps)

still_queued :
    (c : Bool) (qs : List String) (path : String)
    → is_queued qs path ≡ true
    → is_queued (or_same qs (enqueue_storage_deletion c path qs)) path ≡ true
unfolding enqueue_storage_deletion
still_queued c qs path h = ground arith

-- A queued object stays queued, or the store has deleted it.
remove-IsQueued :
    (env : Env) (path : String) (qs : List String)
    → is_queued qs path ≡ true
    → (is_queued (remove_stored_file env path qs) path ≡ true)
      ⊎ ((env.up file_store ≡ true) × (env.up delete_object ≡ true))
unfolding remove_stored_file
remove-IsQueued env path qs h = elim (Bool-cases (env.up file_store)) [
  | inr no_store ↦ inl (ground arith)
  | inl store ↦ elim (Bool-cases (env.up delete_object)) [
    | inl deleted ↦ inr (store, deleted)
    | inr kept ↦ inl (ground (arith, still_queued (env.up requeue_deletion) qs path h))
  ]
]

module _ {W : Type 0} (env : Env) (id path : String) (b : Books W) where
  -- Gone, without a trace in the cost items, and its object deleted by the store or due for deletion.
  pub record IsGone (b' : Books W) : Type 0 where
    pub no_row : count_where (is_current id) b'.files ≡ 0
    pub no_receipt : count_where (refers_to id) b'.cost_items ≡ 0
    pub object_due :
        (is_queued b'.deletions path ≡ true)
        ⊎ ((env.up file_store ≡ true) × (env.up delete_object ≡ true))

  abbrev pub AllOrNothing : Outcome × Books W → Type 0
  AllOrNothing (accepted status, b') = IsGone b'
  AllOrNothing (refused status, b') = b' ≡ b

  if-AllOrNothing :
      (c : Bool) (x y : Outcome × Books W)
      → AllOrNothing x
      → AllOrNothing y
      → AllOrNothing (if c then x else y)
  if-AllOrNothing true x y h k = h
  if-AllOrNothing false x y h k = k

  finish_lem :
      (files : List (Row File)) (queued : Option (List String))
      → count_where (is_current id) files ≡ 0
      → enqueue_storage_deletion (env.up queue_deletion) path b.deletions ≡ queued
      → AllOrNothing (finish_deletion env id path b files queued)
  finish_lem files none gone e = refl
  finish_lem files (some qs) gone e =
      if-AllOrNothing (not (env.up detach_receipts && env.up insert_audit && env.up commit)) _ _
        refl
        (record {
          no_row = gone;
          no_receipt = count-detached id b.cost_items;
          object_due =
              remove-IsQueued env path qs
                (enqueue-IsQueued (env.up queue_deletion) path b.deletions qs e);
        })

  abbrev Dropped : Effect File → Type 0
  Dropped (changed status files) = count_where (is_current id) files ≡ 0
  Dropped (failed status) = Unit {0}

  if-Dropped : (c : Bool) (x y : Effect File) → Dropped x → Dropped y → Dropped (if c then x else y)
  if-Dropped true x y h k = h
  if-Dropped false x y h k = k

  dropping-Dropped :
      (up : Bool) (now : ℕ) (rows : List (Row File)) → Dropped (dropping up now id rows)
  unfolding dropping
  dropping-Dropped up now rows =
      if-Dropped (not up) _ _ tt
        (if-Dropped (count_where (is_current id) rows == 0) _ _ tt (count-set_deleted now id rows))

  queue_lem : (e : Effect File) → Dropped e → AllOrNothing (queue_then_finish env id path b e)
  queue_lem (failed status) h = refl
  queue_lem (changed status files) h = finish_lem files _ h refl

  -- The deletion of a file is all or nothing, whatever fails: answered with success, no current row of
  -- the file is left, no cost item that is not deleted has it as its receipt, and its object is queued
  -- for deletion, unless the store of files has deleted it; refused, nothing changed.
  pub delete_file_lem : AllOrNothing (delete_file_metadata env id path b)
  unfolding delete_file_metadata
  delete_file_lem =
      if-AllOrNothing (not (env.up begin)) _ _ refl
        (queue_lem _ (dropping-Dropped (env.up delete_file) env.db_clock b.files))
