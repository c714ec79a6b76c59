-- ===== src/Entry/Elsewhere.antt =====
-- What lies in another project: rows under an id, and the cost items of a receipt.
use online_prorab.Common.{
  ◌≤◌, String, ◌≡◌, refl, ap, ◌∙◌, sym, Bool, true, false, not, ◌&&◌, none, some, List, [], ◌∷◌,
  arith, str_eq, eq_iff, find_where, find_where_holds, count_where, inl, inr, Bool-cases,
  Option-cases,
}
use online_prorab.Common.Order.{all_where, find_unique}
use online_prorab.Entry.{Row, CostItem, File, has_id, is_current, is_in, entry_project_id}
use online_prorab.Entry.Writes.{refers_to}
use online_prorab.Entry.Handlers.{is_receipt_of}
use online_prorab.Entry.Admission.{other_project}
use online_prorab.Entry.Scope.{only_elsewhere}
use online_prorab.Entry.Reach.{KeepsProjects, same, is_linked}

module _ {A : Type 0} where
  found_in :
      (up : Bool) (id : String) (rows : List (Row A)) (project : String)
      → entry_project_id up id rows ≡ some project
      → (r : Row A) × (find_where (is_current id) rows ≡ some r) × (r.project_id ≡ project)
  unfolding entry_project_id
  found_in up id rows project h = elim (Option-cases (find_where (is_current id) rows)) [
    | inl e ↦ absurd (ground arith)
    | inr (r, e) ↦ (r, e, ground arith)
  ]

  nobody :
      (id p : String) (rows : List (Row A))
      → find_where (is_current id) rows ≡ none
      → all_where (λ r. not (is_current id r && is_in p r)) rows ≡ true
  unfolding find_where all_where
  nobody id p [] h = refl
  nobody id p (r ∷ rows) h = ground (arith, nobody id p rows)

  -- The row under an id is of another project, if its project is the one of a row of another project.
  pub moved_elsewhere :
      (id p project : String) (rows : List (Row A))
      → count_where (has_id id) rows ≤ 1
      → ((r : Row A) → find_where (has_id id) rows ≡ some r → r.project_id ≡ project)
      → str_eq project p ≡ false
      → all_where (λ r. not (is_current id r && is_in p r)) rows ≡ true
  moved_elsewhere id p project rows one stays other =
      elim (Option-cases (find_where (is_current id) rows)) [
        | inl e ↦ nobody id p rows e
        | inr (r, e) ↦
            let own : find_where (has_id id) rows ≡ some r =
              find_unique (is_current id) (has_id id) rows r e
                (ground (arith, find_where_holds (is_current id) rows r e)) one in
            only_elsewhere p id rows r one e (ap (λ x. str_eq x p) (stays r own) ∙ other)
      ]

  pub row_elsewhere :
      (up : Bool) (id p project : String) (test : String → Bool) (rows rows' : List (Row A))
      → count_where (has_id id) rows' ≤ 1
      → KeepsProjects rows rows'
      → entry_project_id up id rows ≡ some project
      → test project ≡ true
      → test p ≡ false
      → all_where (λ r. not (is_current id r && is_in p r)) rows' ≡ true
  row_elsewhere up id p project test rows rows' one keeps h t f =
      let (r, e, same) = found_in up id rows project h in
      moved_elsewhere id p project rows' one (λ r' e'. keeps id r r' e e' ∙ same)
        (other_project test project p t f)

module _ (id p : String) (files : List (Row File)) (r : Row File)
    (one : count_where (has_id id) files ≤ 1)
    (stays : (x : Row File) → find_where (has_id id) files ≡ some x → x.project_id ≡ r.project_id)
    (other : is_in p r ≡ false) where
  module _ {W : Type 0} where
    -- A receipt that lies outside of `p` has no item in `p`.
    item_elsewhere :
        (c : Row (CostItem W))
        → is_linked files c ≡ true
        → (not (refers_to id c && is_in p c)) ≡ true
    unfolding is_receipt_of
    item_elsewhere c linked = elim (Bool-cases (refers_to id c)) [
      | inr no_reference ↦ ground arith
      | inl refers ↦
          let named : c.body.receipt_file_id ≡ id =
            (eq_iff c.body.receipt_file_id id).0 (ground arith) in
          elim (Option-cases
            (find_where (is_receipt_of c.body.receipt_file_id c.project_id) files)) [
              | inl e ↦ absurd (ground arith)
              | inr (x, e) ↦
                  let holds =
                    find_where_holds (is_receipt_of c.body.receipt_file_id c.project_id) files x
                      e in
                  let x_id : has_id id x ≡ true = ground (arith, holds, named) in
                  let the_x : find_where (has_id id) files ≡ some x =
                    find_unique (is_receipt_of c.body.receipt_file_id c.project_id) (has_id id)
                      files x e x_id one in
                  let in_project : x.project_id ≡ c.project_id =
                    (eq_iff x.project_id c.project_id).0 (ground (arith, holds)) in
                  let elsewhere_too : is_in p c ≡ false =
                    ap (λ y. str_eq y p) (sym in_project ∙ stays x the_x) ∙ other in
                  ground arith
            ]
    ]

    pub items_elsewhere :
        (rows : List (Row (CostItem W)))
        → all_where (is_linked files) rows ≡ true
        → all_where (λ c. not (refers_to id c && is_in p c)) rows ≡ true
    unfolding all_where
    items_elsewhere [] h = refl
    items_elsewhere (c ∷ rows) h = ground (arith, item_elsewhere c, items_elsewhere rows)
