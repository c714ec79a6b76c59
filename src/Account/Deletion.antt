-- ===== src/Account/Deletion.antt =====
-- What the deletion of an account ends.
use online_prorab.Common.{
  ℕ, String, ◌≡◌, ◌≢◌, refl, ap, ◌∙◌, ◌⊎◌, inl, inr, Bool, Option, none, some, List, [], ◌∷◌, arith,
  str_eq, find_where, count_where, delete_where, Option-cases, Bool-cases, ◌==◌, true, ◌||◌,
}
use online_prorab.Database.{Db, Env}
use online_prorab.Account.{
  Claims, admitted, Store, Journal, has_account, active, require_active_account, require_auth,
  require_account_deletion_auth, parse_access_token, parse_account_deletion_token, without_prefix,
  cascade, remove_account, delete_account, or_else, owns, is_in_owned,
}
use online_prorab.Subscription.{has_user}

module _ {A : Type 0} where
  -- What was deleted is not found.
  find-delete_where : (p : A → Bool) (xs : List A) → find_where p (delete_where p xs) ≡ none
  unfolding find_where delete_where
  find-delete_where p [] = refl
  find-delete_where p (x ∷ xs) = ground (arith, find-delete_where p xs)

  count-deleted : (p : A → Bool) (xs : List A) → count_where p (delete_where p xs) ≡ 0
  unfolding count_where delete_where
  count-deleted p [] = refl
  count-deleted p (x ∷ xs) = ground (arith, count-deleted p xs)

-- A deletion that is answered with success cascades; any other changes nothing.
delete_account_lem :
    (is_production_like : Bool) (env : Env) (j : Journal) (user : String) (st st' : Store)
    (status : ℕ)
    → delete_account is_production_like env j user st ≡ (status, st')
    → ((status ≡ 200) × (st' ≡ cascade user st)) ⊎ ((status ≢ 200) × (st' ≡ st))
unfolding delete_account remove_account
delete_account_lem is_production_like env j user st st' status h =
    elim (Option-cases (find_where (has_account user) st.db.users)) [
      | inl e ↦ inr (λ t. ground arith, ground arith)
      | inr (u, e) ↦ elim (Bool-cases (status == 200)) [
        | inl t ↦ inl (ground arith, ground arith)
        | inr f ↦ inr (λ t. ground arith, ground arith)
      ]
    ]

admitted_one : {u v : String} → admitted u ≡ admitted v → u ≡ v
admitted_one h = ground (arith, h)

-- Nobody is let through for an account that has no row.
active_gone :
    (env : Env) (has_db : Bool) (claim : Option String) (user : String) (db : Db)
    → find_where (has_account user) db.users ≡ none
    → active env has_db claim db ≢ admitted user
unfolding require_active_account
active_gone env has_db none user db gone h = ground arith
active_gone env has_db (some u) user db gone h =
    elim (Option-cases (find_where (has_account u) db.users)) [
      | inl e ↦ ground arith
      | inr (x, e) ↦
          let same : u ≡ user = ground arith in
          let both = ap (λ k. find_where (has_account k) db.users) same in ground arith
    ]

-- A deletion with a wider condition leaves none.
count-deleted_of :
    {A : Type 0} (p q : A → Bool) (xs : List A)
    → ((x : A) → q x ≡ true → p x ≡ true)
    → count_where q (delete_where p xs) ≡ 0
unfolding count_where delete_where
count-deleted_of p q [] h = refl
count-deleted_of p q (x ∷ xs) h = ground (arith, h x, count-deleted_of p q xs h)

-- Once a deletion is answered with 200, no access token and no deletion token, whatever its claims, lets
-- a request through for the account. Of the account there is no session, no user row, no subscription,
-- no order, no project and no membership left, and of the projects that it owned no member and no
-- invitation.
pub deletion_revokes :
    (is_production_like : Bool) (env env' : Env) (j : Journal) (user header : String)
    (st st' : Store) (parse : String → Option Claims) (has_db : Bool)
    → delete_account is_production_like env j user st ≡ (200, st')
    → (require_auth parse env' has_db header st'.db ≢ admitted user)
      × (require_account_deletion_auth parse env' has_db header st'.db ≢ admitted user)
      × (count_where (λ s. str_eq s.user_id user) st'.sessions ≡ 0)
      × (find_where (has_account user) st'.db.users ≡ none)
      × (count_where (owns user) st'.db.projects ≡ 0)
      × (count_where (λ o. str_eq o.user_id user) st'.db.orders ≡ 0)
      × (count_where (has_user user) st'.db.subscriptions ≡ 0)
      × (count_where (λ m. str_eq m.user_id user) st'.db.members ≡ 0)
      × (count_where (λ m. is_in_owned user st.db m.project_id) st'.db.members ≡ 0)
      × (count_where (λ v. is_in_owned user st.db v.project_id) st'.db.invites ≡ 0)
unfolding require_auth require_account_deletion_auth cascade
deletion_revokes is_production_like env env' j user header st st' parse has_db h =
    elim (delete_account_lem is_production_like env j user st st' 200 h) [
      | inr (n, same) ↦ absurd (n refl)
      | inl (t, after) ↦
          let gone : find_where (has_account user) st'.db.users ≡ none =
            ap (λ x. find_where (has_account user) x.db.users) after
            ∙ find-delete_where (has_account user) st.db.users in
          (
            λ a. elim (Option-cases (without_prefix "Bearer " header)) [
              | inl e ↦ ground arith
              | inr (raw, e) ↦ absurd (
                  active_gone env' has_db (parse_access_token parse raw) user st'.db gone
                    (ground arith))
            ],
            λ a. elim (Option-cases (without_prefix "Bearer " header)) [
              | inl e ↦ ground arith
              | inr (raw, e) ↦ absurd (
                  active_gone env' has_db
                    (or_else (parse_account_deletion_token parse raw)
                      (parse_access_token parse raw))
                    user st'.db gone (ground arith))
            ],
            ap (λ x. count_where (λ s. str_eq s.user_id user) x.sessions) after
                ∙ count-deleted (λ s. str_eq s.user_id user) st.sessions,
            gone,
            ap (λ x. count_where (owns user) x.db.projects) after
                ∙ count-deleted (owns user) st.db.projects,
            ap (λ x. count_where (λ o. str_eq o.user_id user) x.db.orders) after
                ∙ count-deleted (λ o. str_eq o.user_id user) st.db.orders,
            ap (λ x. count_where (has_user user) x.db.subscriptions) after
                ∙ count-deleted (has_user user) st.db.subscriptions,
            ap (λ x. count_where (λ m. str_eq m.user_id user) x.db.members) after
                ∙ count-deleted_of
                    (λ m. str_eq m.user_id user || is_in_owned user st.db m.project_id)
                    (λ m. str_eq m.user_id user) st.db.members (λ m t. ground arith),
            ap (λ x. count_where (λ m. is_in_owned user st.db m.project_id) x.db.members) after
                ∙ count-deleted_of
                    (λ m. str_eq m.user_id user || is_in_owned user st.db m.project_id)
                    (λ m. is_in_owned user st.db m.project_id) st.db.members (λ m t. ground arith),
            ap (λ x. count_where (λ v. is_in_owned user st.db v.project_id) x.db.invites) after
                ∙ count-deleted (λ v. is_in_owned user st.db v.project_id) st.db.invites,
          )
    ]

-- A token that is scoped, for the deletion of an account or anything else, lets nobody into the
-- application.
pub scoped_denied :
    (parse : String → Option Claims) (raw scope : String) (c : Claims)
    → parse raw ≡ some c
    → c.scope ≡ some scope
    → parse_access_token parse raw ≡ none
unfolding parse_access_token
scoped_denied parse raw scope c h s = ground arith
