-- ===== src/Session/History.antt =====
-- Sessions over any history of logins, refreshes and logouts.
use online_prorab.Common.{
  ℕ, ◌≤◌, String, Bool, ◌&&◌, ◌≡◌, refl, ap, sym, inl, inr, Option, none, some, List, [], ◌∷◌,
  arith, str_eq, eq_iff, eq_refl, find_where, count_where, update_where, delete_where,
  find_where_holds, if◌then◌else◌, Option-cases, Bool-cases,
}
use online_prorab.Common.Monad.{Result, Call-cases}
use online_prorab.Common.Order.{
  rows_where, count-delete_where, count-update_unique, count-update_add, count_none, find_unique,
}
use online_prorab.Text.{trim_space}
use online_prorab.Session.{
  Session, Table, Server, is_active_of, has_id, has_hash, is_outdated, sessions_to_revoke, is_among,
  revoke, new_session, is_taken, store_session, create_session, rotate, rotated, takes_hash,
  is_valid, refresh_session, logout_session, revoke_once, is_seen,
}
use online_prorab.Session.Limit.{
  Within, Within-later, delete-Within, calm-Within, revoke-Within, append-Within, revoke_lem,
}

-- At most `k` active sessions of a user are unseen.
abbrev pub FewUnseen : ℕ → ℕ → (Session → Bool) → String → Table → Type 0
FewUnseen k now unseen user rows = count_where (λ s. is_active_of now user s && unseen s) rows ≤ k

store-Within :
    (k : ℕ) (o : Server) (unseen : Session → Bool) (fresh_id user token_hash device : String)
    (rows rows' : Table) (res : Result ℕ (Unit {0}))
    → store_session o unseen fresh_id user token_hash device rows ≡ (res, rows')
    → FewUnseen k o.now unseen user rows
    → Within k o.now rows
    → Within k o.now rows'
unfolding store_session
store-Within k o unseen fresh_id user token_hash device rows rows' res h few v =
    let outdated : Session → Bool = λ s. is_outdated o.now s && is_seen unseen s in
    let pruned : Table = (if o.prunes then delete_where outdated rows else rows) in
    let chosen = sessions_to_revoke o.now user (rows_where (is_seen unseen) pruned) in
    let revoked = update_where (is_among chosen) (revoke o.now) pruned in
    let s = new_session o fresh_id user token_hash device in
    let v₁ : Within k o.now pruned = ground (arith, delete-Within outdated k o.now rows v) in
    let v₂ : Within k o.now revoked = revoke-Within (is_among chosen) k o.now pruned v₁ in
    let few₁ : FewUnseen k o.now unseen user pruned =
      ground (
        arith,
        few,
        count-delete_where outdated (λ x. is_active_of o.now user x && unseen x) rows,
      ) in
    elim (Bool-cases (is_taken s revoked)) [
      | inl taken ↦ ground arith
      | inr free ↦
          let v₃ =
            append-Within s k o.now revoked free
              (omega (arith, revoke_lem o.now user unseen pruned, few₁)) v₂ in
          ground arith
    ]

-- A refreshed row is the only one with its id, and it was active before.
rotate-Within :
    (k : ℕ) (o : Server) (token_hash fresh_hash : String) (s : Session) (now : ℕ) (rows : Table)
    → find_where (is_valid now token_hash) rows ≡ some s
    → find_where (takes_hash s.id fresh_hash) rows ≡ none
    → Within k now rows
    → Within k now (update_where (has_id s.id) (rotated o fresh_hash) rows)
rotate-Within k o token_hash fresh_hash s now rows found free v =
    let valid = find_where_holds (is_valid now token_hash) rows s found in
    let own : find_where (has_id s.id) rows ≡ some s =
      find_unique (is_valid now token_hash) (has_id s.id) rows s found (eq_refl s.id)
        (v.unique.one_id s.id) in
    record {
      unique = record {
        one_id = λ id. omega (
          arith,
          count-update_unique (has_id s.id) (has_id id) (rotated o fresh_hash) rows s own
              (v.unique.one_id s.id) (λ t. t),
          v.unique.one_id id,
        );
        one_hash = λ h. elim (Bool-cases (str_eq fresh_hash h)) [
          | inl same ↦
              let e : fresh_hash ≡ h = (eq_iff fresh_hash h).0 same in
              let nobody = ap (λ i. count_where (takes_hash s.id i) rows) (sym e) in
              omega (
                arith,
                count-update_add (has_id s.id) (has_hash h) (rotated o fresh_hash) rows,
                count_none (takes_hash s.id fresh_hash) rows free,
                nobody,
                v.unique.one_id s.id,
              )
          | inr differs ↦ omega (
            arith,
            count-update_unique (has_id s.id) (has_hash h) (rotated o fresh_hash) rows s own
                (v.unique.one_id s.id) (λ t. ground arith),
            v.unique.one_hash h,
          )
        ];
      };
      few = λ user. omega (
        arith,
        count-update_unique (has_id s.id) (is_active_of now user) (rotated o fresh_hash) rows s own
            (v.unique.one_id s.id) (λ t. ground arith),
        v.few user,
      );
    }

module _ (hash : String → String) where
  create-Within :
      (k : ℕ) (o : Server) (unseen : Session → Bool) (fresh_id fresh_token user device : String)
      (rows : Table)
      → FewUnseen k o.now unseen user rows
      → Within k o.now rows
      → Within k o.now (create_session hash o unseen fresh_id fresh_token user device rows).1
  unfolding create_session
  create-Within k o unseen fresh_id fresh_token user device rows few v =
      let (res, rows') =
        store_session o unseen fresh_id user (hash fresh_token) (trim_space device) rows in
      let kept =
        store-Within k o unseen fresh_id user (hash fresh_token) (trim_space device) rows rows' res
          refl few v in
      ground (
        arith,
        Call-cases
            (store_session o unseen fresh_id user (hash fresh_token) (trim_space device) rows),
      )

  rotate_token-Within :
      (k : ℕ) (o : Server) (sign : String → Option String) (fresh_token token : String)
      (rows : Table)
      → Within k o.now rows
      → Within k o.now (rotate hash o sign fresh_token token rows).1
  unfolding rotate
  rotate_token-Within k o sign fresh_token token rows v =
      elim (Option-cases (find_where (is_valid o.now (hash token)) rows)) [
        | inl e ↦ ground arith
        | inr (s, e) ↦ elim (Option-cases (find_where (takes_hash s.id (hash fresh_token)) rows)) [
          | inr (t, f) ↦ ground arith
          | inl f ↦
              ground (arith, rotate-Within k o (hash token) (hash fresh_token) s o.now rows e f v)
        ]
      ]

  refresh-Within :
      (k : ℕ) (o : Server) (sign : String → Option String) (fresh_token : String)
      (body : Option String) (rows : Table)
      → Within k o.now rows
      → Within k o.now (refresh_session hash o sign fresh_token body rows).1
  unfolding refresh_session
  refresh-Within k o sign fresh_token none rows v = v
  refresh-Within k o sign fresh_token (some token) rows v =
      elim (Call-cases (rotate hash o sign fresh_token (trim_space token) rows)) [
        | inl (a, t, e) ↦
            ground (arith, rotate_token-Within k o sign fresh_token (trim_space token) rows v)
        | inr (a, t, e) ↦
            ground (arith, rotate_token-Within k o sign fresh_token (trim_space token) rows v)
      ]

  logout-Within :
      (k : ℕ) (o : Server) (body : Option String) (rows : Table)
      → Within k o.now rows
      → Within k o.now (logout_session hash o body rows).1
  unfolding logout_session
  logout-Within k o none rows v = v
  logout-Within k o (some token) rows v = ground (
    arith,
    calm-Within (has_hash (hash (trim_space token))) (revoke_once o.now) k o.now rows (λ s id t. t)
        (λ s h t. t) (λ s user t. ground arith) v,
  )

-- A request to the session handlers, with what it finds outside.
pub data Event : Type 0 where
  login : Server → (unseen : Session → Bool) → (fresh_id fresh_token user device : String) → Event
  refresh : Server → (fresh_token : String) → Option String → Event
  logout : Server → Option String → Event

abbrev pub time : Event → ℕ
time (login o unseen fresh_id fresh_token user device) = o.now
time (refresh o fresh_token body) = o.now
time (logout o body) = o.now

-- The database's clock does not go back.
abbrev pub Ordered : ℕ → List Event → Type 0
Ordered t [] = Unit {0}
Ordered t (e ∷ es) = (t ≤ time e) × Ordered (time e) es

abbrev pub last_time : ℕ → List Event → ℕ
last_time t [] = t
last_time t (e ∷ es) = last_time (time e) es

module _ (hash : String → String) (sign : String → Option String) where
  unfoldable pub step : Table → Event → Table
  step rows (login o unseen fresh_id fresh_token user device) =
      (create_session hash o unseen fresh_id fresh_token user device rows).1
  step rows (refresh o fresh_token body) = (refresh_session hash o sign fresh_token body rows).1
  step rows (logout o body) = (logout_session hash o body rows).1

  pub run : Table → List Event → Table
  run rows [] = rows
  run rows (e ∷ es) = run (step rows e) es

  -- At most `k` sessions of the user were committed by logins that overlap with this one.
  abbrev pub Overlaps : ℕ → Table → Event → Type 0
  Overlaps k rows (login o unseen fresh_id fresh_token user device) =
      FewUnseen k o.now unseen user rows
  Overlaps k rows (refresh o fresh_token body) = Unit {0}
  Overlaps k rows (logout o body) = Unit {0}

  abbrev pub AllOverlap : ℕ → Table → List Event → Type 0
  AllOverlap k rows [] = Unit {0}
  AllOverlap k rows (e ∷ es) = Overlaps k rows e × AllOverlap k (step rows e) es

  step-Within :
      (k : ℕ) (rows : Table) (e : Event)
      → Overlaps k rows e
      → Within k (time e) rows
      → Within k (time e) (step rows e)
  unfolding step
  step-Within k rows (login o unseen fresh_id fresh_token user device) few v =
      create-Within hash k o unseen fresh_id fresh_token user device rows few v
  step-Within k rows (refresh o fresh_token body) few v =
      refresh-Within hash k o sign fresh_token body rows v
  step-Within k rows (logout o body) few v = logout-Within hash k o body rows v

  -- Over any history of logins, refreshes and logouts, by any users and with any failures of the
  -- database, where its clock does not go back and every login overlaps with others that leave at most
  -- `k` active sessions of its user that it does not see: ids and token hashes stay unique, and no user
  -- ever has more than ten active sessions and `k` more, where that held at the start. Where no logins of
  -- one user overlap, `k` is 0.
  pub run-Within :
      (k : ℕ) (rows : Table) (es : List Event) (n : ℕ)
      → Ordered n es
      → AllOverlap k rows es
      → Within k n rows
      → Within k (last_time n es) (run rows es)
  unfolding run
  run-Within k rows [] n o few v = v
  run-Within k rows (e ∷ es) n (le, o) (few, fews) v =
      run-Within k (step rows e) es (time e) o fews
        (step-Within k rows e few (Within-later k n (time e) rows le v))
