-- ===== src/Session/Limit.antt =====
-- The number of active sessions.
use online_prorab.Common.{
  ℕ, suc, zero, ◌+◌, ◌≤◌, String, ◌≡◌, refl, Bool, true, false, not, ◌&&◌, [], ◌∷◌, ◌++◌, arith,
  eq_iff, eq_refl, find_where, count_where, update_where, delete_where, count_where-append,
  Option-cases,
}
use online_prorab.Common.Order.{
  rows_where, order_by, drop, count_where-order_by, count_where-rows_where, count-delete_where,
  count_mono, count_none, count-update_le,
}
use online_prorab.Session.{
  Session, Table, is_active_of, has_id, has_hash, is_newer, sessions_to_revoke, is_among, revoke,
  is_taken, is_seen, max_active_user_sessions,
}

-- At most one row for an id and for a hash, as the constraints of the table demand.
pub record IsUnique (rows : Table) : Type 0 where
  pub one_id : (id : String) → count_where (has_id id) rows ≤ 1
  pub one_hash : (h : String) → count_where (has_hash h) rows ≤ 1

-- No user has more than ten active sessions at a time, and `k` more.
pub record Within (k now : ℕ) (rows : Table) : Type 0 where
  pub unique : IsUnique rows
  pub few :
      (user : String) → count_where (is_active_of now user) rows ≤ max_active_user_sessions + k

-- What does not occur in a list of sessions by its id.
abbrev outside : Table → Session → Bool
outside chosen s = not (is_among chosen s)

outside_self : (x : Session) (xs : Table) → outside (x ∷ xs) x ≡ false
unfolding is_among
outside_self x xs = ground (arith, eq_refl x.id)

count_outside :
    (chosen xs : Table)
    → ((s : Session) → is_among xs s ≡ true → is_among chosen s ≡ true)
    → count_where (outside chosen) xs ≡ 0
unfolding count_where
count_outside chosen [] h = refl
count_outside chosen (x ∷ xs) h =
    let here = h x (unfold is_among in ground (arith, eq_refl x.id)) in
    ground (arith, count_outside chosen xs (λ s t. h s (unfold is_among in ground arith)))

-- Of ordered rows, at most `n` are not among those after the first `n`.
count_kept : (n : ℕ) (xs : Table) → count_where (outside (drop n xs)) xs ≤ n
unfolding drop count_where
count_kept zero xs = omega (arith, count_outside xs xs (λ s t. t))
count_kept (suc n) [] = omega arith
count_kept (suc n) (x ∷ xs) = ground (arith, count_kept n xs)

-- What is active and was not chosen, while the chosen rows are revoked.
count_revoked :
    (chosen : Table) (now : ℕ) (user : String) (rows : Table)
    → count_where (is_active_of now user) (update_where (is_among chosen) (revoke now) rows)
      ≤ count_where (λ s. is_active_of now user s && outside chosen s) rows
unfolding count_where update_where
count_revoked chosen now user [] = omega arith
count_revoked chosen now user (x ∷ xs) = ground (arith, count_revoked chosen now user xs)

-- Rows that are seen and rows that are not.
count_split :
    (p q : Session → Bool) (rows : Table)
    → count_where p rows
      ≤ count_where p (rows_where (λ s. not (q s)) rows) + count_where (λ s. p s && q s) rows
unfolding count_where rows_where
count_split p q [] = omega arith
count_split p q (x ∷ xs) = ground (arith, count_split p q xs)

-- Among the rows that are seen, at most nine active ones of the user are kept.
count_seen :
    (now : ℕ) (user : String) (seen : Table)
    → count_where
        (λ s. is_active_of now user s && outside (sessions_to_revoke now user seen) s)
        seen
      ≤ 9
unfolding sessions_to_revoke
count_seen now user seen =
    let active = rows_where (is_active_of now user) seen in
    let chosen = drop 9 (order_by is_newer active) in
    let kept : Session → Bool = λ s. is_active_of now user s && outside chosen s in
    omega (
      arith,
      count_where-rows_where kept (is_active_of now user) seen (λ s t. ground arith),
      count_where-order_by kept is_newer active,
      count_mono kept (outside chosen) (order_by is_newer active) (λ s t. ground arith),
      count_kept 9 (order_by is_newer active),
    )

-- The UPDATE of CreateSession leaves the user at most nine active sessions, and those that it does not
-- see.
pub revoke_lem :
    (now : ℕ) (user : String) (unseen : Session → Bool) (rows : Table)
    → count_where (is_active_of now user) (
        update_where
          (is_among (sessions_to_revoke now user (rows_where (is_seen unseen) rows)))
          (revoke now)
          rows)
      ≤ 9 + count_where (λ s. is_active_of now user s && unseen s) rows
revoke_lem now user unseen rows =
    let seen = rows_where (is_seen unseen) rows in
    let chosen = sessions_to_revoke now user seen in
    let kept : Session → Bool = λ s. is_active_of now user s && outside chosen s in
    omega (
      arith,
      count_revoked chosen now user rows,
      count_split kept unseen rows,
      count_seen now user seen,
      count_mono (λ s. kept s && unseen s) (λ s. is_active_of now user s && unseen s) rows
          (λ s t. ground arith),
    )

-- Time only ends sessions.
pub Within-later :
    (k now later : ℕ) (rows : Table) → now ≤ later → Within k now rows → Within k later rows
Within-later k now later rows h v = record {
  unique = v.unique;
  few = λ user. omega (
    arith,
    count_mono (is_active_of later user) (is_active_of now user) rows (λ s t. ground arith),
    v.few user,
  );
}

pub delete-Within :
    (p : Session → Bool) (k now : ℕ) (rows : Table)
    → Within k now rows
    → Within k now (delete_where p rows)
delete-Within p k now rows v = record {
  unique = record {
    one_id = λ id. omega (arith, count-delete_where p (has_id id) rows, v.unique.one_id id);
    one_hash = λ h. omega (arith, count-delete_where p (has_hash h) rows, v.unique.one_hash h);
  };
  few = λ user. omega (arith, count-delete_where p (is_active_of now user) rows, v.few user);
}

-- An update that keeps ids, hashes and users, and brings no session back.
pub calm-Within :
    (p : Session → Bool) (f : Session → Session) (k now : ℕ) (rows : Table)
    → ((s : Session) (id : String) → has_id id (f s) ≡ true → has_id id s ≡ true)
    → ((s : Session) (h : String) → has_hash h (f s) ≡ true → has_hash h s ≡ true)
    → ((s : Session) (user : String)
        → is_active_of now user (f s) ≡ true
        → is_active_of now user s ≡ true)
    → Within k now rows
    → Within k now (update_where p f rows)
calm-Within p f k now rows ids hashes users v = record {
  unique = record {
    one_id = λ id.
        omega (arith, count-update_le p (has_id id) f rows (λ s. ids s id), v.unique.one_id id);
    one_hash = λ h.
        omega (arith, count-update_le p (has_hash h) f rows (λ s. hashes s h), v.unique.one_hash h);
  };
  few = λ user.
      omega
        (arith, count-update_le p (is_active_of now user) f rows (λ s. users s user), v.few user);
}

pub revoke-Within :
    (p : Session → Bool) (k now : ℕ) (rows : Table)
    → Within k now rows
    → Within k now (update_where p (revoke now) rows)
revoke-Within p k now rows v =
    calm-Within p (revoke now) k now rows (λ s id t. t) (λ s h t. t) (λ s user t. ground arith) v

-- A new row for a user with fewer than ten active sessions, and `k` more.
pub append-Within :
    (s : Session) (k now : ℕ) (rows : Table)
    → is_taken s rows ≡ false
    → count_where (is_active_of now s.user_id) rows ≤ 9 + k
    → Within k now rows
    → Within k now (rows ++ s ∷ [])
append-Within s k now rows free nine v = record {
  unique = record {
    one_id = λ id. ground (
      arith,
      count_where-append (has_id id) rows s,
      count_none (has_id s.id) rows,
      eq_iff s.id id,
      v.unique.one_id id,
      Option-cases (find_where (has_id s.id) rows),
    );
    one_hash = λ h. ground (
      arith,
      count_where-append (has_hash h) rows s,
      count_none (has_hash s.token_hash) rows,
      eq_iff s.token_hash h,
      v.unique.one_hash h,
      Option-cases (find_where (has_hash s.token_hash) rows),
    );
  };
  few = λ user.
      ground (
        arith,
        count_where-append (is_active_of now user) rows s,
        eq_iff s.user_id user,
        v.few user,
      );
}
