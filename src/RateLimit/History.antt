-- ===== src/RateLimit/History.antt =====
-- The limits hold at every time of any history of attempts.
use online_prorab.Common.{
  ℕ, suc, ◌+◌, ◌≤◌, ◌<◌, String, Bool, true, false, ◌&&◌, List, [], ◌∷◌, arith, eq_iff, eq_refl,
  count_where, count_where-append, ltb, str_eq, if◌then◌else◌, ◌≡◌,
}
use online_prorab.RateLimit.{
  Table, Limits, Server, Reservation, reserved, wait, unavailable, by_remote, reserve_auth_attempt,
  null_if_empty,
}
use online_prorab.RateLimit.Window.{window_shrinks}

pub record Request : Type 0 where
  pub up : Server
  pub phone : String
  pub remote_key : String
  pub clock : ℕ
  pub now : ℕ

-- The database's clock does not go back.
abbrev pub Ordered : ℕ → List Request → Type 0
Ordered t [] = Unit {0}
Ordered t (q ∷ qs) = (t ≤ q.now) × Ordered q.now qs

abbrev pub last_time : ℕ → List Request → ℕ
last_time t [] = t
last_time t (q ∷ qs) = last_time q.now qs

module _ (l : Limits) (action : String) where
  unfoldable pub attempt : Table → Request → Table
  attempt t q = (reserve_auth_attempt q.up l action q.phone q.remote_key q.clock q.now t).1

  unfoldable pub attempts : Table → List Request → Table
  attempts t [] = t
  attempts t (q ∷ qs) = attempts (attempt t q) qs

  -- No address has more attempts in the window that ends now than the limit.
  abbrev pub Within : ℕ → Table → Type 0
  Within now t =
      (remote_key : String)
      → count_where (by_remote action l.window now remote_key) t.attempts ≤ l.remote_limit

  attempt-Within :
      (t : Table) (q : Request) (n : ℕ)
      → 0 < l.remote_limit
      → n ≤ q.now
      → Within n t
      → Within q.now (attempt t q)
  unfolding attempt reserve_auth_attempt
  attempt-Within t q n r h v remote_key = ground (
    arith,
    window_shrinks action remote_key l.window n q.now t.attempts h,
    v remote_key,
    eq_iff q.remote_key remote_key,
    count_where-append (by_remote action l.window q.now remote_key) t.attempts (record {
      id = t.next_id;
      phone = null_if_empty q.phone;
      remote_key = q.remote_key;
      action = action;
      succeeded = false;
      created_at = q.now;
    }),
  )

  abbrev granted_to : ℕ → String → Request → Reservation → Bool
  granted_to now remote_key q (reserved id) =
      ltb now (q.now + l.window) && str_eq q.remote_key remote_key
  granted_to now remote_key q (wait remaining) = false
  granted_to now remote_key q unavailable = false

  -- How many of the attempts are answered with a reservation to the address, in the window that ends
  -- at `now`.
  unfoldable pub grants : ℕ → String → Table → List Request → ℕ
  grants now remote_key t [] = 0
  grants now remote_key t (q ∷ qs) =
      let answer = (reserve_auth_attempt q.up l action q.phone q.remote_key q.clock q.now t).0 in
      let rest = grants now remote_key (attempt t q) qs in
      if granted_to now remote_key q answer then suc rest else rest

  abbrev one_if : Bool → ℕ
  one_if true = 1
  one_if false = 0

  -- A reservation that is answered is a row more.
  attempt_counted :
      (now : ℕ) (remote_key : String) (t : Table) (q : Request)
      → count_where (by_remote action l.window now remote_key) t.attempts
          + one_if (
              granted_to now remote_key q
                (reserve_auth_attempt q.up l action q.phone q.remote_key q.clock q.now t).0)
        ≤ count_where (by_remote action l.window now remote_key) (attempt t q).attempts
  unfolding attempt reserve_auth_attempt
  attempt_counted now remote_key t q = ground (
    arith,
    eq_refl action,
    count_where-append (by_remote action l.window now remote_key) t.attempts (record {
      id = t.next_id;
      phone = null_if_empty q.phone;
      remote_key = q.remote_key;
      action = action;
      succeeded = false;
      created_at = q.now;
    }),
  )

  tally : (c : Bool) (n : ℕ) → (if c then suc n else n) ≡ n + one_if c
  tally true n = omega arith
  tally false n = omega arith

  grants_counted :
      (now : ℕ) (remote_key : String) (t : Table) (qs : List Request)
      → count_where (by_remote action l.window now remote_key) t.attempts
          + grants now remote_key t qs
        ≤ count_where (by_remote action l.window now remote_key) (attempts t qs).attempts
  unfolding grants attempts
  grants_counted now remote_key t [] = omega arith
  grants_counted now remote_key t (q ∷ qs) = omega (
    arith,
    attempt_counted now remote_key t q,
    grants_counted now remote_key (attempt t q) qs,
    tally
        (granted_to now remote_key q
          (reserve_auth_attempt q.up l action q.phone q.remote_key q.clock q.now t).0)
        (grants now remote_key (attempt t q) qs),
  )

  attempts_kept :
      (t : Table) (qs : List Request) (n : ℕ)
      → 0 < l.remote_limit
      → Ordered n qs
      → Within n t
      → Within (last_time n qs) (attempts t qs)
  unfolding attempts
  attempts_kept t [] n r o v = v
  attempts_kept t (q ∷ qs) n r (le, o) v =
      attempts_kept (attempt t q) qs q.now r o (attempt-Within t q n r le v)

  -- Over any history of attempts, by any addresses and phones and with any failures of the database,
  -- where there is a limit, the database's clock does not go back and no address was above the limit at
  -- the start: the table has no more attempts of an address in the window that ends with the last attempt
  -- than the limit, and no more attempts of an address in that window were answered with a
  -- reservation.
  pub attempts-Within :
      (t : Table) (qs : List Request) (n : ℕ)
      → 0 < l.remote_limit
      → Ordered n qs
      → Within n t
      → Within (last_time n qs) (attempts t qs)
        × ((remote_key : String) → grants (last_time n qs) remote_key t qs ≤ l.remote_limit)
  attempts-Within t qs n r o v =
      let within = attempts_kept t qs n r o v in
      (
        within,
        λ remote_key.
            omega (arith, grants_counted (last_time n qs) remote_key t qs, within remote_key),
      )
