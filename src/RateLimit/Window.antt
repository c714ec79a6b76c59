-- ===== src/RateLimit/Window.antt =====
-- The limits hold in every window.
use online_prorab.Common.{
  ℕ, ◌-◌, ◌≤◌, ◌<◌, String, ◌≡◌, ◌≢◌, refl, Bool, true, false, List, [], ◌∷◌, arith, ltb, eq_iff,
  count_where, count_where-append, if◌then◌else◌,
}
use online_prorab.RateLimit.{
  Attempt, Table, Limits, Server, reserved, wait, by_remote, by_phone, latest, second,
  null_if_empty, reserve_auth_attempt, request_retry_after,
}

-- An attempt with a phone is granted only while, this one counted, the remote address and the phone
-- stay within their limits in the window that ends now, where there are limits.
pub reserve_within :
    (up : Server) (l : Limits) (action phone remote_key : String) (clock now : ℕ) (t t' : Table)
    (id : ℕ)
    → 0 < l.remote_limit
    → 0 < l.phone_limit
    → phone ≢ ""
    → reserve_auth_attempt up l action phone remote_key clock now t ≡ (reserved id, t')
    → (count_where (by_remote action l.window now remote_key) t'.attempts ≤ l.remote_limit)
      × (count_where (by_phone action l.window now phone) t'.attempts ≤ l.phone_limit)
unfolding reserve_auth_attempt
reserve_within up l action phone remote_key clock now t t' id r p named h =
    let new : Attempt = record {
      id = t.next_id;
      phone = null_if_empty phone;
      remote_key = remote_key;
      action = action;
      succeeded = false;
      created_at = now;
    } in
    (
      ground (arith, count_where-append (by_remote action l.window now remote_key) t.attempts new),
      ground (
        arith,
        eq_iff phone "",
        count_where-append (by_phone action l.window now phone) t.attempts new,
      ),
    )

-- A refused attempt writes nothing, and the time to wait that it names is above 0, where the window
-- is.
pub reserve_wait :
    (up : Server) (l : Limits) (action phone remote_key : String) (clock now remaining : ℕ)
    (t t' : Table)
    → 0 < l.window
    → reserve_auth_attempt up l action phone remote_key clock now t ≡ (wait remaining, t')
    → (t' ≡ t) × (0 < remaining) × (1 ≤ request_retry_after remaining)
unfolding reserve_auth_attempt request_retry_after
reserve_wait up l action phone remote_key clock now remaining t t' w h =
    (ground arith, ground arith, ground arith)

latest-le :
    (p : Attempt → Bool) (rows : List Attempt) (n : ℕ)
    → latest p rows ≤ n
    → count_where (λ a. if p a then ltb n a.created_at else false) rows ≡ 0
unfolding latest count_where
latest-le p [] n h = refl
latest-le p (a ∷ rows) n h = ground (arith, latest-le p rows n)

-- Between two granted attempts of one phone lies the cooldown: when one is granted under a cooldown
-- and the latest attempt of the phone in the window is a second or more from the Unix epoch, no
-- attempt of the phone in the window is younger than the cooldown, by the program's clock.
pub reserve_cooldown :
    (up : Server) (l : Limits) (action phone remote_key : String) (clock now : ℕ) (t t' : Table)
    (id : ℕ)
    → 0 < l.phone_cooldown
    → phone ≢ ""
    → second ≤ latest (by_phone action l.window now phone) t.attempts
    → reserve_auth_attempt up l action phone remote_key clock now t ≡ (reserved id, t')
    → count_where
        (λ a.
          if by_phone action l.window now phone a
          then ltb (clock - l.phone_cooldown) a.created_at
          else false)
        t.attempts
      ≡ 0
unfolding reserve_auth_attempt
reserve_cooldown up l action phone remote_key clock now t t' id c named some_attempt h =
    latest-le (by_phone action l.window now phone) t.attempts (clock - l.phone_cooldown)
      (ground (arith, eq_iff phone ""))

count_mono :
    (p q : Attempt → Bool) (rows : List Attempt)
    → ((a : Attempt) → p a ≡ true → q a ≡ true)
    → count_where p rows ≤ count_where q rows
unfolding count_where
count_mono p q [] h = ground arith
count_mono p q (a ∷ rows) h = ground (arith, h a, count_mono p q rows h)

-- What a later window counts, an earlier one over the same attempts counted too.
pub window_shrinks :
    (action remote_key : String) (window now later : ℕ) (rows : List Attempt)
    → now ≤ later
    → count_where (by_remote action window later remote_key) rows
      ≤ count_where (by_remote action window now remote_key) rows
window_shrinks action remote_key window now later rows h =
    count_mono (by_remote action window later remote_key) (by_remote action window now remote_key)
      rows (λ a t. ground arith)
