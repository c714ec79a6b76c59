-- ===== src/Login/Codes.antt =====
-- What a verification does to the codes.
use online_prorab.Common.{
  ℕ, ◌≤◌, ◌<◌, String, ◌≡◌, ◌≢◌, refl, ap, ◌∙◌, inl, inr, Bool, true, false, ◌&&◌, Option, none,
  some, List, arith, leb, str_eq, eq_iff, eq_refl, find_where, count_where, update_where,
  Option-cases, Bool-cases, find_where-update_where,
}
use online_prorab.Common.Monad.{Call, Result, ok, err, Call-cases}
use online_prorab.Common.Order.{first_by, first_by_holds, find-first_by}
use online_prorab.Text.{normalize_phone, trim_space}
use online_prorab.Database.{Env, begin, commit, load_code, record_attempt}
use online_prorab.Login.{LoginCode, Store, has_id, consume}
use online_prorab.Login.Verify.{
  is_live, is_newer, add_attempt, check_code, judge, log_in, find_account, enter, verify_sms_code,
  verified, answered,
}

abbrev pub IsUnique : List LoginCode → Type 0
IsUnique codes = (id : String) → count_where (has_id id) codes ≤ 1

-- The code that a verification is checked against: the newest live one of the phone, with a guess left.
pub record IsCandidate (now : ℕ) (phone : String) (codes : List LoginCode) (c : LoginCode)
    : Type 0 where
  pub newest : first_by is_newer (is_live now phone) codes ≡ some c
  pub guess_left : c.attempts < 5

-- A refusal leaves the codes, a wrong code takes a guess, a right one is spent.
pub data Effect {A : Type 0} (hash : String → String → String) (env : Env) (phone code : String)
    (codes codes' : List LoginCode) (res : Result ℕ (Option A)) : Type 0 where
  kept :
      (status : ℕ) → res ≡ err status → codes' ≡ codes → Effect hash env phone code codes codes' res
  missed :
      (c : LoginCode)
      → IsCandidate env.db_clock phone codes c
      → hash phone code ≢ c.code_hash
      → res ≡ ok none
      → codes' ≡ update_where (has_id c.id) add_attempt codes
      → Effect hash env phone code codes codes' res
  used :
      (c : LoginCode) (a : A)
      → IsCandidate env.db_clock phone codes c
      → hash phone code ≡ c.code_hash
      → res ≡ ok (some a)
      → codes' ≡ update_where (has_id c.id) (consume env.db_clock) codes
      → Effect hash env phone code codes codes' res

-- What a right code leads to, where it spends the code.
abbrev pub Spends : {A : Type 0} → Env → (LoginCode → Call Store ℕ (Option A)) → Type 0
Spends {A} env accept =
    (c : LoginCode) (st st' : Store) (r : Option A)
    → accept c st ≡ (ok r, st')
    → (a : A) × (r ≡ some a)
      × (st'.codes ≡ update_where (has_id c.id) (consume env.db_clock) st.codes)

differ_of : (s t : String) → str_eq s t ≡ false → s ≢ t
differ_of s t h e = ground (arith, eq_iff s t)

judged :
    {A : Type 0} (env : Env) (right : Bool) (accept : LoginCode → Call Store ℕ (Option A))
    (c : LoginCode)
    → right ≡ true
    → judge env right accept c ≡ accept c
unfolding judge
judged env true accept c h = refl
judged env false accept c h = absurd (ground arith)

module _ {A : Type 0} (hash : String → String → String) (env : Env) (phone code : String) where
  pub check_code-Effect :
      (accept : LoginCode → Call Store ℕ (Option A)) (st st' : Store) (res : Result ℕ (Option A))
      → Spends env accept
      → check_code hash env phone code accept st ≡ (res, st')
      → Effect hash env phone code st.codes st'.codes res
  unfolding check_code
  check_code-Effect accept st st' res spends h =
      elim (Option-cases (first_by is_newer (is_live env.db_clock phone) st.codes)) [
        | inl e ↦ elim (Bool-cases (env.up begin && env.up load_code)) [
          | inl up ↦ kept 401 (ground arith) (ground arith)
          | inr down ↦ kept 503 (ground arith) (ground arith)
        ]
        | inr (c, e) ↦ elim (Bool-cases (env.up begin && env.up load_code)) [
          | inr down ↦ kept 503 (ground arith) (ground arith)
          | inl up ↦ elim (Bool-cases (leb 5 c.attempts)) [
            | inl many ↦ kept 429 (ground arith) (ground arith)
            | inr few ↦
                let candidate : IsCandidate env.db_clock phone st.codes c = record {
                  newest = e;
                  guess_left = ground arith;
                } in
                elim (Bool-cases (str_eq (hash phone code) c.code_hash)) [
                  | inr wrong ↦
                      unfold judge in
                      elim (Bool-cases (env.up record_attempt && env.up commit)) [
                        | inl fine ↦
                            missed c candidate (differ_of (hash phone code) c.code_hash wrong)
                              (ground arith) (ground arith)
                        | inr bad ↦ kept 503 (ground arith) (ground arith)
                      ]
                  | inl right ↦
                      let go : judge env (str_eq (hash phone code) c.code_hash) accept c st
                          ≡ accept c st =
                        ap (λ m. m st)
                          (judged env (str_eq (hash phone code) c.code_hash) accept c right) in
                      elim (Call-cases (accept c st)) [
                        | inr (x, t, f) ↦ kept x (ground arith) (ground arith)
                        | inl (r, t, f) ↦
                            let out : res ≡ ok r = ground arith in
                            let left : st' ≡ t = ground arith in
                            let (a, g, s) = spends c st t r f in
                            used c a candidate ((eq_iff (hash phone code) c.code_hash).0 right)
                              (out ∙ ap ok g) (ap (λ x. x.codes) left ∙ s)
                      ]
                ]
          ]
        ]
      ]

pub log_in-Spends : (env : Env) (fresh_id phone : String) → Spends env (log_in env fresh_id phone)
unfolding log_in
log_in-Spends env fresh_id phone c st st' r h = elim (Call-cases (enter env fresh_id phone st.db)) [
  | inr (x, t, f) ↦ absurd (ground arith)
  | inl (u, t, f) ↦ (u, ground arith, ground arith)
]

pub find_account-Spends : (env : Env) (phone : String) → Spends env (find_account env phone)
unfolding find_account
find_account-Spends env phone c st st' r h =
    (find_where (λ u. str_eq u.phone phone) st.db.users, ground arith, ground arith)

-- The candidate is the one row with its id, and it is live.
pub candidate_row :
    (now : ℕ) (phone : String) (codes : List LoginCode) (c : LoginCode)
    → IsUnique codes
    → IsCandidate now phone codes c
    → (find_where (has_id c.id) codes ≡ some c) × (is_live now phone c ≡ true)
candidate_row now phone codes c u k = (
  find-first_by is_newer (is_live now phone) (has_id c.id) codes c k.newest (eq_refl c.id) (u c.id),
  first_by_holds is_newer (is_live now phone) codes c k.newest,
)

-- A login succeeds, where ids are unique, only with the newest of those codes of the phone that have
-- neither expired nor been used, where that one has had fewer than five wrong guesses; and then that
-- code is used up.
pub verify_spends :
    (hash : String → String → String) (sign : String → Option String) (env : Env)
    (fresh_id raw_phone raw_code token user : String) (st st' : Store)
    → verify_sms_code hash sign env fresh_id raw_phone raw_code st ≡ (verified token user, st')
    → IsUnique st.codes
    → (c : LoginCode) × (first_by is_newer
          (is_live env.db_clock (normalize_phone raw_phone))
          st.codes
        ≡ some c)
      × (c.attempts < 5)
      × (hash (normalize_phone raw_phone) (trim_space raw_code) ≡ c.code_hash)
      × (find_where (has_id c.id) st'.codes ≡ some (consume env.db_clock c))
      × (sign user ≡ some token)
unfolding verify_sms_code
verify_spends hash sign env fresh_id raw_phone raw_code token user st st' h u =
    let phone = normalize_phone raw_phone in
    let code = trim_space raw_code in
    let call = check_code hash env phone code (log_in env fresh_id phone) st in
    by_effect call.0 call.1
      (check_code-Effect hash env phone code (log_in env fresh_id phone) st call.1 call.0
        (log_in-Spends env fresh_id phone) refl)
      (ground arith)
  where
    by_effect :
        (res : Result ℕ (Option String)) (mid : Store)
        → Effect hash env (normalize_phone raw_phone) (trim_space raw_code) st.codes mid.codes res
        → answered sign (res, mid) ≡ (verified token user, st')
        → (c : LoginCode) × (first_by is_newer
              (is_live env.db_clock (normalize_phone raw_phone))
              st.codes
            ≡ some c)
          × (c.attempts < 5)
          × (hash (normalize_phone raw_phone) (trim_space raw_code) ≡ c.code_hash)
          × (find_where (has_id c.id) st'.codes ≡ some (consume env.db_clock c))
          × (sign user ≡ some token)
    by_effect res mid (kept status e k) g = absurd (ground arith)
    by_effect res mid (missed c k n e w) g = absurd (ground arith)
    by_effect res mid (used c a k m e w) g =
        let (found, live) = candidate_row env.db_clock (normalize_phone raw_phone) st.codes c u k in
        elim (Option-cases (sign a)) [
          | inl none_signed ↦ absurd (ground arith)
          | inr (t, signed) ↦ (
            c,
            k.newest,
            k.guess_left,
            m,
            ground (
              arith,
              eq_refl c.id,
              find_where-update_where (has_id c.id) (has_id c.id) (consume env.db_clock) st.codes
                  (λ x. refl),
            ),
            ground arith,
          )
        ]
