-- ===== src/Login/Guesses.antt =====
-- What one request to the login handlers of backend/internal/httpapi/auth.go and
-- account_deletion_auth.go does to a code, with the guesses that are answered as wrong.
use mathlib.Core.Path.{subst}
use online_prorab.Common.{
  ℕ, ◌+◌, ◌<◌, String, ◌≡◌, str_eq, if◌then◌else◌, refl, ap, ◌∙◌, sym, inl, inr, Bool, true, Option,
  none, some, [], ◌∷◌, ◌++◌, arith, eq_iff, find_where, find_where-append, find_where_holds,
  is_none, Option-cases, Bool-cases,
}
use online_prorab.Common.Monad.{Call, Result, ok, err}
use online_prorab.Text.{normalize_phone, trim_space}
use online_prorab.Database.{Env, User}
use online_prorab.Login.{
  LoginCode, Store, Settings, has_id, consume, with_codes, new_code, request_sms_code,
  issue_sms_code_for_phone,
}
use online_prorab.Login.Verify.{
  add_attempt, check_code, log_in, find_account, answered, deletion_answered, is_bad,
  verify_sms_code, verify_account_deletion_sms_code, is_live, is_newer,
}
use online_prorab.Common.Order.{first_by}
use online_prorab.Login.Codes.{
  IsUnique, IsCandidate, Effect, kept, missed, used, check_code-Effect, log_in-Spends,
  find_account-Spends, candidate_row, Spends,
}
use online_prorab.Login.Machine.{
  Reached, Refines, Refines-trans, unmoved, updated, added, deliver-Refines, not_fresh, spend_any,
  miss_one,
}

module _ (hash : String → String → String) where
  pub request-Refines :
      (s : Settings) (env : Env) (drawn : Option ℕ) (delivered : Bool) (fresh : String)
      (body : Option String) (id : String) (c : LoginCode) (st : Store)
      → IsUnique st.codes
      → find_where (has_id id) st.codes ≡ some c
      → Refines id 0 c (request_sms_code hash s env drawn delivered fresh body st).1.codes
  unfolding request_sms_code
  request-Refines s env drawn delivered fresh none id c st u f =
      unmoved id c st.codes st.codes refl u f
  request-Refines s env drawn delivered fresh (some raw) id c st u f =
      let same = unmoved id c st.codes st.codes refl u f in
      elim (Option-cases (find_where (has_id fresh) st.codes)) [
        | inr (x, e) ↦
            elim (Option-cases (issue_sms_code_for_phone s drawn (normalize_phone raw))) [
              | inl g ↦ ground arith
              | inr (code, g) ↦ ground arith
            ]
        | inl e ↦ elim (Option-cases (issue_sms_code_for_phone s drawn (normalize_phone raw))) [
          | inl g ↦ ground arith
          | inr (code, g) ↦
              let new =
                new_code env fresh (normalize_phone raw) (hash (normalize_phone raw) code) in
              let stored = with_codes (λ cs. cs ++ new ∷ []) st in
              let r = added id c new st.codes e u f in
              let delivery =
                deliver-Refines s env delivered fresh (normalize_phone raw) code id c stored
                  (not_fresh id fresh c st.codes e f) r.unique
                  (find_where-append (has_id id) st.codes (new ∷ []) f) in
              ground arith
        ]
      ]

  -- A comparison with the code under `id` that was answered as wrong counts as a guess.
  abbrev compared : {A : Type 0} → String → Option LoginCode → Result ℕ (Option A) → ℕ
  compared id (some c) (ok none) = if str_eq c.id id then 1 else 0
  compared id none res = 0
  compared id (some c) (ok (some a)) = 0
  compared id (some c) (err status) = 0

  not_compared :
      {A : Type 0} (id : String) (found : Option LoginCode) (res : Result ℕ (Option A)) (status : ℕ)
      → res ≡ err status
      → compared id found res ≡ 0
  not_compared id none res status h = refl
  not_compared id (some c) (err x) status h = refl
  not_compared id (some c) (ok r) status h = absurd (ground arith)

  not_wrong :
      {A : Type 0} (id : String) (found : Option LoginCode) (res : Result ℕ (Option A)) (a : A)
      → res ≡ ok (some a)
      → compared id found res ≡ 0
  not_wrong id none res a h = refl
  not_wrong id (some c) (err x) a h = refl
  not_wrong id (some c) (ok (some b)) a h = refl
  not_wrong id (some c) (ok none) a h = absurd (ground arith)

  wrong :
      {A : Type 0} (id : String) (c : LoginCode) (found : Option LoginCode)
      (res : Result ℕ (Option A))
      → found ≡ some c
      → res ≡ ok none
      → compared id found res ≡ (if str_eq c.id id then 1 else 0)
  wrong id c found res h k = ap (λ f. compared id f res) h ∙ ap (λ r. compared id (some c) r) k

  -- A verification of any kind, where a right code is spent.
  check-Refines :
      {A : Type 0} (env : Env) (phone code : String) (accept : LoginCode → Call Store ℕ (Option A))
      (id : String) (c : LoginCode) (st : Store)
      → Spends env accept
      → IsUnique st.codes
      → find_where (has_id id) st.codes ≡ some c
      → Refines id
          (compared id
            (first_by is_newer (is_live env.db_clock phone) st.codes)
            (check_code hash env phone code accept st).0)
          c
          (check_code hash env phone code accept st).1.codes
  check-Refines env phone code accept id c st spends u f = by_effect (
      check_code-Effect hash env phone code accept st (check_code hash env phone code accept st).1
        (check_code hash env phone code accept st).0 spends refl)
    where
      candidate : Option LoginCode
      candidate = first_by is_newer (is_live env.db_clock phone) st.codes

      guesses : ℕ
      guesses = compared id candidate (check_code hash env phone code accept st).0

      own_id : c.id ≡ id
      own_id = (eq_iff c.id id).0 (find_where_holds (has_id id) st.codes c f)

      same_row :
          (x : LoginCode) → IsCandidate env.db_clock phone st.codes x → has_id x.id c ≡ true → x ≡ c
      same_row x k t =
          let (own, live) = candidate_row env.db_clock phone st.codes x u k in
          let ids : id ≡ x.id =
            sym ((eq_iff c.id id).0 (find_where_holds (has_id id) st.codes c f))
            ∙ (eq_iff c.id x.id).0 t in
          let both : some x ≡ some c =
            sym own ∙ ap (λ k. find_where (has_id k) st.codes) (sym ids) ∙ f in
          ground arith

      by_effect :
          Effect hash env phone code st.codes
            (check_code hash env phone code accept st).1.codes
            (check_code hash env phone code accept st).0
          → Refines id guesses c (check_code hash env phone code accept st).1.codes
      by_effect (kept status e k) =
          subst (λ n. Refines id n c (check_code hash env phone code accept st).1.codes)
            (sym (not_compared id candidate _ status e)) (unmoved id c st.codes _ k u f)
      by_effect (missed x k n e w) =
          let count : guesses ≡ (if str_eq x.id id then 1 else 0) =
            wrong id x candidate _ k.newest e in
          updated id guesses c st.codes _ (has_id x.id) add_attempt w (λ y. refl) u f
            (λ t.
              let (own, live) = candidate_row env.db_clock phone st.codes x u k in
              let fits : (is_none c.consumed_at ≡ true) × (c.attempts < 5) =
                subst (λ y. (is_none y.consumed_at ≡ true) × (y.attempts < 5)) (same_row x k t)
                  (ground arith, k.guess_left) in
              let one : guesses ≡ 1 = ground (arith, eq_iff c.id x.id, eq_iff x.id id, own_id) in
              subst (λ n. Reached n c (add_attempt c)) (sym one) (miss_one c fits.0 fits.1))
            (λ t. ground (arith, eq_iff c.id x.id, eq_iff x.id id, own_id))
      by_effect (used x a k m e w) =
          subst (λ n. Refines id n c (check_code hash env phone code accept st).1.codes)
            (sym (not_wrong id candidate _ a e))
            (updated id 0 c st.codes _ (has_id x.id) (consume env.db_clock) w (λ y. refl) u f
              (λ t. spend_any env.db_clock c) (λ t. refl))

  -- The guesses at the code under `id` that a verification answers as wrong.
  unfoldable pub guessed_by_verify : Env → (fresh raw_phone raw_code id : String) → Store → ℕ
  guessed_by_verify env fresh raw_phone raw_code id st =
      if is_bad (normalize_phone raw_phone) (trim_space raw_code)
      then 0
      else compared id
          (first_by is_newer (is_live env.db_clock (normalize_phone raw_phone)) st.codes)
          (check_code hash env (normalize_phone raw_phone) (trim_space raw_code)
            (log_in env fresh (normalize_phone raw_phone)) st).0

  unfoldable pub guessed_by_deletion : Env → (raw_phone raw_code id : String) → Store → ℕ
  guessed_by_deletion env raw_phone raw_code id st =
      if is_bad (normalize_phone raw_phone) (trim_space raw_code)
      then 0
      else compared id
          (first_by is_newer (is_live env.db_clock (normalize_phone raw_phone)) st.codes)
          (check_code hash env (normalize_phone raw_phone) (trim_space raw_code)
            (find_account env (normalize_phone raw_phone)) st).0

  -- The answer keeps the store.
  answered_store :
      (sign : String → Option String) (p : Result ℕ (Option String) × Store)
      → (answered sign p).1 ≡ p.1
  answered_store sign (err status, st) = refl
  answered_store sign (ok none, st) = refl
  answered_store sign (ok (some user), st) = refl

  deletion_answered_store :
      (sign : String → Option String) (p : Result ℕ (Option (Option User)) × Store)
      → (deletion_answered sign p).1 ≡ p.1
  deletion_answered_store sign (err status, st) = refl
  deletion_answered_store sign (ok none, st) = refl
  deletion_answered_store sign (ok (some none), st) = refl
  deletion_answered_store sign (ok (some (some u)), st) = refl

  zero_if : (b : Bool) (n : ℕ) → b ≡ true → (if b then 0 else n) ≡ 0
  zero_if b n h = ground arith

  add_zero : (n : ℕ) → n + 0 ≡ n
  add_zero n = omega arith

  pub verify-Refines :
      (sign : String → Option String) (env : Env) (fresh raw_phone raw_code id : String)
      (c : LoginCode) (st : Store)
      → IsUnique st.codes
      → find_where (has_id id) st.codes ≡ some c
      → Refines id
          (guessed_by_verify env fresh raw_phone raw_code id st)
          c
          (verify_sms_code hash sign env fresh raw_phone raw_code st).1.codes
  unfolding verify_sms_code guessed_by_verify
  verify-Refines sign env fresh raw_phone raw_code id c st u f =
      elim (Bool-cases (is_bad (normalize_phone raw_phone) (trim_space raw_code))) [
        | inl bad ↦
            subst
              (λ n.
                Refines id n c (verify_sms_code hash sign env fresh raw_phone raw_code st).1.codes)
              (sym (zero_if (is_bad (normalize_phone raw_phone) (trim_space raw_code)) _ bad))
              (unmoved id c st.codes _ (ground arith) u f)
        | inr good ↦
            let accept = log_in env fresh (normalize_phone raw_phone) in
            let call =
              check_code hash env (normalize_phone raw_phone) (trim_space raw_code) accept st in
            let counted : guessed_by_verify env fresh raw_phone raw_code id st
                ≡ compared id
                    (first_by is_newer (is_live env.db_clock (normalize_phone raw_phone)) st.codes)
                    call.0 =
              ground arith in
            let r =
              check-Refines env (normalize_phone raw_phone) (trim_space raw_code) accept id c st
                (log_in-Spends env fresh (normalize_phone raw_phone)) u f in
            let same : (verify_sms_code hash sign env fresh raw_phone raw_code st).1 ≡ call.1 =
              ground (arith, answered_store sign call) in
            subst
              (λ n.
                Refines id n c (verify_sms_code hash sign env fresh raw_phone raw_code st).1.codes)
              (add_zero _ ∙ sym counted)
              (Refines-trans id _ 0 c call.1.codes _ r
                (unmoved id r.row call.1.codes _ (ap (λ x. x.codes) same) r.unique r.found))
      ]

  pub deletion-Refines :
      (sign : String → Option String) (env : Env) (raw_phone raw_code id : String) (c : LoginCode)
      (st : Store)
      → IsUnique st.codes
      → find_where (has_id id) st.codes ≡ some c
      → Refines id
          (guessed_by_deletion env raw_phone raw_code id st)
          c
          (verify_account_deletion_sms_code hash sign env raw_phone raw_code st).1.codes
  unfolding verify_account_deletion_sms_code guessed_by_deletion
  deletion-Refines sign env raw_phone raw_code id c st u f =
      elim (Bool-cases (is_bad (normalize_phone raw_phone) (trim_space raw_code))) [
        | inl bad ↦
            subst
              (λ n.
                Refines id n c
                  (verify_account_deletion_sms_code hash sign env raw_phone raw_code st).1.codes)
              (sym (zero_if (is_bad (normalize_phone raw_phone) (trim_space raw_code)) _ bad))
              (unmoved id c st.codes _ (ground arith) u f)
        | inr good ↦
            let accept = find_account env (normalize_phone raw_phone) in
            let call =
              check_code hash env (normalize_phone raw_phone) (trim_space raw_code) accept st in
            let counted : guessed_by_deletion env raw_phone raw_code id st
                ≡ compared id
                    (first_by is_newer (is_live env.db_clock (normalize_phone raw_phone)) st.codes)
                    call.0 =
              ground arith in
            let r =
              check-Refines env (normalize_phone raw_phone) (trim_space raw_code) accept id c st
                (find_account-Spends env (normalize_phone raw_phone)) u f in
            let same : (verify_account_deletion_sms_code hash sign env raw_phone raw_code st).1
                ≡ call.1 =
              ground (arith, deletion_answered_store sign call) in
            subst
              (λ n.
                Refines id n c
                  (verify_account_deletion_sms_code hash sign env raw_phone raw_code st).1.codes)
              (add_zero _ ∙ sym counted)
              (Refines-trans id _ 0 c call.1.codes _ r
                (unmoved id r.row call.1.codes _ (ap (λ x. x.codes) same) r.unique r.found))
      ]
