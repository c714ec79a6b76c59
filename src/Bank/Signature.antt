-- ===== src/Bank/Signature.antt =====
-- What a notification that is accepted was signed for.
use online_prorab.Common.{String, ◌≡◌, true, some, arith, Option-cases, inl, inr}
use online_prorab.Common.Int.{eq_ℤ}
use online_prorab.Common.Monad.{ok}
use online_prorab.Database.{Db, Env}
use online_prorab.Payment.{Incoming, configured_obank_test_flag}
use online_prorab.Payment.Settle.{apply_obank_result}
use online_prorab.Payment.Handlers.{Server, obank_result, done}
use online_prorab.Payment.Orders.{obank_result_accepts}
use online_prorab.Bank.{
  RawResult, Values, required, values, signed_text, is_lower_of, incoming, verify_result,
}

-- An accepted payload carries the signature of its eight values under the secret, and the notification
-- has these values; the invoice id alone is not signed.
pub verify_result_lem :
    (hmac : String → String → String) (secret : String) (p : RawResult) (r : Incoming)
    → verify_result hmac (some p) secret ≡ some r
    → (v : Values) × (provided : String) × (values p ≡ some v)
      × (required p.hash ≡ some provided)
      × (is_lower_of provided (hmac (signed_text v) secret) ≡ true)
      × (incoming v p.invoice ≡ some r)
unfolding verify_result
verify_result_lem hmac secret p r h = elim (Option-cases (values p)) [
  | inl e ↦ absurd (ground arith)
  | inr (v, e) ↦ elim (Option-cases (required p.hash)) [
    | inl f ↦ absurd (ground arith)
    | inr (provided, f) ↦ (v, provided, e, f, ground arith, ground arith)
  ]
]

-- A notification is answered with 200 only if its eight values carry the bank's signature under the
-- merchant's password, they name this merchant and its mode, and what they stand for was applied to the
-- orders.
pub accepted_signed :
    (hmac : String → String → String) (s : Server) (env : Env) (p : RawResult) (db db' : Db)
    → obank_result s env (verify_result hmac (some p) s.config.password) db ≡ (done 200, db')
    → (v : Values) × (provided : String) × (r : Incoming) × (values p ≡ some v)
      × (required p.hash ≡ some provided)
      × (is_lower_of provided (hmac (signed_text v) s.config.password) ≡ true)
      × (incoming v p.invoice ≡ some r)
      × (r.site_id ≡ s.config.sid)
      × (eq_ℤ r.test (configured_obank_test_flag s.config) ≡ true)
      × (apply_obank_result s.config env r db ≡ (ok tt, db'))
accepted_signed hmac s env p db db' h =
    let (r, e, site, mode, applied) =
      obank_result_accepts s env (verify_result hmac (some p) s.config.password) db db' h in
    let (v, provided, found, hash, signed, content) =
      verify_result_lem hmac s.config.password p r e in
    (v, provided, r, found, hash, signed, content, site, mode, applied)
