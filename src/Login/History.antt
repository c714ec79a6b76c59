-- ===== src/Login/History.antt =====
-- The login handlers implement the machine of a code, over any history.
use online_prorab.Common.{ℕ, ◌+◌, String, Bool, Option, List, [], ◌∷◌}
use online_prorab.Database.{Env}
use online_prorab.Login.{Store, Settings, request_sms_code}
use online_prorab.Login.Verify.{verify_sms_code, verify_account_deletion_sms_code}
use online_prorab.Login.Guesses.{guessed_by_verify, guessed_by_deletion}

-- A request to the login handlers, with what it finds outside.
pub data Event : Type 0 where
  request :
      Settings → Env → Option ℕ → (delivered : Bool) → (fresh_id : String) → Option String → Event
  verify : Env → (fresh_id raw_phone raw_code : String) → Event
  verify_deletion : Env → (raw_phone raw_code : String) → Event

module _ (hash : String → String → String) (sign : String → Option String) where
  pub step : Store → Event → Store
  step st (request s env drawn delivered fresh body) =
      (request_sms_code hash s env drawn delivered fresh body st).1
  step st (verify env fresh raw_phone raw_code) =
      (verify_sms_code hash sign env fresh raw_phone raw_code st).1
  step st (verify_deletion env raw_phone raw_code) =
      (verify_account_deletion_sms_code hash sign env raw_phone raw_code st).1

  pub run : Store → List Event → Store
  run st [] = st
  run st (e ∷ es) = run (step st e) es

  -- The guesses at the code under `id` that are answered as wrong.
  unfoldable pub guessed : String → Store → Event → ℕ
  guessed id st (request s env drawn delivered fresh body) = 0
  guessed id st (verify env fresh raw_phone raw_code) =
      guessed_by_verify hash env fresh raw_phone raw_code id st
  guessed id st (verify_deletion env raw_phone raw_code) =
      guessed_by_deletion hash env raw_phone raw_code id st

  unfoldable pub guesses : String → Store → List Event → ℕ
  guesses id st [] = 0
  guesses id st (e ∷ es) = guessed id st e + guesses id (step st e) es
