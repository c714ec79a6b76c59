-- ===== src/Common/Monad.antt =====
-- Calls that may fail and that read and write a store. The store comes back after an error too:
-- what was written outside a transaction stays written.
use mathlib.Core.Path.{◌≡◌, refl}
use mathlib.Core.Logic.{◌⊎◌, inl, inr}
use mathlib.Core.Bool.{Bool}
use mathlib.Core.Option.{Option, none, some}
use online_prorab.Common.Tests.{if◌then◌else◌}

pub data Result {ℓ κ} (E : Type ℓ) (A : Type κ) : Type (ℓ ⊔ κ) where
  ok : A → Result E A
  err : E → Result E A

abbrev pub Call : Type 0 → Type 0 → Type 0 → Type 0
Call S E A = S → Result E A × S

module _ {S E : Type 0} where
  infixl 5 ◌>>=◌ ◌>>◌
  abbrev pub ◌>>=◌ : {A B : Type 0} → Call S E A → (A → Call S E B) → Call S E B
  ◌>>=◌ m f s = let (r, t) = m s in elim r [ ok a ↦ f a t | err e ↦ (err e, t) ]

  abbrev pub ◌>>◌ : {A B : Type 0} → Call S E A → Call S E B → Call S E B
  m >> k = m >>= λ _. k

  abbrev pub pure : {A : Type 0} → A → Call S E A
  pure a s = (ok a, s)

  abbrev pub raise : {A : Type 0} → E → Call S E A
  raise e s = (err e, s)

  abbrev pub guard : Bool → E → Call S E (Unit {0})
  guard test e s = (if test then ok tt else err e, s)

  abbrev pub or_raise : {A : Type 0} → Option A → E → Call S E A
  or_raise none e s = (err e, s)
  or_raise (some a) e s = (ok a, s)

  abbrev pub branch : {A : Type 0} → Bool → Call S E A → Call S E A → Call S E A
  branch test m k s = if test then m s else k s

  -- A statement that the server completes or refuses; refused, it changes nothing.
  abbrev pub query : {A : Type 0} → Bool → E → (S → A) → Call S E A
  query up e f s = (if up then ok (f s) else err e, s)

  abbrev pub exec : Bool → E → (S → S) → Call S E (Unit {0})
  exec up e f s = if up then (ok tt, f s) else (err e, s)

  -- `Begin`, the body with its `Commit`, and the deferred `Rollback`.
  abbrev pub transaction : {A : Type 0} → Call S E A → Call S E A
  transaction m s = let (r, t) = m s in elim r [ ok a ↦ (ok a, t) | err e ↦ (err e, s) ]

-- How a call came out, with the store that it left.
pub Call-cases :
    {S E A : Type 0} (p : Result E A × S)
    → ((a : A) × (t : S) × (p ≡ (ok a, t))) ⊎ ((e : E) × (t : S) × (p ≡ (err e, t)))
Call-cases (ok a, t) = inl (a, t, refl)
Call-cases (err e, t) = inr (e, t, refl)
