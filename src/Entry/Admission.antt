-- ===== src/Entry/Admission.antt =====
-- What an admitted write satisfies, by the checks that it has passed.
use online_prorab.Common.{
  ℕ, String, ◌≡◌, refl, ap, Bool, true, false, Option, none, some, eq_iff, str_eq, arith,
  Bool-cases, inl, inr,
}
use online_prorab.Common.Monad.{Result, ok, err}
use online_prorab.Entry.Handlers.{refuse_if, normalized, permitted, permitted_in, with_receipt}

-- A refusal, or something admitted that satisfies `P`.
pub data Holds {A : Type 0} (P : A → Type 0) : Result ℕ A → Type 0 where
  refusal : {status : ℕ} → Holds P (err status)
  admitted : {a : A} → P a → Holds P (ok a)

module _ {A : Type 0} {P : A → Type 0} where
  pub if-Holds :
      (c : Bool) (status : ℕ) (r : Result ℕ A)
      → (c ≡ false → Holds P r)
      → Holds P (refuse_if c status r)
  unfolding refuse_if
  if-Holds true status r k = refusal
  if-Holds false status r k = k refl

  pub normalized-Holds :
      {Q : Type 0} (n : Option Q) (f : Q → Result ℕ A)
      → ((q : Q) → n ≡ some q → Holds P (f q))
      → Holds P (normalized n f)
  unfolding normalized
  normalized-Holds none f k = refusal
  normalized-Holds (some q) f k = k q refl

  pub permitted-Holds : (test : Bool) (a : A) → (test ≡ true → P a) → Holds P (permitted test a)
  unfolding permitted
  permitted-Holds true a k = admitted (k refl)
  permitted-Holds false a k = refusal

  pub permitted_in-Holds :
      (found : Option String) (test : String → Bool) (a : A)
      → ((project : String) → found ≡ some project → test project ≡ true → P a)
      → Holds P (permitted_in found test a)
  unfolding permitted_in
  permitted_in-Holds none test a k = refusal
  permitted_in-Holds (some project) test a k =
      permitted-Holds (test project) a (λ t. k project refl t)

  pub with_receipt-Holds :
      (fits : Bool) (a : A) → (fits ≡ true → P a) → Holds P (with_receipt fits a)
  unfolding with_receipt
  with_receipt-Holds true a k = admitted (k refl)
  with_receipt-Holds false a k = refusal

-- Who passes the test for one project and fails it for another means two projects.
pub other_project :
    (test : String → Bool) (x p : String) → test x ≡ true → test p ≡ false → str_eq x p ≡ false
other_project test x p t f = elim (Bool-cases (str_eq x p)) [
  | inl e ↦ let same : x ≡ p = (eq_iff x p).0 e in absurd (ground (arith, ap test same))
  | inr n ↦ n
]
