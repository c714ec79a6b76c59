-- ===== src/Config/Runs.antt =====
-- Sequential runs in a signing key, against a description without state.
use online_prorab.Common.{
  ℕ, zero, suc, ◌+◌, ◌≤◌, ◌≡◌, refl, Bool, true, false, ◌&&◌, ◌||◌, Option, none, some, List, [],
  ◌∷◌, ◌==◌, arith, Option-cases, inl, inr,
}
use online_prorab.Config.Key.{
  signing_key_character_rank, Direction, still, up, down, run_from,
  has_long_sequential_signing_key_run,
}

-- `n` bytes follow, each with the rank one above, or below, the one before.
unfoldable pub rising : (n rank : ℕ) → List ℕ → Bool
rising zero rank bs = true
rising (suc n) rank [] = false
rising (suc n) rank (b ∷ bs) = elim (signing_key_character_rank b) [
  | none ↦ false
  | some r ↦ r == suc rank && rising n r bs
]

unfoldable pub falling : (n rank : ℕ) → List ℕ → Bool
falling zero rank bs = true
falling (suc n) rank [] = false
falling (suc n) rank (b ∷ bs) = elim (signing_key_character_rank b) [
  | none ↦ false
  | some r ↦ rank == suc r && falling n r bs
]

abbrev pub starts_run : Option ℕ → List ℕ → Bool
starts_run none bs = false
starts_run (some rank) bs = rising 11 rank bs || falling 11 rank bs

-- Somewhere twelve bytes in a row go up, or down, by one.
unfoldable pub has_run : List ℕ → Bool
has_run [] = false
has_run (b ∷ bs) = starts_run (signing_key_character_rank b) bs || has_run bs

rising_mono :
    (n k rank : ℕ) (bs : List ℕ) → k ≤ n → rising n rank bs ≡ true → rising k rank bs ≡ true
unfolding rising
rising_mono n zero rank bs l h = refl
rising_mono zero (suc k) rank bs l h = absurd (omega (arith, l))
rising_mono (suc n) (suc k) rank [] l h = h
rising_mono (suc n) (suc k) rank (b ∷ bs) l h = elim (Option-cases (signing_key_character_rank b)) [
  | inl e ↦ absurd (ground arith)
  | inr (r, e) ↦ ground (arith, rising_mono n k r bs)
]

falling_mono :
    (n k rank : ℕ) (bs : List ℕ) → k ≤ n → falling n rank bs ≡ true → falling k rank bs ≡ true
unfolding falling
falling_mono n zero rank bs l h = refl
falling_mono zero (suc k) rank bs l h = absurd (omega (arith, l))
falling_mono (suc n) (suc k) rank [] l h = h
falling_mono (suc n) (suc k) rank (b ∷ bs) l h =
    elim (Option-cases (signing_key_character_rank b)) [
      | inl e ↦ absurd (ground arith)
      | inr (r, e) ↦ ground (arith, falling_mono n k r bs)
    ]

-- What the loop finds in the bytes that are left, by the state that it is in; `k` bytes are missing
-- to a run.
record Agree (bs : List ℕ) : Type 0 where
  outside : (d : Direction) (n : ℕ) → run_from none d n bs ≡ has_run bs
  standing :
      (n rank : ℕ) → run_from (some rank) still n bs ≡ (starts_run (some rank) bs || has_run bs)
  climbing :
      (n k rank : ℕ)
      → n + suc k ≡ 12
      → 2 ≤ n
      → run_from (some rank) up n bs ≡ (rising (suc k) rank bs || falling 11 rank bs || has_run bs)
  sinking :
      (n k rank : ℕ)
      → n + suc k ≡ 12
      → 2 ≤ n
      → run_from (some rank) down n bs
        ≡ (rising 11 rank bs || falling (suc k) rank bs || has_run bs)

rising-zero : (rank : ℕ) (bs : List ℕ) → rising zero rank bs ≡ true
unfolding rising
rising-zero rank bs = refl

falling-zero : (rank : ℕ) (bs : List ℕ) → falling zero rank bs ≡ true
unfolding falling
falling-zero rank bs = refl

rising-nil : (n rank : ℕ) → rising (suc n) rank [] ≡ false
unfolding rising
rising-nil n rank = refl

rising-cons :
    (n rank b r : ℕ) (bs : List ℕ)
    → signing_key_character_rank b ≡ some r
    → rising (suc n) rank (b ∷ bs) ≡ (r == suc rank && rising n r bs)
unfolding rising
rising-cons n rank b r bs e = ground arith

rising-other :
    (n rank b : ℕ) (bs : List ℕ)
    → signing_key_character_rank b ≡ none
    → rising (suc n) rank (b ∷ bs) ≡ false
unfolding rising
rising-other n rank b bs e = ground arith

falling-nil : (n rank : ℕ) → falling (suc n) rank [] ≡ false
unfolding falling
falling-nil n rank = refl

falling-cons :
    (n rank b r : ℕ) (bs : List ℕ)
    → signing_key_character_rank b ≡ some r
    → falling (suc n) rank (b ∷ bs) ≡ (rank == suc r && falling n r bs)
unfolding falling
falling-cons n rank b r bs e = ground arith

falling-other :
    (n rank b : ℕ) (bs : List ℕ)
    → signing_key_character_rank b ≡ none
    → falling (suc n) rank (b ∷ bs) ≡ false
unfolding falling
falling-other n rank b bs e = ground arith

module _ (b r : ℕ) (bs : List ℕ) (e : signing_key_character_rank b ≡ some r) (ih : Agree bs) where
  step_standing :
      (n rank : ℕ)
      → run_from (some rank) still n (b ∷ bs)
        ≡ (starts_run (some rank) (b ∷ bs) || has_run (b ∷ bs))
  unfolding run_from has_run
  step_standing n rank = ground (
    arith,
    ih.standing 1 r,
    ih.climbing 2 9 r (omega arith) (omega arith),
    ih.sinking 2 9 r (omega arith) (omega arith),
    rising-cons 10 rank b r bs e,
    falling-cons 10 rank b r bs e,
    rising_mono 11 10 r bs (omega arith),
    falling_mono 11 10 r bs (omega arith),
  )

  step_climbing :
      (n k rank : ℕ)
      → n + suc k ≡ 12
      → 2 ≤ n
      → run_from (some rank) up n (b ∷ bs)
        ≡ (rising (suc k) rank (b ∷ bs) || falling 11 rank (b ∷ bs) || has_run (b ∷ bs))
  unfolding run_from has_run
  step_climbing n zero rank s l = ground (
    arith,
    ih.standing 1 r,
    ih.sinking 2 9 r (omega arith) (omega arith),
    rising-zero r bs,
    rising-cons 0 rank b r bs e,
    falling-cons 10 rank b r bs e,
    rising_mono 11 10 r bs (omega arith),
    falling_mono 11 10 r bs (omega arith),
  )
  step_climbing n (suc k) rank s l = ground (
    arith,
    ih.standing 1 r,
    ih.sinking 2 9 r (omega arith) (omega arith),
    ih.climbing (suc n) k r (omega (arith, s)) (omega (arith, l)),
    rising_mono 11 (suc k) r bs (omega (arith, s, l)),
    rising-cons (suc k) rank b r bs e,
    falling-cons 10 rank b r bs e,
    rising_mono 11 10 r bs (omega arith),
    falling_mono 11 10 r bs (omega arith),
  )

  step_sinking :
      (n k rank : ℕ)
      → n + suc k ≡ 12
      → 2 ≤ n
      → run_from (some rank) down n (b ∷ bs)
        ≡ (rising 11 rank (b ∷ bs) || falling (suc k) rank (b ∷ bs) || has_run (b ∷ bs))
  unfolding run_from has_run
  step_sinking n zero rank s l = ground (
    arith,
    ih.standing 1 r,
    ih.climbing 2 9 r (omega arith) (omega arith),
    falling-zero r bs,
    rising-cons 10 rank b r bs e,
    falling-cons 0 rank b r bs e,
    rising_mono 11 10 r bs (omega arith),
    falling_mono 11 10 r bs (omega arith),
  )
  step_sinking n (suc k) rank s l = ground (
    arith,
    ih.standing 1 r,
    ih.climbing 2 9 r (omega arith) (omega arith),
    ih.sinking (suc n) k r (omega (arith, s)) (omega (arith, l)),
    falling_mono 11 (suc k) r bs (omega (arith, s, l)),
    rising-cons 10 rank b r bs e,
    falling-cons (suc k) rank b r bs e,
    rising_mono 11 10 r bs (omega arith),
    falling_mono 11 10 r bs (omega arith),
  )

agree : (bs : List ℕ) → Agree bs
unfolding run_from has_run
agree [] = record {
  outside = λ d n. refl;
  standing = λ n rank. ground (arith, rising-nil 10 rank, falling-nil 10 rank);
  climbing = λ n k rank e l. ground (arith, rising-nil k rank, falling-nil 10 rank);
  sinking = λ n k rank e l. ground (arith, rising-nil 10 rank, falling-nil k rank);
}
agree (b ∷ bs) =
    let ih = agree bs in
    elim (Option-cases (signing_key_character_rank b)) [
      | inl e ↦ record {
        outside = λ d n. ground (arith, e, ih.outside still 1);
        standing = λ n rank. ground (
          arith,
          e,
          ih.outside still 1,
          rising-other 10 rank b bs e,
          falling-other 10 rank b bs e,
        );
        climbing = λ n k rank s l. ground (
          arith,
          e,
          ih.outside still 1,
          rising-other k rank b bs e,
          falling-other 10 rank b bs e,
        );
        sinking = λ n k rank s l. ground (
          arith,
          e,
          ih.outside still 1,
          rising-other 10 rank b bs e,
          falling-other k rank b bs e,
        );
      }
      | inr (r, e) ↦ record {
        outside = λ d n. ground (arith, e, ih.standing 1 r);
        standing = λ n rank. step_standing b r bs e ih n rank;
        climbing = λ n k rank s l. step_climbing b r bs e ih n k rank s l;
        sinking = λ n k rank s l. step_sinking b r bs e ih n k rank s l;
      }
    ]

-- The check of signing keys for sequences finds exactly the keys in which somewhere twelve bytes in a row
-- are digits and letters, of either case, each of which comes right after the one before, or each right
-- before it.
pub sequential_run_lem : (key : List ℕ) → has_long_sequential_signing_key_run key ≡ has_run key
unfolding has_long_sequential_signing_key_run has_run
sequential_run_lem [] = refl
sequential_run_lem (b ∷ bs) = elim (Option-cases (signing_key_character_rank b)) [
  | inl e ↦ ground (arith, e, (agree bs).outside still 1)
  | inr (r, e) ↦ ground (arith, e, (agree bs).standing 1 r)
]
