-- ===== src/Config/Key.antt =====
-- isUnsafeSigningKey of backend/internal/config/config.go, and what it asks of the bytes of a key.
use Prim.Native.Char.{code}
use online_prorab.Common.{
  ℕ, zero, suc, ◌+◌, ◌-◌, ◌*◌, ◌/◌, ◌%◌, String, Bool, true, false, ◌&&◌, ◌||◌, Option, none, some,
  List, [], ◌∷◌, ◌++◌, ltb, leb, ◌==◌, if◌then◌else◌, length,
}
use online_prorab.Text.{trim_space, lower_contains}

-- The bytes of a text, in UTF-8.
abbrev utf8 : ℕ → List ℕ
utf8 c =
    if ltb c 0x80
    then c ∷ []
    else if ltb c 0x800
    then (0xC0 + c / 64) ∷ (0x80 + c % 64) ∷ []
    else if ltb c 0x10000
    then (0xE0 + c / 4096) ∷ (0x80 + c / 64 % 64) ∷ (0x80 + c % 64) ∷ []
    else (0xF0 + c / 262144) ∷ (0x80 + c / 4096 % 64) ∷ (0x80 + c / 64 % 64) ∷ (0x80 + c % 64) ∷ []

unfoldable pub bytes : String → List ℕ
bytes String.[] = []
bytes (String.◌∷◌ c s) = utf8 (code c) ++ bytes s

-- signingKeyCharacterRank.
unfoldable pub signing_key_character_rank : ℕ → Option ℕ
signing_key_character_rank value =
    if leb b'0' value && leb value b'9'
    then some (value - b'0')
    else if leb b'a' value && leb value b'z'
    then some (value - b'a' + 10)
    else if leb b'A' value && leb value b'Z'
    then some (value - b'A' + 10)
    else none

pub data Direction : Type 0 where
  still up down : Direction

abbrev pub is_up : Direction → Bool
is_up up = true
is_up _ = false

abbrev pub is_down : Direction → Bool
is_down down = true
is_down _ = false

abbrev pub minimum_sequential_run : ℕ
minimum_sequential_run = 12

-- The length of a run that goes on the same way, or turns.
abbrev pub longer : Bool → ℕ → ℕ
longer same run_length = if same then suc run_length else 2

-- The loop of hasLongSequentialSigningKeyRun: the rank before, if that was a sequence character, the
-- direction and the length of the run, and the bytes that are left.
unfoldable pub run_from : Option ℕ → Direction → (run_length : ℕ) → List ℕ → Bool
run_from previous direction run_length [] = false
run_from none direction run_length (value ∷ rest) =
    run_from (signing_key_character_rank value) still 1 rest
run_from (some previous) direction run_length (value ∷ rest) =
    elim (signing_key_character_rank value) [
      | none ↦ run_from none still 1 rest
      | some rank ↦ elim (rank == suc previous) [
        | true ↦
            let n = longer (is_up direction) run_length in
            leb minimum_sequential_run n || run_from (some rank) up n rest
        | false ↦ elim (previous == suc rank) [
          | true ↦
              let n = longer (is_down direction) run_length in
              leb minimum_sequential_run n || run_from (some rank) down n rest
          | false ↦ run_from (some rank) still 1 rest
        ]
      ]
    ]

-- A key has a first byte here: isUnsafeSigningKey has refused the short ones.
unfoldable pub has_long_sequential_signing_key_run : List ℕ → Bool
has_long_sequential_signing_key_run [] = false
has_long_sequential_signing_key_run (value ∷ rest) =
    run_from (signing_key_character_rank value) still 1 rest

abbrev byte_at : ℕ → List ℕ → Option ℕ
byte_at n [] = none
byte_at zero (b ∷ bs) = some b
byte_at (suc n) (b ∷ bs) = byte_at n bs

abbrev same_byte : Option ℕ → ℕ → Bool
same_byte none b = false
same_byte (some a) b = a == b

-- The inner loop of hasRepeatedSigningKeyPattern, from the index `i` on.
abbrev repeats_from : (period i : ℕ) → (value rest : List ℕ) → Bool
repeats_from period i value [] = true
repeats_from period i value (b ∷ rest) =
    same_byte (byte_at (i % period) value) b && repeats_from period (suc i) value rest

abbrev skip : ℕ → List ℕ → List ℕ
skip zero bs = bs
skip (suc n) [] = []
skip (suc n) (b ∷ bs) = skip n bs

-- The periods from `period` on, `left` of them.
unfoldable pub repeats : (left period : ℕ) → List ℕ → Bool
repeats zero period value = false
repeats (suc left) period value =
    leb (period * 2) (length value) && repeats_from period period value (skip period value)
    || repeats left (suc period) value

unfoldable pub has_repeated_signing_key_pattern : List ℕ → Bool
has_repeated_signing_key_pattern value = repeats 16 1 value

-- The operations of float64 and package math that estimatedSigningKeyEntropyBits uses.
pub record Float (W : Type 0) : Type 0 where
  pub of : ℕ → W
  pub divided : W → W → W
  pub times : W → W → W
  pub minus : W → W → W
  pub log2 : W → W
  pub less : W → W → Bool

abbrev count_byte : ℕ → List ℕ → ℕ
count_byte n [] = 0
count_byte n (b ∷ bs) = let rest = count_byte n bs in if b == n then suc rest else rest

module _ {W : Type 0} (fl : Float W) where
  abbrev less_term : W → ℕ → ℕ → W
  less_term sum count size =
      let probability = fl.divided (fl.of count) (fl.of size) in
      if count == 0 then sum else fl.minus sum (fl.times probability (fl.log2 probability))

  abbrev entropy_per_byte : (left n : ℕ) → List ℕ → W → W
  entropy_per_byte zero n value sum = sum
  entropy_per_byte (suc left) n value sum =
      entropy_per_byte left (suc n) value (less_term sum (count_byte n value) (length value))

  unfoldable pub estimated_signing_key_entropy_bits : List ℕ → W
  estimated_signing_key_entropy_bits value =
      fl.times (entropy_per_byte 256 0 value (fl.of 0)) (fl.of (length value))

  unfoldable pub is_unsafe_signing_key : String → Bool
  is_unsafe_signing_key value =
      let trimmed = trim_space value in
      let key = bytes trimmed in
      if ltb (length key) 32
      then true
      else lower_contains trimmed "change-this"
        || lower_contains trimmed "dev-only"
        || lower_contains trimmed "secret"
        || has_repeated_signing_key_pattern key
        || has_long_sequential_signing_key_run key
        || fl.less (estimated_signing_key_entropy_bits key) (fl.of 128)
