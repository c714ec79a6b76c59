-- ===== src/Storage/Retry.antt =====
-- The delay before a retry.
use online_prorab.Common.{ℕ, zero, suc, ◌*◌, ◌%◌, ◌≤◌, ◌≡◌, refl, arith}
use online_prorab.Common.Int.{pos, negsuc}
use online_prorab.Storage.{second, deletion_retry_base, deletion_retry_max, deletion_retry_delay}

-- From ten attempts on the exponent is cut off, and the delay is the longest.
delay_capped : (n : ℕ) → 10 ≤ n → deletion_retry_delay (pos n) ≡ deletion_retry_max
unfolding deletion_retry_delay
delay_capped n h = ground arith

-- What holds of one delay and the next.
abbrev pub IsBackoff : ℕ → ℕ → Type 0
IsBackoff delay next =
    (deletion_retry_base ≤ delay)
    × (delay ≤ deletion_retry_max)
    × (delay ≤ next)
    × (next ≤ 2 * delay)
    × (delay % second ≡ 0)

-- Every delay lies between five seconds and an hour and is a whole number of seconds; another failed
-- attempt never shortens it and at most doubles it.
pub retry-IsBackoff :
    (n : ℕ) → IsBackoff (deletion_retry_delay (pos n)) (deletion_retry_delay (pos (suc n)))
unfolding deletion_retry_delay
retry-IsBackoff zero = omega arith
retry-IsBackoff (suc zero) = omega arith
retry-IsBackoff (suc (suc zero)) = omega arith
retry-IsBackoff (suc (suc (suc zero))) = omega arith
retry-IsBackoff (suc (suc (suc (suc zero)))) = omega arith
retry-IsBackoff (suc (suc (suc (suc (suc zero))))) = omega arith
retry-IsBackoff (suc (suc (suc (suc (suc (suc zero)))))) = omega arith
retry-IsBackoff (suc (suc (suc (suc (suc (suc (suc zero))))))) = omega arith
retry-IsBackoff (suc (suc (suc (suc (suc (suc (suc (suc zero)))))))) = omega arith
retry-IsBackoff (suc (suc (suc (suc (suc (suc (suc (suc (suc zero))))))))) = omega arith
retry-IsBackoff (suc (suc (suc (suc (suc (suc (suc (suc (suc (suc n)))))))))) =
    let n10 = (suc (suc (suc (suc (suc (suc (suc (suc (suc (suc n)))))))))) in
    omega (arith, delay_capped n10 (omega arith), delay_capped (suc n10) (omega arith))

-- A negative count is treated as the first attempt.
pub retry_negative : (n : ℕ) → deletion_retry_delay (negsuc n) ≡ deletion_retry_delay (pos 0)
unfolding deletion_retry_delay
retry_negative n = refl
