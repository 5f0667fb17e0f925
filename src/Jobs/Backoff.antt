-- ===== src/Jobs/Backoff.antt =====
-- The delay before a job is tried again.
use appointment_voice_saas.Common.{ℕ, zero, suc, ◌*◌, ◌^◌, ◌≤◌, min, ◌≡◌, arith}
use appointment_voice_saas.Jobs.Queue.{Settings, calculate_retry_delay_seconds}

one_le_power : (n : ℕ) → 1 ≤ 2 ^ n
one_le_power zero = omega arith
one_le_power (suc n) = omega (arith, one_le_power n)

le_times : (a b : ℕ) → 1 ≤ b → a ≤ a * b
le_times a zero h = omega (arith, h)
le_times a (suc b) h = omega arith

doubled : (a n : ℕ) → a * 2 ^ suc n ≡ 2 * (a * 2 ^ n)
doubled a n = grind arith

grows : (a x y : ℕ) → y ≡ 2 * x → min x a ≤ min y a
grows a x y h = grind arith

-- If the base is at most the maximum (which the settings are checked for), every delay lies between
-- the two, and a later attempt waits at least as long as the one before it.
pub calculate_retry_delay_seconds-bounds :
    (settings : Settings) (attempts : ℕ)
    → settings.retry_backoff_base_seconds ≤ settings.retry_backoff_max_seconds
    → let delay = calculate_retry_delay_seconds settings in
      (settings.retry_backoff_base_seconds ≤ delay attempts)
      × (delay attempts ≤ settings.retry_backoff_max_seconds)
      × (delay attempts ≤ delay (suc attempts))
unfolding calculate_retry_delay_seconds
calculate_retry_delay_seconds-bounds settings zero h = (grind arith, h, grind arith)
calculate_retry_delay_seconds-bounds settings (suc n) h =
    let base = settings.retry_backoff_base_seconds in
    let above = le_times base (2 ^ n) (one_le_power n) in
    (
      grind arith,
      grind arith,
      grows settings.retry_backoff_max_seconds (base * 2 ^ n) (base * 2 ^ suc n) (doubled base n),
    )
