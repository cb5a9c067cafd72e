-- ===== src/Daemon/Backoff.antt =====
-- packages/cli/src/daemon/wake-backoff.ts: how long a failed wake is left alone.
use hobbyist.Base.{
  ℕ, zero, suc, ◌+◌, ◌-◌, ◌*◌, ◌^◌, ◌≤◌, ◌<◌, ◌≡◌, min, max, ◌/◌, ◌%◌, ◌==◌, refl, arith,
  if◌then◌else◌, ltb, Bool-cases, inl, inr,
}

abbrev pub wake_retry_base_ms : ℕ
wake_retry_base_ms = 30000

abbrev pub wake_retry_cap_ms : ℕ
wake_retry_cap_ms = 15 * 60000

unfoldable pub wake_retry_delay_ms : ℕ → ℕ
wake_retry_delay_ms failures =
    let exponent = min (max failures 1 - 1) 20 in
    min (wake_retry_base_ms * 2 ^ exponent) wake_retry_cap_ms

-- The minutes and seconds that the text shows; below one minute only the seconds.
pub data Delay : Type 0 where
  in_seconds : ℕ → Delay
  in_minutes : ℕ → ℕ → Delay

unfoldable pub format_retry_delay : ℕ → Delay
format_retry_delay ms =
    let total_seconds = (ms + 999) / 1000 in
    let minutes = total_seconds / 60 in
    let seconds = total_seconds % 60 in
    if minutes == 0 then in_seconds seconds else in_minutes minutes seconds

-- What a person reads, in milliseconds.
abbrev pub shown_ms : Delay → ℕ
shown_ms (in_seconds s) = s * 1000
shown_ms (in_minutes m s) = (m * 60 + s) * 1000

one-le-two_pow : (k : ℕ) → 1 ≤ 2 ^ k
one-le-two_pow zero = omega arith
one-le-two_pow (suc k) = ground (arith, one-le-two_pow k)

doubled : (k : ℕ) → 32 ≤ 2 ^ suc (suc (suc (suc (suc k))))
doubled k = ground (arith, one-le-two_pow k)

capped : (e : ℕ) → 5 ≤ e → min (30000 * 2 ^ e) 900000 ≡ 900000
capped (suc (suc (suc (suc (suc k))))) h = ground (arith, doubled k)
capped (_) h = ground arith

-- The schedule of refusals: 30 seconds after the first failure, twice as long after each further
-- one, and 15 minutes from the sixth on; a count of zero is read as one.
pub wake_retry_delay_ms_lem :
    (n : ℕ)
    → (wake_retry_delay_ms 0 ≡ wake_retry_delay_ms 1)
      × (wake_retry_delay_ms (n + 1) ≡ (if ltb n 5 then 30000 * 2 ^ n else 900000))
unfolding wake_retry_delay_ms
wake_retry_delay_ms_lem zero = (refl, refl)
wake_retry_delay_ms_lem (suc zero) = (refl, refl)
wake_retry_delay_ms_lem (suc (suc zero)) = (refl, refl)
wake_retry_delay_ms_lem (suc (suc (suc zero))) = (refl, refl)
wake_retry_delay_ms_lem (suc (suc (suc (suc zero)))) = (refl, refl)
wake_retry_delay_ms_lem (suc (suc (suc (suc (suc k))))) =
    (refl, ground (arith, capped (min (k + 5) 20)))

-- A delay is never shown shorter than it is, and by less than a second longer: the text of a
-- retry that has not come yet never reads zero.
pub format_retry_delay_lem :
    (ms : ℕ)
    → (ms ≤ shown_ms (format_retry_delay ms)) × (shown_ms (format_retry_delay ms) < ms + 1000)
unfolding format_retry_delay
format_retry_delay_lem ms = elim (Bool-cases ((ms + 999) / 1000 / 60 == 0)) [
  | inl e ↦ rw e (ground arith)
  | inr e ↦ rw e (ground arith)
]
