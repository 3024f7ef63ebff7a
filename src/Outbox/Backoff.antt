-- ===== src/Outbox/Backoff.antt =====
-- The backoff grows to its cap, and the decision is determined by the class and the attempts left.
use menes_pos.Prelude.{
  ℕ, zero, suc, ◌-◌, ◌*◌, ◌^◌, ◌≤◌, ◌<◌, ◌≡◌, ◌⊎◌, inl, inr, true, false, none, some, arith, leb→le,
  Bool-cases, ℤ, pos, ◌≤ℤ◌, ◌<ℤ◌, leb_ℤ,
}
use Prim.Native.Nat.{max}
use native.Mathlib.Nat.{pow-succ', pow-le-pow_right, le_refl}
use menes_pos.Outbox.Policy.{
  FailureClass, failed, dead, is_retryable, next_backoff, default_backoff, decide,
}

-- With a base of at most the cap, and a positive factor, the delay lies between the base and the
-- cap, and a later attempt never waits shorter than an earlier one.
pub next_backoff_bounds :
    (attempt later base factor cap : ℕ)
    → base ≤ cap
    → 0 < factor
    → attempt ≤ later
    → (base ≤ next_backoff attempt base factor cap)
      × (next_backoff attempt base factor cap ≤ cap)
      × (next_backoff attempt base factor cap ≤ next_backoff later base factor cap)
unfolding next_backoff
next_backoff_bounds attempt later base factor cap h f le =
    let wait : factor ^ (max 1 attempt - 1) ≤ factor ^ (max 1 later - 1) =
      pow-le-pow_right f (omega arith) in
    let grow : base * factor ^ (max 1 attempt - 1) ≤ base * factor ^ (max 1 later - 1) =
      grind arith in
    (omega arith, omega arith, omega arith)

-- The default policy waits 2 ^ attempt seconds up to the eleventh attempt, and an hour from then on.
pub default_backoff_values :
    (attempt : ℕ)
    → (1 ≤ attempt → attempt ≤ 11 → default_backoff attempt ≡ 2 ^ attempt)
      × (12 ≤ attempt → default_backoff attempt ≡ 3600)
unfolding default_backoff next_backoff
default_backoff_values zero = (λ h k. absurd (omega arith), λ h. absurd (omega arith))
default_backoff_values (suc k) = (
  λ h l.
      omega (arith, doubled, least, pow-le-pow_right {n = 2} (omega arith) {i = suc k} {j = 11} l),
  λ h. omega (arith, doubled, least, pow-le-pow_right {n = 2} (omega arith) {i = 12} {j = suc k} h),
)
  where
    first : max 1 (suc k) - 1 ≡ k
    first = omega arith

    least : 2 ≤ 2 ^ suc k
    least = pow-le-pow_right {n = 2} (omega arith) {i = 1} {j = suc k} (omega arith)

    doubled : 2 * 2 ^ (max 1 (suc k) - 1) ≡ 2 ^ suc k
    doubled = rw (first, pow-succ')

-- A failure is retried exactly when its class is retryable and attempts are left, and then after
-- two seconds at least and an hour at most; otherwise the event is dead and nothing is scheduled.
pub decide_lem :
    (failure : FailureClass) (attempt : ℕ) (max_attempts : ℤ)
    → ((is_retryable failure ≡ true)
        × (pos attempt <ℤ max_attempts)
        × ((delay : ℕ) × (decide failure attempt max_attempts ≡ (failed, some delay))
            × (2 ≤ delay)
            × (delay ≤ 3600)))
      ⊎ (((is_retryable failure ≡ false) ⊎ (max_attempts ≤ℤ pos attempt))
          × (decide failure attempt max_attempts ≡ (dead, none)))
unfolding decide
decide_lem failure attempt max_attempts = elim (Bool-cases (is_retryable failure)) [
  | inr final ↦ inr (inl final, ground arith)
  | inl yes_retry ↦ elim (Bool-cases (leb_ℤ max_attempts (pos attempt))) [
    | inl spent ↦ inr (inr (leb→le _ _ spent), ground arith)
    | inr left ↦
        inl (yes_retry, ground arith, (default_backoff attempt, ground arith, range.0, range.1))
  ]
]
  where
    range : (2 ≤ default_backoff attempt) × (default_backoff attempt ≤ 3600)
    range =
        unfold default_backoff in
        let r =
          next_backoff_bounds attempt attempt 2 2 3600 (omega arith) (omega arith)
            (le_refl attempt) in
        (r.0, r.1)
