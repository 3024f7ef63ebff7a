-- ===== src/Outbox/Policy.antt =====
-- addons/mezze_bridge/domain/outbox.py: the failure classes, the backoff and the decision after a
-- failed delivery. Attempts are counted from zero; the limit may be any integer.
use menes_pos.Prelude.{
  ℕ, ◌-◌, ◌*◌, ◌^◌, String, Bool, true, false, not, Option, none, some, List, [], ◌∷◌,
  if◌then◌else◌, get_or, ℤ, pos, leb_ℤ,
}
use Prim.Native.Nat.{max, min}

pub data Status : Type 0 where
  pending inflight done failed dead : Status

pub data FailureClass : Type 0 where
  retryable transport timeout consumer_rejection : FailureClass
  permanent configuration security validation : FailureClass

-- `_EXC_MAP`, by the name of the exception's type.
abbrev pub exception_classes : List (String × FailureClass)
exception_classes =
    ("TimeoutError", timeout)
    ∷ ("Timeout", timeout)
    ∷ ("ReadTimeout", timeout)
    ∷ ("ConnectionError", transport)
    ∷ ("ConnectionResetError", transport)
    ∷ ("OperationalError", transport)
    ∷ ("SerializationFailure", transport)
    ∷ ("DeadlockDetected", transport)
    ∷ ("OutboxRetry", retryable)
    ∷ ("ValueError", validation)
    ∷ ("ValidationError", validation)
    ∷ ("TypeError", validation)
    ∷ ("KeyError", configuration)
    ∷ ("OutboxNoConsumer", configuration)
    ∷ ("AccessError", security)
    ∷ ("UserError", permanent)
    ∷ []

unfoldable pub classify : String → FailureClass
classify exc_name = get_or exception_classes exc_name retryable

unfoldable pub is_retryable : FailureClass → Bool
is_retryable retryable = true
is_retryable transport = true
is_retryable timeout = true
is_retryable consumer_rejection = true
is_retryable _ = false

unfoldable pub next_backoff : ℕ → ℕ → ℕ → ℕ → ℕ
next_backoff attempt base factor cap =
    let a = max 1 attempt in let delay = base * factor ^ (a - 1) in min (max base delay) cap

-- The call with the default arguments.
unfoldable pub default_backoff : ℕ → ℕ
unfolding next_backoff
default_backoff attempt = next_backoff attempt 2 2 3600

unfoldable pub decide : FailureClass → ℕ → ℤ → Status × Option ℕ
decide failure attempt max_attempts =
    if not (is_retryable failure)
    then (dead, none)
    else if leb_ℤ max_attempts (pos attempt)
    then (dead, none)
    else (failed, some (default_backoff attempt))

unfoldable pub blocks_aggregate : Status → Bool
blocks_aggregate done = false
blocks_aggregate _ = true
