-- ===== src/Rag/Breaker.antt =====
-- services/rag-api/src/circuit_breaker.py. Times are natural numbers of a monotonic clock. A call
-- reads the clock when it starts, and again when the guarded function has failed.
pub mod Laws
mod Tests
use Prim.Native.Nat.{ℕ}
use aidata_pipeline.Prelude.{◌+◌, Bool, true, false, leb, if◌then◌else◌}

pub data State : Type 0 where
  closed open_ half_open : State

pub record CircuitBreaker : Type 0 where
  pub failure_threshold : ℕ
  pub recovery_timeout : ℕ
  pub failure_count : ℕ
  pub opened_at : ℕ
  pub state : State

-- How the guarded function ended; it may itself raise `CircuitBreakerOpen`.
pub data Outcome (A E : Type 0) : Type 0 where
  returned : A → Outcome A E
  raised_open : Outcome A E
  raised : E → Outcome A E

-- `__init__`
unfoldable pub make : ℕ → ℕ → CircuitBreaker
make failure_threshold recovery_timeout = record {
  failure_threshold = failure_threshold;
  recovery_timeout = recovery_timeout;
  failure_count = 0;
  opened_at = 0;
  state = closed;
}

abbrev pub is_open : State → Bool
is_open open_ = true
is_open _ = false

abbrev expire : Bool → State → State
expire true open_ = half_open
expire _ s = s

-- The `state` property, which turns an open breaker half-open once the timeout has passed.
unfoldable pub observe : ℕ → CircuitBreaker → CircuitBreaker
observe now b = record b { state = expire (leb (b.opened_at + b.recovery_timeout) now) b.state }

-- `_on_failure`
unfoldable pub on_failure : ℕ → CircuitBreaker → CircuitBreaker
on_failure now b = record b {
  failure_count = b.failure_count + 1;
  opened_at = now;
  state = if leb b.failure_threshold (b.failure_count + 1) then open_ else b.state;
}

-- `_reset`
unfoldable pub reset : CircuitBreaker → CircuitBreaker
reset b = record b { failure_count = 0; opened_at = 0; state = closed }

abbrev pub after_success : State → CircuitBreaker → CircuitBreaker
after_success half_open b = reset b
after_success _ b = b

-- The part of `call` after the guarded function.
unfoldable pub finish :
    {A E : Type 0} → ℕ → Outcome A E → CircuitBreaker → Outcome A E × CircuitBreaker
unfolding on_failure reset
finish later (returned a) b = (returned a, after_success b.state b)
finish later raised_open b = (raised_open, b)
finish later (raised e) b = (raised e, on_failure later b)

-- `call`, where the guarded function changes the world `W`; `clock` reads the time in a world.
unfoldable pub call :
    {W A E : Type 0}
    → (W → ℕ)
    → (W → Outcome A E × W)
    → W
    → CircuitBreaker
    → Outcome A E × W × CircuitBreaker
unfolding observe finish
call clock func w b =
    let b' = observe (clock w) b in
    if is_open b'.state
    then (raised_open, w, b')
    else (let (outcome, w') = func w in
        let (result, b'') = finish (clock w') outcome b' in (result, w', b''))
