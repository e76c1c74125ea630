-- ===== src/Rag/Breaker/Tests.antt =====
-- Runs of the breaker, and a use of each theorem on concrete calls.
use Prim.Native.Nat.{ℕ}
use aidata_pipeline.Prelude.{zero, suc, ◌≡◌, refl, ◌<◌, ◌≤◌, ◌+◌, arith}
use aidata_pipeline.Rag.Breaker.{
  closed, open_, CircuitBreaker, Outcome, returned, raised_open, raised, call,
}
use aidata_pipeline.Rag.Breaker.Laws.{IsValid, call-IsValid, call_refuses}

-- The world is the clock; the guarded function takes 3 and fails before the time 100.
abbrev clock : ℕ → ℕ
clock w = w

abbrev func : ℕ → Outcome ℕ ℕ × ℕ
func zero = (raised 7, 3)
func (suc n) = (returned 1, n + 4)

abbrev broken : CircuitBreaker
broken = record {
  failure_threshold = 2;
  recovery_timeout = 30;
  failure_count = 2;
  opened_at = 5;
  state = open_;
}

broken-IsValid : IsValid broken
broken-IsValid = ground arith

probe_closes : (call clock func 40 broken).2.state ≡ closed
unfolding call
probe_closes = refl

call-IsValid_example :
    let b' = (call clock func 40 broken).2 in
    IsValid b' × (b'.failure_threshold ≡ 2) × (b'.recovery_timeout ≡ 30)
call-IsValid_example = call-IsValid clock func 40 broken (omega arith) broken-IsValid

call_refuses_example :
    (open_ ≡ open_ → 20 < 35 → call clock func 20 broken ≡ (raised_open, 20, broken))
    × ((open_ ≡ open_ → 35 ≤ 20)
        → ((call clock func 20 broken).0 ≡ returned 1) × ((call clock func 20 broken).1 ≡ 23))
call_refuses_example = call_refuses clock func 20 broken
