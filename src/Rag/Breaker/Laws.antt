-- ===== src/Rag/Breaker/Laws.antt =====
-- When the breaker lets calls through.
use Prim.Native.Nat.{ℕ}
use aidata_pipeline.Prelude.{◌+◌, ◌≤◌, ◌<◌, ◌≡◌, ◌⊎◌, List, [], ◌∷◌, arith}
use aidata_pipeline.Rag.Breaker.{
  closed, open_, half_open, CircuitBreaker, Outcome, returned, raised_open, raised, finish, call,
  make, is_open, on_failure,
}

-- A closed breaker has fewer failures than the threshold; any other has at least as many.
pub record IsValid (b : CircuitBreaker) : Type 0 where
  pub below : b.state ≡ closed → b.failure_count < b.failure_threshold
  pub reached : (b.state ≡ open_) ⊎ (b.state ≡ half_open) → b.failure_threshold ≤ b.failure_count

pub make-IsValid : (threshold timeout : ℕ) → 0 < threshold → IsValid (make threshold timeout)
unfolding make
make-IsValid threshold timeout h = ground arith

module _ {W A E : Type 0} (clock : W → ℕ) (func : W → Outcome A E × W) where
  -- Every call, however it ends, keeps the invariant and the configuration.
  pub call-IsValid :
      (w : W) (b : CircuitBreaker)
      → 0 < b.failure_threshold
      → IsValid b
      → let b' = (call clock func w b).2 in
        IsValid b'
        × (b'.failure_threshold ≡ b.failure_threshold)
        × (b'.recovery_timeout ≡ b.recovery_timeout)
  unfolding call
  call-IsValid w b h v = ground (arith, v.below, v.reached)

  -- While the breaker is open and the timeout has not passed, a call is refused, the guarded
  -- function is not run and the breaker stays as it is. In every other case the function is run.
  pub call_refuses :
      (w : W) (b : CircuitBreaker)
      → (b.state ≡ open_
          → clock w < b.opened_at + b.recovery_timeout
          → call clock func w b ≡ (raised_open, w, b))
        × ((b.state ≡ open_ → b.opened_at + b.recovery_timeout ≤ clock w)
            → ((call clock func w b).0 ≡ (func w).0) × ((call clock func w b).1 ≡ (func w).1))
  unfolding call
  call_refuses w b = (λ o h. ground arith, λ h. (ground arith, ground arith))

  -- The first call after the timeout is a probe: if it returns, the breaker is closed with no
  -- failures; if it fails, the breaker is open again from that moment.
  pub call_probes :
      (w : W) (b : CircuitBreaker)
      → IsValid b
      → b.state ≡ open_
      → b.opened_at + b.recovery_timeout ≤ clock w
      → let (result, w', b') = call clock func w b in
        ((a : A) → (func w).0 ≡ returned a → (b'.state ≡ closed) × (b'.failure_count ≡ 0))
        × ((e : E) → (func w).0 ≡ raised e → (b'.state ≡ open_) × (b'.opened_at ≡ clock w'))
  unfolding call
  call_probes w b v is_open passed = (λ a h. ground arith, λ e h. ground (arith, v.reached))

-- The failures among some outcomes, wherever they stand.
abbrev failures : {A E : Type 0} → List (ℕ × Outcome A E) → ℕ
failures [] = 0
failures ((later, raised e) ∷ xs) = failures xs + 1
failures (x ∷ xs) = failures xs

-- A closed breaker after the functions of some calls ended as listed.
pub run : {A E : Type 0} → List (ℕ × Outcome A E) → CircuitBreaker → CircuitBreaker
run [] b = b
run ((later, outcome) ∷ xs) b = run xs (finish later outcome b).1

-- A closed breaker counts every failure, also those with successes between them: it stays closed
-- while they are fewer than the threshold, and the one that reaches it opens the breaker.
pub closed_counts_all :
    {A E : Type 0} (xs : List (ℕ × Outcome A E)) (later : ℕ) (e : E) (b : CircuitBreaker)
    → b.state ≡ closed
    → b.failure_count + failures xs < b.failure_threshold
    → ((run xs b).state ≡ closed)
      × ((run xs b).failure_count ≡ b.failure_count + failures xs)
      × (b.failure_count + failures xs + 1 ≡ b.failure_threshold
          → (let failed : Outcome A E = raised e in (finish later failed (run xs b)).1.state)
            ≡ open_)
unfolding run finish
closed_counts_all [] later e b c h = ground arith
closed_counts_all ((t, returned a) ∷ xs) later e b c h =
    ground (arith, closed_counts_all xs later e b c)
closed_counts_all ((t, raised_open) ∷ xs) later e b c h =
    ground (arith, closed_counts_all xs later e b c)
closed_counts_all ((t, raised x) ∷ xs) later e b c h =
    ground (arith, closed_counts_all xs later e (on_failure t b))
