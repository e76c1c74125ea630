-- ===== src/External/Redis.antt =====
-- redis-py, as the quota service and the connectors use it. A command returns a reply or raises;
-- after an exception nothing is known of the store. Expiry by a TTL is not modelled: the laws
-- speak of the store right after a command.
use aidata_pipeline.Prelude.{ℕ, String, ◌≡◌, ◌≢◌, Bool, true, Option, none, some}
use aidata_pipeline.Prelude.Int.{ℤ, pos, ◌+ℤ◌, ◌-ℤ◌}
use aidata_pipeline.Prelude.Action.{Action, Returned}

-- Python's `int(reply or 0)`.
abbrev pub or_zero : Option ℤ → ℤ
or_zero none = pos 0
or_zero (some n) = n

pub record Redis : Type 1 where
  pub Store : Type 0
  pub Exn : Type 0
  -- Observers: the number under a key (0 where there is none), and the presence of a key.
  pub counter : Store → String → ℤ
  pub has_key : Store → String → Bool
  -- A pipeline of INCRBY and EXPIRE, executed as one transaction.
  pub incrby_expire : String → ℤ → ℕ → Action Store Exn ℤ
  pub incrby : String → ℤ → Action Store Exn ℤ
  pub decrby : String → ℤ → Action Store Exn ℤ
  pub get : String → Action Store Exn (Option ℤ)
  pub exists : String → Action Store Exn Bool
  pub setex : String → ℕ → ℕ → Action Store Exn Unit

-- What the documentation says of a command that replied.
pub record RedisLaws (r : Redis) : Type 0 where
  pub incrby_expire_ok :
      (k : String) (n : ℤ) (ttl : ℕ) (s : r.Store)
      → Returned
          (λ v s'. (v ≡ r.counter s k +ℤ n) × (r.counter s' k ≡ v))
          (r.incrby_expire k n ttl s)
  pub incrby_expire_other :
      (k j : String) (n : ℤ) (ttl : ℕ) (s : r.Store)
      → k ≢ j
      → Returned (λ _ s'. r.counter s' j ≡ r.counter s j) (r.incrby_expire k n ttl s)
  pub decrby_ok :
      (k : String) (n : ℤ) (s : r.Store)
      → Returned (λ _ s'. r.counter s' k ≡ r.counter s k -ℤ n) (r.decrby k n s)
  pub decrby_other :
      (k j : String) (n : ℤ) (s : r.Store)
      → k ≢ j
      → Returned (λ _ s'. r.counter s' j ≡ r.counter s j) (r.decrby k n s)
  pub incrby_ok :
      (k : String) (n : ℤ) (s : r.Store)
      → Returned (λ v s'. (v ≡ r.counter s k +ℤ n) × (r.counter s' k ≡ v)) (r.incrby k n s)
  pub incrby_keeps_keys :
      (k j : String) (n : ℤ) (s : r.Store)
      → r.has_key s j ≡ true
      → Returned (λ _ s'. r.has_key s' j ≡ true) (r.incrby k n s)
  pub get_ok :
      (k : String) (s : r.Store)
      → Returned (λ v s'. (or_zero v ≡ r.counter s k) × (s' ≡ s)) (r.get k s)
  pub exists_ok :
      (k : String) (s : r.Store) → Returned (λ b s'. (b ≡ r.has_key s k) × (s' ≡ s)) (r.exists k s)
  pub setex_ok :
      (k : String) (ttl n : ℕ) (s : r.Store)
      → Returned (λ _ s'. r.has_key s' k ≡ true) (r.setex k ttl n s)
  pub setex_other :
      (k j : String) (ttl n : ℕ) (s : r.Store)
      → k ≢ j
      → Returned (λ _ s'. r.counter s' j ≡ r.counter s j) (r.setex k ttl n s)
