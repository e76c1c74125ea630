-- ===== src/External/Memory.antt =====
-- An in-memory Redis that meets the laws, with switches that make two of its commands raise.
use text.Mathlib.Text.{◌==◌}
use text.Mathlib.TextEquality.{eq_iff}
use text.Mathlib.TextPositions.{eq_refl}
use aidata_pipeline.Prelude.{String, Bool, true, false, Option, none, some, arith, if◌then◌else◌}
use aidata_pipeline.Prelude.Int.{ℤ, pos, ◌+ℤ◌, ◌-ℤ◌}
use aidata_pipeline.Prelude.Action.{ok, err}
use aidata_pipeline.External.Redis.{Redis, RedisLaws, or_zero}

pub record Memory : Type 0 where
  pub value : String → Option ℤ
  pub incrby_fails : Bool
  pub decrby_fails : Bool

abbrev pub put : String → ℤ → (String → Option ℤ) → String → Option ℤ
put k n f j = if k == j then some n else f j

abbrev pub is_some : Option ℤ → Bool
is_some none = false
is_some (some _) = true

abbrev pub store : String → ℤ → Memory → Memory
store k n s = record s { value = put k n s.value }

abbrev pub plus : String → ℤ → Memory → ℤ
plus k n s = or_zero (s.value k) +ℤ n

abbrev pub memory : Redis
memory = record {
  Store = Memory;
  Exn = Unit;
  counter = λ s k. or_zero (s.value k);
  has_key = λ s k. is_some (s.value k);
  incrby_expire = λ k n ttl s. (ok (plus k n s), store k (plus k n s) s);
  incrby =
      λ k n s. if s.incrby_fails then (err tt, s) else (ok (plus k n s), store k (plus k n s) s);
  decrby = λ k n s.
      if s.decrby_fails
      then (err tt, s)
      else (ok (or_zero (s.value k) -ℤ n), store k (or_zero (s.value k) -ℤ n) s);
  get = λ k s. (ok (s.value k), s);
  exists = λ k s. (ok (is_some (s.value k)), s);
  setex = λ k ttl n s. (ok tt, store k (pos n) s);
}

pub memory_laws : RedisLaws memory
memory_laws = record {
  incrby_expire_ok = λ k n ttl s. ground (arith, eq_refl k);
  incrby_expire_other = λ k j n ttl s h. ground (arith, eq_iff k j);
  decrby_ok = λ k n s. ground (arith, eq_refl k);
  decrby_other = λ k j n s h. ground (arith, eq_iff k j);
  incrby_ok = λ k n s. ground (arith, eq_refl k);
  incrby_keeps_keys = λ k j n s h. ground (arith, eq_iff k j);
  get_ok = λ k s. ground arith;
  exists_ok = λ k s. ground arith;
  setex_ok = λ k ttl n s. ground (arith, eq_refl k);
  setex_other = λ k j ttl n s h. ground (arith, eq_iff k j);
}

abbrev pub fresh : Memory
fresh = record { value = λ _. none; incrby_fails = false; decrby_fails = false }
