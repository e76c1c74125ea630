-- ===== src/External/Pool.antt =====
-- asyncpg, as the BFF uses it: a connection of the pool runs one statement, which is a transaction of
-- its own. A statement is a function of the tables with no result where it breaks a constraint.
use aidata_pipeline.Prelude.{String, ◌≡◌, Option, some}
use aidata_pipeline.Prelude.Action.{Action, Returned, Failed}

pub record Pool (Tables : Type 0) : Type 1 where
  pub State : Type 0
  pub Exn : Type 0
  pub tables : State → Tables
  pub run : {A : Type 0} → (Tables → Option (A × Tables)) → Action State Exn A
  -- `str(uuid.uuid4())`, and what `uuid.UUID` makes of a text, if it is one.
  pub uuid4 : State → String
  pub parse_uuid : String → Option String

-- What the documentation says of a statement.
pub record PoolLaws {Tables : Type 0} (p : Pool Tables) : Type 1 where
  pub run_ok :
      {A : Type 0} (f : Tables → Option (A × Tables)) (s : p.State)
      → Returned (λ a s'. f (p.tables s) ≡ some (a, p.tables s')) (p.run f s)
  pub run_err :
      {A : Type 0} (f : Tables → Option (A × Tables)) (s : p.State)
      → Failed (λ s'. p.tables s' ≡ p.tables s) (p.run f s)
