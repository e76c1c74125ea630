-- ===== src/External/Database.antt =====
-- A psycopg2 connection without autocommit: `seen` is what its transaction sees, `committed` what the
-- other connections do. A statement that fails aborts the transaction; an aborted one refuses every
-- statement, and a commit of it rolls back without raising.
use aidata_pipeline.Prelude.{◌≡◌, Bool, true, false, if◌then◌else◌}
use aidata_pipeline.Prelude.Action.{Action, Returned, Failed}

pub record Database (Tables : Type 0) : Type 1 where
  pub Conn : Type 0
  pub Exn : Type 0
  pub seen : Conn → Tables
  pub committed : Conn → Tables
  pub aborted : Conn → Bool
  -- A statement: what it returns and the tables after it.
  pub execute : {A : Type 0} → (Tables → A × Tables) → Action Conn Exn A
  pub commit : Action Conn Exn Unit

-- What the documentation says of a statement and a commit.
pub record DatabaseLaws {Tables : Type 0} (d : Database Tables) : Type 1 where
  pub execute_ok :
      {A : Type 0} (f : Tables → A × Tables) (c : d.Conn)
      → Returned
          (λ a c'.
            (a ≡ (f (d.seen c)).0)
            × (d.seen c' ≡ (f (d.seen c)).1)
            × (d.aborted c ≡ false)
            × (d.aborted c' ≡ false))
          (d.execute f c)
  -- One that failed: nothing is written.
  pub execute_err :
      {A : Type 0} (f : Tables → A × Tables) (c : d.Conn)
      → Failed (λ c'. (d.seen c' ≡ d.seen c) × (d.aborted c' ≡ true)) (d.execute f c)
  pub execute_uncommitted :
      {A : Type 0} (f : Tables → A × Tables) (c : d.Conn)
      → d.committed (d.execute f c).1 ≡ d.committed c
  -- Both a commit that fails and a commit of an aborted transaction are a rollback.
  pub commit_ok :
      (c : d.Conn)
      → Returned
          (λ _ c'.
            (d.committed c' ≡ (if d.aborted c then d.committed c else d.seen c))
            × (d.seen c' ≡ d.committed c'))
          (d.commit c)
  pub commit_err :
      (c : d.Conn)
      → Failed (λ c'. (d.committed c' ≡ d.committed c) × (d.seen c' ≡ d.committed c)) (d.commit c)

-- A database that never fails: a statement succeeds unless the transaction is aborted already.
pub record Reliable {Tables : Type 0} (d : Database Tables) : Type 1 where
  pub executes :
      {A : Type 0} (f : Tables → A × Tables) (c : d.Conn)
      → d.aborted c ≡ false
      → Failed (λ _. ⊥) (d.execute f c) × (d.aborted (d.execute f c).1 ≡ false)
  pub commits : (c : d.Conn) → Failed (λ _. ⊥) (d.commit c)
