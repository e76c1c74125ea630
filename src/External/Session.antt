-- ===== src/External/Session.antt =====
-- A connection in memory that meets the laws; one that is refused lets every statement fail.
use aidata_pipeline.Prelude.{Bool, true, false, ◌||◌, arith, if◌then◌else◌}
use aidata_pipeline.Prelude.Action.{ok, err}
use aidata_pipeline.External.Database.{Database, DatabaseLaws, Reliable}

pub record Session (T : Type 0) : Type 0 where
  pub seen : T
  pub committed : T
  pub aborted : Bool

abbrev pub kept : {T : Type 0} → Session T → T
kept c = if c.aborted then c.committed else c.seen

abbrev pub session : (T : Type 0) → Bool → Database T
session T refused = record {
  Conn = Session T;
  Exn = Unit;
  seen = λ c. c.seen;
  committed = λ c. c.committed;
  aborted = λ c. c.aborted;
  execute = λ f c.
      if refused || c.aborted
      then (err tt, record c { aborted = true })
      else (ok (f c.seen).0, record c { seen = (f c.seen).1 });
  commit = λ c. (ok tt, record { seen = kept c; committed = kept c; aborted = false });
}

pub session_laws : (T : Type 0) (refused : Bool) → DatabaseLaws (session T refused)
session_laws T refused = record {
  execute_ok = λ f c. ground arith;
  execute_err = λ f c. ground arith;
  execute_uncommitted = λ f c. ground arith;
  commit_ok = λ c. ground arith;
  commit_err = λ c. tt;
}

pub session-Reliable : (T : Type 0) → Reliable (session T false)
session-Reliable T = record { executes = λ f c h. ground (arith, h); commits = λ c. tt }
