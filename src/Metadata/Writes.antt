-- ===== src/Metadata/Writes.antt =====
-- services/metadata-service/src/db.py: the functions that write, over a connection.
use text.Mathlib.Text.{◌==◌ as str_eq}
use aidata_pipeline.Prelude.{ℕ, String, Option, none, some, List, [], ◌∷◌, if◌then◌else◌}
use aidata_pipeline.Prelude.Action.{Action, Result, ok, err, pure, ◌>>=◌}
use aidata_pipeline.External.Database.{Database}
use aidata_pipeline.External.Calls.{Outside, Trace}
use aidata_pipeline.Metadata.Tables.{
  Tables, Key, QualityRow, select_id, insert_edge, insert_quality, update_quality_failed,
}
use aidata_pipeline.Metadata.Events.{Call, Check}

-- What the service's code raises: a missing member of an object, or what the connection does.
pub data Raised (X : Type 0) : Type 0 where
  key_error : Raised X
  database : X → Raised X

-- The connection and the producer.
pub record World (d : Database Tables) (o : Outside Call) : Type 0 where
  pub conn : d.Conn
  pub trace : Trace o

abbrev pub Service : (d : Database Tables) → Outside Call → Type 0 → Type 0
Service d o A = Action (World d o) (Raised d.Exn) A

-- The values of a row that are the check's.
abbrev pub row_of : ℕ → Option String → String → String → Check → QualityRow
row_of id run name status check = record {
  entity_id = id;
  run_id = run;
  check_name = name;
  status = status;
  value = check.value;
  threshold = check.threshold;
  message = check.message;
}

abbrev pub outcome : {E A : Type 0} → Result E A → Result (Raised E) A
outcome (ok a) = ok a
outcome (err e) = err (database e)

module _ (d : Database Tables) (o : Outside Call) where
  -- `object[member]`
  abbrev pub required : {A : Type 0} → Option A → Service d o A
  required none s = (err key_error, s)
  required (some a) s = (ok a, s)

  -- `cur.execute`
  unfoldable pub execute : {A : Type 0} → (Tables → A × Tables) → Service d o A
  execute f s = let (r, c) = d.execute f s.conn in (outcome r, record s { conn = c })

  unfoldable pub add_edge : ℕ → String → Option String → Option ℕ → Service d o Unit
  add_edge id relationship run none = pure tt
  add_edge id relationship run (some upstream) = execute (λ db. (
    tt,
    insert_edge
        (record {
          upstream_id = upstream;
          downstream_id = id;
          relationship = relationship;
          pipeline_run_id = run;
        })
        db,
  ))

  -- The edge from the entity with a key to the one with an id, where there is the former.
  unfoldable pub insert_lineage_edge : Key → ℕ → String → Option String → Service d o Unit
  insert_lineage_edge upstream id relationship run =
      execute (λ db. (select_id upstream db.entities, db)) >>= add_edge id relationship run

  -- The rows, one by one; it returns the checks that failed.
  unfoldable pub insert_quality_checks : ℕ → Option String → List Check → Service d o (List Check)
  insert_quality_checks id run [] = pure []
  insert_quality_checks id run (check ∷ checks) = required check.check_name >>= λ name.
      required check.status >>= λ status.
      execute (λ db. (tt, insert_quality (row_of id run name status check) db)) >>= λ _.
      insert_quality_checks id run checks >>= λ failed.
      pure (if str_eq status "failed" then check ∷ failed else failed)

  unfoldable pub update_entity_quality_failed : ℕ → Service d o Unit
  update_entity_quality_failed id = execute (λ db. (tt, update_quality_failed id db))
