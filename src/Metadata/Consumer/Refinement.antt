-- ===== src/Metadata/Consumer/Refinement.antt =====
-- On a database that never fails, an event does what it stands for.
use text.Mathlib.Text.{◌==◌ as str_eq}
use aidata_pipeline.Prelude.{
  ℕ, ◌≡◌, inl, inr, String, false, Option, none, some, List, [], ◌∷◌, arith, Option-cases,
  if◌then◌else◌,
}
use aidata_pipeline.Prelude.Action.{ok, Result-cases}
use aidata_pipeline.External.Database.{Database, DatabaseLaws}
use aidata_pipeline.External.Calls.{Outside}
use aidata_pipeline.Metadata.Tables.{
  Tables, Key, select_id, upsert_entity, insert_quality, update_quality_failed,
}
use aidata_pipeline.Metadata.Events.{Call, Check, Ref, Data, get_or}
use aidata_pipeline.Metadata.Writes.{
  World, execute, add_edge, insert_lineage_edge, insert_quality_checks, row_of,
  update_entity_quality_failed,
}
use aidata_pipeline.Metadata.Consumer.{
  new_entity, swallow, publish, add_ref, add_refs, report_failed, commit, record_rest, process_data,
  run,
}
use aidata_pipeline.Metadata.Consumer.Changes.{edge_to, data_change}
use aidata_pipeline.Metadata.Consumer.Tracking.{Agrees}
use aidata_pipeline.External.Database.{Reliable}
use aidata_pipeline.Prelude.Action.{Keeps}
use aidata_pipeline.Metadata.Consumer.Kept.{then-Keeps, required-Keeps, pure-Keeps, swallow-Keeps}
use aidata_pipeline.Metadata.Consumer.Atomic.{
  statements, statements-Tracks, process_data-commit_last,
}

-- The tables that are committed after an event, by its change.
abbrev pub result : Option (Unit {0}) × Tables → Tables → Tables
result (none, db) before = before
result (some _, db) before = db

module _ (d : Database Tables) (o : Outside Call) (laws : DatabaseLaws d)
    (reliable : Reliable d) where
  abbrev Healthy : World d o → Type 0
  Healthy s = d.aborted s.conn ≡ false

  execute-Healthy :
      {A : Type 0} (f : Tables → A × Tables) → Keeps Healthy (λ _. Unit) (execute d o f)
  unfolding execute
  execute-Healthy f s h = (ground (arith, reliable.executes f s.conn h), ground arith)

  add_edge-Healthy :
      (id : ℕ) (r : String) (run : Option String) (found : Option ℕ)
      → Keeps Healthy (λ _. Unit) (add_edge d o id r run found)
  unfolding add_edge
  add_edge-Healthy id r run none = pure-Keeps d o laws Healthy tt
  add_edge-Healthy id r run (some u) = execute-Healthy (λ db. (tt, edge_to id run r (some u) db))

  add_ref-Healthy :
      (t : String) (id : ℕ) (run : Option String) (ref : Ref)
      → Keeps Healthy (λ _. Unit) (add_ref d o t id run ref)
  unfolding add_ref insert_lineage_edge
  add_ref-Healthy t id run ref =
      then-Keeps d o laws Healthy _ _ (required-Keeps d o laws Healthy ref.entity_type) (λ e.
        then-Keeps d o laws Healthy _ _ (required-Keeps d o laws Healthy ref.entity_key) (λ k.
          then-Keeps d o laws Healthy _ _ (required-Keeps d o laws Healthy ref.relationship) (λ r.
            then-Keeps d o laws Healthy _ (add_edge d o id r run)
              (execute-Healthy (λ db. (
                select_id (record { tenant_id = t; entity_type = e; entity_key = k }) db.entities,
                db,
              )))
              (add_edge-Healthy id r run))))

  add_refs-Healthy :
      (t : String) (id : ℕ) (run : Option String) (refs : List Ref)
      → Keeps Healthy (λ _. Unit) (add_refs d o t id run refs)
  unfolding add_refs
  add_refs-Healthy t id run [] = pure-Keeps d o laws Healthy tt
  add_refs-Healthy t id run (ref ∷ refs) =
      then-Keeps d o laws Healthy _ _
        (swallow-Keeps d o laws Healthy _ (add_ref-Healthy t id run ref))
        (λ _. add_refs-Healthy t id run refs)

  insert_quality_checks-Healthy :
      (id : ℕ) (run : Option String) (checks : List Check)
      → Keeps Healthy (λ _. Unit) (insert_quality_checks d o id run checks)
  unfolding insert_quality_checks
  insert_quality_checks-Healthy id run [] = pure-Keeps d o laws {A = List Check} Healthy []
  insert_quality_checks-Healthy id run (check ∷ checks) =
      then-Keeps d o laws Healthy _ _ (required-Keeps d o laws Healthy check.check_name) (λ n.
        then-Keeps d o laws Healthy _ _ (required-Keeps d o laws Healthy check.status) (λ st.
          then-Keeps d o laws Healthy _ _
            (execute-Healthy (λ db. (tt, insert_quality (row_of id run n st check) db)))
            (λ _.
              then-Keeps d o laws Healthy _
                (λ failed s. (ok (if str_eq st "failed" then check ∷ failed else failed), s))
                (insert_quality_checks-Healthy id run checks)
                (λ failed.
                  pure-Keeps d o laws Healthy
                    (if str_eq st "failed" then check ∷ failed else failed)))))

  report_failed-Healthy :
      (id : ℕ) (key : Key) (failed : List Check)
      → Keeps Healthy (λ _. Unit) (report_failed d o id key failed)
  unfolding report_failed update_entity_quality_failed publish
  report_failed-Healthy id key [] = pure-Keeps d o laws Healthy tt
  report_failed-Healthy id key (check ∷ checks) =
      then-Keeps d o laws Healthy _ (λ _. publish d o id key (check ∷ checks))
        (swallow-Keeps d o laws Healthy _
          (execute-Healthy (λ db. (tt, update_quality_failed id db))))
        (λ _ s w. (w, tt))

  record_rest-Healthy :
      (reported : Data) (id : ℕ) → Keeps Healthy (λ _. Unit) (record_rest d o reported id)
  unfolding record_rest
  record_rest-Healthy reported id =
      let key = (new_entity reported).key in
      let run = reported.pipeline_run_id in
      then-Keeps d o laws Healthy _ _
        (add_refs-Healthy key.tenant_id id run (get_or reported.upstream []))
        (λ _.
          then-Keeps d o laws Healthy _ (report_failed d o id key)
            (insert_quality_checks-Healthy id run (get_or reported.quality_checks []))
            (report_failed-Healthy id key))

  statements-Healthy : (reported : Data) → Keeps Healthy (λ _. Unit) (statements d o reported)
  statements-Healthy reported =
      then-Keeps d o laws Healthy _ (record_rest d o reported)
        (execute-Healthy (upsert_entity (new_entity reported))) (record_rest-Healthy reported)

  commit-all :
      (s : World d o)
      → d.aborted s.conn ≡ false
      → d.committed (swallow d o (commit d o) s).1.conn ≡ d.seen s.conn
  unfolding commit
  commit-all s f = elim (Result-cases (d.commit s.conn).0) [
    | inl (a, e) ↦ ground (arith, e, f, laws.commit_ok s.conn)
    | inr (x, e) ↦ ground (arith, e, reliable.commits s.conn)
  ]

  -- On a database that never fails, the tables committed after an event of the handled type are those
  -- that its change makes of what the transaction saw; where a check lacks its name or its status, they
  -- are the ones before it.
  pub process_data-refines :
      (reported : Data) (s : World d o)
      → d.aborted s.conn ≡ false
      → d.committed (process_data d o reported s).1.conn
        ≡ result (data_change reported (d.seen s.conn)) (d.committed s.conn)
  process_data-refines reported s h =
      let t = statements-Tracks d o laws reported in
      let s' : World d o = (statements d o reported s).1 in
      let healthy : d.aborted s'.conn ≡ false = (statements-Healthy reported s h).0 in
      let same : Agrees (data_change reported (d.seen s.conn))
          ((statements d o reported s).0, d.seen s'.conn) =
        ground (arith, t.agrees s, healthy) in
      elim (Result-cases (statements d o reported s).0) [
        | inr (x, e) ↦ elim (Option-cases (data_change reported (d.seen s.conn)).0) [
          | inl n ↦
              ground
                (arith, e, n, same, t.uncommitted s, process_data-commit_last d o laws reported s)
          | inr (b, n) ↦ ground (arith, e, n, same)
        ]
        | inl (a, e) ↦ elim (Option-cases (data_change reported (d.seen s.conn)).0) [
          | inl n ↦ ground (arith, e, n, same)
          | inr (b, n) ↦ ground (
            arith,
            e,
            n,
            same,
            commit-all s' healthy,
            process_data-commit_last d o laws reported s,
          )
        ]
      ]
