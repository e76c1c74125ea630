-- ===== src/Metadata/Consumer/Tracks.antt =====
-- Each piece of the consumer does the change that it stands for, unless the transaction is aborted.
use text.Mathlib.Text.{◌==◌ as str_eq}
use aidata_pipeline.Prelude.{
  ℕ, refl, inr, String, Option, none, some, List, [], ◌∷◌, arith, if◌then◌else◌,
}
use aidata_pipeline.Prelude.Action.{ok}
use aidata_pipeline.External.Database.{Database, DatabaseLaws}
use aidata_pipeline.External.Calls.{Outside}
use aidata_pipeline.Metadata.Tables.{Tables, Key, select_id, insert_quality, update_quality_failed}
use aidata_pipeline.Metadata.Events.{Call, Check, Ref, Data, get_or}
use aidata_pipeline.Metadata.Writes.{
  add_edge, insert_lineage_edge, insert_quality_checks, row_of, update_entity_quality_failed,
}
use aidata_pipeline.Metadata.Consumer.{
  new_entity, swallow, publish, add_ref, add_refs, report_failed, record_rest, run,
}
use aidata_pipeline.Metadata.Consumer.Changes.{
  Change, follow, edge_to, ref_change, refs_change, checks_change, failed_change, rest_change,
}
use aidata_pipeline.Metadata.Consumer.Tracking.{
  execute-Tracks, then-Tracks, same-Tracks, required-Tracks, pure-Tracks, swallow-Tracks, Tracks,
}

module _ (d : Database Tables) (o : Outside Call) (laws : DatabaseLaws d) where
  pub add_edge-Tracks :
      (id : ℕ) (r : String) (run : Option String) (found : Option ℕ)
      → Tracks d o laws (λ db. (some tt, edge_to id run r found db)) (add_edge d o id r run found)
  unfolding add_edge
  add_edge-Tracks id r run none = pure-Tracks d o laws tt
  add_edge-Tracks id r run (some u) =
      execute-Tracks d o laws (λ db. (tt, edge_to id run r (some u) db))

  pub insert_lineage_edge-Tracks :
      (up : Key) (id : ℕ) (r : String) (run : Option String)
      → Tracks d o laws
          (λ db. (some tt, edge_to id run r (select_id up db.entities) db))
          (insert_lineage_edge d o up id r run)
  unfolding insert_lineage_edge
  insert_lineage_edge-Tracks up id r run =
      then-Tracks d o laws (λ db. (some (select_id up db.entities), db))
        (λ found db. (some tt, edge_to id run r found db)) _ (add_edge d o id r run)
        (execute-Tracks d o laws (λ db. (select_id up db.entities, db))) (add_edge-Tracks id r run)

  pub ref-Tracks :
      (t : String) (id : ℕ) (run : Option String) (ref : Ref)
      → Tracks d o laws
          (λ db. (some tt, ref_change t id run ref db))
          (swallow d o (add_ref d o t id run ref))
  unfolding add_ref ref_change
  ref-Tracks t id run ref =
      let edge : String → String → String → Change Unit = λ e k r db. (
        some tt,
        edge_to id run r
            (select_id (record { tenant_id = t; entity_type = e; entity_key = k }) db.entities) db,
      ) in
      let third : String → String → Change Unit =
        λ e k db. follow (ref.relationship, db) (edge e k) in
      let second : String → Change Unit = λ e db. follow (ref.entity_key, db) (third e) in
      let change : Change Unit = λ db. follow (ref.entity_type, db) second in
      same-Tracks d o laws (λ db. (some tt, (change db).1)) _ _
        (swallow-Tracks d o laws change (add_ref d o t id run ref) (
          then-Tracks d o laws _ second _ _ (required-Tracks d o laws ref.entity_type) (λ e.
            then-Tracks d o laws _ (third e) _ _ (required-Tracks d o laws ref.entity_key) (λ k.
              then-Tracks d o laws _ (edge e k) _ _ (required-Tracks d o laws ref.relationship)
                (λ r.
                  insert_lineage_edge-Tracks
                    (record { tenant_id = t; entity_type = e; entity_key = k }) id r run)))))
        (λ db. ground arith)

  pub refs-Tracks :
      (t : String) (id : ℕ) (run : Option String) (refs : List Ref)
      → Tracks d o laws (λ db. (some tt, refs_change t id run refs db)) (add_refs d o t id run refs)
  unfolding add_refs refs_change
  refs-Tracks t id run [] = pure-Tracks d o laws tt
  refs-Tracks t id run (ref ∷ refs) =
      then-Tracks d o laws (λ db. (some tt, ref_change t id run ref db))
        (λ _ db. (some tt, refs_change t id run refs db)) _ _ (ref-Tracks t id run ref)
        (λ _. refs-Tracks t id run refs)

  pub checks-Tracks :
      (id : ℕ) (run : Option String) (checks : List Check)
      → Tracks d o laws (checks_change id run checks) (insert_quality_checks d o id run checks)
  unfolding insert_quality_checks checks_change
  checks-Tracks id run [] = pure-Tracks d o laws []
  checks-Tracks id run (check ∷ checks) =
      let last : String → List Check → Change (List Check) = λ status failed db.
        (some (if str_eq status "failed" then check ∷ failed else failed), db) in
      let row : String → String → Change Unit =
        λ name status db. (some tt, insert_quality (row_of id run name status check) db) in
      let fourth : String → Change (List Check) =
        λ status db. follow (checks_change id run checks db) (last status) in
      let third : String → String → Change (List Check) =
        λ name status db. follow (row name status db) (λ _. fourth status) in
      let second : String → Change (List Check) =
        λ name db. follow (check.status, db) (third name) in
      same-Tracks d o laws (λ db. follow (check.check_name, db) second) _ _
        (then-Tracks d o laws _ second _ _ (required-Tracks d o laws check.check_name) (λ name.
          then-Tracks d o laws _ (third name) _ _ (required-Tracks d o laws check.status) (λ status.
            then-Tracks d o laws (row name status) (λ _. fourth status) _ _
              (execute-Tracks d o laws
                (λ db. (tt, insert_quality (row_of id run name status check) db)))
              (λ _.
                then-Tracks d o laws (checks_change id run checks) (last status) _
                  (λ failed s. (ok (if str_eq status "failed" then check ∷ failed else failed), s))
                  (checks-Tracks id run checks)
                  (λ failed.
                    pure-Tracks d o laws
                      (if str_eq status "failed" then check ∷ failed else failed))))))
        (λ db. ground arith)

  pub publish-Tracks :
      (id : ℕ) (key : Key) (failed : List Check)
      → Tracks d o laws (λ db. (some tt, db)) (publish d o id key failed)
  unfolding publish
  publish-Tracks id key failed = record {
    uncommitted = λ s. refl;
    sticky = λ s h. h;
    agrees = λ s. inr (refl, refl);
  }

  pub failed-Tracks :
      (id : ℕ) (key : Key) (failed : List Check)
      → Tracks d o laws
          (λ db. (some tt, failed_change id failed db))
          (report_failed d o id key failed)
  unfolding report_failed failed_change update_entity_quality_failed
  failed-Tracks id key [] = pure-Tracks d o laws tt
  failed-Tracks id key (check ∷ checks) =
      then-Tracks d o laws (λ db. (some tt, update_quality_failed id db)) (λ _ db. (some tt, db)) _
        (λ _. publish d o id key (check ∷ checks))
        (swallow-Tracks d o laws (λ db. (some tt, update_quality_failed id db)) _
          (execute-Tracks d o laws (λ db. (tt, update_quality_failed id db))))
        (λ _. publish-Tracks id key (check ∷ checks))

  pub rest-Tracks :
      (reported : Data) (id : ℕ)
      → Tracks d o laws (rest_change reported id) (record_rest d o reported id)
  unfolding rest_change record_rest
  rest-Tracks reported id =
      let key = (new_entity reported).key in
      let run = reported.pipeline_run_id in
      let checks = get_or reported.quality_checks [] in
      let refs : Change Unit =
        λ db. (some tt, refs_change key.tenant_id id run (get_or reported.upstream []) db) in
      then-Tracks d o laws refs
        (λ _ db.
          follow (checks_change id run checks db)
            (λ failed db'. (some tt, failed_change id failed db')))
        _ _ (refs-Tracks key.tenant_id id run (get_or reported.upstream []))
        (λ _.
          then-Tracks d o laws (checks_change id run checks)
            (λ failed db'. (some tt, failed_change id failed db')) _ (report_failed d o id key)
            (checks-Tracks id run checks) (λ failed. failed-Tracks id key failed))
