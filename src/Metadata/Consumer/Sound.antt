-- ===== src/Metadata/Consumer/Sound.antt =====
-- Whatever is polled and whatever fails, the tables stay sound.
use text.Mathlib.Text.{◌==◌ as str_eq}
use aidata_pipeline.Prelude.{
  ℕ, ◌≡◌, ◌∙◌, inl, inr, String, Option, some, List, [], ◌∷◌, arith, Bool-cases, if◌then◌else◌,
}
use aidata_pipeline.Prelude.Action.{ok, Result-cases, Keeps}
use aidata_pipeline.External.Database.{Database, DatabaseLaws}
use aidata_pipeline.External.Calls.{Outside}
use aidata_pipeline.Metadata.Tables.{
  Tables, Key, upsert_entity, insert_quality, update_quality_failed,
}
use aidata_pipeline.Metadata.Tables.Edges.{IsSound, tenant_at, upsert_entity-IsSound}
use aidata_pipeline.Metadata.Tables.Sound.{
  upsert_entity-located, insert_quality-IsSound, update_quality_failed-IsSound,
  insert_quality-tenant_at, update_quality_failed-tenant_at,
}
use aidata_pipeline.Metadata.Events.{
  Call, Check, Ref, Data, Event, get_or, no_data, handled_event_type,
}
use aidata_pipeline.Metadata.Writes.{
  World, required, execute, insert_quality_checks, row_of, update_entity_quality_failed,
}
use aidata_pipeline.Metadata.Consumer.{
  new_entity, swallow, publish, add_ref, add_refs, report_failed, commit, record_rest, process_data,
  process_event, Polled, nothing, failure, undecodable, message, turn, run,
}
use aidata_pipeline.Metadata.Consumer.Kept.{
  Sound, With, execute-Sound, execute-With, required-Keeps, pure-Keeps, swallow-Keeps,
  insert_lineage_edge-With, then-Keeps,
}

module _ (d : Database Tables) (o : Outside Call) (laws : DatabaseLaws d) where
  add_ref-With :
      (id : ℕ) (t : String) (run : Option String) (ref : Ref)
      → Keeps (With d o laws id t) (λ _. Unit) (add_ref d o t id run ref)
  unfolding add_ref
  add_ref-With id t run ref =
      then-Keeps d o laws (With d o laws id t) (required d o ref.entity_type) _
        (required-Keeps d o laws (With d o laws id t) ref.entity_type)
        (λ e.
          then-Keeps d o laws (With d o laws id t) (required d o ref.entity_key) _
            (required-Keeps d o laws (With d o laws id t) ref.entity_key)
            (λ k.
              then-Keeps d o laws (With d o laws id t) (required d o ref.relationship) _
                (required-Keeps d o laws (With d o laws id t) ref.relationship)
                (λ r. insert_lineage_edge-With d o laws id t k e r run)))

  add_refs-With :
      (id : ℕ) (t : String) (run : Option String) (refs : List Ref)
      → Keeps (With d o laws id t) (λ _. Unit) (add_refs d o t id run refs)
  unfolding add_refs
  add_refs-With id t run [] = pure-Keeps d o laws (With d o laws id t) tt
  add_refs-With id t run (ref ∷ refs) =
      then-Keeps d o laws (With d o laws id t) (swallow d o (add_ref d o t id run ref)) _
        (swallow-Keeps d o laws (With d o laws id t) (add_ref d o t id run ref)
          (add_ref-With id t run ref))
        (λ _. add_refs-With id t run refs)

  insert_quality_checks-With :
      (id : ℕ) (t : String) (run : Option String) (checks : List Check)
      → Keeps (With d o laws id t) (λ _. Unit) (insert_quality_checks d o id run checks)
  unfolding insert_quality_checks
  insert_quality_checks-With id t run [] =
      pure-Keeps d o laws {A = List Check} (With d o laws id t) []
  insert_quality_checks-With id t run (check ∷ checks) =
      then-Keeps d o laws (With d o laws id t) (required d o check.check_name) _
        (required-Keeps d o laws (With d o laws id t) check.check_name)
        (λ n.
          then-Keeps d o laws (With d o laws id t) (required d o check.status) _
            (required-Keeps d o laws (With d o laws id t) check.status)
            (λ st.
              then-Keeps d o laws (With d o laws id t)
                (execute d o (λ db. (tt, insert_quality (row_of id run n st check) db))) _
                (execute-With d o laws id t
                  (λ db. (tt, insert_quality (row_of id run n st check) db))
                  (λ db p h. (
                    insert_quality-IsSound (row_of id run n st check) db p,
                    insert_quality-tenant_at id (row_of id run n st check) db ∙ h,
                  )))
                (λ _.
                  then-Keeps d o laws (With d o laws id t) (insert_quality_checks d o id run checks)
                    (λ failed s. (ok (if str_eq st "failed" then check ∷ failed else failed), s))
                    (insert_quality_checks-With id t run checks)
                    (λ failed.
                      pure-Keeps d o laws (With d o laws id t)
                        (if str_eq st "failed" then check ∷ failed else failed)))))

  report_failed-With :
      (id : ℕ) (t : String) (key : Key) (failed : List Check)
      → Keeps (With d o laws id t) (λ _. Unit) (report_failed d o id key failed)
  unfolding report_failed update_entity_quality_failed publish
  report_failed-With id t key [] = pure-Keeps d o laws (With d o laws id t) tt
  report_failed-With id t key (check ∷ checks) =
      then-Keeps d o laws (With d o laws id t) (swallow d o (update_entity_quality_failed d o id))
        (λ _. publish d o id key (check ∷ checks))
        (swallow-Keeps d o laws (With d o laws id t) (update_entity_quality_failed d o id) (
          execute-With d o laws id t (λ db. (tt, update_quality_failed id db))
            (λ db p h. (
              update_quality_failed-IsSound id db p,
              update_quality_failed-tenant_at id id db ∙ h,
            ))))
        (λ _ s w. (w, tt))

  commit-Sound : Keeps (Sound d o laws) (λ _. Unit) (commit d o)
  unfolding commit
  commit-Sound s (p, q) = elim (Result-cases (d.commit s.conn).0) [
    | inl (a, e) ↦ elim (Bool-cases (d.aborted s.conn)) [
      | inl t ↦ ground (arith, p, q, laws.commit_ok s.conn)
      | inr f ↦ ground (arith, p, q, laws.commit_ok s.conn)
    ]
    | inr (x, e) ↦ ground (arith, p, q, laws.commit_err s.conn)
  ]

  record_rest-With :
      (reported : Data) (id : ℕ)
      → Keeps
          (With d o laws id (new_entity reported).key.tenant_id)
          (λ _. Unit)
          (record_rest d o reported id)
  unfolding record_rest
  record_rest-With reported id =
      let new = new_entity reported in
      let t = new.key.tenant_id in
      let run = reported.pipeline_run_id in
      let checks = get_or reported.quality_checks [] in
      then-Keeps d o laws (With d o laws id t) (add_refs d o t id run (get_or reported.upstream []))
        _ (add_refs-With id t run (get_or reported.upstream []))
        (λ _.
          then-Keeps d o laws (With d o laws id t) (insert_quality_checks d o id run checks)
            (report_failed d o id new.key) (insert_quality_checks-With id t run checks)
            (λ failed. report_failed-With id t new.key failed))

  process_data-Sound :
      (reported : Data) → Keeps (Sound d o laws) (λ _. Unit) (process_data d o reported)
  unfolding process_data execute
  process_data-Sound reported s w =
      let new = new_entity reported in
      let t = new.key.tenant_id in
      let f : Tables → ℕ × Tables = upsert_entity new in
      let after = execute-Sound d o laws f s (upsert_entity-IsSound new (d.seen s.conn)) w in
      elim (Result-cases (d.execute f s.conn).0) [
        | inr (x, e) ↦ ground (arith, after)
        | inl (id, e) ↦
            let c : d.Conn = (d.execute f s.conn).1 in
            let at : tenant_at id (d.seen c).entities ≡ some t =
              ground
                (arith, laws.execute_ok f s.conn, upsert_entity-located new (d.seen s.conn) w.0) in
            let s' : World d o = record s { conn = c } in
            let rest = record_rest-With reported id s' (after, at) in
            let done =
              swallow-Keeps d o laws (Sound d o laws) (commit d o) commit-Sound
                (record_rest d o reported id s').1 rest.0.0 in
            elim (Result-cases (record_rest d o reported id s').0) [
              | inl (a, g) ↦ ground (arith, done)
              | inr (x, g) ↦ ground (arith, rest)
            ]
      ]

  process_event-Sound :
      (event : Event) → Keeps (Sound d o laws) (λ _. Unit) (process_event d o event)
  unfolding process_event
  process_event-Sound event s w =
      elim (Bool-cases (str_eq (get_or event.event_type "") handled_event_type)) [
        | inl t ↦ ground (arith, process_data-Sound (get_or event.event_data no_data) s w)
        | inr f ↦ ground (arith, w)
      ]

  turn-Sound : (p : Polled) → Keeps (Sound d o laws) (λ _. Unit) (turn d o p)
  unfolding turn
  turn-Sound nothing = pure-Keeps d o laws (Sound d o laws) tt
  turn-Sound failure = pure-Keeps d o laws (Sound d o laws) tt
  turn-Sound undecodable = pure-Keeps d o laws (Sound d o laws) tt
  turn-Sound (message event) =
      swallow-Keeps d o laws (Sound d o laws) (process_event d o event) (process_event-Sound event)

  run-Keeps : (ps : List Polled) → Keeps (Sound d o laws) (λ _. Unit) (run d o ps)
  unfolding run
  run-Keeps [] = pure-Keeps d o laws (Sound d o laws) tt
  run-Keeps (p ∷ ps) =
      then-Keeps d o laws (Sound d o laws) (turn d o p) (λ _. run d o ps) (turn-Sound p)
        (λ _. run-Keeps ps)

  -- From tables that are sound, whatever is polled, whichever members the events lack and whichever
  -- statements and commits fail, the loop leaves sound tables, both those that the open transaction
  -- sees and those that are committed: one entity for a tenant, type and key, ids below the next one
  -- that each find the entity's tenant, and edges between entities of one tenant.
  pub run-Sound :
      (ps : List Polled) (s : World d o)
      → IsSound (d.seen s.conn)
      → IsSound (d.committed s.conn)
      → IsSound (d.seen (run d o ps s).1.conn) × IsSound (d.committed (run d o ps s).1.conn)
  run-Sound ps s p q = (run-Keeps ps s (p, q)).0
