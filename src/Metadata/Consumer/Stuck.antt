-- ===== src/Metadata/Consumer/Stuck.antt =====
-- A transaction that is aborted when an event arrives: the upsert raises, and no code rolls back.
use text.Mathlib.Text.{◌==◌ as str_eq}
use text.Mathlib.TextPositions.{eq_refl}
use aidata_pipeline.Prelude.{
  ◌≡◌, refl, ap, ◌∙◌, inl, inr, true, List, [], ◌∷◌, some, arith, Bool-cases,
}
use aidata_pipeline.Prelude.Action.{ok, err, Result-cases}
use aidata_pipeline.External.Database.{Database, DatabaseLaws}
use aidata_pipeline.External.Calls.{Outside}
use aidata_pipeline.Metadata.Tables.{Tables, upsert_entity}
use aidata_pipeline.Metadata.Events.{Call, Data, Event, get_or, no_data, handled_event_type}
use aidata_pipeline.Metadata.Writes.{World, execute}
use aidata_pipeline.Metadata.Consumer.{
  new_entity, process_data, process_event, Polled, nothing, failure, undecodable, message, turn,
  run,
}

module _ (d : Database Tables) (o : Outside Call) (laws : DatabaseLaws d) where
  -- Nothing more was committed, and the transaction is aborted.
  abbrev Same : World d o → World d o → Type 0
  Same s s' = (d.committed s'.conn ≡ d.committed s.conn) × (d.aborted s'.conn ≡ true)

  process_data-aborted :
      (reported : Data) (s : World d o)
      → d.aborted s.conn ≡ true
      → Same s (process_data d o reported s).1
  unfolding process_data execute
  process_data-aborted reported s h =
      let f : Tables → _ × Tables = upsert_entity (new_entity reported) in
      elim (Result-cases (d.execute f s.conn).0) [
        | inl (a, e) ↦ ground (arith, h, laws.execute_ok f s.conn)
        | inr (x, e) ↦ ground (arith, laws.execute_err f s.conn, laws.execute_uncommitted f s.conn)
      ]

  process_event-aborted :
      (event : Event) (s : World d o)
      → d.aborted s.conn ≡ true
      → Same s (process_event d o event s).1
  unfolding process_event
  process_event-aborted event s h =
      elim (Bool-cases (str_eq (get_or event.event_type "") handled_event_type)) [
        | inl t ↦ ground (arith, process_data-aborted (get_or event.event_data no_data) s h)
        | inr f ↦ ground (arith, h)
      ]

  turn-aborted : (p : Polled) (s : World d o) → d.aborted s.conn ≡ true → Same s (turn d o p s).1
  unfolding turn
  turn-aborted nothing s h = (refl, h)
  turn-aborted failure s h = (refl, h)
  turn-aborted undecodable s h = (refl, h)
  turn-aborted (message event) s h = elim (Result-cases (process_event d o event s).0) [
    | inl (a, e) ↦ ground (arith, process_event-aborted event s h)
    | inr (x, e) ↦ ground (arith, process_event-aborted event s h)
  ]

  turn-returns : (p : Polled) (s : World d o) → (turn d o p s).0 ≡ ok tt
  unfolding turn
  turn-returns nothing s = refl
  turn-returns failure s = refl
  turn-returns undecodable s = refl
  turn-returns (message event) s = elim (Result-cases (process_event d o event s).0) [
    | inl (a, e) ↦ ground arith
    | inr (x, e) ↦ ground arith
  ]

  -- Once a statement has failed and an event was left without a commit, so that the transaction is
  -- aborted between two events, nothing that is polled afterwards is committed, however many events
  -- follow: the loop goes on, and the transaction stays aborted.
  pub run-aborted :
      (ps : List Polled) (s : World d o)
      → d.aborted s.conn ≡ true
      → ((run d o ps s).0 ≡ ok tt)
        × (d.committed (run d o ps s).1.conn ≡ d.committed s.conn)
        × (d.aborted (run d o ps s).1.conn ≡ true)
  unfolding run
  run-aborted [] s h = (refl, refl, h)
  run-aborted (p ∷ ps) s h =
      let now = turn-aborted p s h in
      let rest = run-aborted ps (turn d o p s).1 now.1 in
      ground (arith, now, rest, turn-returns p s)

  process_data-raises :
      (reported : Data) (s : World d o) (x : d.Exn)
      → (d.execute (upsert_entity (new_entity reported)) s.conn).0 ≡ err x
      → Same s (process_data d o reported s).1
  unfolding process_data execute
  process_data-raises reported s x e =
      let f : Tables → _ × Tables = upsert_entity (new_entity reported) in
      ground (arith, e, laws.execute_err f s.conn, laws.execute_uncommitted f s.conn)

  turn-raises :
      (event : Event) (s : World d o) (x : d.Exn)
      → event.event_type ≡ some handled_event_type
      → (d.execute (upsert_entity (new_entity (get_or event.event_data no_data))) s.conn).0 ≡ err x
      → Same s (turn d o (message event) s).1
  unfolding turn process_event
  turn-raises event s x t e =
      let handled : str_eq (get_or event.event_type "") handled_event_type ≡ true =
        ap (λ x. str_eq (get_or x "") handled_event_type) t ∙ eq_refl handled_event_type in
      elim (Result-cases (process_data d o (get_or event.event_data no_data) s).0) [
        | inl (a, f) ↦
            ground (arith, handled, process_data-raises (get_or event.event_data no_data) s x e)
        | inr (y, f) ↦
            ground (arith, handled, process_data-raises (get_or event.event_data no_data) s x e)
      ]

  -- When the upsert of one `metadata.entity.created` event fails, nothing that is polled afterwards is
  -- committed, however many events follow: the loop ends normally, and the transaction stays aborted.
  pub run-one_failure :
      (event : Event) (ps : List Polled) (s : World d o) (x : d.Exn)
      → event.event_type ≡ some handled_event_type
      → (d.execute (upsert_entity (new_entity (get_or event.event_data no_data))) s.conn).0 ≡ err x
      → ((run d o (message event ∷ ps) s).0 ≡ ok tt)
        × (d.committed (run d o (message event ∷ ps) s).1.conn ≡ d.committed s.conn)
        × (d.aborted (run d o (message event ∷ ps) s).1.conn ≡ true)
  unfolding run
  run-one_failure event ps s x t e =
      let now = turn-raises event s x t e in
      let rest = run-aborted ps (turn d o (message event) s).1 now.1 in
      ground (arith, now, rest, turn-returns (message event) s)
