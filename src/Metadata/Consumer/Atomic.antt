-- ===== src/Metadata/Consumer/Atomic.antt =====
-- An event is committed as a whole or not at all.
use aidata_pipeline.Prelude.{◌≡◌, ◌⊎◌, inl, inr, false, some, arith, Bool-cases, Option-cases}
use aidata_pipeline.Prelude.Action.{◌>>=◌, ◌>>◌, Result-cases}
use aidata_pipeline.External.Database.{Database, DatabaseLaws}
use aidata_pipeline.External.Calls.{Outside}
use aidata_pipeline.Metadata.Tables.{Tables, upsert_entity}
use aidata_pipeline.Metadata.Events.{Call, Data}
use aidata_pipeline.Metadata.Writes.{World, Service, execute}
use aidata_pipeline.Metadata.Consumer.{new_entity, swallow, commit, record_rest, process_data}
use aidata_pipeline.Metadata.Consumer.Changes.{rest_change, data_change}
use aidata_pipeline.Metadata.Consumer.Tracking.{Tracks, execute-Tracks, then-Tracks}
use aidata_pipeline.Metadata.Consumer.Tracks.{rest-Tracks}

module _ (d : Database Tables) (o : Outside Call) where
  -- The statements of an event, without the commit.
  abbrev pub statements : Data → Service d o Unit
  statements reported =
      execute d o (upsert_entity (new_entity reported)) >>= record_rest d o reported

module _ (d : Database Tables) (o : Outside Call) (laws : DatabaseLaws d) where
  pub statements-Tracks :
      (reported : Data) → Tracks d o laws (data_change reported) (statements d o reported)
  unfolding data_change
  statements-Tracks reported =
      then-Tracks d o laws
        (λ db. (
          some (upsert_entity (new_entity reported) db).0,
          (upsert_entity (new_entity reported) db).1,
        ))
        (rest_change reported) _ (record_rest d o reported)
        (execute-Tracks d o laws (upsert_entity (new_entity reported)))
        (rest-Tracks d o laws reported)

  -- The commit comes last, where the statements return.
  pub process_data-commit_last :
      (reported : Data) (s : World d o)
      → process_data d o reported s ≡ (statements d o reported >> swallow d o (commit d o)) s
  unfolding process_data
  process_data-commit_last reported s =
      elim (Result-cases (execute d o (upsert_entity (new_entity reported)) s).0) [
        | inl (a, e) ↦ ground (arith, e)
        | inr (x, e) ↦ ground (arith, e)
      ]

  -- What the commit makes of the tables that the transaction sees.
  pub commit-committed :
      (s : World d o)
      → (d.committed (swallow d o (commit d o) s).1.conn ≡ d.committed s.conn)
        ⊎ ((d.committed (swallow d o (commit d o) s).1.conn ≡ d.seen s.conn)
            × (d.aborted s.conn ≡ false))
  unfolding commit
  commit-committed s = elim (Result-cases (d.commit s.conn).0) [
    | inl (a, e) ↦ elim (Bool-cases (d.aborted s.conn)) [
      | inl t ↦ inl (ground (arith, e, t, laws.commit_ok s.conn))
      | inr f ↦ inr (ground (arith, e, f, laws.commit_ok s.conn))
    ]
    | inr (x, e) ↦ inl (ground (arith, e, laws.commit_err s.conn))
  ]

  -- What the call for an event commits: whatever fails, the committed tables after the call are those
  -- before it, or those that the event's entity, edges, checks and mark, all of them, make of what the
  -- open transaction saw at its start. That may hold parts of events that failed before, and what a
  -- call that fails leaves there is not said.
  pub process_data-atomic :
      (reported : Data) (s : World d o)
      → (d.committed (process_data d o reported s).1.conn ≡ d.committed s.conn)
        ⊎ (data_change reported (d.seen s.conn)
            ≡ (some tt, d.committed (process_data d o reported s).1.conn))
  process_data-atomic reported s =
      let t = statements-Tracks reported in
      let s' : World d o = (statements d o reported s).1 in
      elim (Result-cases (statements d o reported s).0) [
        | inr (x, e) ↦ inl (ground (arith, e, t.uncommitted s, process_data-commit_last reported s))
        | inl (a, e) ↦ elim (commit-committed s') [
          | inl c ↦ inl (ground (arith, e, c, t.uncommitted s, process_data-commit_last reported s))
          | inr (c, f) ↦ elim (t.agrees s) [
            | inl stopped ↦ ground (arith, stopped, f)
            | inr same ↦ elim (Option-cases (data_change reported (d.seen s.conn)).0) [
              | inl n ↦ ground (arith, e, same, n)
              | inr (b, n) ↦
                  inr (ground (arith, e, c, same, n, process_data-commit_last reported s))
            ]
          ]
        ]
      ]
