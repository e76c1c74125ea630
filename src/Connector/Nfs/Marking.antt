-- ===== src/Connector/Nfs/Marking.antt =====
-- Which files a poll marks as known, and which it publishes.
use aidata_pipeline.Prelude.{
  ℕ, zero, suc, ◌*◌, min, ◌≡◌, refl, ◌⊎◌, inl, inr, String, Bool, true, false, Option, none, some,
  List, [], ◌∷◌, ◌++◌, map, onto, arith, Bool-cases,
}
use aidata_pipeline.Prelude.Action.{Result, ok, err, Result-cases, Returned, Failed}
use aidata_pipeline.External.Calls.{Outside, Trace, Entry, call, note}
use aidata_pipeline.Connector.{
  RawDocumentEvent, Call, write_source_file_status, pending, sadd_known, publish_with_retry,
  publish_attempts, produce, sleep_ms,
}
use aidata_pipeline.Connector.Nfs.{
  Setup, Connector, event_of, is_event, publish_path, visit_path, visit_paths, poll, drain_queue,
  tree_diff,
}

abbrev marking : Call → Bool → List String
marking (sadd_known p) true = p ∷ []
marking _ _ = []

-- The files that a log marks as known, the latest first.
abbrev pub marked : List (Entry Call) → List String
marked [] = []
marked (x ∷ log) = marking x.made x.returned ++ marked log

abbrev sending : Call → Bool → List RawDocumentEvent
sending (produce e) true = e ∷ []
sending _ _ = []

-- The events for which the call of the producer returned, the latest first.
abbrev pub sent : List (Entry Call) → List RawDocumentEvent
sent [] = []
sent (x ∷ log) = sending x.made x.returned ++ sent log

module _ (o : Outside Call) where
  publish_attempts-sent :
      (n d : ℕ) (event : RawDocumentEvent) (s : Trace o)
      → let (r, s') = publish_attempts o n d event s in
        (marked s'.log ≡ marked s.log)
        × (((r ≡ ok true) × (sent s'.log ≡ event ∷ sent s.log))
            ⊎ ((r ≡ ok false) × (sent s'.log ≡ sent s.log)))
  unfolding publish_attempts
  publish_attempts-sent zero d event s = ground arith
  publish_attempts-sent (suc zero) d event s = ground arith
  publish_attempts-sent (suc (suc n)) d event s = ground (
    arith,
    publish_attempts-sent (suc n) (min (d * 2) 30000) event
        (note o (sleep_ms d) (call o (produce event) s).1).1,
  )

  publish_with_retry-sent :
      (event : RawDocumentEvent) (s : Trace o)
      → let (r, s') = publish_with_retry o event s in
        (marked s'.log ≡ marked s.log)
        × (((r ≡ ok true) × (sent s'.log ≡ event ∷ sent s.log))
            ⊎ ((r ≡ ok false) × (sent s'.log ≡ sent s.log)))
  unfolding publish_with_retry
  publish_with_retry-sent event s = publish_attempts-sent 5 100 event s

abbrev path_of : RawDocumentEvent → String
path_of event = event.content_ref

abbrev events_of : Option RawDocumentEvent → List RawDocumentEvent
events_of none = []
events_of (some e) = e ∷ []

module _ (o : Outside Call) (setup : Setup o.World o.Exn) where
  -- Between two logs the events `es` were sent and their files marked, and then `fs` were sent.
  abbrev pub Balanced :
      List (Entry Call) → List (Entry Call) → List RawDocumentEvent → List RawDocumentEvent → Type 0
  Balanced old new es fs =
      (marked new ≡ onto (map path_of es) (marked old)) × (sent new ≡ onto fs (onto es (sent old)))

  -- How a call that answers events ends: with those that it sent and marked, or with an exception
  -- after it has sent and marked some, and sent some more.
  abbrev Ends :
      {A : Type 0} → (A → List RawDocumentEvent) → Trace o → Result o.Exn A × Trace o → Type 0
  Ends {A = A} list s (r, s') =
      ((a : A) × (r ≡ ok a) × Balanced s.log s'.log (list a) [])
      ⊎ ((x : o.Exn) × (es : List RawDocumentEvent) × (fs : List RawDocumentEvent) × (r ≡ err x)
          × Balanced s.log s'.log es fs)

  publish_path-Ends : (path : String) (s : Trace o) → Ends events_of s (publish_path o setup path s)
  unfolding publish_path
  publish_path-Ends path s =
      let event = event_of o setup path (setup.uuid4 s.world) in
      let noted = call o (write_source_file_status path event.event_id pending none) s in
      let published = publish_with_retry o event noted.1 in
      let known = call o (sadd_known path) published.1 in
      let lem = publish_with_retry-sent o event noted.1 in
      elim (Result-cases noted.0) [
        | inr (x, e) ↦ inr (x, [], [], ground (arith, e), (ground (arith, e), ground (arith, e)))
        | inl (a, e) ↦ elim lem.1 [
          | inr (r, h) ↦ inl (
            none,
            ground (arith, e, r),
            (ground (arith, e, r, h, lem.0), ground (arith, e, r, h, lem.0)),
          )
          | inl (r, h) ↦ elim (Result-cases known.0) [
            | inr (x, f) ↦ inr (
              x,
              [],
              event ∷ [],
              ground (arith, e, r, f),
              (ground (arith, e, r, h, f, lem.0), ground (arith, e, r, h, f, lem.0)),
            )
            | inl (b, f) ↦ inl (
              some event,
              ground (arith, e, r, f),
              (ground (arith, e, r, h, f, lem.0), ground (arith, e, r, h, f, lem.0)),
            )
          ]
        ]
      ]

  visit_path-Ends : (path : String) (s : Trace o) → Ends events_of s (visit_path o setup path s)
  unfolding visit_path
  visit_path-Ends path s = elim (Bool-cases (is_event o setup path s.world)) [
    | inl e ↦ ground (arith, e, publish_path-Ends path s)
    | inr e ↦ inl (none, ground (arith, e), (ground (arith, e), ground (arith, e)))
  ]

  visit_paths-Ends :
      (paths : List String) (s : Trace o) → Ends (λ es. es) s (visit_paths o setup paths s)
  unfolding visit_paths
  visit_paths-Ends [] s = inl ([], refl, (refl, refl))
  visit_paths-Ends (path ∷ paths) s =
      let visited = visit_path o setup path s in
      let rest = visit_paths-Ends paths visited.1 in
      elim (visit_path-Ends path s) [
        | inr (x, es, fs, e, (m, p)) ↦
            inr (x, es, fs, ground (arith, e), (ground (arith, e, m), ground (arith, e, p)))
        | inl (none, e, (m, p)) ↦ elim rest [
          | inl (es, f, (m', p')) ↦
              inl (
                es,
                ground (arith, e, f),
                (ground (arith, e, f, m, m'), ground (arith, e, f, p, p')),
              )
          | inr (x, es, fs, f, (m', p')) ↦ inr (
            x,
            es,
            fs,
            ground (arith, e, f),
            (ground (arith, e, f, m, m'), ground (arith, e, f, p, p')),
          )
        ]
        | inl (some v, e, (m, p)) ↦ elim rest [
          | inl (es, f, (m', p')) ↦ inl (
            v ∷ es,
            ground (arith, e, f),
            (ground (arith, e, f, m, m'), ground (arith, e, f, p, p')),
          )
          | inr (x, es, fs, f, (m', p')) ↦ inr (
            x,
            v ∷ es,
            fs,
            ground (arith, e, f),
            (ground (arith, e, f, m, m'), ground (arith, e, f, p, p')),
          )
        ]
      ]

  poll-Ends :
      (c : Connector o) → Ends (λ es. es) c.trace ((poll o setup c).0, (poll o setup c).1.trace)
  unfolding poll
  poll-Ends c =
      let (known, w) = setup.smembers_known c.trace.world in
      let t : Trace o = record { world = w; log = c.trace.log } in
      elim (Bool-cases (setup.is_observer_alive c.trace.world)) [
        | inl alive ↦ elim (visit_paths-Ends (setup.sorted (drain_queue c.queue)) c.trace) [
          | inl (es, f, (m, p)) ↦
              inl
                (es, ground (arith, alive, f), (ground (arith, alive, m), ground (arith, alive, p)))
          | inr (x, es, fs, f, (m, p)) ↦ inr (
            x,
            es,
            fs,
            ground (arith, alive, f),
            (ground (arith, alive, m), ground (arith, alive, p)),
          )
        ]
        | inr dead ↦ elim (Result-cases known) [
          | inl (known_paths, e) ↦
              let paths = setup.sorted (tree_diff o setup known_paths (setup.walk w)) in
              elim (visit_paths-Ends paths t) [
                | inl (es, f, (m, p)) ↦ inl (
                  es,
                  ground (arith, dead, e, f),
                  (ground (arith, dead, e, m), ground (arith, dead, e, p)),
                )
                | inr (x, es, fs, f, (m, p)) ↦ inr (
                  x,
                  es,
                  fs,
                  ground (arith, dead, e, f),
                  (ground (arith, dead, e, m), ground (arith, dead, e, p)),
                )
              ]
          | inr (x, e) ↦ inr (
            x,
            [],
            [],
            ground (arith, dead, e),
            (ground (arith, dead, e), ground (arith, dead, e)),
          )
        ]
      ]

  Ends-both :
      {A : Type 0} (list : A → List RawDocumentEvent) (s : Trace o) (v : Result o.Exn A × Trace o)
      → Ends list s v
      → Returned (λ a t. Balanced s.log t.log (list a) []) v
        × Failed
            (λ t.
              (es : List RawDocumentEvent) × (fs : List RawDocumentEvent) × Balanced s.log t.log es
                fs)
            v
  Ends-both list s (ok a, t) (inl (b, e, h)) = (ground (arith, e, h), tt)
  Ends-both list s (ok a, t) (inr (x, es, fs, e, h)) = ground (arith, e)
  Ends-both list s (err x, t) (inl (b, e, h)) = ground (arith, e)
  Ends-both list s (err x, t) (inr (y, es, fs, e, h)) = (tt, (es, fs, h))

  -- A poll that returns has handed to the producer, in order, the events that it yields, by calls
  -- that returned, and has marked their files as known, in that order, and no others. One that
  -- raises has done so for some events, and may have sent more whose files it has not marked.
  pub poll-Balanced :
      (c : Connector o)
      → let (r, c') = poll o setup c in
        Returned (λ es t. Balanced c.trace.log t.log es []) (r, c'.trace)
        × Failed
            (λ t.
              (es : List RawDocumentEvent) × (fs : List RawDocumentEvent) × Balanced c.trace.log
                t.log es fs)
            (r, c'.trace)
  poll-Balanced c =
      Ends-both (λ es. es) c.trace ((poll o setup c).0, (poll o setup c).1.trace) (poll-Ends c)
