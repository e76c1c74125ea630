-- ===== src/Processor/Document/Commit.antt =====
-- When the offset of a message is committed.
use mathlib.Core.List.{append-nil}
use aidata_pipeline.Prelude.{
  inl, inr, ℕ, ◌≡◌, true, false, String, List, [], ◌∷◌, ◌++◌, map, length, arith, if◌then◌else◌,
}
use aidata_pipeline.Prelude.Action.{ok, err, Result-cases}
use aidata_pipeline.External.Calls.{Outside, Entry, Trace, call, returned}
use aidata_pipeline.Processor.Chunker.{Chunk}
use aidata_pipeline.Processor.Document.{
  parse_raised, parse_failed, RawDocumentEvent, Message, Call, Setup, fetch_error, dlq_produce,
  publish_metadata, chunk_event, publish_chunks, publish_metadata_loop, make_doc_id, envelope,
  route_to_dlq, deliver, deliver_or_skip, process_message, DlqEnvelope,
}
use aidata_pipeline.Processor.Document.Publish.{published, committed, publish_chunks_lem}

module _ {Payload : Type 0} where
  abbrev pub routing : Entry (Call Payload) → List DlqEnvelope
  routing x = elim x.made [ dlq_produce e ↦ if x.returned then e ∷ [] else [] | _ ↦ [] ]

  -- The envelopes for which the call of the producer of dead letters returned, the earliest first.
  abbrev pub routed : List (Entry (Call Payload)) → List DlqEnvelope
  routed [] = []
  routed (x ∷ log) = routed log ++ routing x

module _ {Payload Bytes : Type 0} (o : Outside (Call Payload))
    (cfg : Setup Payload Bytes o.World o.Exn) where
  publish_metadata_loop_lem :
      (total : ℕ) (tenant_id : String) (cs : List Chunk) (s : Trace o)
      → let (r, s') = publish_metadata_loop o total tenant_id cs s in
        (r ≡ ok tt) × (published s'.log ≡ published s.log) × (committed s'.log ≡ committed s.log)
  unfolding publish_metadata_loop
  publish_metadata_loop_lem total tenant_id [] s = ground arith
  publish_metadata_loop_lem total tenant_id (c ∷ cs) s = ground (
    arith,
    publish_metadata_loop_lem total tenant_id cs (call o (publish_metadata total tenant_id c) s).1,
    append-nil (published s.log),
  )

  deliver_settles :
      (msg : Message Payload) (event : RawDocumentEvent) (chunks : List Chunk) (s : Trace o)
      → committed s.log ≡ false
      → let s' = (deliver o cfg msg event chunks s).1 in
        committed s'.log ≡ true
        → published s'.log ≡ published s.log ++ map (chunk_event event (length chunks)) chunks
  unfolding deliver route_to_dlq
  deliver_settles msg event chunks s =
      let sent = (publish_chunks o event chunks s).1 in
      let described = (publish_metadata_loop o (length chunks) event.tenant_id chunks sent).1 in
      ground (
        arith,
        publish_chunks_lem o event chunks s,
        publish_metadata_loop_lem (length chunks) event.tenant_id chunks sent,
        append-nil (published described.log),
        append-nil (published sent.log),
      )

  deliver_or_skip_settles :
      (msg : Message Payload) (event : RawDocumentEvent) (chunks : List Chunk) (s : Trace o)
      → committed s.log ≡ false
      → let s' = (deliver_or_skip o cfg msg event chunks s).1 in
        committed s'.log ≡ true
        → published s'.log ≡ published s.log ++ map (chunk_event event (length chunks)) chunks
  unfolding deliver_or_skip
  deliver_or_skip_settles msg event [] s none_before = ground (arith, append-nil (published s.log))
  deliver_or_skip_settles msg event (c ∷ cs) s none_before =
      deliver_settles msg event (c ∷ cs) s none_before

  -- What a message has come to when its offset is committed: it could not be decoded; or its
  -- content could not be fetched, or not parsed, with a `ParseError`; or every chunk of it, if any,
  -- was handed to the producer.
  abbrev pub Settled : Message Payload → Trace o → Trace o → Type 0
  Settled msg s s' = elim (cfg.from_json msg.value) [
    | err detail ↦ Unit
    | ok event ↦ elim (cfg.fetch_content event.content_ref s.world).0 [
      | err detail ↦ Unit
      | ok content ↦ elim (cfg.parse content event.content_type) [
        | err (parse_raised e) ↦ ⊥
        | err (parse_failed detail) ↦ Unit
        | ok text ↦ elim (cfg.chunker text (make_doc_id cfg.sha256_32 event)) [
          | err e ↦ ⊥
          | ok chunks ↦
              published s'.log ≡ published s.log ++ map (chunk_event event (length chunks)) chunks
        ]
      ]
    ]
  ]

  -- An offset is committed only for a message that is settled: of a document that was fetched and
  -- parsed, only once it was cut and the events of all its chunks were handed to the producer, in
  -- order, by calls that returned, which says nothing of their delivery; and never for a document
  -- on which the chunker, or the parser with anything but a `ParseError`, raised.
  pub commit_settles :
      (msg : Message Payload) (s : Trace o)
      → committed s.log ≡ false
      → let s' = (process_message o cfg msg s).1 in committed s'.log ≡ true → Settled msg s s'
  unfolding process_message
  commit_settles msg s none_before = elim (Result-cases (cfg.from_json msg.value)) [
    | inr (detail, e) ↦ ground arith
    | inl (event, e) ↦ elim (Result-cases (cfg.fetch_content event.content_ref s.world).0) [
      | inr (detail, f) ↦ ground arith
      | inl (content, f) ↦ elim (Result-cases (cfg.parse content event.content_type)) [
        | inr (parse_raised x, p) ↦ ground arith
        | inr (parse_failed detail, p) ↦ ground arith
        | inl (text, p) ↦ elim (Result-cases (cfg.chunker text (make_doc_id cfg.sha256_32 event))) [
          | inr (x, c) ↦ ground arith
          | inl (chunks, c) ↦ ground (
            arith,
            deliver_or_skip_settles msg event chunks
                (record s { world = (cfg.fetch_content event.content_ref s.world).1 }),
          )
        ]
      ]
    ]
  ]

  -- A document that cannot be fetched is put on the dead letter queue, and its offset is committed
  -- whether that call returned or not: if the queue's producer raises, nothing of the message
  -- is left.
  pub fetch_error_commits :
      (msg : Message Payload) (event : RawDocumentEvent) (s : Trace o) {detail : String}
      → cfg.from_json msg.value ≡ ok event
      → let fetched = cfg.fetch_content event.content_ref s.world in
        fetched.0 ≡ err detail
        → let s' = (process_message o cfg msg s).1 in
          let letter = envelope o cfg msg event fetch_error detail in
          (committed s'.log ≡ true)
          × (routed s'.log
              ≡ routed s.log
                ++ (if returned (o.answer (dlq_produce letter) fetched.1).0
                    then letter ∷ []
                    else []))
  unfolding process_message route_to_dlq
  fetch_error_commits msg event s {detail} decoded failed_fetch =
      let fetched = cfg.fetch_content event.content_ref s.world in
      let letter = envelope o cfg msg event fetch_error detail in
      elim (Result-cases (o.answer (dlq_produce letter) fetched.1).0) [
        | inl (_, accepted) ↦ ground (arith, append-nil (routed s.log ++ letter ∷ []))
        | inr (_, refused) ↦ ground (arith, append-nil (routed s.log))
      ]
