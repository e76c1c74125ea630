-- ===== src/Processor/Document/Publish.antt =====
-- Publishing the chunks of a document: what reaches the topic, in which order.
use mathlib.Core.List.{append_assoc, append-nil}
use aidata_pipeline.Prelude.{
  ℕ, zero, suc, ◌+◌, ◌≤◌, ◌≡◌, Bool, true, false, List, [], ◌∷◌, ◌++◌, map, length, ◌||◌, arith,
  if◌then◌else◌, ◌⊎◌,
}
use aidata_pipeline.Prelude.Action.{ok}
use aidata_pipeline.External.Calls.{Outside, Entry, Trace, call}
use aidata_pipeline.Processor.Chunker.{Chunk}
use aidata_pipeline.Processor.Document.{
  RawDocumentEvent, DocumentChunkEvent, Call, produce, commit, flush, sleep, chunk_event,
  produce_attempts, publish_loop, publish_chunks, max_retries,
}

module _ {Payload : Type 0} where
  abbrev pub sent : Entry (Call Payload) → List DocumentChunkEvent
  sent x = elim x.made [ produce e ↦ if x.returned then e ∷ [] else [] | _ ↦ [] ]

  -- The chunk events for which the call of the producer returned, the earliest first.
  abbrev pub published : List (Entry (Call Payload)) → List DocumentChunkEvent
  published [] = []
  published (x ∷ log) = published log ++ sent x

  abbrev pub is_commit : Call Payload → Bool
  is_commit (commit msg) = true
  is_commit _ = false

  -- An offset commit was attempted.
  abbrev pub committed : List (Entry (Call Payload)) → Bool
  committed [] = false
  committed (x ∷ log) = is_commit x.made || committed log

  abbrev pub is_tried : Call Payload → ℕ
  is_tried (produce e) = 1
  is_tried _ = 0

  -- How often a chunk event was handed to the producer.
  abbrev pub tries : List (Entry (Call Payload)) → ℕ
  tries [] = 0
  tries (x ∷ log) = is_tried x.made + tries log

module _ {Payload : Type 0} (o : Outside (Call Payload)) where
  -- Sending one chunk event takes at most as many tries as are left, and says whether a call of the
  -- producer returned; then one did. It never raises and never commits.
  pub produce_attempts_lem :
      (n : ℕ) (e : DocumentChunkEvent) (s : Trace o)
      → let (r, s') = produce_attempts o n e s in
        ((r ≡ ok true) × (published s'.log ≡ published s.log ++ e ∷ [])
          ⊎ (r ≡ ok false) × (published s'.log ≡ published s.log))
        × (committed s'.log ≡ committed s.log)
        × (tries s'.log ≤ n + tries s.log)
  unfolding produce_attempts
  produce_attempts_lem zero e s = ground arith
  produce_attempts_lem (suc zero) e s = ground (arith, append-nil (published s.log))
  produce_attempts_lem (suc (suc n)) e s =
      let failed = (call o (produce e) s).1 in
      let paused = (call o sleep failed).1 in
      ground (arith, append-nil (published s.log), produce_attempts_lem (suc n) e paused)

-- The latest call was a flush, and it returned.
abbrev pub just_flushed : {Payload : Type 0} → List (Entry (Call Payload)) → Bool
just_flushed [] = false
just_flushed (x ∷ log) = elim x.made [ flush ↦ x.returned | _ ↦ false ]

module _ {Payload : Type 0} (o : Outside (Call Payload)) (event : RawDocumentEvent) where
  pub publish_loop_lem :
      (total : ℕ) (cs : List Chunk) (s : Trace o)
      → let (r, s') = publish_loop o event total cs s in
        ((r ≡ ok true)
            × (published s'.log ≡ published s.log ++ map (chunk_event event total) cs)
            × (just_flushed s'.log ≡ true)
          ⊎ (r ≡ ok false))
        × (committed s'.log ≡ committed s.log)
  unfolding publish_loop
  publish_loop_lem total [] s = ground (arith, append-nil (published s.log))
  publish_loop_lem total (c ∷ cs) s =
      let e = chunk_event event total c in
      let s' = (produce_attempts o max_retries e s).1 in
      ground (
        arith,
        produce_attempts_lem o max_retries e s,
        publish_loop_lem total cs s',
        append_assoc (published s.log) (e ∷ []) (map (chunk_event event total) cs),
      )

  -- `_publish_chunks` says true only if the event of every chunk of the document, with its index and
  -- the number of chunks, was handed to the producer by a call that returned, in order, and the flush
  -- that follows returned too; neither says that the broker has the events. It commits nothing, and
  -- it never raises.
  pub publish_chunks_lem :
      (chunks : List Chunk) (s : Trace o)
      → let (r, s') = publish_chunks o event chunks s in
        ((r ≡ ok true)
            × (published s'.log ≡ published s.log ++ map (chunk_event event (length chunks)) chunks)
            × (just_flushed s'.log ≡ true)
          ⊎ (r ≡ ok false))
        × (committed s'.log ≡ committed s.log)
  unfolding publish_chunks
  publish_chunks_lem chunks s = publish_loop_lem (length chunks) chunks s
