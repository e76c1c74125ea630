-- ===== src/Embedding/Batch.antt =====
-- How a batch ends: indexed and committed, or in the dead letters and not committed.
use aidata_pipeline.Prelude.{
  ℕ, ◌+◌, ◌≡◌, refl, ◌⊎◌, inl, inr, String, Bool, true, false, List, [], ◌∷◌, ◌++◌, map, length,
  onto, length-map, arith, Bool-cases,
}
use aidata_pipeline.Prelude.Action.{Result, ok, err, Returned, Result-cases}
use aidata_pipeline.External.Calls.{Outside, Trace, Entry, call, attempt}
use aidata_pipeline.Embedding.Grouping.{group_by}
use aidata_pipeline.Embedding.Grouping.Laws.{total, group_by_lem}
use aidata_pipeline.Embedding.{
  ConsumedMessage, DlqEnvelope, EmbeddingEvent, DocumentChunkEvent, FailureReason, milvus_error,
  Row, Call, upsert, dlq_produce, dlq_flush, usage_produce, produce, update_source_file_status,
  publish_embedding, flush, commit, Backend, Item, envelope, embedding_event, make_rows,
  collection_of, send_to_dlq, try_embed, embed_twice, upsert_groups, publish_usage_events, announce,
  publish_embeddings, commit_all, complete_batch, process_batch,
}

module _ {Vector : Type 0} where
  abbrev committing : Call Vector → List ConsumedMessage
  committing (commit msg) = msg ∷ []
  committing _ = []

  abbrev lettering : Call Vector → List DlqEnvelope
  lettering (dlq_produce e) = e ∷ []
  lettering _ = []

  abbrev rows_of : Call Vector → Bool → ℕ
  rows_of (upsert _ rows) true = length rows
  rows_of _ _ = 0

  abbrev announcing : Call Vector → List EmbeddingEvent
  announcing (produce e) = e ∷ []
  announcing _ = []

  -- Of a log: the messages committed, the dead letters, the number of rows written and the events
  -- announced, the latest first.
  abbrev pub commits : List (Entry (Call Vector)) → List ConsumedMessage
  commits [] = []
  commits (x ∷ log) = committing x.made ++ commits log

  abbrev pub letters : List (Entry (Call Vector)) → List DlqEnvelope
  letters [] = []
  letters (x ∷ log) = lettering x.made ++ letters log

  abbrev pub rows_written : List (Entry (Call Vector)) → ℕ
  rows_written [] = 0
  rows_written (x ∷ log) = rows_written log + rows_of x.made x.returned

  abbrev pub announced : List (Entry (Call Vector)) → List EmbeddingEvent
  announced [] = []
  announced (x ∷ log) = announcing x.made ++ announced log

  -- What two logs have in common: no commit, letter, row or announcement more.
  abbrev pub Same : List (Entry (Call Vector)) → List (Entry (Call Vector)) → Type 0
  Same old new =
      (commits new ≡ commits old)
      × (letters new ≡ letters old)
      × (rows_written new ≡ rows_written old)
      × (announced new ≡ announced old)

  abbrev pub HasLength : ℕ → Result FailureReason (List Vector) → Type 0
  HasLength n (ok es) = length es ≡ n
  HasLength n (err _) = Unit

  length-make_rows :
      (batch : List Item) (es : List Vector)
      → length es ≡ length batch
      → length (make_rows batch es) ≡ length batch
  length-make_rows [] [] h = refl
  length-make_rows [] (e ∷ es) h = refl
  length-make_rows (i ∷ batch) [] h = omega (arith, h)
  length-make_rows (i ∷ batch) (e ∷ es) h = ground (arith, length-make_rows batch es)

-- The events that a batch is announced by.
abbrev pub events_of : List Item → List EmbeddingEvent
events_of batch = map (λ item. embedding_event item.1 (length batch)) batch

-- A backend that returns, returns a vector for every text.
unfoldable pub EmbedsAll : {World Vector : Type 0} → Backend World Vector → Type 0
EmbedsAll {World} backend =
    (texts : List String) (w : World)
    → Returned (λ es w'. length es ≡ length texts) (backend.embed_batch texts w)

module _ {Vector : Type 0} (o : Outside (Call Vector)) (backend : Backend o.World Vector) where
  send_to_dlq_lem :
      (reason : FailureReason) (batch : List Item) (s : Trace o)
      → let (r, s') = send_to_dlq o backend reason batch s in
        (commits s'.log ≡ commits s.log)
        × (rows_written s'.log ≡ rows_written s.log)
        × (announced s'.log ≡ announced s.log)
        × (r ≡ ok tt → letters s'.log ≡ onto (map (envelope reason) batch) (letters s.log))
  unfolding send_to_dlq
  send_to_dlq_lem reason [] s = ground arith
  send_to_dlq_lem reason (item ∷ batch) s =
      let s' = (call o dlq_flush (call o (dlq_produce (envelope reason item)) s).1).1 in
      ground (arith, send_to_dlq_lem reason batch s')

  embed_twice_lem :
      (texts : List String) (s : Trace o)
      → EmbedsAll backend
      → Returned
          (λ v s'. Same s.log s'.log × HasLength (length texts) v)
          (embed_twice o backend texts s)
  unfolding embed_twice EmbedsAll
  embed_twice_lem texts s h =
      ground (arith, h texts s.world, h texts (try_embed o backend texts s).1.world)

  upsert_groups_lem :
      (groups : List (String × List (Row Vector))) (s : Trace o)
      → let (r, s') = upsert_groups o backend groups s in
        (commits s'.log ≡ commits s.log)
        × (letters s'.log ≡ letters s.log)
        × (announced s'.log ≡ announced s.log)
        × (((r ≡ ok true) × (rows_written s'.log ≡ rows_written s.log + total groups))
            ⊎ (r ≡ ok false))
  unfolding upsert_groups
  upsert_groups_lem [] s = ground arith
  upsert_groups_lem ((t, rows) ∷ groups) s =
      ground (arith, upsert_groups_lem groups (call o (upsert (collection_of t) rows) s).1)

  publish_usage_events_lem :
      (groups : List (String × List DocumentChunkEvent)) (s : Trace o)
      → let (r, s') = publish_usage_events o backend groups s in (r ≡ ok tt) × Same s.log s'.log
  unfolding publish_usage_events
  publish_usage_events_lem [] s = ground arith
  publish_usage_events_lem ((t, chunks) ∷ groups) s = ground (
    arith,
    publish_usage_events_lem groups s,
    publish_usage_events_lem groups (attempt o (usage_produce t (length chunks)) s).1,
  )

  announce_lem :
      (n : ℕ) (batch : List Item) (s : Trace o)
      → let (r, s') = announce o backend n batch s in
        (commits s'.log ≡ commits s.log)
        × (letters s'.log ≡ letters s.log)
        × (rows_written s'.log ≡ rows_written s.log)
        × (r ≡ ok tt
            → announced s'.log
              ≡ onto (map (λ item. embedding_event item.1 n) batch) (announced s.log))
  unfolding announce
  announce_lem n [] s = ground arith
  announce_lem n ((msg, chunk) ∷ batch) s =
      let produced = (call o (produce (embedding_event chunk n)) s).1 in
      ground (
        arith,
        announce_lem n batch (attempt o (update_source_file_status chunk.source_id n) produced).1,
      )

  publish_embeddings_lem :
      (batch : List Item) (es : List Vector) (s : Trace o)
      → let (r, s') = publish_embeddings o backend batch es s in (r ≡ ok tt) × Same s.log s'.log
  unfolding publish_embeddings
  publish_embeddings_lem [] es s = ground arith
  publish_embeddings_lem (i ∷ batch) [] s = ground arith
  publish_embeddings_lem ((msg, chunk) ∷ batch) (e ∷ es) s = ground (
    arith,
    publish_embeddings_lem batch es
        (attempt o (publish_embedding chunk.chunk_id chunk.tenant_id e) s).1,
  )

  commit_all_lem :
      (batch : List Item) (s : Trace o)
      → let (r, s') = commit_all o backend batch s in
        (letters s'.log ≡ letters s.log)
        × (rows_written s'.log ≡ rows_written s.log)
        × (announced s'.log ≡ announced s.log)
        × (r ≡ ok tt → commits s'.log ≡ onto (map (λ item. item.0) batch) (commits s.log))
  unfolding commit_all
  commit_all_lem [] s = ground arith
  commit_all_lem ((msg, chunk) ∷ batch) s =
      ground (arith, commit_all_lem batch (call o (commit msg) s).1)

  -- A batch written in full: if nothing raises, it is announced and committed, and nothing of it goes
  -- to the dead letters.
  complete_batch_lem :
      (batch : List Item) (es : List Vector) (s : Trace o)
      → let (r, s') = complete_batch o backend batch es s in
        (letters s'.log ≡ letters s.log)
        × (rows_written s'.log ≡ rows_written s.log)
        × (r ≡ ok tt
            → (announced s'.log ≡ onto (events_of batch) (announced s.log))
              × (commits s'.log ≡ onto (map (λ item. item.0) batch) (commits s.log)))
  unfolding complete_batch
  complete_batch_lem batch es s =
      let s1 =
        (publish_usage_events o backend (group_by (λ c. c.tenant_id) (map (λ item. item.1) batch))
          s).1 in
      let s2 = (announce o backend (length batch) batch s1).1 in
      let s3 = (publish_embeddings o backend batch es s2).1 in
      ground (
        arith,
        publish_usage_events_lem (group_by (λ c. c.tenant_id) (map (λ item. item.1) batch)) s,
        announce_lem (length batch) batch s1,
        publish_embeddings_lem batch es s2,
        commit_all_lem batch (call o flush s3).1,
        commit_all_lem batch (call o flush s2).1,
        Bool-cases backend.has_metadata_publisher,
      )

  -- Why a batch goes to the dead letters: embedding its texts failed, or else a write to Milvus did.
  abbrev pub reason_for : List Item → Trace o → FailureReason
  reason_for batch s = elim (embed_twice o backend (map (λ i. i.1.text) batch) s).0 [
    | ok (err reason) ↦ reason
    | ok (ok es) ↦ milvus_error
    | err x ↦ milvus_error
  ]

  -- For a backend that returns a vector for every text. A batch that returns has ended in one of two
  -- ways: as many rows as it has chunks are written, the event of each chunk is announced and its
  -- message committed, in order, and none is a dead letter; or the messages are dead letters with
  -- their chunks, in order and all for one reason, and nothing is announced or committed. Also when
  -- the batch raises, nothing is committed before that many rows have been written.
  pub process_batch_settles :
      (batch : List Item) (s : Trace o)
      → EmbedsAll backend
      → Returned
          (λ _ s'.
            ((commits s'.log ≡ onto (map (λ item. item.0) batch) (commits s.log))
              × (letters s'.log ≡ letters s.log)
              × (rows_written s'.log ≡ rows_written s.log + length batch)
              × (announced s'.log ≡ onto (events_of batch) (announced s.log)))
            ⊎ ((commits s'.log ≡ commits s.log)
                × (letters s'.log
                    ≡ onto (map (envelope (reason_for batch s)) batch) (letters s.log))
                × (announced s'.log ≡ announced s.log)))
          (process_batch o backend batch s)
        × (let s' = (process_batch o backend batch s).1 in
            (commits s'.log ≡ commits s.log)
            ⊎ ((rows_written s'.log ≡ rows_written s.log + length batch)
                × (letters s'.log ≡ letters s.log)))
  unfolding process_batch
  process_batch_settles [] s h = ground arith
  process_batch_settles (item ∷ items) s h =
      let batch = item ∷ items in
      let texts = map (λ i. i.1.text) batch in
      let embedded = embed_twice o backend texts s in
      elim (Result-cases embedded.0) [
        | inl (ok es, e) ↦
            let groups = group_by (λ r. r.tenant_id) (make_rows batch es) in
            let written = upsert_groups o backend groups embedded.1 in
            ground (
              arith,
              embed_twice_lem texts s h,
              upsert_groups_lem groups embedded.1,
              (group_by_lem (λ r. r.tenant_id) "" (make_rows batch es)).1,
              length-make_rows batch es,
              length-map batch (λ i. i.1.text),
              complete_batch_lem batch es written.1,
              send_to_dlq_lem milvus_error batch written.1,
            )
        | inl (err reason, e) ↦
            ground (arith, embed_twice_lem texts s h, send_to_dlq_lem reason batch embedded.1)
        | inr (x, e) ↦ ground (arith, embed_twice_lem texts s h)
      ]
