-- ===== src/Embedding/Placement.antt =====
-- Rows are written to the collection of their own tenant.
use aidata_pipeline.Prelude.{
  ℕ, ◌≡◌, ap, inl, inr, String, List, [], ◌∷◌, map, length, All, arith, Bool-cases,
}
use aidata_pipeline.Prelude.Action.{ok, err, Result-cases}
use aidata_pipeline.External.Calls.{Outside, Trace, Entry, call, attempt}
use aidata_pipeline.Embedding.Grouping.{group_by}
use aidata_pipeline.Embedding.Grouping.Laws.{IsOwned, group_by_lem}
use aidata_pipeline.Embedding.{
  DocumentChunkEvent, FailureReason, milvus_error, Row, Call, upsert, dlq_produce, dlq_flush,
  usage_produce, produce, update_source_file_status, publish_embedding, flush, commit, Backend,
  Item, envelope, embedding_event, make_rows, collection_of, send_to_dlq, embed_twice,
  upsert_groups, publish_usage_events, announce, publish_embeddings, commit_all, complete_batch,
  process_batch,
}

-- An upsert names the collection of the tenant of each row; no other call writes rows.
abbrev pub Placed : {Vector : Type 0} → Call Vector → Type 0
Placed (upsert collection rows) = All (λ r. collection_of r.tenant_id ≡ collection) rows
Placed _ = Unit

abbrev pub WellPlaced : {Vector : Type 0} → List (Entry (Call Vector)) → Type 0
WellPlaced log = All (λ x. Placed x.made) log

module _ {Vector : Type 0} (o : Outside (Call Vector)) (backend : Backend o.World Vector) where
  owned_rows :
      (t : String) (rows : List (Row Vector))
      → All (λ r. r.tenant_id ≡ t) rows
      → All (λ r. collection_of r.tenant_id ≡ collection_of t) rows
  owned_rows t [] h = tt
  owned_rows t (r ∷ rows) h = (ap collection_of h.0, owned_rows t rows h.1)

  send_to_dlq_placed :
      (reason : FailureReason) (batch : List Item) (s : Trace o)
      → WellPlaced s.log
      → WellPlaced (send_to_dlq o backend reason batch s).1.log
  unfolding send_to_dlq
  send_to_dlq_placed reason [] s h = h
  send_to_dlq_placed reason (item ∷ batch) s h = ground (
    arith,
    send_to_dlq_placed reason batch
        (call o dlq_flush (call o (dlq_produce (envelope reason item)) s).1).1,
  )

  embed_twice_placed :
      (texts : List String) (s : Trace o)
      → WellPlaced s.log
      → WellPlaced (embed_twice o backend texts s).1.log
  unfolding embed_twice
  embed_twice_placed texts s h = ground arith

  upsert_groups_placed :
      (groups : List (String × List (Row Vector))) (s : Trace o)
      → IsOwned (λ r. r.tenant_id) groups
      → WellPlaced s.log
      → WellPlaced (upsert_groups o backend groups s).1.log
  unfolding upsert_groups
  upsert_groups_placed [] s owned h = h
  upsert_groups_placed ((t, rows) ∷ groups) s owned h = ground (
    arith,
    upsert_groups_placed groups (call o (upsert (collection_of t) rows) s).1,
    owned_rows t rows,
  )

  publish_usage_events_placed :
      (groups : List (String × List DocumentChunkEvent)) (s : Trace o)
      → WellPlaced s.log
      → WellPlaced (publish_usage_events o backend groups s).1.log
  unfolding publish_usage_events
  publish_usage_events_placed [] s h = h
  publish_usage_events_placed ((t, chunks) ∷ groups) s h = ground (
    arith,
    publish_usage_events_placed groups s,
    publish_usage_events_placed groups (attempt o (usage_produce t (length chunks)) s).1,
  )

  announce_placed :
      (n : ℕ) (batch : List Item) (s : Trace o)
      → WellPlaced s.log
      → WellPlaced (announce o backend n batch s).1.log
  unfolding announce
  announce_placed n [] s h = h
  announce_placed n ((msg, chunk) ∷ batch) s h =
      let produced = (call o (produce (embedding_event chunk n)) s).1 in
      ground (
        arith,
        announce_placed n batch
            (attempt o (update_source_file_status chunk.source_id n) produced).1,
      )

  publish_embeddings_placed :
      (batch : List Item) (es : List Vector) (s : Trace o)
      → WellPlaced s.log
      → WellPlaced (publish_embeddings o backend batch es s).1.log
  unfolding publish_embeddings
  publish_embeddings_placed [] es s h = h
  publish_embeddings_placed (i ∷ batch) [] s h = h
  publish_embeddings_placed ((msg, chunk) ∷ batch) (e ∷ es) s h = ground (
    arith,
    publish_embeddings_placed batch es
        (attempt o (publish_embedding chunk.chunk_id chunk.tenant_id e) s).1,
  )

  commit_all_placed :
      (batch : List Item) (s : Trace o)
      → WellPlaced s.log
      → WellPlaced (commit_all o backend batch s).1.log
  unfolding commit_all
  commit_all_placed [] s h = h
  commit_all_placed ((msg, chunk) ∷ batch) s h =
      ground (arith, commit_all_placed batch (call o (commit msg) s).1)

  complete_batch_placed :
      (batch : List Item) (es : List Vector) (s : Trace o)
      → WellPlaced s.log
      → WellPlaced (complete_batch o backend batch es s).1.log
  unfolding complete_batch
  complete_batch_placed batch es s h =
      let groups = group_by (λ c. c.tenant_id) (map (λ item. item.1) batch) in
      let s1 = (publish_usage_events o backend groups s).1 in
      let s2 = (announce o backend (length batch) batch s1).1 in
      let s3 = (publish_embeddings o backend batch es s2).1 in
      ground (
        arith,
        publish_usage_events_placed groups s,
        announce_placed (length batch) batch s1,
        publish_embeddings_placed batch es s2,
        commit_all_placed batch (call o flush s3).1,
        commit_all_placed batch (call o flush s2).1,
        Bool-cases backend.has_metadata_publisher,
      )

  -- Whatever the tenants in a batch, and however it ends, every row that it hands to Milvus is for the
  -- collection of that row's tenant.
  pub process_batch_places :
      (batch : List Item) (s : Trace o)
      → WellPlaced s.log
      → WellPlaced (process_batch o backend batch s).1.log
  unfolding process_batch
  process_batch_places [] s h = h
  process_batch_places (item ∷ items) s h =
      let batch = item ∷ items in
      let texts = map (λ i. i.1.text) batch in
      let embedded = embed_twice o backend texts s in
      let h1 = embed_twice_placed texts s h in
      elim (Result-cases embedded.0) [
        | inl (ok es, e) ↦
            let groups = group_by (λ r. r.tenant_id) (make_rows batch es) in
            let written = upsert_groups o backend groups embedded.1 in
            ground (
              arith,
              h1,
              upsert_groups_placed groups embedded.1
                  (group_by_lem (λ r. r.tenant_id) "" (make_rows batch es)).2,
              complete_batch_placed batch es written.1,
              send_to_dlq_placed milvus_error batch written.1,
            )
        | inl (err reason, e) ↦ ground (arith, h1, send_to_dlq_placed reason batch embedded.1)
        | inr (x, e) ↦ ground (arith, h1)
      ]
