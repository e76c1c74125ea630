-- ===== src/Embedding.antt =====
-- services/embedding-worker/src/worker.py: a batch of chunks is embedded, written to the collections
-- of its tenants, announced and committed, or goes to the dead letters.
pub mod Grouping
pub mod Batch
pub mod Placement
mod Tests
use Prim.Native.String.{◌++◌}
use aidata_pipeline.Embedding.Grouping.{group_by}
use aidata_pipeline.Prelude.{
  ℕ, ◌+◌, String, Bool, true, false, Option, none, some, List, [], ◌∷◌, map, length, if◌then◌else◌,
}
use aidata_pipeline.Prelude.Action.{Action, Result, ok, err, pure, ◌>>=◌, ◌>>◌}
use aidata_pipeline.External.Calls.{Outside, Trace, call, attempt, note}

-- The fields of an event that the worker reads.
pub record DocumentChunkEvent : Type 0 where
  pub doc_id : String
  pub chunk_id : String
  pub text : String
  pub source_type : String
  pub source_id : String
  pub tenant_id : String
  pub created_at : ℕ

pub record ConsumedMessage : Type 0 where
  pub topic : String
  pub partition : ℕ
  pub offset : ℕ
  pub timestamp : ℕ

pub data FailureReason : Type 0 where
  embedding_rate_limit embedding_error milvus_error : FailureReason

-- A dead letter; the text of the exception, `failure_detail`, is left out.
pub record DlqEnvelope : Type 0 where
  pub original : ConsumedMessage
  pub failure_reason : FailureReason
  pub original_payload : DocumentChunkEvent

-- The metadata of a row is that of the chunk with the tenant added.
pub record Row (Vector : Type 0) : Type 0 where
  pub doc_id : String
  pub chunk_id : String
  pub source_type : String
  pub text : String
  pub embedding : Vector
  pub created_at : ℕ
  pub tenant_id : String

pub record EmbeddingEvent : Type 0 where
  pub doc_id : String
  pub source_id : String
  pub source_type : String
  pub tenant_id : String
  pub chunk_count : ℕ

pub data Call (Vector : Type 0) : Type 0 where
  sleep_ms : ℕ → Call Vector
  upsert : String → List (Row Vector) → Call Vector
  dlq_produce : DlqEnvelope → Call Vector
  dlq_flush : Call Vector
  usage_produce : String → ℕ → Call Vector
  produce : EmbeddingEvent → Call Vector
  update_source_file_status : String → ℕ → Call Vector
  publish_embedding : String → String → Vector → Call Vector
  flush : Call Vector
  commit : ConsumedMessage → Call Vector

-- What the backend raises: a rate limit with the pause it asks for, or anything else.
pub data EmbedExn : Type 0 where
  rate_limited : ℕ → EmbedExn
  embed_failed : EmbedExn

pub record Backend (World Vector : Type 0) : Type 0 where
  pub embed_batch : List String → Action World EmbedExn (List Vector)
  pub has_usage_producer : Bool
  pub has_metadata_publisher : Bool

-- A message consumed, with the chunk that it carries.
abbrev pub Item : Type 0
Item = ConsumedMessage × DocumentChunkEvent

abbrev pub row_of : {Vector : Type 0} → DocumentChunkEvent → Vector → Row Vector
row_of chunk embedding = record {
  doc_id = chunk.doc_id;
  chunk_id = chunk.chunk_id;
  source_type = chunk.source_type;
  text = chunk.text;
  embedding = embedding;
  created_at = chunk.created_at;
  tenant_id = chunk.tenant_id;
}

-- The rows of a batch; `zip` stops with the shorter list.
abbrev pub make_rows : {Vector : Type 0} → List Item → List Vector → List (Row Vector)
make_rows [] es = []
make_rows (item ∷ batch) [] = []
make_rows (item ∷ batch) (e ∷ es) = row_of item.1 e ∷ make_rows batch es

abbrev pub envelope : FailureReason → Item → DlqEnvelope
envelope reason (msg, chunk) = record {
  original = msg;
  failure_reason = reason;
  original_payload = chunk;
}

abbrev pub embedding_event : DocumentChunkEvent → ℕ → EmbeddingEvent
embedding_event chunk chunk_count = record {
  doc_id = chunk.doc_id;
  source_id = chunk.source_id;
  source_type = chunk.source_type;
  tenant_id = chunk.tenant_id;
  chunk_count = chunk_count;
}

abbrev pub collection_of : String → String
collection_of tenant_id = tenant_id ++ "_docs"

module _ {Vector : Type 0} (o : Outside (Call Vector)) (backend : Backend o.World Vector) where
  abbrev pub Run : Type 0 → Type 0
  Run A = Action (Trace o) o.Exn A

  -- `_send_to_dlq` for every message of a batch; an exception of the producer passes.
  unfoldable pub send_to_dlq : FailureReason → List Item → Run Unit
  send_to_dlq reason [] = pure tt
  send_to_dlq reason (item ∷ batch) =
      call o (dlq_produce (envelope reason item)) >> call o dlq_flush >> send_to_dlq reason batch

  -- One try of the backend; what it raises comes back as a value.
  abbrev pub try_embed : List String → Run (Result EmbedExn (List Vector))
  try_embed texts s =
      let (r, w) = backend.embed_batch texts s.world in (ok r, record s { world = w })

  -- The reason for which the second failure sends the batch to the dead letters.
  abbrev pub reason_of : EmbedExn → FailureReason
  reason_of (rate_limited _) = embedding_rate_limit
  reason_of embed_failed = embedding_error

  abbrev pub second_try : List String → Run (Result FailureReason (List Vector))
  second_try texts =
      try_embed texts >>= λ r. elim r [ ok es ↦ pure (ok es) | err e ↦ pure (err (reason_of e)) ]

  -- The loop of two attempts; after a rate limit it pauses as long as it is asked to.
  unfoldable pub embed_twice : List String → Run (Result FailureReason (List Vector))
  embed_twice texts = try_embed texts >>= λ r. elim r [
    | ok es ↦ pure (ok es)
    | err (rate_limited retry_after) ↦ note o (sleep_ms retry_after) >> second_try texts
    | err embed_failed ↦ second_try texts
  ]

  -- The upserts, one collection after another, until one raises.
  unfoldable pub upsert_groups : List (String × List (Row Vector)) → Run Bool
  upsert_groups [] s = (ok true, s)
  upsert_groups ((tenant_id, rows) ∷ groups) s =
      let (r, s') = call o (upsert (collection_of tenant_id) rows) s in
      elim r [ ok _ ↦ upsert_groups groups s' | err _ ↦ (ok false, s') ]

  -- `_publish_usage_event` for every tenant of the batch.
  unfoldable pub publish_usage_events : List (String × List DocumentChunkEvent) → Run Unit
  publish_usage_events [] = pure tt
  publish_usage_events ((tenant_id, chunks) ∷ groups) =
      (if backend.has_usage_producer
        then attempt o (usage_produce tenant_id (length chunks))
        else pure tt)
      >> publish_usage_events groups

  -- `_publish_embedding_event`, which may raise, and the status, whose failure is logged.
  unfoldable pub announce : ℕ → List Item → Run Unit
  announce chunk_count [] = pure tt
  announce chunk_count ((msg, chunk) ∷ batch) =
      call o (produce (embedding_event chunk chunk_count))
      >> attempt o (update_source_file_status chunk.source_id chunk_count)
      >> announce chunk_count batch

  unfoldable pub publish_embeddings : List Item → List Vector → Run Unit
  publish_embeddings [] es = pure tt
  publish_embeddings (item ∷ batch) [] = pure tt
  publish_embeddings ((msg, chunk) ∷ batch) (e ∷ es) =
      attempt o (publish_embedding chunk.chunk_id chunk.tenant_id e) >> publish_embeddings batch es

  unfoldable pub commit_all : List Item → Run Unit
  commit_all [] = pure tt
  commit_all ((msg, chunk) ∷ batch) = call o (commit msg) >> commit_all batch

  -- What follows when every upsert has returned.
  unfoldable pub complete_batch : List Item → List Vector → Run Unit
  unfolding publish_usage_events announce publish_embeddings commit_all group_by
  complete_batch batch embeddings =
      publish_usage_events (group_by (λ c. c.tenant_id) (map (λ item. item.1) batch))
      >> announce (length batch) batch
      >> (if backend.has_metadata_publisher then publish_embeddings batch embeddings else pure tt)
      >> call o flush
      >> commit_all batch

  -- `_process_batch`
  unfoldable pub process_batch : List Item → Run Unit
  unfolding embed_twice send_to_dlq upsert_groups complete_batch group_by
  process_batch [] = pure tt
  process_batch (item ∷ items) =
      let batch = item ∷ items in
      embed_twice (map (λ i. i.1.text) batch) >>= λ embedded. elim embedded [
        | err reason ↦ send_to_dlq reason batch
        | ok embeddings ↦
            upsert_groups (group_by (λ r. r.tenant_id) (make_rows batch embeddings)) >>= λ written.
            if written then complete_batch batch embeddings else send_to_dlq milvus_error batch
      ]
