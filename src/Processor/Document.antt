-- ===== src/Processor/Document.antt =====
-- services/doc-processor/src/processor.py: one message from Kafka to chunks, to the dead letter
-- queue, or nowhere. The JSON decoder, the fetcher, the parsers and SHA-256 are parameters; ids and
-- times that the events are stamped with are left out.
pub mod Publish
pub mod Commit
mod Tests
use Prim.Native.String.{◌++◌}
use aidata_pipeline.Prelude.{
  ℕ, zero, suc, ◌/◌, String, Bool, true, false, Option, none, some, List, [], ◌∷◌, length,
  if◌then◌else◌,
}
use aidata_pipeline.Prelude.Action.{Action, Result, ok, err, pure, raise, ◌>>=◌, ◌>>◌}
use aidata_pipeline.External.Calls.{Outside, Trace, call, attempt, note}
use aidata_pipeline.Processor.Chunker.{Chunk}

pub record RawDocumentEvent : Type 0 where
  pub source_type : String
  pub source_id : String
  pub content_ref : String
  pub content_type : String
  pub tenant_id : String
  pub metadata : List (String × String)
  pub event_id : String

pub record DocumentChunkEvent : Type 0 where
  pub doc_id : String
  pub chunk_id : String
  pub chunk_index : ℕ
  pub total_chunks : ℕ
  pub text : String
  pub source_type : String
  pub source_id : String
  pub content_type : String
  pub tenant_id : String
  pub metadata : List (String × String)

pub record Message (Payload : Type 0) : Type 0 where
  pub topic : Option String
  pub partition : Option ℕ
  pub offset : Option ℕ
  -- In milliseconds.
  pub timestamp : Option ℕ
  pub value : Payload

pub data Reason : Type 0 where
  fetch_error parse_error chunk_publish_failed : Reason

pub data Status : Type 0 where
  failed : Reason → Status
  empty success : Status

pub record DlqEnvelope : Type 0 where
  pub original_topic : String
  pub original_partition : ℕ
  pub original_offset : ℕ
  pub original_timestamp : ℕ
  pub failure_reason : Reason
  pub failure_detail : String
  pub original_payload : RawDocumentEvent
  pub failure_count : ℕ

pub data Call (Payload : Type 0) : Type 0 where
  produce : DocumentChunkEvent → Call Payload
  flush : Call Payload
  sleep : Call Payload
  dlq_produce : DlqEnvelope → Call Payload
  dlq_flush : Call Payload
  status_error : String → Call Payload
  publish_metadata : ℕ → String → Chunk → Call Payload
  commit : Message Payload → Call Payload
  count_processed : Status → Call Payload
  count_routed : Reason → Call Payload
  count_chunks : ℕ → Call Payload

-- What `parse` raises: a `ParseError` with its text, or anything else, which is not caught.
pub data ParseExn (Exn : Type 0) : Type 0 where
  parse_failed : String → ParseExn Exn
  parse_raised : Exn → ParseExn Exn

-- What the processor is built with, and what it calls in the libraries.
pub record Setup (Payload Bytes World Exn : Type 0) : Type 0 where
  pub input_topic : String
  pub has_db : Bool
  pub has_metadata : Bool
  pub now : ℕ
  pub from_json : Payload → Result String RawDocumentEvent
  pub fetch_content : String → Action World String Bytes
  pub parse : Bytes → String → Result (ParseExn Exn) String
  pub chunker : String → String → Result Exn (List Chunk)
  pub sha256_32 : String → String

abbrev or_default {ℓ} : {A : Type ℓ} → A → Option A → A
or_default d none = d
or_default d (some a) = a

-- `msg.topic() or kafka_input_topic`; the empty name counts as none there.
abbrev original_topic : String → Option String → String
original_topic input_topic none = input_topic
original_topic input_topic (some String.[]) = input_topic
original_topic input_topic (some t) = t

abbrev seconds : ℕ → Option ℕ → ℕ
seconds now none = now
seconds now (some ms) = ms / 1000

-- `_make_doc_id`
unfoldable pub make_doc_id : (String → String) → RawDocumentEvent → String
make_doc_id sha256_32 event =
    sha256_32 (event.source_type ++ (":" ++ (event.source_id ++ (":" ++ event.event_id))))

unfoldable pub chunk_event : RawDocumentEvent → ℕ → Chunk → DocumentChunkEvent
chunk_event event total c = record {
  doc_id = c.doc_id;
  chunk_id = c.chunk_id;
  chunk_index = c.index;
  total_chunks = total;
  text = c.text;
  source_type = event.source_type;
  source_id = event.source_id;
  content_type = event.content_type;
  tenant_id = event.tenant_id;
  metadata = event.metadata;
}

abbrev pub max_retries : ℕ
max_retries = 5

module _ {Payload : Type 0} (o : Outside (Call Payload)) where
  abbrev pub Run : Type 0 → Type 0
  Run A = Action (Trace o) o.Exn A

  -- `_produce_with_retry`, on the attempts left: a pause after each failure but the last.
  pub produce_attempts : ℕ → DocumentChunkEvent → Run Bool
  produce_attempts zero e s = (ok false, s)
  produce_attempts (suc zero) e s =
      let (r, s') = call o (produce e) s in elim r [ ok _ ↦ (ok true, s') | err _ ↦ (ok false, s') ]
  produce_attempts (suc (suc n)) e s =
      let (r, s') = call o (produce e) s in
      elim r [ ok _ ↦ (ok true, s') | err _ ↦ (attempt o sleep >> produce_attempts (suc n) e) s' ]

  -- The loop of `_publish_chunks`, and the flush.
  pub publish_loop : RawDocumentEvent → ℕ → List Chunk → Run Bool
  publish_loop event total [] s =
      let (r, s') = call o flush s in elim r [ ok _ ↦ (ok true, s') | err _ ↦ (ok false, s') ]
  publish_loop event total (c ∷ cs) s =
      (do
        sent ← produce_attempts max_retries (chunk_event event total c)
        if sent then publish_loop event total cs else pure false)
        s

  pub publish_chunks : RawDocumentEvent → List Chunk → Run Bool
  publish_chunks event chunks = publish_loop event (length chunks) chunks

  pub publish_metadata_loop : ℕ → String → List Chunk → Run Unit
  publish_metadata_loop total tenant_id [] = pure tt
  publish_metadata_loop total tenant_id (c ∷ cs) = do
    attempt o (publish_metadata total tenant_id c)
    publish_metadata_loop total tenant_id cs

module _ {Payload Bytes : Type 0} (o : Outside (Call Payload))
    (cfg : Setup Payload Bytes o.World o.Exn) where
  unfoldable pub envelope : Message Payload → RawDocumentEvent → Reason → String → DlqEnvelope
  envelope msg event reason detail = record {
    original_topic = original_topic cfg.input_topic msg.topic;
    original_partition = or_default 0 msg.partition;
    original_offset = or_default 0 msg.offset;
    original_timestamp = seconds cfg.now msg.timestamp;
    failure_reason = reason;
    failure_detail = detail;
    original_payload = event;
    failure_count = 1;
  }

  -- The flush is reached only if the produce returned; neither exception leaves the method.
  pub route_to_dlq : Message Payload → RawDocumentEvent → Reason → String → Run o Unit
  route_to_dlq msg event reason detail s =
      let (r, s') = call o (dlq_produce (envelope msg event reason detail)) s in
      elim r [ ok _ ↦ attempt o dlq_flush s' | err _ ↦ (ok tt, s') ]

  update_status_error : String → Run o Unit
  update_status_error source_id = if cfg.has_db then attempt o (status_error source_id) else pure tt

  pub deliver : Message Payload → RawDocumentEvent → List Chunk → Run o Unit
  deliver msg event chunks = do
    published ← publish_chunks o event chunks
    if published
        then (do
          (if cfg.has_metadata
              then publish_metadata_loop o (length chunks) event.tenant_id chunks
              else pure tt)
          call o (commit msg)
          note o (count_processed success)
          note o (count_chunks (length chunks)))
        else (do
          route_to_dlq msg event chunk_publish_failed "All publish retries exhausted"
          note o (count_routed chunk_publish_failed)
          note o (count_processed (failed chunk_publish_failed)))

  deliver_or_skip : Message Payload → RawDocumentEvent → List Chunk → Run o Unit
  unfolding deliver
  deliver_or_skip msg event [] = do call o (commit msg); note o (count_processed empty)
  deliver_or_skip msg event (c ∷ cs) = deliver msg event (c ∷ cs)

  after_fetch : Message Payload → RawDocumentEvent → Bytes → Run o Unit
  unfolding deliver_or_skip update_status_error
  after_fetch msg event content = elim (cfg.parse content event.content_type) [
    | err (parse_raised e) ↦ raise e
    | err (parse_failed detail) ↦ (do
      update_status_error event.source_id
      route_to_dlq msg event parse_error detail
      call o (commit msg)
      note o (count_processed (failed parse_error))
      note o (count_routed parse_error))
    | ok text ↦ elim (cfg.chunker text (make_doc_id cfg.sha256_32 event)) [
      | err e ↦ raise e
      | ok chunks ↦ deliver_or_skip msg event chunks
    ]
  ]

  after_decode : Message Payload → RawDocumentEvent → Run o Unit
  unfolding after_fetch
  after_decode msg event s =
      let (fetched, w) = cfg.fetch_content event.content_ref s.world in
      elim fetched [
        | err detail ↦
            (do
              route_to_dlq msg event fetch_error detail
              call o (commit msg)
              note o (count_processed (failed fetch_error)))
              (record s { world = w })
        | ok content ↦ after_fetch msg event content (record s { world = w })
      ]

  -- `_process_message`
  pub process_message : Message Payload → Run o Unit
  unfolding after_decode
  process_message msg = elim (cfg.from_json msg.value) [
    | err detail ↦ call o (commit msg)
    | ok event ↦ after_decode msg event
  ]
