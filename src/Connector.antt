-- ===== src/Connector.antt =====
-- services/connector-s3/src and services/connector-nfs/src: events.py, status.py, and the retry loop
-- `_publish_with_retry` that both connectors have.
pub mod Retry
pub mod S3
pub mod Nfs
mod Tests
use Prim.Native.String.{◌++◌}
use aidata_pipeline.Prelude.{
  ℕ, zero, suc, ◌*◌, min, String, Bool, true, false, Option, none, some, List, [], ◌∷◌, ◌<◌,
}
use aidata_pipeline.Prelude.Action.{Action, Result, ok, err, ◌>>=◌, ◌>>◌}
use aidata_pipeline.External.Calls.{Outside, Trace, call, attempt, note}

pub data Metadata : Type 0 where
  etag_and_size : String → ℕ → Metadata
  path_and_mount : String → String → Metadata

pub record RawDocumentEvent : Type 0 where
  pub source_type : String
  pub source_id : String
  pub content_ref : String
  pub content_type : String
  pub tenant_id : String
  pub metadata : Metadata
  pub event_id : String

pub data IngestStatus : Type 0 where
  pending error : IngestStatus

-- What the connectors ask of PostgreSQL, Kafka, Redis and the clock. `produce` is a produce and the
-- flush after it, whose timeout does not raise; `raw_document` is a lineage event.
pub data Call : Type 0 where
  write_source_file_status : String → String → IngestStatus → Option String → Call
  produce : RawDocumentEvent → Call
  sleep_ms : ℕ → Call
  count_error : Call
  raw_document : RawDocumentEvent → Call
  hset_watermark : String → Call
  sadd_known : String → Call

abbrev pub kafka_retry_base_ms : ℕ
kafka_retry_base_ms = 100

abbrev pub kafka_retry_cap_ms : ℕ
kafka_retry_cap_ms = 30000

abbrev pub kafka_max_retries : ℕ
kafka_max_retries = 5

module _ (o : Outside Call) where
  abbrev pub Run : Type 0 → Type 0
  Run A = Action (Trace o) o.Exn A

  -- The loop of `_publish_with_retry` on the attempts left. Every exception is caught, and the pause
  -- after each failure but the last doubles up to the cap.
  pub publish_attempts : ℕ → ℕ → RawDocumentEvent → Run Bool
  publish_attempts zero delay_ms event s = (ok false, s)
  publish_attempts (suc zero) delay_ms event s =
      let (r, s') = call o (produce event) s in
      elim r [ ok _ ↦ (ok true, s') | err _ ↦ (ok false, s') ]
  publish_attempts (suc (suc n)) delay_ms event s =
      let (r, s') = call o (produce event) s in
      elim r [
        | ok _ ↦ (ok true, s')
        | err _ ↦
            (note o (sleep_ms delay_ms)
                >> publish_attempts (suc n) (min (delay_ms * 2) kafka_retry_cap_ms) event)
              s'
      ]

  -- `_publish_with_retry`
  unfoldable pub publish_with_retry : RawDocumentEvent → Run Bool
  unfolding publish_attempts
  publish_with_retry event = publish_attempts kafka_max_retries kafka_retry_base_ms event
