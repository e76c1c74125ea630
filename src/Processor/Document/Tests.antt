-- ===== src/Processor/Document/Tests.antt =====
-- The processor on brokers that accept everything, or refuse the chunks or the dead letters.
use aidata_pipeline.Prelude.{
  String, ◌≡◌, refl, ◌⊎◌, Bool, true, false, none, some, [], ◌∷◌, map, if◌then◌else◌,
}
use aidata_pipeline.Prelude.Action.{Result, ok, err}
use aidata_pipeline.External.Calls.{Outside, Trace}
use aidata_pipeline.Processor.Chunker.{Chunk}
use aidata_pipeline.Processor.Document.{
  RawDocumentEvent, Message, Call, Setup, produce, dlq_produce, chunk_event, produce_attempts,
  publish_loop, publish_chunks, deliver, deliver_or_skip, process_message, publish_metadata_loop,
}
use aidata_pipeline.Processor.Document.Publish.{
  published, committed, just_flushed, publish_chunks_lem,
}
use aidata_pipeline.Processor.Document.Commit.{Settled, commit_settles}

abbrev accepts : Bool → Bool → Call String → Bool
accepts chunks letters (produce e) = chunks
accepts chunks letters (dlq_produce e) = letters
accepts chunks letters _ = true

abbrev broker : Bool → Bool → Outside (Call String)
broker chunks letters = record {
  World = Unit;
  Exn = Unit;
  answer = λ c w. if accepts chunks letters c then (ok tt, w) else (err tt, w);
}

abbrev event : RawDocumentEvent
event = record {
  source_type = "s3";
  source_id = "docs/a.txt";
  content_ref = "s3://docs/a.txt";
  content_type = "text/plain";
  tenant_id = "acme";
  metadata = [];
  event_id = "e1";
}

abbrev message : Message String
message = record {
  topic = none;
  partition = some 2;
  offset = none;
  timestamp = some 1500;
  value = "{}";
}

abbrev chunk_0 : Chunk
chunk_0 = record { text = "hi"; index = 0; doc_id = "d"; chunk_id = "d:0"; token_count = 1 }

abbrev setup : Result String String → Setup String String Unit Unit
setup fetched = record {
  input_topic = "raw-documents";
  has_db = false;
  has_metadata = true;
  now = 0;
  from_json = λ _. ok event;
  fetch_content = λ ref w. (fetched, w);
  parse = λ content content_type. ok content;
  chunker = λ text doc_id. ok (chunk_0 ∷ []);
  sha256_32 = λ text. text;
}

abbrev start : (chunks letters : Bool) → Trace (broker chunks letters)
start chunks letters = record { world = tt; log = [] }

publish_chunks_lem_example :
    let (r, s') = publish_chunks (broker true true) event (chunk_0 ∷ []) (start true true) in
    ((r ≡ ok true)
        × (published s'.log ≡ map (chunk_event event 1) (chunk_0 ∷ []))
        × (just_flushed s'.log ≡ true)
      ⊎ (r ≡ ok false))
    × (committed s'.log ≡ false)
publish_chunks_lem_example =
    publish_chunks_lem (broker true true) event (chunk_0 ∷ []) (start true true)

commit_settles_example :
    Settled
      (broker true true)
      (setup (ok "hi"))
      message
      (start true true)
      (process_message (broker true true) (setup (ok "hi")) message (start true true)).1
unfolding process_message deliver_or_skip deliver publish_chunks publish_loop produce_attempts
    publish_metadata_loop
commit_settles_example =
    commit_settles (broker true true) (setup (ok "hi")) message (start true true) refl refl
