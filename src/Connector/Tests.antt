-- ===== src/Connector/Tests.antt =====
-- The retry loop against a Kafka that refuses everything.
use aidata_pipeline.Prelude.{◌≡◌, refl, ◌⊎◌, ◌≤◌, ◌+◌, Bool, true, false, [], if◌then◌else◌}
use aidata_pipeline.Prelude.Action.{ok, err}
use aidata_pipeline.External.Calls.{Outside, Trace}
use aidata_pipeline.Connector.{
  etag_and_size, RawDocumentEvent, Call, produce, publish_with_retry, publish_attempts,
}
use aidata_pipeline.Connector.Retry.{slept_ms, produced, tries, publish_with_retry_lem}

abbrev is_accepted : Call → Bool
is_accepted (produce _) = false
is_accepted _ = true

abbrev refusing : Outside Call
refusing = record {
  World = Unit;
  Exn = Unit;
  answer = λ c w. if is_accepted c then (ok tt, w) else (err tt, w);
}

abbrev event : RawDocumentEvent
event = record {
  source_type = "s3";
  source_id = "docs/a.txt";
  content_ref = "s3://docs/a.txt";
  content_type = "text/plain";
  tenant_id = "acme";
  metadata = etag_and_size "" 3;
  event_id = "e1";
}

abbrev start : Trace refusing
start = record { world = tt; log = [] }

all_refused : slept_ms (publish_with_retry refusing event start).1.log ≡ 1500
unfolding publish_with_retry publish_attempts
all_refused = refl

publish_with_retry_lem_example :
    let (r, s') = publish_with_retry refusing event start in
    ((r ≡ ok true)
      × (produced s'.log ≡ 0 + 1)
      × (tries s'.log ≤ 0 + 5)
      × (slept_ms s'.log ≤ 0 + 1500))
    ⊎ ((r ≡ ok false)
        × (produced s'.log ≡ 0)
        × (tries s'.log ≡ 0 + 5)
        × (slept_ms s'.log ≡ 0 + 1500))
publish_with_retry_lem_example = publish_with_retry_lem refusing event start
