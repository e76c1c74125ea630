-- ===== src/Connector/Nfs/Tests.antt =====
-- Polls of a tree of two files, one of which is known.
use aidata_pipeline.Prelude.{◌≡◌, refl, Bool, true, false, none, some, List, [], ◌∷◌, if◌then◌else◌}
use aidata_pipeline.Prelude.Action.{ok, err, Returned, Failed}
use aidata_pipeline.External.Calls.{Outside}
use aidata_pipeline.Connector.{
  RawDocumentEvent, Call, produce, publish_with_retry, publish_attempts,
}
use aidata_pipeline.Connector.Nfs.{
  Setup, Connector, poll, drain_queue, visit_paths, visit_path, publish_path,
}
use aidata_pipeline.Connector.Nfs.Marking.{marked, Balanced, poll-Balanced}

abbrev is_accepted : Bool → Call → Bool
is_accepted refuses (produce _) = if refuses then false else true
is_accepted refuses _ = true

abbrev outside : Bool → Outside Call
outside refuses = record {
  World = Unit;
  Exn = Unit;
  answer = λ c w. if is_accepted refuses c then (ok tt, w) else (err tt, w);
}

abbrev setup : Bool → Setup Unit Unit
setup alive = record {
  mount_path = "/mnt";
  tenant_id = "acme";
  has_metadata_publisher = false;
  is_allowed_extension = λ path. true;
  guess_type = λ path. none;
  rel_path = λ path. some path;
  uuid4 = λ w. "e1";
  sorted = λ paths. paths;
  is_observer_alive = λ w. alive;
  is_file = λ path w. true;
  walk = λ w. "/mnt/a" ∷ "/mnt/b" ∷ [];
  smembers_known = λ w. (ok ("/mnt/a" ∷ []), w);
}

abbrev start : (refuses : Bool) → Connector (outside refuses)
start refuses = record { trace = record { world = tt; log = [] }; queue = "/mnt/c" ∷ [] }

-- A queued file that Kafka refuses is gone from the queue and not known.
refused_file_is_dropped :
    let c = (poll (outside true) (setup true) (start true)).1 in
    (c.queue ≡ []) × (marked c.trace.log ≡ [])
unfolding poll drain_queue visit_paths visit_path publish_path publish_with_retry publish_attempts
refused_file_is_dropped = (refl, refl)

poll-Balanced_example :
    let (r, c') = poll (outside false) (setup false) (start false) in
    Returned (λ es t. Balanced (outside false) (setup false) [] t.log es []) (r, c'.trace)
    × Failed
        (λ t.
          (es : List RawDocumentEvent) × (fs : List RawDocumentEvent) × Balanced
            (outside false)
            (setup false)
            []
            t.log
            es
            fs)
        (r, c'.trace)
poll-Balanced_example = poll-Balanced (outside false) (setup false) (start false)
