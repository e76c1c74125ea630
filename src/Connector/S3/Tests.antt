-- ===== src/Connector/S3/Tests.antt =====
-- Polls of a bucket of three objects, one of which Kafka refuses.
use text.Mathlib.Text.{◌==◌}
use aidata_pipeline.Prelude.{
  ◌≡◌, refl, Bool, true, false, none, some, List, [], ◌∷◌, arith, if◌then◌else◌,
}
use aidata_pipeline.Prelude.Action.{ok, err}
use aidata_pipeline.External.Calls.{Outside, Trace}
use aidata_pipeline.Connector.{Call, produce, publish_with_retry, publish_attempts}
use aidata_pipeline.Connector.S3.{
  naive, aware, S3Object, Setup, poll_from, visit_all, visit, publish_object,
}
use aidata_pipeline.Connector.S3.Listing.{Accepts, objects_of, poll_from_yields_all}

abbrev answers : Bool → Call → Bool
answers refuses_a (produce event) =
    if event.source_id == "docs/a.txt" then (if refuses_a then false else true) else true
answers refuses_a _ = true

abbrev outside : Bool → Outside Call
outside refuses_a = record {
  World = Unit;
  Exn = Unit;
  answer = λ c w. if answers refuses_a c then (ok tt, w) else (err tt, w);
}

abbrev setup : Setup Unit Unit
setup = record {
  connector_id = "c1";
  minio_bucket = "docs";
  tenant_id = "acme";
  is_file_type = λ t. t == "text/plain";
  has_metadata_publisher = true;
  guess_type = λ name. if name == "c.bin" then none else some "text/plain";
  uuid4 = λ w. "e1";
  isoformat = λ t. "2026";
  fromisoformat = λ text. ok 3;
  hget = λ key w. (ok none, w);
  list_objects = λ bucket w. (ok [], w);
}

abbrev a_txt : S3Object
a_txt = record { object_name = "a.txt"; last_modified = naive 4; etag = none; size = some 3 }

abbrev b_txt : S3Object
b_txt = record { object_name = "b.txt"; last_modified = aware 7; etag = some "x"; size = none }

abbrev c_bin : S3Object
c_bin = record { object_name = "c.bin"; last_modified = aware 9; etag = none; size = none }

abbrev objects : List S3Object
objects = a_txt ∷ b_txt ∷ c_bin ∷ []

abbrev start : (refuses_a : Bool) → Trace (outside refuses_a)
start refuses_a = record { world = tt; log = [] }

-- The watermark passes `a_txt`, which was refused, by way of `b_txt`.
refused_object_is_passed :
    let result = poll_from (outside true) setup none objects (start true) in
    objects_of (outside true) setup result.0 ≡ some (b_txt ∷ [])
unfolding poll_from visit_all visit publish_object publish_with_retry publish_attempts
refused_object_is_passed = refl

outside-Accepts : Accepts (outside false)
unfolding Accepts
outside-Accepts call w = ground arith

poll_from_yields_all_example :
    objects_of (outside false) setup (poll_from (outside false) setup none objects (start false)).0
    ≡ some (a_txt ∷ b_txt ∷ [])
poll_from_yields_all_example =
    poll_from_yields_all (outside false) setup none objects (start false) outside-Accepts
