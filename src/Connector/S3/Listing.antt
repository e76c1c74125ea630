-- ===== src/Connector/S3/Listing.antt =====
-- Which of the objects listed a poll publishes, and which it never looks at again.
use Prim.Native.String.{◌++◌}
use aidata_pipeline.Prelude.{
  ℕ, ◌≤◌, ◌≡◌, refl, inl, inr, Option, none, some, List, [], ◌∷◌, map, All, arith, Bool-cases,
  if◌then◌else◌, not,
}
use aidata_pipeline.Prelude.Action.{Result, ok, err, Result-cases}
use aidata_pipeline.External.Calls.{Outside, Trace, call}
use aidata_pipeline.Connector.{Call, write_source_file_status, pending, error, hset_watermark}
use aidata_pipeline.Connector.Retry.{publish_with_retry-accepted}
use aidata_pipeline.Connector.S3.{
  S3Object, Setup, as_utc, is_seen, newer, is_moved, resolve_content_type, visit, visit_all,
  publish_object, poll_from, event_of, source_id_of, or_else,
}
use aidata_pipeline.Connector.S3.Watermark.{Yielded}

-- Every call is answered by a return.
unfoldable pub Accepts : Outside Call → Type 0
Accepts o = (c : Call) (w : o.World) → (o.answer c w).0 ≡ ok tt

module _ (o : Outside Call) (setup : Setup o.World o.Exn) where
  -- The objects newer than a watermark, or all of them where there is none, whose content type is on
  -- the list.
  abbrev pub eligible : Option ℕ → List S3Object → List S3Object
  eligible watermark [] = []
  eligible watermark (obj ∷ objects) =
      if not (is_seen watermark (as_utc obj.last_modified))
      then (if setup.is_file_type (resolve_content_type o setup obj)
          then obj ∷ eligible watermark objects
          else eligible watermark objects)
      else eligible watermark objects

  abbrev refusal : S3Object → Call
  refusal obj =
      write_source_file_status (source_id_of o setup obj) "" error
        (some ("content_type " ++ (resolve_content_type o setup obj ++ " not in allowlist")))

  -- The objects of what a poll yields, if it does not raise.
  abbrev pub objects_of : Result o.Exn (Option ℕ × List Yielded) → Option (List S3Object)
  objects_of (ok v) = some (map (λ y. y.0) v.1)
  objects_of (err _) = none

  visit-accepted :
      (obj : S3Object) (watermark new : Option ℕ) (s : Trace o)
      → Accepts o
      → (visit o setup obj watermark new s).0
        ≡ ok (
            if is_seen watermark (as_utc obj.last_modified)
            then (new, none)
            else if setup.is_file_type (resolve_content_type o setup obj)
            then (
              newer new (as_utc obj.last_modified),
              some (obj, event_of o setup obj (setup.uuid4 s.world)),
            )
            else (new, none))
  unfolding visit publish_object Accepts
  visit-accepted obj watermark new s h =
      let event = event_of o setup obj (setup.uuid4 s.world) in
      let noted =
        (call o (write_source_file_status event.source_id event.event_id pending none) s).1 in
      ground (
        arith,
        h (write_source_file_status event.source_id event.event_id pending none) s.world,
        h (refusal obj) s.world,
        publish_with_retry-accepted o event noted (h _ noted.world),
      )

  visit_all-accepted :
      (objects : List S3Object) (watermark new : Option ℕ) (s : Trace o)
      → Accepts o
      → objects_of (visit_all o setup objects watermark new s).0 ≡ some (eligible watermark objects)
  unfolding visit_all
  visit_all-accepted [] watermark new s h = refl
  visit_all-accepted (obj ∷ objects) watermark new s h =
      let visited = visit o setup obj watermark new s in
      elim (Result-cases visited.0) [
        | inl (v, e) ↦ ground (
          arith,
          visit-accepted obj watermark new s h,
          visit_all-accepted objects watermark v.0 visited.1 h,
          Bool-cases (is_seen watermark (as_utc obj.last_modified)),
          Bool-cases (setup.is_file_type (resolve_content_type o setup obj)),
        )
        | inr (x, e) ↦ ground (arith, visit-accepted obj watermark new s h)
      ]

  -- When no call fails, a poll yields just the objects newer than the watermark whose content type is
  -- on the list, in the order listed, and does not raise.
  pub poll_from_yields_all :
      (watermark : Option ℕ) (objects : List S3Object) (s : Trace o)
      → Accepts o
      → objects_of (poll_from o setup watermark objects s).0 ≡ some (eligible watermark objects)
  unfolding poll_from Accepts
  poll_from_yields_all watermark objects s h =
      let visited = visit_all o setup objects watermark watermark s in
      elim (Result-cases visited.0) [
        | inl (v, e) ↦ ground (
          arith,
          visit_all-accepted objects watermark watermark s h,
          Bool-cases (is_moved watermark v.0),
          h (hset_watermark (setup.isoformat (or_else v.0 0))) visited.1.world,
        )
        | inr (x, e) ↦ ground (arith, visit_all-accepted objects watermark watermark s h)
      ]

  visit_all-stale :
      (w : ℕ) (objects : List S3Object) (s : Trace o)
      → All (λ obj. as_utc obj.last_modified ≤ w) objects
      → visit_all o setup objects (some w) (some w) s ≡ (ok (some w, []), s)
  unfolding visit_all visit
  visit_all-stale w [] s h = refl
  visit_all-stale w (obj ∷ objects) s h = ground (arith, visit_all-stale w objects s)

  -- A poll from a watermark `w` asks nothing of anyone about an object of that time or an earlier one,
  -- whether or not the object was published before: it yields nothing and writes nothing.
  pub stale_objects_untouched :
      (w : ℕ) (objects : List S3Object) (s : Trace o)
      → All (λ obj. as_utc obj.last_modified ≤ w) objects
      → poll_from o setup (some w) objects s ≡ (ok (some w, []), s)
  unfolding poll_from Accepts
  stale_objects_untouched w objects s h = ground (arith, visit_all-stale w objects s)
