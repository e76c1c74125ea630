-- ===== src/Connector/S3.antt =====
-- services/connector-s3/src/connector.py, `S3Connector.poll`, and watermark.py. A generator runs
-- to its end, as main.py's loop over it does. Listing, MIME types, ISO dates and UUIDs are parameters.
pub mod Watermark
pub mod Listing
mod Tests
use Prim.Native.String.{◌++◌}
use aidata_pipeline.Prelude.{
  ℕ, ◌≡◌, String, Bool, true, false, not, ◌&&◌, Option, none, some, List, [], ◌∷◌, ltb, leb, ◌==◌,
  if◌then◌else◌,
}
use aidata_pipeline.Prelude.Action.{Action, Result, ok, err, pure, gets, ◌>>=◌, ◌>>◌}
use aidata_pipeline.External.Calls.{Outside, Trace, call, attempt, note}
use aidata_pipeline.Connector.{
  Metadata, etag_and_size, RawDocumentEvent, IngestStatus, pending, error, Call,
  write_source_file_status, produce, count_error, raw_document, hset_watermark, publish_with_retry,
}

-- A time with or without a zone, in microseconds, of UTC where it has one.
pub data DateTime : Type 0 where
  naive aware : ℕ → DateTime

pub record S3Object : Type 0 where
  pub object_name : String
  pub last_modified : DateTime
  pub etag : Option String
  pub size : Option ℕ

-- `last_modified.replace(tzinfo=timezone.utc)` where there is no zone.
abbrev pub as_utc : DateTime → ℕ
as_utc (naive t) = t
as_utc (aware t) = t

-- `hget` reads the watermark's field of a key, as text.
pub record Setup (World Exn : Type 0) : Type 0 where
  pub connector_id : String
  pub minio_bucket : String
  pub tenant_id : String
  pub is_file_type : String → Bool
  pub has_metadata_publisher : Bool
  pub guess_type : String → Option String
  pub uuid4 : World → String
  pub isoformat : ℕ → String
  pub fromisoformat : String → Result Exn ℕ
  pub hget : String → Action World Exn (Option String)
  pub list_objects : String → Action World Exn (List S3Object)

abbrev pub or_else {ℓ} : {A : Type ℓ} → Option A → A → A
or_else none d = d
or_else (some a) d = a

-- `last_modified <= watermark`, where there is one.
abbrev pub is_seen : Option ℕ → ℕ → Bool
is_seen none t = false
is_seen (some w) t = leb t w

-- The greater of the new watermark so far and the time of an object published.
abbrev pub newer : Option ℕ → ℕ → Option ℕ
newer none t = some t
newer (some w) t = if ltb w t then some t else some w

-- `new_watermark is not None and new_watermark != watermark`
abbrev pub is_moved : Option ℕ → Option ℕ → Bool
is_moved w none = false
is_moved none (some n) = true
is_moved (some w) (some n) = not (n == w)

module _ (o : Outside Call) (setup : Setup o.World o.Exn) where
  abbrev pub Run : Type 0 → Type 0
  Run A = Action (Trace o) o.Exn A

  -- `_resolve_content_type`
  abbrev pub resolve_content_type : S3Object → String
  resolve_content_type obj = or_else (setup.guess_type obj.object_name) "application/octet-stream"

  abbrev pub source_id_of : S3Object → String
  source_id_of obj = setup.minio_bucket ++ ("/" ++ obj.object_name)

  abbrev pub event_of : S3Object → String → RawDocumentEvent
  event_of obj event_id = record {
    source_type = "s3";
    source_id = source_id_of obj;
    content_ref = "s3://" ++ source_id_of obj;
    content_type = resolve_content_type obj;
    tenant_id = setup.tenant_id;
    metadata = etag_and_size (or_else obj.etag "") (or_else obj.size 0);
    event_id = event_id;
  }

  -- What the loop does with an object that passes both filters: the new watermark, and the object
  -- with its event if it is yielded.
  unfoldable pub publish_object :
      S3Object → Option ℕ → Run (Option ℕ × Option (S3Object × RawDocumentEvent))
  publish_object obj new_watermark s =
      let event = event_of obj (setup.uuid4 s.world) in
      (call o (write_source_file_status event.source_id event.event_id pending none)
          >> publish_with_retry o event
          >>= λ published.
              if not published
              then note o count_error >> pure (new_watermark, none)
              else (if setup.has_metadata_publisher
                  then attempt o (raw_document event)
                  else pure tt)
                >> pure (newer new_watermark (as_utc obj.last_modified), some (obj, event)))
        s

  -- The body of the loop.
  unfoldable pub visit :
      S3Object → Option ℕ → Option ℕ → Run (Option ℕ × Option (S3Object × RawDocumentEvent))
  unfolding publish_object
  visit obj watermark new_watermark =
      if is_seen watermark (as_utc obj.last_modified)
      then pure (new_watermark, none)
      else if not (setup.is_file_type (resolve_content_type obj))
      then call o (
          write_source_file_status (source_id_of obj) "" error
            (some ("content_type " ++ (resolve_content_type obj ++ " not in allowlist"))))
        >> pure (new_watermark, none)
      else publish_object obj new_watermark

  abbrev pub cons_some {ℓ} : {A : Type ℓ} → Option A → List A → List A
  cons_some none xs = xs
  cons_some (some x) xs = x ∷ xs

  -- The loop: the new watermark, and what is yielded.
  pub visit_all :
      List S3Object → Option ℕ → Option ℕ → Run (Option ℕ × List (S3Object × RawDocumentEvent))
  unfolding visit
  visit_all [] watermark new_watermark = pure (new_watermark, [])
  visit_all (obj ∷ objects) watermark new_watermark =
      visit obj watermark new_watermark >>= λ (seen, event).
      visit_all objects watermark seen >>= λ (last, events). pure (last, cons_some event events)

  -- `poll` from the watermark read: the loop, and the write of a new watermark.
  unfoldable pub poll_from :
      Option ℕ → List S3Object → Run (Option ℕ × List (S3Object × RawDocumentEvent))
  unfolding visit_all
  poll_from watermark objects = visit_all objects watermark watermark >>= λ (last, events).
      (if is_moved watermark last
        then call o (hset_watermark (setup.isoformat (or_else last 0)))
        else pure tt)
      >> pure (last, events)

  abbrev lift_world : {A : Type 0} → Action o.World o.Exn A → Run A
  lift_world m s = let (r, w) = m s.world in (r, record s { world = w })

  -- `get_watermark`
  unfoldable pub get_watermark : Run (Option ℕ)
  get_watermark =
      lift_world (setup.hget ("connector:" ++ (setup.connector_id ++ ":watermark"))) >>= λ raw.
      elim raw [
        | none ↦ pure none
        | some text ↦
            λ s. elim (setup.fromisoformat text) [ ok t ↦ (ok (some t), s) | err e ↦ (err e, s) ]
      ]

  -- `poll`
  unfoldable pub poll : Run (Option ℕ × List (S3Object × RawDocumentEvent))
  unfolding get_watermark poll_from
  poll = get_watermark >>= λ watermark.
      lift_world (setup.list_objects setup.minio_bucket) >>= λ objects. poll_from watermark objects
