-- ===== src/Connector/S3/Watermark.antt =====
-- How a poll moves the watermark.
use aidata_pipeline.Prelude.{
  ℕ, ◌+◌, ◌<◌, max, ◌≡◌, ◌⊎◌, String, true, ◌++◌, if◌then◌else◌, Option, none, some, List, [], ◌∷◌,
}
use aidata_pipeline.External.Calls.{Outside, Entry}
use aidata_pipeline.Connector.{Call, hset_watermark, RawDocumentEvent}
use aidata_pipeline.Connector.S3.{S3Object, Setup, as_utc, resolve_content_type}

-- A watermark as a number: 0 for none, which is below every time.
abbrev pub rank : Option ℕ → ℕ
rank none = 0
rank (some t) = t + 1

abbrev pub Yielded : Type 0
Yielded = S3Object × RawDocumentEvent

-- The greatest of a rank and the ranks of some yielded objects.
abbrev pub highest : ℕ → List Yielded → ℕ
highest r [] = r
highest r ((obj, e) ∷ events) = max (as_utc obj.last_modified + 1) (highest r events)

abbrev writing : Entry Call → List String
writing x = elim x.made [ hset_watermark t ↦ if x.returned then t ∷ [] else [] | _ ↦ [] ]

-- The watermarks that a log has written, the latest first.
abbrev pub written : List (Entry Call) → List String
written [] = []
written (x ∷ log) = writing x ++ written log

module _ (o : Outside Call) (setup : Setup o.World o.Exn) where
  -- An object that a poll from this watermark may yield.
  abbrev pub Eligible : Option ℕ → S3Object → Type 0
  Eligible watermark obj =
      (rank watermark < as_utc obj.last_modified + 1)
      × (setup.is_file_type (resolve_content_type o setup obj) ≡ true)

  -- What is written of a poll's last watermark, for one that began with `watermark`: nothing if it
  -- has not moved, and otherwise its text.
  abbrev pub Written : Option ℕ → Option ℕ → List String → List String → Type 0
  Written watermark last old new =
      ((last ≡ watermark) × (new ≡ old))
      ⊎ ((t : ℕ) × (last ≡ some t) × (rank watermark < t + 1) × (new ≡ setup.isoformat t ∷ old))
