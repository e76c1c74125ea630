-- ===== src/Embedding/Tests.antt =====
-- A batch of two tenants, with a Milvus that takes everything or refuses one collection.
use text.Mathlib.Text.{◌==◌}
use aidata_pipeline.Prelude.{
  ℕ, ◌+◌, ◌≡◌, refl, ◌⊎◌, String, Bool, true, false, List, [], ◌∷◌, map, length, onto, arith,
  if◌then◌else◌,
}
use aidata_pipeline.Prelude.Action.{ok, err, Returned}
use aidata_pipeline.External.Calls.{Outside, Trace}
use aidata_pipeline.Embedding.Grouping.{append_to, group_onto, group_by}
use aidata_pipeline.Embedding.Grouping.Laws.{group_of, total, IsOwned, group_by_lem}
use aidata_pipeline.Embedding.{
  milvus_error, envelope, Call, upsert, Backend, Item, embed_twice, upsert_groups, send_to_dlq,
  process_batch,
}
use aidata_pipeline.Embedding.Batch.{
  commits, letters, rows_written, announced, events_of, reason_for, EmbedsAll,
  process_batch_settles,
}
use aidata_pipeline.Embedding.Placement.{WellPlaced, process_batch_places}

abbrev is_taken : String → Call ℕ → Bool
is_taken refused (upsert c rows) = if c == refused then false else true
is_taken refused _ = true

abbrev outside : String → Outside (Call ℕ)
outside refused = record {
  World = Unit;
  Exn = Unit;
  answer = λ c w. if is_taken refused c then (ok tt, w) else (err tt, w);
}

abbrev zeros : List String → List ℕ
zeros [] = []
zeros (t ∷ ts) = 0 ∷ zeros ts

abbrev backend : Backend Unit ℕ
backend = record {
  embed_batch = λ texts w. (ok (zeros texts), w);
  has_usage_producer = true;
  has_metadata_publisher = true;
}

abbrev item_of : String → ℕ → Item
item_of tenant n = (
  record { topic = "document-chunks"; partition = 0; offset = n; timestamp = 5 },
  record {
    doc_id = "d";
    chunk_id = "d:0";
    text = "hi";
    source_type = "s3";
    source_id = "docs/a.txt";
    tenant_id = tenant;
    created_at = 3;
  },
)

abbrev batch : List Item
batch = item_of "acme" 0 ∷ item_of "beta" 1 ∷ item_of "acme" 2 ∷ []

abbrev start : (refused : String) → Trace (outside refused)
start refused = record { world = tt; log = [] }

-- The rows of `acme` are written, and its chunks are dead letters all the same.
written_and_dead :
    let log = (process_batch (outside "beta_docs") backend batch (start "beta_docs")).1.log in
    (rows_written log ≡ 2) × (letters log ≡ onto (map (envelope milvus_error) batch) [])
unfolding process_batch embed_twice upsert_groups send_to_dlq append_to group_onto group_by
written_and_dead = (refl, refl)

length-zeros : (texts : List String) → length (zeros texts) ≡ length texts
length-zeros [] = refl
length-zeros (t ∷ ts) = ground (arith, length-zeros ts)

backend-EmbedsAll : EmbedsAll backend
unfolding EmbedsAll
backend-EmbedsAll texts w = length-zeros texts

process_batch_settles_example :
    Returned
      (λ _ s'.
        ((commits s'.log ≡ onto (map (λ item. item.0) batch) [])
          × (letters s'.log ≡ [])
          × (rows_written s'.log ≡ 0 + 3)
          × (announced s'.log ≡ onto (events_of batch) []))
        ⊎ ((commits s'.log ≡ [])
            × (letters s'.log
                ≡ onto
                    (map
                      (envelope (reason_for (outside "none") backend batch (start "none")))
                      batch)
                    [])
            × (announced s'.log ≡ [])))
      (process_batch (outside "none") backend batch (start "none"))
    × (let s' = (process_batch (outside "none") backend batch (start "none")).1 in
        (commits s'.log ≡ []) ⊎ ((rows_written s'.log ≡ 0 + 3) × (letters s'.log ≡ [])))
process_batch_settles_example =
    process_batch_settles (outside "none") backend batch (start "none") backend-EmbedsAll

process_batch_places_example :
    WellPlaced (process_batch (outside "beta_docs") backend batch (start "beta_docs")).1.log
process_batch_places_example =
    process_batch_places (outside "beta_docs") backend batch (start "beta_docs") tt

group_by_lem_example :
    (group_of "acme" (group_by (λ t. t) ("acme" ∷ "beta" ∷ "acme" ∷ [])) ≡ "acme" ∷ "acme" ∷ [])
    × (total (group_by (λ t. t) ("acme" ∷ "beta" ∷ "acme" ∷ [])) ≡ 3)
    × IsOwned (λ t. t) (group_by (λ t. t) ("acme" ∷ "beta" ∷ "acme" ∷ []))
group_by_lem_example = group_by_lem (λ t. t) "acme" ("acme" ∷ "beta" ∷ "acme" ∷ [])
