-- ===== src/Metadata/Consumer/Changes.antt =====
-- What an event stands for: the change of the tables that it asks for, with no transaction and no
-- failure of a statement.
use text.Mathlib.Text.{◌==◌ as str_eq}
use aidata_pipeline.Prelude.{ℕ, String, Option, none, some, List, [], ◌∷◌, if◌then◌else◌}
use aidata_pipeline.Metadata.Tables.{
  Tables, select_id, upsert_entity, insert_edge, insert_quality, update_quality_failed,
}
use aidata_pipeline.Metadata.Events.{Check, Ref, Data, get_or}
use aidata_pipeline.Metadata.Writes.{row_of}
use aidata_pipeline.Metadata.Consumer.{new_entity, run}

-- A change of the tables that may stop at a member that is missing.
abbrev pub Change : Type 0 → Type 0
Change A = Tables → Option A × Tables

abbrev pub follow : {A B : Type 0} → Option A × Tables → (A → Change B) → Option B × Tables
follow (none, db) g = (none, db)
follow (some a, db) g = g a db

abbrev pub edge_to : ℕ → Option String → String → Option ℕ → Tables → Tables
edge_to id run relationship none db = db
edge_to id run relationship (some upstream) db =
    insert_edge
      (record {
        upstream_id = upstream;
        downstream_id = id;
        relationship = relationship;
        pipeline_run_id = run;
      })
      db

-- A reference adds its edge where it is complete and its entity is known.
unfoldable pub ref_change : String → ℕ → Option String → Ref → Tables → Tables
ref_change t id run ref db = elim ref.entity_type [
  | none ↦ db
  | some e ↦ elim ref.entity_key [
    | none ↦ db
    | some k ↦ elim ref.relationship [
      | none ↦ db
      | some r ↦
          edge_to id run r
            (select_id (record { tenant_id = t; entity_type = e; entity_key = k }) db.entities) db
    ]
  ]
]

unfoldable pub refs_change : String → ℕ → Option String → List Ref → Tables → Tables
refs_change t id run [] db = db
refs_change t id run (ref ∷ refs) db = refs_change t id run refs (ref_change t id run ref db)

-- Rows for the checks up to the first that lacks its name or its status.
unfoldable pub checks_change : ℕ → Option String → List Check → Change (List Check)
checks_change id run [] db = (some [], db)
checks_change id run (check ∷ checks) db = elim check.check_name [
  | none ↦ (none, db)
  | some name ↦ elim check.status [
    | none ↦ (none, db)
    | some status ↦
        follow (checks_change id run checks (insert_quality (row_of id run name status check) db))
          (λ failed db'. (some (if str_eq status "failed" then check ∷ failed else failed), db'))
  ]
]

unfoldable pub failed_change : ℕ → List Check → Tables → Tables
failed_change id [] db = db
failed_change id (check ∷ checks) db = update_quality_failed id db

-- What follows from the entity.
unfoldable pub rest_change : Data → ℕ → Change Unit
rest_change reported id db =
    follow
      (checks_change id reported.pipeline_run_id (get_or reported.quality_checks []) (
        refs_change (new_entity reported).key.tenant_id id reported.pipeline_run_id
          (get_or reported.upstream []) db))
      (λ failed db'. (some tt, failed_change id failed db'))

-- The tables that an event of the handled type stands for.
unfoldable pub data_change : Data → Change Unit
data_change reported db =
    let (id, db') = upsert_entity (new_entity reported) db in rest_change reported id db'
