-- ===== src/Metadata/Versions.antt =====
-- services/metadata-service/src/db.py: the versions of a tenant's schema, and the embeddings that an
-- older one made.
pub mod Current
pub mod Stale
use text.Mathlib.Text.{◌==◌ as str_eq}
use aidata_pipeline.Prelude.{
  ℕ, ◌+◌, max, String, Bool, true, false, not, ◌&&◌, Option, none, some, List, [], ◌∷◌, ◌++◌, ◌==◌,
  leb, if◌then◌else◌, select_where, concat_map,
}
use aidata_pipeline.Prelude.Action.{Action, ok, err, ◌>>=◌, ◌>>◌, pure}
use aidata_pipeline.External.Database.{Database}
use aidata_pipeline.Metadata.Tables.{Entity, Attributes}
use aidata_pipeline.Metadata.Lineage.{member}

-- The parameters of `create_schema_version`.
pub record NewVersion : Type 0 where
  pub tenant_id : String
  pub embedding_model : String
  pub embedding_dimension : ℕ
  pub embedding_backend : String
  pub chunk_size : ℕ
  pub chunk_overlap : ℕ
  pub chunking_strategy : String
  pub index_type : String
  pub created_by : Option String

pub record Version : Type 0 where
  pub id : ℕ
  pub version_number : ℕ
  pub is_current : Bool
  pub made_from : NewVersion

pub record Versions : Type 0 where
  pub rows : List Version
  pub next_id : ℕ

-- The UPDATE.
unfoldable pub deactivate : String → List Version → List Version
deactivate tenant_id [] = []
deactivate tenant_id (v ∷ vs) =
    (if str_eq v.made_from.tenant_id tenant_id then record v { is_current = false } else v)
    ∷ deactivate tenant_id vs

-- `COALESCE((SELECT MAX(version_number) ...), 0)`
unfoldable pub max_version : String → List Version → ℕ
max_version tenant_id [] = 0
max_version tenant_id (v ∷ vs) =
    let rest = max_version tenant_id vs in
    if str_eq v.made_from.tenant_id tenant_id then max v.version_number rest else rest

abbrev pub version_of : NewVersion → Versions → Version
version_of new table = record {
  id = table.next_id;
  version_number = max_version new.tenant_id table.rows + 1;
  is_current = true;
  made_from = new;
}

-- The INSERT.
unfoldable pub insert_version : NewVersion → Versions → Version × Versions
insert_version new table = (
  version_of new table,
  record { rows = table.rows ++ (version_of new table ∷ []); next_id = table.next_id + 1 },
)

module _ (d : Database Versions) where
  unfoldable pub create_schema_version : NewVersion → Action d.Conn d.Exn Version
  create_schema_version new =
      d.execute (λ table. (tt, record table { rows = deactivate new.tenant_id table.rows }))
      >>= λ _. d.execute (insert_version new) >>= λ row. d.commit >> pure row

-- A row of the answer of `query_stale`.
pub record Outdated : Type 0 where
  pub embedding_id : String
  pub chunk_id : Option String
  pub model_name : Option String
  pub schema_version : ℕ
  pub old_model : String
  pub current_model : String

abbrev pub is_version : Option ℕ → Version → Bool
is_version none v = false
is_version (some id) v = v.id == id

-- The rows that the joins give for an entity and the version it was made with.
unfoldable pub outdated_by : Entity → List Version → Version → List Outdated
outdated_by e versions sv =
    select_where
      (λ cv.
        str_eq cv.made_from.tenant_id sv.made_from.tenant_id
        && (cv.is_current && not (sv.id == cv.id)))
      (λ cv. record {
        embedding_id = e.entity_key;
        chunk_id = member "chunk_id" e.attributes;
        model_name = member "model_name" e.attributes;
        schema_version = sv.version_number;
        old_model = sv.made_from.embedding_model;
        current_model = cv.made_from.embedding_model;
      })
      versions

unfoldable pub outdated : String → List Version → Entity → List Outdated
outdated tenant_id versions e =
    if str_eq e.entity_type "Embedding" && str_eq e.tenant_id tenant_id
    then concat_map (outdated_by e versions)
        (select_where (is_version e.schema_version_id) (λ v. v) versions)
    else []

-- `ORDER BY version_number`
unfoldable pub put_in_order : Outdated → List Outdated → List Outdated
put_in_order x [] = x ∷ []
put_in_order x (y ∷ ys) =
    let rest = put_in_order x ys in
    if leb x.schema_version y.schema_version then x ∷ (y ∷ ys) else y ∷ rest

unfoldable pub order_by_version : List Outdated → List Outdated
order_by_version [] = []
order_by_version (x ∷ xs) = put_in_order x (order_by_version xs)

unfoldable pub query_stale : String → List Version → List Entity → List Outdated
query_stale tenant_id versions entities =
    order_by_version (concat_map (outdated tenant_id versions) entities)
