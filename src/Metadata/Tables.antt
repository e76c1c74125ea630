-- ===== src/Metadata/Tables.antt =====
-- services/metadata-service/src/db.py: the rows that its statements touch, and each statement that
-- writes as a function of the tables. Ids are numbers given out in order: what the code relies on is
-- that a new one is not in use. The members of a JSON object are texts.
pub mod Keys
pub mod Edges
pub mod Sound
use text.Mathlib.Text.{◌==◌ as str_eq}
use aidata_pipeline.Prelude.{
  ℕ, ◌+◌, String, Bool, true, false, ◌&&◌, ◌||◌, Option, none, some, List, [], ◌∷◌, ◌++◌, ◌==◌,
  if◌then◌else◌,
}

abbrev pub Attributes : Type 0
Attributes = List (String × String)

pub record Entity : Type 0 where
  pub id : ℕ
  pub entity_type : String
  pub entity_key : String
  pub tenant_id : String
  pub attributes : Attributes
  pub pipeline_run_id : Option String
  pub schema_version_id : Option ℕ
  pub is_current : Bool

pub record Edge : Type 0 where
  pub upstream_id : ℕ
  pub downstream_id : ℕ
  pub relationship : String
  pub pipeline_run_id : Option String

pub record QualityRow : Type 0 where
  pub entity_id : ℕ
  pub run_id : Option String
  pub check_name : String
  pub status : String
  pub value : Option String
  pub threshold : Option String
  pub message : Option String

pub record Tables : Type 0 where
  pub entities : List Entity
  pub lineage : List Edge
  pub data_quality : List QualityRow
  pub next_id : ℕ

-- The columns of an entity that identify it.
pub record Key : Type 0 where
  pub tenant_id : String
  pub entity_type : String
  pub entity_key : String

pub record NewEntity : Type 0 where
  pub key : Key
  pub attributes : Attributes
  pub pipeline_run_id : Option String
  pub schema_version_id : Option ℕ

-- `(tenant_id, entity_type, entity_key)` are those of an entity.
abbrev pub has_key : Key → Entity → Bool
has_key key e =
    str_eq e.tenant_id key.tenant_id
    && (str_eq e.entity_type key.entity_type && str_eq e.entity_key key.entity_key)

-- The select of `insert_lineage_edge`.
unfoldable pub select_id : Key → List Entity → Option ℕ
select_id key [] = none
select_id key (e ∷ es) = if has_key key e then some e.id else select_id key es

-- `DO UPDATE SET`: the run and the schema version of the row stay.
abbrev pub refresh : Attributes → Entity → Entity
refresh attributes e = record e { attributes = attributes; is_current = true }

unfoldable pub update_key : Key → Attributes → List Entity → List Entity
update_key key attributes [] = []
update_key key attributes (e ∷ es) =
    (if has_key key e then refresh attributes e else e) ∷ update_key key attributes es

abbrev pub entity_of : NewEntity → ℕ → Entity
entity_of new id = record {
  id = id;
  entity_type = new.key.entity_type;
  entity_key = new.key.entity_key;
  tenant_id = new.key.tenant_id;
  attributes = new.attributes;
  pipeline_run_id = new.pipeline_run_id;
  schema_version_id = new.schema_version_id;
  is_current = true;
}

-- The two outcomes of the statement: the row there is, or a new one.
unfoldable pub write_entity : Option ℕ → NewEntity → Tables → ℕ × Tables
write_entity (some id) new db =
    (id, record db { entities = update_key new.key new.attributes db.entities })
write_entity none new db = (
  db.next_id,
  record db { entities = db.entities ++ (entity_of new db.next_id ∷ []); next_id = db.next_id + 1 },
)

-- The statement of `upsert_entity`; the `updated_at` that it sets is left out, as all times are.
unfoldable pub upsert_entity : NewEntity → Tables → ℕ × Tables
upsert_entity new db = write_entity (select_id new.key db.entities) new db

abbrev pub same_edge : Edge → Edge → Bool
same_edge a b =
    (a.upstream_id == b.upstream_id)
    && ((a.downstream_id == b.downstream_id) && str_eq a.relationship b.relationship)

unfoldable pub has_edge : Edge → List Edge → Bool
has_edge edge [] = false
has_edge edge (x ∷ xs) = same_edge edge x || has_edge edge xs

-- The insert of `insert_lineage_edge`, which does nothing on a conflict.
unfoldable pub insert_edge : Edge → Tables → Tables
unfolding has_edge
insert_edge edge db =
    if has_edge edge db.lineage then db else record db { lineage = db.lineage ++ (edge ∷ []) }

-- The insert of `insert_quality_checks`.
unfoldable pub insert_quality : QualityRow → Tables → Tables
insert_quality row db = record db { data_quality = db.data_quality ++ (row ∷ []) }

-- `attributes || '{key: value}'`
unfoldable pub set_member : String → String → Attributes → Attributes
set_member key value [] = (key, value) ∷ []
set_member key value ((k, v) ∷ members) =
    let rest = set_member key value members in
    if str_eq key k then (k, value) ∷ members else (k, v) ∷ rest

unfoldable pub mark_failed : ℕ → List Entity → List Entity
unfolding set_member
mark_failed id [] = []
mark_failed id (e ∷ es) =
    (if e.id == id
      then record e { attributes = set_member "quality_status" "failed" e.attributes }
      else e)
    ∷ mark_failed id es

-- The statement of `update_entity_quality_failed`.
unfoldable pub update_quality_failed : ℕ → Tables → Tables
unfolding mark_failed
update_quality_failed id db = record db { entities = mark_failed id db.entities }
