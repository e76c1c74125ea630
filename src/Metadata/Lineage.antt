-- ===== src/Metadata/Lineage.antt =====
-- services/metadata-service/src/db.py: the queries that follow the edges, `WITH RECURSIVE`.
pub mod Tenants
pub mod Rounds
pub mod Groups
use text.Mathlib.Text.{◌==◌ as str_eq}
use aidata_pipeline.Prelude.{
  ℕ, zero, suc, ◌+◌, ◌≤◌, ◌<◌, ◌≡◌, refl, ap, ◌∙◌, String, Bool, true, false, ◌&&◌, Option, none,
  some, List, [], ◌∷◌, ◌++◌, map, ◌==◌, ltb, if◌then◌else◌, select_where, concat_map,
}
use aidata_pipeline.Metadata.Tables.{Attributes, Entity, Edge, Tables}

-- A row of the recursive query.
pub record Row : Type 0 where
  pub entity : Entity
  pub relationship : Option String
  pub depth : ℕ

-- The ends of an edge, the one that the walk comes from first.
pub record Direction : Type 0 where
  pub near : Edge → ℕ
  pub far : Edge → ℕ
  pub limit : ℕ

abbrev pub upstream : Direction
upstream = record { near = λ l. l.downstream_id; far = λ l. l.upstream_id; limit = 5 }

abbrev pub downstream : Direction
downstream = record { near = λ l. l.upstream_id; far = λ l. l.downstream_id; limit = 4 }

-- The entities over one edge from a row.
unfoldable pub over_edge : Direction → Tables → Row → Edge → List Row
over_edge dir db row l =
    if ltb row.depth dir.limit && (dir.near l == row.entity.id)
    then select_where (λ e. e.id == dir.far l)
        (λ e. record { entity = e; relationship = some l.relationship; depth = row.depth + 1 })
        db.entities
    else []

-- The second select, on the rows that the last round gave.
unfoldable pub round : Direction → Tables → List Row → List Row
round dir db rows = concat_map (λ row. concat_map (over_edge dir db row) db.lineage) rows

-- So many rounds, the rows of the last one first.
unfoldable pub rounds : ℕ → Direction → Tables → List Row → List Row
rounds zero dir db rows = rows
rounds (suc n) dir db rows = rounds n dir db (round dir db rows) ++ rows

abbrev pub root : Entity → Row
root e = record { entity = e; relationship = none; depth = 0 }

-- The first selects.
unfoldable pub upstream_roots : String → Tables → List Row
upstream_roots chunk_id db = select_where (λ e. str_eq e.entity_key chunk_id) root db.entities

-- `attributes->>member`
unfoldable pub member : String → Attributes → Option String
member key [] = none
member key ((k, v) ∷ members) = if str_eq k key then some v else member key members

abbrev pub is_value : String → Option String → Bool
is_value v none = false
is_value v (some x) = str_eq x v

abbrev pub is_root : String → String → Entity → Bool
is_root tenant_id source_path e =
    str_eq e.entity_type "RawDocument"
    && (is_value source_path (member "source_path" e.attributes) && str_eq e.tenant_id tenant_id)

unfoldable pub downstream_roots : String → String → Tables → List Row
downstream_roots tenant_id source_path db =
    select_where (is_root tenant_id source_path) root db.entities

-- A row of the answer.
pub record Found : Type 0 where
  pub entity_type : String
  pub entity_key : String
  pub attributes : Attributes
  pub relationship : Option String
  pub depth : ℕ

abbrev pub found : Row → Found
found row = record {
  entity_type = row.entity.entity_type;
  entity_key = row.entity.entity_key;
  attributes = row.entity.attributes;
  relationship = row.relationship;
  depth = row.depth;
}

unfoldable pub upstream_chain : String → Tables → List Row
upstream_chain chunk_id db = rounds upstream.limit upstream db (upstream_roots chunk_id db)

unfoldable pub query_upstream : String → Tables → List Found
query_upstream chunk_id db = map found (upstream_chain chunk_id db)

unfoldable pub downstream_chain : String → String → Tables → List Row
downstream_chain tenant_id source_path db =
    rounds downstream.limit downstream db (downstream_roots tenant_id source_path db)

-- `GROUP BY entity_type`
pub record Group : Type 0 where
  pub entity_type : String
  pub count : ℕ
  pub entity_keys : List String

unfoldable pub add_to_group : Entity → List Group → List Group
add_to_group e [] =
    record { entity_type = e.entity_type; count = 1; entity_keys = e.entity_key ∷ [] } ∷ []
add_to_group e (g ∷ gs) =
    let rest = add_to_group e gs in
    if str_eq g.entity_type e.entity_type
    then record g { count = g.count + 1; entity_keys = g.entity_keys ++ (e.entity_key ∷ []) } ∷ gs
    else g ∷ rest

unfoldable pub group_by_type : List Entity → List Group
group_by_type [] = []
group_by_type (e ∷ es) = add_to_group e (group_by_type es)

unfoldable pub query_downstream : String → String → Tables → List Group
query_downstream tenant_id source_path db = group_by_type (
    select_where (λ row. ltb 0 row.depth) (λ row. row.entity)
      (downstream_chain tenant_id source_path db))
