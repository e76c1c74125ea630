-- ===== src/Metadata/Lineage/Groups.antt =====
-- The groups count what was found.
use text.Mathlib.Text.{◌==◌ as str_eq}
use aidata_pipeline.Prelude.{ℕ, ◌+◌, String, List, [], ◌∷◌, ltb, if◌then◌else◌, select_where}
use aidata_pipeline.Metadata.Tables.{Entity, Tables}
use aidata_pipeline.Metadata.Lineage.{Group, downstream_chain}

-- What the groups of a type count together.
abbrev pub count_of : String → List Group → ℕ
count_of t [] = 0
count_of t (g ∷ gs) = (if str_eq g.entity_type t then g.count else 0) + count_of t gs

-- How many groups have a type.
abbrev pub groups_of : String → List Group → ℕ
groups_of t [] = 0
groups_of t (g ∷ gs) = (if str_eq g.entity_type t then 1 else 0) + groups_of t gs

abbrev pub number_of : String → List Entity → ℕ
number_of t [] = 0
number_of t (e ∷ es) = (if str_eq e.entity_type t then 1 else 0) + number_of t es

-- The rows below the roots.
abbrev pub below : String → String → Tables → List Entity
below tenant_id source_path db =
    select_where (λ row. ltb 0 row.depth) (λ row. row.entity)
      (downstream_chain tenant_id source_path db)
