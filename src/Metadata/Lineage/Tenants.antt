-- ===== src/Metadata/Lineage/Tenants.antt =====
-- A walk along the edges stays within the tenant of its roots.
use text.Mathlib.Text.{◌==◌ as str_eq}
use text.Mathlib.TextEquality.{eq_iff}
use aidata_pipeline.Prelude.{
  ℕ, zero, suc, ◌+◌, ◌≡◌, ap, ◌∙◌, inl, inr, String, ◌&&◌, some, List, [], ◌∷◌, All, arith,
  Bool-cases, Option-cases, ◌==◌, ltb, concat_map, All-append, All-select_where, All-concat_map,
  All-both,
}
use aidata_pipeline.Metadata.Tables.{Edge, Tables}
use aidata_pipeline.Metadata.Tables.Edges.{tenant_at, Joins, IsSound}
use aidata_pipeline.Metadata.Lineage.{
  Row, Direction, upstream, downstream, over_edge, round, rounds, root, upstream_roots, is_root,
  downstream_roots, upstream_chain, downstream_chain,
}

-- The entity of a row is the tenant's, and so is its id.
abbrev Within : Tables → String → Row → Type 0
Within db t row = (tenant_at row.entity.id db.entities ≡ some t) × (row.entity.tenant_id ≡ t)

-- A direction whose ends are the two of an edge.
abbrev Spans : Tables → Direction → Type 0
Spans db dir =
    (l : Edge) (t : String)
    → Joins db.entities l
    → tenant_at (dir.near l) db.entities ≡ some t
    → tenant_at (dir.far l) db.entities ≡ some t

upstream-Spans : (db : Tables) → Spans db upstream
upstream-Spans db l t j h = elim (Option-cases (tenant_at l.upstream_id db.entities)) [
  | inl e ↦ ground (arith, e, j)
  | inr (u, e) ↦ ground (arith, e, j, h)
]

downstream-Spans : (db : Tables) → Spans db downstream
downstream-Spans db l t j h = ground (arith, j, h)

over_edge-Within :
    (dir : Direction) (db : Tables) (t : String) (row : Row) (l : Edge)
    → IsSound db
    → Spans db dir
    → Within db t row
    → Joins db.entities l
    → All (Within db t) (over_edge dir db row l)
unfolding over_edge
over_edge-Within dir db t row l s spans (h, k) j =
    elim (Bool-cases (ltb row.depth dir.limit && (dir.near l == row.entity.id))) [
      | inr f ↦ ground (arith, f)
      | inl g ↦
          let near : dir.near l ≡ row.entity.id = ground (arith, g) in
          let far : tenant_at (dir.far l) db.entities ≡ some t =
            spans l t j (ap (λ i. tenant_at i db.entities) near ∙ h) in
          let rows =
            All-select_where (λ e. tenant_at e.id db.entities ≡ some e.tenant_id) (Within db t)
              (λ e. e.id == dir.far l)
              (λ e. record {
                entity = e;
                relationship = some l.relationship;
                depth = row.depth + 1;
              })
              db.entities (λ e c p. ground (arith, c, p, far)) s.located in
          ground (arith, g, rows)
    ]

round-Within :
    (dir : Direction) (db : Tables) (t : String) (rows : List Row)
    → IsSound db
    → Spans db dir
    → All (Within db t) rows
    → All (Within db t) (round dir db rows)
unfolding round
round-Within dir db t rows s spans h =
    All-concat_map (Within db t) (Within db t) (λ row. concat_map (over_edge dir db row) db.lineage)
      rows
      (λ row w.
        All-concat_map (Joins db.entities) (Within db t) (over_edge dir db row) db.lineage
          (λ l j. over_edge-Within dir db t row l s spans w j) s.joined)
      h

rounds-Within :
    (n : ℕ) (dir : Direction) (db : Tables) (t : String) (rows : List Row)
    → IsSound db
    → Spans db dir
    → All (Within db t) rows
    → All (Within db t) (rounds n dir db rows)
unfolding rounds
rounds-Within zero dir db t rows s spans h = h
rounds-Within (suc n) dir db t rows s spans h =
    All-append (Within db t) (rounds n dir db (round dir db rows)) rows
      (rounds-Within n dir db t (round dir db rows) s spans (round-Within dir db t rows s spans h))
      h

All-tenant :
    (db : Tables) (t : String) (rows : List Row)
    → All (Within db t) rows
    → All (λ row. row.entity.tenant_id ≡ t) rows
All-tenant db t [] h = tt
All-tenant db t (row ∷ rows) ((p, q), hs) = (q, All-tenant db t rows hs)

-- In sound tables, every row of the chain that `query_downstream` walks, at any depth, is an entity of
-- the tenant that asks.
pub downstream_chain-tenant :
    (tenant_id source_path : String) (db : Tables)
    → IsSound db
    → All (λ row. row.entity.tenant_id ≡ tenant_id) (downstream_chain tenant_id source_path db)
unfolding downstream_chain downstream_roots
downstream_chain-tenant tenant_id source_path db s = All-tenant db tenant_id _ (
    rounds-Within downstream.limit downstream db tenant_id _ s (downstream-Spans db) (
      All-select_where (λ e. tenant_at e.id db.entities ≡ some e.tenant_id) (Within db tenant_id)
        (is_root tenant_id source_path) root db.entities
        (λ e c p. ground (arith, c, p, eq_iff e.tenant_id tenant_id)) s.located))

-- In sound tables, when the entities that have the key asked for are all of one tenant, every row of
-- the chain that `query_upstream` walks, at any depth, is an entity of that tenant.
pub upstream_chain-tenant :
    (chunk_id t : String) (db : Tables)
    → IsSound db
    → All (λ e. e.entity_key ≡ chunk_id → e.tenant_id ≡ t) db.entities
    → All (λ row. row.entity.tenant_id ≡ t) (upstream_chain chunk_id db)
unfolding upstream_chain upstream_roots
upstream_chain-tenant chunk_id t db s own = All-tenant db t _ (
    rounds-Within upstream.limit upstream db t _ s (upstream-Spans db) (
      All-select_where
        (λ e.
          (tenant_at e.id db.entities ≡ some e.tenant_id)
          × (e.entity_key ≡ chunk_id → e.tenant_id ≡ t))
        (Within db t) (λ e. str_eq e.entity_key chunk_id) root db.entities
        (λ e c p. ground (arith, c, p, eq_iff e.entity_key chunk_id))
        (All-both _ _ db.entities s.located own)))
