-- ===== src/Metadata/Lineage/Rounds.antt =====
-- The walks come to an end at their limits.
use aidata_pipeline.Prelude.{
  ℕ, zero, suc, ◌+◌, ◌≤◌, ◌≡◌, refl, ap, ◌∙◌, inl, inr, String, Bool, ◌&&◌, some, List, [], ◌∷◌,
  ◌++◌, All, arith, Bool-cases, ◌==◌, ltb, select_where, concat_map, All-append, All-select_where,
  All-concat_map, concat_map-empty,
}
use aidata_pipeline.Metadata.Tables.{Entity, Edge, Tables}
use aidata_pipeline.Metadata.Lineage.{
  Row, Direction, upstream, downstream, over_edge, round, rounds, root, upstream_roots,
  downstream_roots, upstream_chain, downstream_chain,
}

abbrev Anything : {A : Type 0} → A → Type 0
Anything x = Unit

All-Anything : {A : Type 0} (xs : List A) → All Anything xs
All-Anything [] = tt
All-Anything (x ∷ xs) = (tt, All-Anything xs)

-- An edge leads one deeper, and never beyond the limit.
over_edge-depth :
    (dir : Direction) (db : Tables) (row : Row) (l : Edge)
    → All (λ r. (r.depth ≡ row.depth + 1) × (r.depth ≤ dir.limit)) (over_edge dir db row l)
unfolding over_edge
over_edge-depth dir db row l =
    elim (Bool-cases (ltb row.depth dir.limit && (dir.near l == row.entity.id))) [
      | inr f ↦ ground (arith, f)
      | inl g ↦
          let rows =
            All-select_where {B = Row} Anything
              (λ r. (r.depth ≡ row.depth + 1) × (r.depth ≤ dir.limit)) (λ e. e.id == dir.far l)
              (λ e. record {
                entity = e;
                relationship = some l.relationship;
                depth = row.depth + 1;
              })
              db.entities (λ e c p. (refl, ground (arith, g))) (All-Anything db.entities) in
          ground (arith, g, rows)
    ]

All-weaken :
    (P Q : Row → Type 0) (rows : List Row) → ((r : Row) → P r → Q r) → All P rows → All Q rows
All-weaken P Q [] f h = tt
All-weaken P Q (r ∷ rows) f (h, hs) = (f r h, All-weaken P Q rows f hs)

round-depth :
    (n : ℕ) (dir : Direction) (db : Tables) (rows : List Row)
    → All (λ r. dir.limit ≤ r.depth + suc n) rows
    → All (λ r. dir.limit ≤ r.depth + n) (round dir db rows)
unfolding round
round-depth n dir db rows h =
    All-concat_map (λ r. dir.limit ≤ r.depth + suc n) (λ r. dir.limit ≤ r.depth + n)
      (λ row. concat_map (over_edge dir db row) db.lineage) rows
      (λ row w.
        All-concat_map Anything (λ r. dir.limit ≤ r.depth + n) (over_edge dir db row) db.lineage
          (λ l _.
            All-weaken (λ r. (r.depth ≡ row.depth + 1) × (r.depth ≤ dir.limit))
              (λ r. dir.limit ≤ r.depth + n) _ (λ r p. omega (arith, w, p))
              (over_edge-depth dir db row l))
          (All-Anything db.lineage))
      h

round-within :
    (dir : Direction) (db : Tables) (rows : List Row)
    → All (λ r. r.depth ≤ dir.limit) (round dir db rows)
unfolding round
round-within dir db rows =
    All-concat_map Anything (λ r. r.depth ≤ dir.limit)
      (λ row. concat_map (over_edge dir db row) db.lineage) rows
      (λ row _.
        All-concat_map Anything (λ r. r.depth ≤ dir.limit) (over_edge dir db row) db.lineage
          (λ l _.
            All-weaken (λ r. (r.depth ≡ row.depth + 1) × (r.depth ≤ dir.limit))
              (λ r. r.depth ≤ dir.limit) _ (λ r p. p.1) (over_edge-depth dir db row l))
          (All-Anything db.lineage))
      (All-Anything rows)

rounds-within :
    (n : ℕ) (dir : Direction) (db : Tables) (rows : List Row)
    → All (λ r. r.depth ≤ dir.limit) rows
    → All (λ r. r.depth ≤ dir.limit) (rounds n dir db rows)
unfolding rounds
rounds-within zero dir db rows h = h
rounds-within (suc n) dir db rows h =
    All-append (λ r. r.depth ≤ dir.limit) (rounds n dir db (round dir db rows)) rows
      (rounds-within n dir db (round dir db rows) (round-within dir db rows)) h

-- At the limit there is nothing more to add.
round-deep :
    (dir : Direction) (db : Tables) (rows : List Row)
    → All (λ r. dir.limit ≤ r.depth + 0) rows
    → round dir db rows ≡ []
unfolding round over_edge
round-deep dir db rows h =
    concat_map-empty (λ r. dir.limit ≤ r.depth + 0)
      (λ row. concat_map (over_edge dir db row) db.lineage) rows
      (λ row w.
        concat_map-empty Anything (over_edge dir db row) db.lineage (λ l _. ground (arith, w))
          (All-Anything db.lineage))
      h

rounds-nil : (n : ℕ) (dir : Direction) (db : Tables) → rounds n dir db [] ≡ []
unfolding rounds
rounds-nil zero dir db = refl
rounds-nil (suc n) dir db = ground (arith, rounds-nil n dir db, round-deep dir db [] tt)

rounds-done :
    (k : ℕ) (dir : Direction) (db : Tables) (rows : List Row)
    → round dir db rows ≡ []
    → rounds k dir db rows ≡ rows
unfolding rounds
rounds-done zero dir db rows h = refl
rounds-done (suc k) dir db rows h = ground (arith, h, rounds-nil k dir db)

rounds-enough :
    (n k : ℕ) (dir : Direction) (db : Tables) (rows : List Row)
    → All (λ r. dir.limit ≤ r.depth + n) rows
    → rounds (n + k) dir db rows ≡ rounds n dir db rows
unfolding rounds
rounds-enough zero k dir db rows h =
    let first : 0 + k ≡ k = omega arith in
    ap (λ m. rounds m dir db rows) first ∙ rounds-done k dir db rows (round-deep dir db rows h)
rounds-enough (suc n) k dir db rows h =
    let next : suc n + k ≡ suc (n + k) = omega arith in
    ap (λ m. rounds m dir db rows) next
    ∙ ap (λ x. x ++ rows)
        (rounds-enough n k dir db (round dir db rows) (round-depth n dir db rows h))

-- Both walks come to an end, however the edges run in circles: rounds beyond the limit add no row, and
-- no row is deeper than the limit, 5 upstream and 4 downstream.
pub chains-end :
    (chunk_id tenant_id source_path : String) (k : ℕ) (db : Tables)
    → ((rounds (5 + k) upstream db (upstream_roots chunk_id db) ≡ upstream_chain chunk_id db)
        × All (λ r. r.depth ≤ 5) (upstream_chain chunk_id db))
      × ((rounds (4 + k) downstream db (downstream_roots tenant_id source_path db)
            ≡ downstream_chain tenant_id source_path db)
          × All (λ r. r.depth ≤ 4) (downstream_chain tenant_id source_path db))
unfolding upstream_chain downstream_chain upstream_roots downstream_roots
chains-end chunk_id tenant_id source_path k db =
    let roots : (limit : ℕ) (test : Entity → Bool)
        → All (λ r. limit ≤ r.depth + limit) (select_where test root db.entities) =
      λ limit test.
        All-select_where Anything (λ r. limit ≤ r.depth + limit) test root db.entities
          (λ e c p. omega arith) (All-Anything db.entities) in
    let flat : (limit : ℕ) (test : Entity → Bool)
        → All (λ r. r.depth ≤ limit) (select_where test root db.entities) =
      λ limit test.
        All-select_where Anything (λ r. r.depth ≤ limit) test root db.entities
          (λ e c p. omega arith) (All-Anything db.entities) in
    (
      (rounds-enough 5 k upstream db _ (roots 5 _), rounds-within 5 upstream db _ (flat 5 _)),
      (rounds-enough 4 k downstream db _ (roots 4 _), rounds-within 4 downstream db _ (flat 4 _)),
    )
