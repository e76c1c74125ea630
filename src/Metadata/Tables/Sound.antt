-- ===== src/Metadata/Tables/Sound.antt =====
-- The remaining statements keep what the tables promise.
use text.Mathlib.TextEquality.{eq_iff}
use aidata_pipeline.Prelude.{
  ℕ, ◌<◌, ◌≡◌, refl, inl, inr, String, Option, none, some, List, [], ◌∷◌, ◌++◌, All, arith,
  Bool-cases,
}
use aidata_pipeline.Metadata.Tables.{
  Entity, Edge, Tables, Key, NewEntity, QualityRow, has_key, select_id, entity_of, write_entity,
  upsert_entity, insert_edge, has_edge, mark_failed, update_quality_failed, insert_quality,
}
use aidata_pipeline.Metadata.Tables.Keys.{count_key-mark_failed}
use aidata_pipeline.Metadata.Tables.Edges.{
  tenant_at, Joins, Joins-Extends, IsSound, Extends, All-map, All-mark_failed,
  tenant_at-mark_failed, tenant_at-update_key, tenant_at-append, tenant_at-fresh,
}

-- What a select finds for a key is an entity of the key's tenant.
select-located :
    (key : Key) (es all : List Entity)
    → All (λ e. tenant_at e.id all ≡ some e.tenant_id) es
    → (id : ℕ) → select_id key es ≡ some id
    → tenant_at id all ≡ some key.tenant_id
unfolding select_id
select-located key [] all h id s = ground arith
select-located key (e ∷ es) all (h, hs) id s = elim (Bool-cases (has_key key e)) [
  | inl t ↦ ground (arith, h, eq_iff e.tenant_id key.tenant_id)
  | inr f ↦ ground (arith, select-located key es all hs id)
]

pub select_id-located :
    (key : Key) (id : ℕ) (db : Tables)
    → IsSound db
    → select_id key db.entities ≡ some id
    → tenant_at id db.entities ≡ some key.tenant_id
select_id-located key id db s = select-located key db.entities db.entities s.located id

write_entity-located :
    (found : Option ℕ) (new : NewEntity) (db : Tables)
    → select_id new.key db.entities ≡ found
    → IsSound db
    → tenant_at (write_entity found new db).0 (write_entity found new db).1.entities
      ≡ some new.key.tenant_id
unfolding write_entity
write_entity-located (some id) new db e s = ground (
  arith,
  select_id-located new.key id db s e,
  tenant_at-update_key id new.key new.attributes db.entities,
)
write_entity-located none new db e s = ground (
  arith,
  tenant_at-append db.next_id db.entities (entity_of new db.next_id),
  tenant_at-fresh db.next_id db.entities s.fresh,
)

-- The id that an upsert returns is one of the entity's tenant.
pub upsert_entity-located :
    (new : NewEntity) (db : Tables)
    → IsSound db
    → tenant_at (upsert_entity new db).0 (upsert_entity new db).1.entities ≡ some new.key.tenant_id
unfolding upsert_entity
upsert_entity-located new db = write_entity-located (select_id new.key db.entities) new db refl

append-Joins :
    (es : List Entity) (x : Edge) (xs : List Edge)
    → All (Joins es) xs
    → Joins es x
    → All (Joins es) (xs ++ (x ∷ []))
append-Joins es x [] h j = (j, tt)
append-Joins es x (y ∷ ys) (h, hs) j = (h, append-Joins es x ys hs j)

pub insert_edge-IsSound :
    (x : Edge) (db : Tables) (t : String)
    → tenant_at x.upstream_id db.entities ≡ some t
    → tenant_at x.downstream_id db.entities ≡ some t
    → IsSound db
    → IsSound (insert_edge x db)
unfolding insert_edge
insert_edge-IsSound x db t up down s =
    let j : Joins db.entities x = ground (arith, up, down) in
    elim (Bool-cases (has_edge x db.lineage)) [
      | inl e ↦ ground (arith, s)
      | inr e ↦
          let new : IsSound (record db { lineage = db.lineage ++ (x ∷ []) }) = record {
            unique = s.unique;
            fresh = s.fresh;
            located = s.located;
            joined = append-Joins db.entities x db.lineage s.joined j;
          } in
          ground (arith, new)
    ]

pub insert_quality-IsSound :
    (row : QualityRow) (db : Tables) → IsSound db → IsSound (insert_quality row db)
unfolding insert_quality
insert_quality-IsSound row db s = record {
  unique = s.unique;
  fresh = s.fresh;
  located = s.located;
  joined = s.joined;
}

pub update_quality_failed-IsSound :
    (id : ℕ) (db : Tables) → IsSound db → IsSound (update_quality_failed id db)
unfolding update_quality_failed
update_quality_failed-IsSound id db s =
    let es = mark_failed id db.entities in
    let ex : Extends db.entities es =
      λ i t h. ground (arith, tenant_at-mark_failed i id db.entities) in
    record {
      unique = λ key. ground (arith, s.unique key, count_key-mark_failed key id db.entities);
      fresh = All-mark_failed (λ i t. i < db.next_id) id db.entities s.fresh;
      located =
          All-mark_failed (λ i t. tenant_at i es ≡ some t) id db.entities
            (All-map (λ i t. tenant_at i db.entities ≡ some t) (λ i t. tenant_at i es ≡ some t)
              db.entities ex s.located);
      joined = Joins-Extends db.entities es ex db.lineage s.joined;
    }

-- The statements keep the tenant of an id.
pub insert_edge-tenant_at :
    (id : ℕ) (x : Edge) (db : Tables)
    → tenant_at id (insert_edge x db).entities ≡ tenant_at id db.entities
unfolding insert_edge
insert_edge-tenant_at id x db = ground arith

pub insert_quality-tenant_at :
    (id : ℕ) (row : QualityRow) (db : Tables)
    → tenant_at id (insert_quality row db).entities ≡ tenant_at id db.entities
unfolding insert_quality
insert_quality-tenant_at id row db = refl

pub update_quality_failed-tenant_at :
    (id j : ℕ) (db : Tables)
    → tenant_at id (update_quality_failed j db).entities ≡ tenant_at id db.entities
unfolding update_quality_failed
update_quality_failed-tenant_at id j db = tenant_at-mark_failed id j db.entities
