-- ===== src/Metadata/Tables/Edges.antt =====
-- The rows that the tables hold fit together: one entity for a key, ids that name one entity, and
-- edges between entities of one tenant.
use text.Mathlib.TextEquality.{eq_iff}
use aidata_pipeline.Prelude.{
  ℕ, ◌+◌, ◌≤◌, ◌<◌, ◌≡◌, refl, inl, inr, String, Option, none, some, List, [], ◌∷◌, ◌++◌, All,
  arith, Bool-cases, Option-cases, ◌==◌, if◌then◌else◌,
}
use aidata_pipeline.Metadata.Tables.{
  Entity, Edge, Tables, Key, NewEntity, Attributes, has_key, select_id, update_key, entity_of,
  write_entity, upsert_entity, mark_failed,
}
use aidata_pipeline.Metadata.Tables.Keys.{
  count_key, count_key-append, count_key-update_key, select_id-none,
}

-- The tenant of the entity with an id.
abbrev pub tenant_at : ℕ → List Entity → Option String
tenant_at id [] = none
tenant_at id (e ∷ es) = if e.id == id then some e.tenant_id else tenant_at id es

abbrev pub Agree : Option String → Option String → Type 0
Agree none other = ⊥
Agree (some t) other = other ≡ some t

-- An edge joins two entities of one tenant.
abbrev pub Joins : List Entity → Edge → Type 0
Joins es x = Agree (tenant_at x.upstream_id es) (tenant_at x.downstream_id es)

pub record IsSound (db : Tables) : Type 0 where
  pub unique : (key : Key) → count_key key db.entities ≤ 1
  pub fresh : All (λ e. e.id < db.next_id) db.entities
  pub located : All (λ e. tenant_at e.id db.entities ≡ some e.tenant_id) db.entities
  pub joined : All (Joins db.entities) db.lineage

-- Ids keep their tenants.
abbrev pub Extends : List Entity → List Entity → Type 0
Extends es es' = (id : ℕ) (t : String) → tenant_at id es ≡ some t → tenant_at id es' ≡ some t

pub Joins-Extends :
    (es es' : List Entity)
    → Extends es es'
    → (xs : List Edge) → All (Joins es) xs
    → All (Joins es') xs
Joins-Extends es es' ex [] h = tt
Joins-Extends es es' ex (x ∷ xs) (h, hs) = (
  elim (Option-cases (tenant_at x.upstream_id es)) [
    | inl e ↦ ground (arith, h)
    | inr (t, e) ↦ ground (arith, h, ex x.upstream_id t, ex x.downstream_id t)
  ],
  Joins-Extends es es' ex xs hs,
)

pub tenant_at-update_key :
    (id : ℕ) (key : Key) (a : Attributes) (es : List Entity)
    → tenant_at id (update_key key a es) ≡ tenant_at id es
unfolding update_key
tenant_at-update_key id key a [] = refl
tenant_at-update_key id key a (e ∷ es) = ground (arith, tenant_at-update_key id key a es)

pub tenant_at-mark_failed :
    (id j : ℕ) (es : List Entity) → tenant_at id (mark_failed j es) ≡ tenant_at id es
unfolding mark_failed
tenant_at-mark_failed id j [] = refl
tenant_at-mark_failed id j (e ∷ es) = ground (arith, tenant_at-mark_failed id j es)

-- A property of the id and the tenant of every entity is kept by both updates.
All-update_key :
    (P : ℕ → String → Type 0) (key : Key) (a : Attributes) (es : List Entity)
    → All (λ e. P e.id e.tenant_id) es
    → All (λ e. P e.id e.tenant_id) (update_key key a es)
unfolding update_key
All-update_key P key a [] h = tt
All-update_key P key a (e ∷ es) (h, hs) = (
  elim (Bool-cases (has_key key e)) [ inl t ↦ ground arith | inr f ↦ ground arith ],
  All-update_key P key a es hs,
)

pub All-mark_failed :
    (P : ℕ → String → Type 0) (j : ℕ) (es : List Entity)
    → All (λ e. P e.id e.tenant_id) es
    → All (λ e. P e.id e.tenant_id) (mark_failed j es)
unfolding mark_failed
All-mark_failed P j [] h = tt
All-mark_failed P j (e ∷ es) (h, hs) = (
  elim (Bool-cases (e.id == j)) [ inl t ↦ ground arith | inr f ↦ ground arith ],
  All-mark_failed P j es hs,
)

pub All-map :
    (P Q : ℕ → String → Type 0) (es : List Entity)
    → ((i : ℕ) (t : String) → P i t → Q i t)
    → All (λ e. P e.id e.tenant_id) es
    → All (λ e. Q e.id e.tenant_id) es
All-map P Q [] f h = tt
All-map P Q (e ∷ es) f (h, hs) = (f e.id e.tenant_id h, All-map P Q es f hs)

pub All-append_one :
    (P : Entity → Type 0) (es : List Entity) (e : Entity) → All P es → P e → All P (es ++ (e ∷ []))
All-append_one P [] e h p = (p, tt)
All-append_one P (x ∷ es) e (h, hs) p = (h, All-append_one P es e hs p)

pub tenant_at-append :
    (id : ℕ) (es : List Entity) (new : Entity)
    → tenant_at id (es ++ (new ∷ [])) ≡ elim (tenant_at id es) [
      | some t ↦ some t
      | none ↦ if new.id == id then some new.tenant_id else none
    ]
tenant_at-append id [] new = ground arith
tenant_at-append id (e ∷ es) new = ground (arith, tenant_at-append id es new)

-- An id that is given out is not in use.
pub tenant_at-fresh : (n : ℕ) (es : List Entity) → All (λ e. e.id < n) es → tenant_at n es ≡ none
tenant_at-fresh n [] h = refl
tenant_at-fresh n (e ∷ es) (h, hs) = ground (arith, h, tenant_at-fresh n es hs)

Extends-append : (es : List Entity) (new : Entity) → Extends es (es ++ (new ∷ []))
Extends-append es new id t h = ground (arith, tenant_at-append id es new)

count_key-new :
    (key : Key) (new : NewEntity) (id : ℕ) (es : List Entity)
    → select_id new.key es ≡ none
    → count_key key es ≤ 1
    → count_key key (es ++ (entity_of new id ∷ [])) ≤ 1
count_key-new key new id es h u = elim (Bool-cases (has_key key (entity_of new id))) [
  | inl t ↦
      let same : key ≡ new.key = ground (
        arith,
        eq_iff new.key.tenant_id key.tenant_id,
        eq_iff new.key.entity_type key.entity_type,
        eq_iff new.key.entity_key key.entity_key,
      ) in
      ground (arith, count_key-append key es (entity_of new id ∷ []), select_id-none new.key es h)
  | inr f ↦ ground (arith, count_key-append key es (entity_of new id ∷ []))
]

write_entity-IsSound :
    (found : Option ℕ) (new : NewEntity) (db : Tables)
    → select_id new.key db.entities ≡ found
    → IsSound db
    → IsSound (write_entity found new db).1
unfolding write_entity
write_entity-IsSound (some id) new db e s =
    let es = update_key new.key new.attributes db.entities in
    let ex : Extends db.entities es =
      λ i t h. ground (arith, tenant_at-update_key i new.key new.attributes db.entities) in
    record {
      unique = λ key.
          ground (arith, s.unique key, count_key-update_key key new.key new.attributes db.entities);
      fresh = All-update_key (λ i t. i < db.next_id) new.key new.attributes db.entities s.fresh;
      located =
          All-update_key (λ i t. tenant_at i es ≡ some t) new.key new.attributes db.entities
            (All-map (λ i t. tenant_at i db.entities ≡ some t) (λ i t. tenant_at i es ≡ some t)
              db.entities ex s.located);
      joined = Joins-Extends db.entities es ex db.lineage s.joined;
    }
write_entity-IsSound none new db e s =
    let row = entity_of new db.next_id in
    let es = db.entities ++ (row ∷ []) in
    let ex = Extends-append db.entities row in
    record {
      unique = λ key. count_key-new key new db.next_id db.entities e (s.unique key);
      fresh =
          All-append_one _ db.entities row
            (All-map (λ i t. i < db.next_id) (λ i t. i < db.next_id + 1) db.entities
              (λ i t h. omega (arith, h)) s.fresh)
            (omega arith);
      located =
          All-append_one _ db.entities row
            (All-map (λ i t. tenant_at i db.entities ≡ some t) (λ i t. tenant_at i es ≡ some t)
              db.entities ex s.located)
            (ground (
              arith,
              tenant_at-append db.next_id db.entities row,
              tenant_at-fresh db.next_id db.entities s.fresh,
            ));
      joined = Joins-Extends db.entities es ex db.lineage s.joined;
    }

pub upsert_entity-IsSound :
    (new : NewEntity) (db : Tables) → IsSound db → IsSound (upsert_entity new db).1
unfolding upsert_entity
upsert_entity-IsSound new db = write_entity-IsSound (select_id new.key db.entities) new db refl
