-- ===== src/Metadata/Versions/Current.antt =====
-- A tenant's newest version is its only current one.
use text.Mathlib.Text.{◌==◌ as str_eq}
use text.Mathlib.TextEquality.{eq_iff}
use text.Mathlib.TextPositions.{eq_refl}
use mathlib.Core.List.{append-nil}
use aidata_pipeline.Prelude.{
  ℕ, ◌+◌, ◌≤◌, ◌≡◌, ◌≢◌, refl, ap, inl, inr, String, true, ◌&&◌, List, [], ◌∷◌, ◌++◌, All, arith,
  if◌then◌else◌,
}
use aidata_pipeline.Prelude.Action.{Returned, Failed, Result-cases}
use aidata_pipeline.External.Database.{Database, DatabaseLaws}
use aidata_pipeline.Metadata.Versions.{
  NewVersion, Version, Versions, deactivate, max_version, version_of, insert_version,
  create_schema_version,
}

-- The current versions of a tenant.
abbrev pub current_of : String → List Version → List Version
current_of t [] = []
current_of t (v ∷ vs) =
    if str_eq v.made_from.tenant_id t && v.is_current then v ∷ current_of t vs else current_of t vs

-- What a call does to the table.
abbrev pub with_version : NewVersion → Versions → Version × Versions
with_version new table =
    insert_version new (record table { rows = deactivate new.tenant_id table.rows })

current_of-append :
    (t : String) (xs ys : List Version)
    → current_of t (xs ++ ys) ≡ current_of t xs ++ current_of t ys
current_of-append t [] ys = refl
current_of-append t (x ∷ xs) ys = ground (arith, current_of-append t xs ys)

current_of-deactivate : (t : String) (vs : List Version) → current_of t (deactivate t vs) ≡ []
unfolding deactivate
current_of-deactivate t [] = refl
current_of-deactivate t (v ∷ vs) = ground (arith, current_of-deactivate t vs)

current_of-deactivate_other :
    (t u : String) (vs : List Version) → t ≢ u → current_of u (deactivate t vs) ≡ current_of u vs
unfolding deactivate
current_of-deactivate_other t u [] h = refl
current_of-deactivate_other t u (v ∷ vs) h = ground (
  arith,
  h,
  current_of-deactivate_other t u vs h,
  eq_iff v.made_from.tenant_id t,
  eq_iff v.made_from.tenant_id u,
)

max_version-deactivate :
    (t u : String) (vs : List Version) → max_version u (deactivate t vs) ≡ max_version u vs
unfolding deactivate max_version
max_version-deactivate t u [] = refl
max_version-deactivate t u (v ∷ vs) = ground (arith, max_version-deactivate t u vs)

max_version-bound :
    (t : String) (vs : List Version) (m : ℕ)
    → max_version t vs ≤ m
    → All (λ v. v.made_from.tenant_id ≡ t → v.version_number ≤ m) vs
unfolding max_version
max_version-bound t [] m h = tt
max_version-bound t (v ∷ vs) m h =
    (λ e. ground (arith, h, e, eq_refl t), max_version-bound t vs m (ground (arith, h)))

-- After the statements of a call: the new version is the current one of the tenant, and those of
-- another are what they were.
with_version-current :
    (new : NewVersion) (u : String) (table : Versions)
    → new.tenant_id ≢ u
    → (current_of new.tenant_id (with_version new table).1.rows ≡ (with_version new table).0 ∷ [])
      × (current_of u (with_version new table).1.rows ≡ current_of u table.rows)
unfolding insert_version
with_version-current new u table h =
    let t = new.tenant_id in
    let old = deactivate t table.rows in
    let row = version_of new (record table { rows = old }) in
    (
      ground (
        arith,
        current_of-append t old (row ∷ []),
        current_of-deactivate t table.rows,
        eq_refl t,
      ),
      ground (
        arith,
        h,
        append-nil (current_of u old),
        current_of-append u old (row ∷ []),
        current_of-deactivate_other t u table.rows h,
        eq_iff t u,
      ),
    )

with_version-number :
    (new : NewVersion) (table : Versions)
    → All
        (λ v.
          v.made_from.tenant_id ≡ new.tenant_id
          → v.version_number ≤ max_version new.tenant_id table.rows)
        table.rows
      × ((with_version new table).0.version_number ≡ max_version new.tenant_id table.rows + 1)
unfolding insert_version
with_version-number new table = (
  max_version-bound new.tenant_id table.rows (max_version new.tenant_id table.rows) (omega arith),
  ap (λ n. n + 1) (max_version-deactivate new.tenant_id new.tenant_id table.rows),
)

module _ (d : Database Versions) (laws : DatabaseLaws d) where
  -- All of a call is committed, or nothing.
  create_schema_version-atomic :
      (new : NewVersion) (c : d.Conn)
      → Returned
          (λ v c'.
            (v ≡ (with_version new (d.seen c)).0)
            × (d.committed c' ≡ (with_version new (d.seen c)).1))
          (create_schema_version d new c)
        × Failed (λ c'. d.committed c' ≡ d.committed c) (create_schema_version d new c)
  unfolding create_schema_version
  create_schema_version-atomic new c =
      let f : Versions → Unit {0} × Versions =
        λ table. (tt, record table { rows = deactivate new.tenant_id table.rows }) in
      let c1 : d.Conn = (d.execute f c).1 in
      let c2 : d.Conn = (d.execute (insert_version new) c1).1 in
      elim (Result-cases (d.execute f c).0) [
        | inr (x, e) ↦ ground (arith, e, laws.execute_uncommitted f c)
        | inl (a, e) ↦ elim (Result-cases (d.execute (insert_version new) c1).0) [
          | inr (x, g) ↦ ground (
            arith,
            e,
            g,
            laws.execute_uncommitted f c,
            laws.execute_uncommitted (insert_version new) c1,
          )
          | inl (v, g) ↦ elim (Result-cases (d.commit c2).0) [
            | inr (x, k) ↦ ground (
              arith,
              e,
              g,
              k,
              laws.commit_err c2,
              laws.execute_uncommitted f c,
              laws.execute_uncommitted (insert_version new) c1,
            )
            | inl (b, k) ↦ ground (
              arith,
              e,
              g,
              k,
              laws.commit_ok c2,
              laws.execute_ok f c,
              laws.execute_ok (insert_version new) c1,
            )
          ]
        ]
      ]

  -- A call that returns has committed the version that it returns as the tenant's only current one,
  -- with a number that is one more than the highest that the tenant had, and it has changed the
  -- current versions of no other tenant. A call that raises has committed nothing.
  pub create_schema_version-current :
      (new : NewVersion) (u : String) (c : d.Conn)
      → new.tenant_id ≢ u
      → Returned
          (λ v c'.
            (current_of new.tenant_id (d.committed c').rows ≡ v ∷ [])
            × (current_of u (d.committed c').rows ≡ current_of u (d.seen c).rows)
            × (v.is_current ≡ true)
            × (v.version_number ≡ max_version new.tenant_id (d.seen c).rows + 1)
            × All
                (λ w.
                  w.made_from.tenant_id ≡ new.tenant_id
                  → w.version_number ≤ max_version new.tenant_id (d.seen c).rows)
                (d.seen c).rows)
          (create_schema_version d new c)
        × Failed (λ c'. d.committed c' ≡ d.committed c) (create_schema_version d new c)
  unfolding insert_version
  create_schema_version-current new u c h =
      let atomic = create_schema_version-atomic new c in
      let one = with_version-current new u (d.seen c) h in
      let number = with_version-number new (d.seen c) in
      elim (Result-cases (create_schema_version d new c).0) [
        | inl (v, e) ↦ ground (arith, e, atomic, one, number)
        | inr (x, e) ↦ ground (arith, e, atomic)
      ]
