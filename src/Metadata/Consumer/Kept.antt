-- ===== src/Metadata/Consumer/Kept.antt =====
-- What a statement keeps, and with it what runs one after another.
use aidata_pipeline.Prelude.{ℕ, ◌≡◌, inl, inr, String, Option, none, some, arith, Option-cases}
use aidata_pipeline.Prelude.Action.{ok, ◌>>=◌, Result-cases, Keeps, >>=-Keeps}
use aidata_pipeline.External.Database.{Database, DatabaseLaws}
use aidata_pipeline.External.Calls.{Outside}
use aidata_pipeline.Metadata.Tables.{Tables, Key, Edge, select_id, insert_edge}
use aidata_pipeline.Metadata.Tables.Edges.{IsSound, tenant_at}
use aidata_pipeline.Metadata.Tables.Sound.{
  select_id-located, insert_edge-IsSound, insert_edge-tenant_at,
}
use aidata_pipeline.Metadata.Events.{Call}
use aidata_pipeline.Metadata.Writes.{
  World, Service, Raised, required, execute, add_edge, insert_lineage_edge,
}
use aidata_pipeline.Metadata.Consumer.{swallow, run}

module _ (d : Database Tables) (o : Outside Call) (laws : DatabaseLaws d) where
  -- What the transaction sees and what is committed are both sound.
  abbrev pub Sound : World d o → Type 0
  Sound s = IsSound (d.seen s.conn) × IsSound (d.committed s.conn)

  -- Beside that, the transaction has an entity of a tenant under an id.
  abbrev pub With : ℕ → String → World d o → Type 0
  With id t s = Sound s × (tenant_at id (d.seen s.conn).entities ≡ some t)

  execute-Keeps :
      {A : Type 0} (P : Tables → Type 0) (f : Tables → A × Tables) (s : World d o)
      → P (d.seen s.conn)
      → P (f (d.seen s.conn)).1
      → P (d.seen (execute d o f s).1.conn)
  unfolding execute
  execute-Keeps P f s p q = elim (Result-cases (d.execute f s.conn).0) [
    | inl (a, e) ↦ ground (arith, laws.execute_ok f s.conn)
    | inr (x, e) ↦ ground (arith, laws.execute_err f s.conn)
  ]

  execute-uncommitted :
      {A : Type 0} (f : Tables → A × Tables) (s : World d o)
      → d.committed (execute d o f s).1.conn ≡ d.committed s.conn
  unfolding execute
  execute-uncommitted f s = laws.execute_uncommitted f s.conn

  pub execute-Sound :
      {A : Type 0} (f : Tables → A × Tables) (s : World d o)
      → (IsSound (d.seen s.conn) → IsSound (f (d.seen s.conn)).1)
      → Sound s
      → Sound (execute d o f s).1
  execute-Sound f s keep (p, q) =
      (execute-Keeps IsSound f s p (keep p), ground (arith, q, execute-uncommitted f s))

  pub execute-With :
      {A : Type 0} (id : ℕ) (t : String) (f : Tables → A × Tables)
      → ((db : Tables)
          → IsSound db
          → tenant_at id db.entities ≡ some t
          → IsSound (f db).1 × (tenant_at id (f db).1.entities ≡ some t))
      → Keeps (With id t) (λ _. Unit) (execute d o f)
  execute-With id t f keep s ((p, q), h) =
      let all =
        execute-Keeps (λ db. IsSound db × (tenant_at id db.entities ≡ some t)) f s (p, h)
          (keep (d.seen s.conn) p h) in
      (((all.0, ground (arith, q, execute-uncommitted f s)), all.1), ground arith)

  pub required-Keeps :
      {A : Type 0} (P : World d o → Type 0) (a : Option A) → Keeps P (λ _. Unit) (required d o a)
  required-Keeps P none s p = (p, tt)
  required-Keeps P (some a) s p = (p, tt)

  pub pure-Keeps :
      {A : Type 0} (P : World d o → Type 0) (a : A)
      → Keeps {E = Raised d.Exn} P (λ _. Unit) (λ s. (ok a, s))
  pure-Keeps P a s p = (p, tt)

  pub swallow-Keeps :
      (P : World d o → Type 0) (m : Service d o Unit)
      → Keeps P (λ _. Unit) m
      → Keeps P (λ _. Unit) (swallow d o m)
  swallow-Keeps P m h s p = elim (Result-cases (m s).0) [
    | inl (a, e) ↦ ground (arith, h s p)
    | inr (x, e) ↦ ground (arith, h s p)
  ]

  -- The edge joins what a select of the tenant's key found with the entity.
  pub insert_lineage_edge-With :
      (id : ℕ) (t k e r : String) (run : Option String)
      → Keeps
          (With id t)
          (λ _. Unit)
          (insert_lineage_edge d o
            (record { tenant_id = t; entity_type = e; entity_key = k })
            id
            r
            run)
  unfolding insert_lineage_edge add_edge execute
  insert_lineage_edge-With id t k e r run s w =
      let up : Key = record { tenant_id = t; entity_type = e; entity_key = k } in
      let select : Tables → Option ℕ × Tables = λ db. (select_id up db.entities, db) in
      let after = execute-With id t select (λ db p h. (p, h)) s w in
      elim (Result-cases (d.execute select s.conn).0) [
        | inr (x, f) ↦ ground (arith, after)
        | inl (found, f) ↦ elim (Option-cases found) [
          | inl g ↦ ground (arith, after)
          | inr (u, g) ↦
              let edge : Edge = record {
                upstream_id = u;
                downstream_id = id;
                relationship = r;
                pipeline_run_id = run;
              } in
              let c : d.Conn = (d.execute select s.conn).1 in
              let at : tenant_at u (d.seen c).entities ≡ some t = ground (
                arith,
                laws.execute_ok select s.conn,
                select_id-located up u (d.seen s.conn) w.0.0,
              ) in
              let all =
                execute-Keeps (λ db. IsSound db × (tenant_at id db.entities ≡ some t))
                  (λ db. (tt, insert_edge edge db)) (record s { conn = c }) (after.0.0.0, after.0.1)
                  (
                    insert_edge-IsSound edge (d.seen c) t at after.0.1 after.0.0.0,
                    ground (arith, after.0.1, insert_edge-tenant_at id edge (d.seen c)),
                  ) in
              let same : IsSound (d.committed (d.execute (λ db. (tt, insert_edge edge db)) c).1) =
                ground (
                  arith,
                  after.0.0.1,
                  laws.execute_uncommitted (λ db. (tt, insert_edge edge db)) c,
                ) in
              ground (arith, all, same)
        ]
      ]

  -- One action after another.
  pub then-Keeps :
      {A B : Type 0} (P : World d o → Type 0) (m : Service d o A) (f : A → Service d o B)
      → Keeps P (λ _. Unit) m
      → ((a : A) → Keeps P (λ _. Unit) (f a))
      → Keeps P (λ _. Unit) (m >>= f)
  then-Keeps P m f first after = >>=-Keeps P (λ _. Unit) (λ _. Unit) m f first (λ a _. after a)
