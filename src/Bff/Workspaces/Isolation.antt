-- ===== src/Bff/Workspaces/Isolation.antt =====
-- A workspace that the caller's tenant does not have is out of reach.
use text.Mathlib.TextEquality.{eq_iff}
use aidata_pipeline.Prelude.{
  ℕ, ◌≡◌, ◌≢◌, refl, inl, inr, String, none, some, List, [], ◌∷◌, All, arith, Option-cases,
  select_where,
}
use aidata_pipeline.Prelude.Action.{pure, ◌>>=◌, Returned, Failed, Result-cases}
use aidata_pipeline.External.Pool.{Pool, PoolLaws}
use aidata_pipeline.Bff.Auth.{JwtClaims}
use aidata_pipeline.Bff.Workspaces.{
  Tables, Workspace, FileStatus, first, same, is_workspace, WorkspaceSourceAdd, Endpoint,
  select_workspace, statement, uuid, db_get_workspace, found_or_404, require_workspace,
  delete_workspace, list_workspace_sources, add_workspace_source, delete_workspace_source,
  list_workspace_files, reindex_file, db_delete_workspace, db_get_workspace_sources,
  db_add_workspace_source, db_delete_workspace_source, deleted_or_404, db_get_workspace_files,
}

-- What the two comparisons of the query come to.
select_where-none :
    (id t : String) (ws : List Workspace)
    → All (λ w. w.id ≡ id → w.tenant_id ≢ t) ws
    → first (select_where (is_workspace id t) same ws) ≡ none
unfolding select_where
select_where-none id t [] h = refl
select_where-none id t (w ∷ ws) (h, hs) =
    ground (arith, h, select_where-none id t ws hs, eq_iff w.id id, eq_iff w.tenant_id t)

select_workspace-none :
    (id t : String) (db : Tables)
    → All (λ w. w.id ≡ id → w.tenant_id ≢ t) db.workspaces
    → select_workspace id t db ≡ none
unfolding select_workspace
select_workspace-none id t db h = select_where-none id t db.workspaces h

module _ (p : Pool Tables) (laws : PoolLaws p) where
  -- A call from a state raises, and leaves the tables as they are.
  abbrev pub Refuses : {A : Type 0} → Endpoint p A → p.State → Type 0
  Refuses m s = Returned (λ _ _. ⊥) (m s) × Failed (λ s'. p.tables s' ≡ p.tables s) (m s)

  then-Refuses :
      {A B : Type 0} (m : Endpoint p A) (f : A → Endpoint p B) (s : p.State)
      → Refuses m s
      → Refuses (m >>= f) s
  then-Refuses m f s h = elim (Result-cases (m s).0) [
    | inl (a, e) ↦ ground (arith, e, h)
    | inr (x, e) ↦ ground (arith, e, h)
  ]

  -- A statement that reads.
  pub statement-read :
      {A : Type 0} (f : Tables → A) (s : p.State)
      → Returned
          (λ a s'. (a ≡ f (p.tables s)) × (p.tables s' ≡ p.tables s))
          (statement p (λ db. some (f db, db)) s)
        × Failed (λ s'. p.tables s' ≡ p.tables s) (statement p (λ db. some (f db, db)) s)
  unfolding statement
  statement-read f s = elim (Result-cases (p.run (λ db. some (f db, db)) s).0) [
    | inl (a, e) ↦ ground (arith, e, laws.run_ok (λ db. some (f db, db)) s)
    | inr (x, e) ↦ ground (arith, e, laws.run_err (λ db. some (f db, db)) s)
  ]

  pub require_workspace-Refuses :
      (workspace_id id t : String) (claims : JwtClaims) (s : p.State)
      → p.parse_uuid workspace_id ≡ some id
      → p.parse_uuid claims.org_id ≡ some t
      → select_workspace id t (p.tables s) ≡ none
      → Refuses (require_workspace p workspace_id claims) s
  unfolding require_workspace db_get_workspace uuid found_or_404
  require_workspace-Refuses workspace_id id t claims s i o n =
      let read = statement-read (select_workspace id t) s in
      elim (Result-cases (statement p (λ db. some (select_workspace id t db, db)) s).0) [
        | inl (a, e) ↦ ground (arith, i, o, n, e, read)
        | inr (x, e) ↦ ground (arith, i, o, n, e, read)
      ]

  -- It only reads.
  pub require_workspace-tables :
      (workspace_id id t : String) (claims : JwtClaims) (s : p.State)
      → p.parse_uuid workspace_id ≡ some id
      → p.parse_uuid claims.org_id ≡ some t
      → Returned (λ _ s'. p.tables s' ≡ p.tables s) (require_workspace p workspace_id claims s)
        × Failed (λ s'. p.tables s' ≡ p.tables s) (require_workspace p workspace_id claims s)
  unfolding require_workspace db_get_workspace uuid found_or_404
  require_workspace-tables workspace_id id t claims s i o =
      let read = statement-read (select_workspace id t) s in
      elim (Result-cases (statement p (λ db. some (select_workspace id t db, db)) s).0) [
        | inl (a, e) ↦ elim (Option-cases a) [
          | inl n ↦ ground (arith, i, o, e, n, read)
          | inr (w, n) ↦ ground (arith, i, o, e, n, read)
        ]
        | inr (x, e) ↦ ground (arith, i, o, e, read)
      ]

  -- No endpoint under a workspace reaches one that the caller's tenant does not have, whether there is
  -- none with this id or it is another tenant's: deleting it, listing, adding and removing its sources,
  -- listing its files and asking for one to be indexed again all raise and leave the tables as they are.
  pub workspace_endpoints-Refuses :
      (workspace_id source_id id t : String) (body : WorkspaceSourceAdd)
      (order_by : List FileStatus → List FileStatus) (page per_page : ℕ) (claims : JwtClaims)
      (s : p.State)
      → p.parse_uuid workspace_id ≡ some id
      → p.parse_uuid claims.org_id ≡ some t
      → All (λ w. w.id ≡ id → w.tenant_id ≢ t) (p.tables s).workspaces
      → Refuses (delete_workspace p workspace_id claims) s
        × Refuses (list_workspace_sources p workspace_id claims) s
        × Refuses (add_workspace_source p workspace_id body claims) s
        × Refuses (delete_workspace_source p workspace_id source_id claims) s
        × Refuses (list_workspace_files p order_by workspace_id claims page per_page) s
        × Refuses (reindex_file p workspace_id claims) s
  unfolding delete_workspace list_workspace_sources add_workspace_source delete_workspace_source
      list_workspace_files reindex_file
  workspace_endpoints-Refuses workspace_id source_id id t body order_by page per_page claims s i o
        n =
      let guard =
        require_workspace-Refuses workspace_id id t claims s i o
          (select_workspace-none id t (p.tables s) n) in
      let m = require_workspace p workspace_id claims in
      (
        then-Refuses m (λ _. db_delete_workspace p workspace_id claims.org_id >>= λ _. pure tt) s
            guard,
        then-Refuses m (λ _. db_get_workspace_sources p workspace_id) s guard,
        then-Refuses m
            (λ _. db_add_workspace_source p workspace_id body.connector_id body.path_prefix) s
            guard,
        then-Refuses m
            (λ _. db_delete_workspace_source p workspace_id source_id >>= deleted_or_404 p) s guard,
        then-Refuses m
            (λ _. db_get_workspace_files p order_by workspace_id claims.org_id page per_page) s
            guard,
        then-Refuses m (λ _. pure tt) s guard,
      )
