-- ===== src/Bff/Workspaces/Deletion.antt =====
-- What a deletion takes away.
use aidata_pipeline.Prelude.{
  ◌≡◌, ◌≢◌, refl, [], ◌∷◌, none, Bool, inl, inr, String, false, not, some, arith, Bool-cases, List,
  select_where,
}
use aidata_pipeline.Prelude.Action.{Returned, Failed, Result-cases}
use aidata_pipeline.External.Pool.{Pool, PoolLaws}
use aidata_pipeline.Bff.Auth.{JwtClaims}
use aidata_pipeline.Bff.Workspaces.{
  Tables, Workspace, select_workspace, is_workspace, same, has_sources, remove_workspace, statement,
  uuid, db_delete_workspace, require_workspace, delete_workspace,
}
use aidata_pipeline.Bff.Workspaces.Isolation.{require_workspace-tables, require_workspace-Refuses}

-- The workspaces that a deletion is about.
abbrev pub meant : String → String → Tables → List Workspace
meant id t db = select_where (is_workspace id t) same db.workspaces

-- Nothing that is taken away is left.
select_where-not :
    (f : Workspace → Bool) (ws : List Workspace)
    → select_where f same (select_where (λ w. not (f w)) same ws) ≡ []
unfolding select_where
select_where-not f [] = refl
select_where-not f (w ∷ ws) = elim (Bool-cases (f w)) [
  | inl e ↦ ground (arith, e, select_where-not f ws)
  | inr e ↦ ground (arith, e, select_where-not f ws)
]

module _ (p : Pool Tables) (laws : PoolLaws p) where
  db_delete_workspace-tables :
      (workspace_id org id t : String) (s : p.State)
      → p.parse_uuid workspace_id ≡ some id
      → p.parse_uuid org ≡ some t
      → Returned
          (λ _ s'.
            (has_sources (meant id t (p.tables s)) (p.tables s).workspace_sources ≡ false)
            × (p.tables s' ≡ record (p.tables s) {
              workspaces =
                  select_where (λ w. not (is_workspace id t w)) same (p.tables s).workspaces;
            }))
          (db_delete_workspace p workspace_id org s)
        × Failed (λ s'. p.tables s' ≡ p.tables s) (db_delete_workspace p workspace_id org s)
  unfolding db_delete_workspace uuid statement remove_workspace
  db_delete_workspace-tables workspace_id org id t s i o =
      elim (Result-cases (p.run (remove_workspace id t) s).0) [
        | inr (x, e) ↦ ground (arith, i, o, e, laws.run_err (remove_workspace id t) s)
        | inl (a, e) ↦
            elim (Bool-cases
              (has_sources (meant id t (p.tables s)) (p.tables s).workspace_sources)) [
                | inl b ↦ ground (arith, i, o, e, b, laws.run_ok (remove_workspace id t) s)
                | inr b ↦ ground (arith, i, o, e, b, laws.run_ok (remove_workspace id t) s)
              ]
      ]

  -- A deletion that returns has found the workspace of the caller's tenant with this id, which had no
  -- sources; it has taken away that workspace and nothing else, and there is none left. One that raises, as every deletion of a workspace
  -- with sources does, has changed nothing.
  pub delete_workspace-outcome :
      (workspace_id id t : String) (claims : JwtClaims) (s : p.State)
      → p.parse_uuid workspace_id ≡ some id
      → p.parse_uuid claims.org_id ≡ some t
      → Returned
          (λ _ s'.
            (select_workspace id t (p.tables s) ≢ none)
            × (meant id t (p.tables s') ≡ [])
            × (has_sources (meant id t (p.tables s)) (p.tables s).workspace_sources ≡ false)
            × (p.tables s' ≡ record (p.tables s) {
              workspaces =
                  select_where (λ w. not (is_workspace id t w)) same (p.tables s).workspaces;
            }))
          (delete_workspace p workspace_id claims s)
        × Failed (λ s'. p.tables s' ≡ p.tables s) (delete_workspace p workspace_id claims s)
  unfolding delete_workspace
  delete_workspace-outcome workspace_id id t claims s i o =
      let guard = require_workspace-tables p laws workspace_id id t claims s i o in
      let s1 : p.State = (require_workspace p workspace_id claims s).1 in
      let gone = db_delete_workspace-tables workspace_id claims.org_id id t s1 i o in
      elim (Result-cases (require_workspace p workspace_id claims s).0) [
        | inr (x, e) ↦ ground (arith, e, guard)
        | inl (a, e) ↦ elim (Result-cases (db_delete_workspace p workspace_id claims.org_id s1).0) [
          | inr (y, g) ↦ ground (arith, e, g, guard, gone)
          | inl (b, g) ↦
              let before : p.tables s1 ≡ p.tables s = ground (arith, e, guard) in
              let found : select_workspace id t (p.tables s) ≢ none = λ n.
                ground
                  (arith, e, require_workspace-Refuses p laws workspace_id id t claims s i o n) in
              let left = select_where-not (is_workspace id t) (p.tables s).workspaces in
              ground (arith, e, g, before, gone, found, left)
        ]
      ]
