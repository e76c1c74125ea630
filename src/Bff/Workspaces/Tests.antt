-- ===== src/Bff/Workspaces/Tests.antt =====
-- A tenant with a workspace, and one without.
use text.Mathlib.TextEquality.{eq_iff}
use aidata_pipeline.Prelude.{
  ◌≡◌, ◌≢◌, All, refl, String, false, not, Option, none, some, [], ◌∷◌, arith, inl, inr,
  Option-cases, select_where,
}
use aidata_pipeline.Prelude.Action.{Result, ok, err, Returned, Failed}
use aidata_pipeline.External.Pool.{Pool, PoolLaws}
use aidata_pipeline.Bff.Auth.{JwtClaims}
use aidata_pipeline.Bff.Workspaces.{
  Tables, WorkspaceSourceAdd, select_workspace, delete_workspace, list_workspace_sources,
  add_workspace_source, delete_workspace_source, list_workspace_files, reindex_file, has_sources,
  is_workspace, same,
}
use aidata_pipeline.Bff.Workspaces.Isolation.{Refuses, workspace_endpoints-Refuses}
use aidata_pipeline.Bff.Workspaces.Deletion.{meant, delete_workspace-outcome}

abbrev settle : {A : Type 0} → Tables → Option (A × Tables) → Result Unit A × Tables
settle db none = (err tt, db)
settle db (some (a, db')) = (ok a, db')

abbrev pool : Pool Tables
pool = record {
  State = Tables;
  Exn = Unit;
  tables = λ db. db;
  run = λ f db. settle db (f db);
  uuid4 = λ db. "new";
  parse_uuid = λ text. some text;
}

pool_laws : PoolLaws pool
pool_laws = record {
  run_ok = λ f db. elim (Option-cases (f db)) [
    | inl e ↦ ground (arith, e)
    | inr (r, e) ↦ ground (arith, e)
  ];
  run_err = λ f db. elim (Option-cases (f db)) [
    | inl e ↦ ground (arith, e)
    | inr (r, e) ↦ ground (arith, e)
  ];
}

abbrev tables : Tables
tables = record {
  workspaces =
      record { id = "w"; tenant_id = "acme"; owner_id = "u"; name = "n"; description = none } ∷ [];
  workspace_sources =
      record { id = "s"; workspace_id = "w"; connector_id = "c"; path_prefix = "" } ∷ [];
  source_file_status =
      record {
        tenant_id = "acme";
        status = record {
          id = "f";
          connector_id = "c";
          file_path = "a.txt";
          ingest_status = "indexed";
          file_size_bytes = none;
          chunk_count = some 3;
        };
      }
      ∷ [];
}

abbrev claims_of : String → JwtClaims
claims_of org_id = record {
  sub = "u";
  email = "";
  org_id = org_id;
  org_name = "";
  license_type = "free";
  quota_tier = "free";
  roles = [];
}

abbrev body : WorkspaceSourceAdd
body = record { connector_id = "c"; path_prefix = "x" }

not_of_other : All (λ w. w.id ≡ "w" → w.tenant_id ≢ "other") tables.workspaces
not_of_other = (λ _ h. ground (arith, h, eq_iff "acme" "other"), tt)

workspace_endpoints-Refuses_example :
    Refuses pool pool_laws (delete_workspace pool "w" (claims_of "other")) tables
    × Refuses pool pool_laws (list_workspace_sources pool "w" (claims_of "other")) tables
    × Refuses pool pool_laws (add_workspace_source pool "w" body (claims_of "other")) tables
    × Refuses pool pool_laws (delete_workspace_source pool "w" "s" (claims_of "other")) tables
    × Refuses pool pool_laws
        (list_workspace_files pool (λ files. files) "w" (claims_of "other") 1 50)
        tables
    × Refuses pool pool_laws (reindex_file pool "w" (claims_of "other")) tables
workspace_endpoints-Refuses_example =
    workspace_endpoints-Refuses pool pool_laws "w" "s" "w" "other" body (λ files. files) 1 50
      (claims_of "other") tables refl refl not_of_other

delete_workspace-outcome_example :
    Returned
      (λ _ s'.
        (select_workspace "w" "acme" tables ≢ none)
        × (meant "w" "acme" s' ≡ [])
        × (has_sources (meant "w" "acme" tables) tables.workspace_sources ≡ false)
        × (s' ≡ record tables {
          workspaces = select_where (λ w. not (is_workspace "w" "acme" w)) same tables.workspaces;
        }))
      (delete_workspace pool "w" (claims_of "acme") tables)
    × Failed (λ s'. s' ≡ tables) (delete_workspace pool "w" (claims_of "acme") tables)
delete_workspace-outcome_example =
    delete_workspace-outcome pool pool_laws "w" "w" "acme" (claims_of "acme") tables refl refl
