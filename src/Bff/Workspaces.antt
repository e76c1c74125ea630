-- ===== src/Bff/Workspaces.antt =====
-- services/bff/src/user_endpoints.py and db_client.py: the workspaces of a tenant, the connectors that
-- they take files from, and the files.
pub mod Isolation
pub mod Deletion
mod Tests
use text.Mathlib.Text.{◌==◌ as str_eq}
use aidata_pipeline.Prelude.{
  ℕ, ◌-◌, ◌*◌, String, Bool, true, false, not, ◌&&◌, ◌||◌, Option, none, some, List, [], ◌∷◌, ◌++◌,
  if◌then◌else◌, select_where, concat_map, take, drop,
}
use aidata_pipeline.Prelude.Action.{Action, Result, ok, err, pure, raise, ◌>>=◌, ◌>>◌}
use aidata_pipeline.External.Pool.{Pool}
use aidata_pipeline.Bff.Auth.{JwtClaims}

pub record Workspace : Type 0 where
  pub id : String
  pub tenant_id : String
  pub owner_id : String
  pub name : String
  pub description : Option String

pub record WorkspaceSource : Type 0 where
  pub id : String
  pub workspace_id : String
  pub connector_id : String
  pub path_prefix : String

pub record FileStatus : Type 0 where
  pub id : String
  pub connector_id : String
  pub file_path : String
  pub ingest_status : String
  pub file_size_bytes : Option ℕ
  pub chunk_count : Option ℕ

-- A row of `source_file_status`; `last_modified` is left out.
pub record FileRow : Type 0 where
  pub tenant_id : String
  pub status : FileStatus

pub record Tables : Type 0 where
  pub workspaces : List Workspace
  pub workspace_sources : List WorkspaceSource
  pub source_file_status : List FileRow

pub record WorkspaceCreate : Type 0 where
  pub name : String
  pub description : Option String

pub record WorkspaceSourceAdd : Type 0 where
  pub connector_id : String
  pub path_prefix : String

-- How an endpoint fails: with an `HTTPException`, with the `ValueError` of `uuid.UUID`, or with what the
-- pool raised.
pub data Failure (X : Type 0) : Type 0 where
  not_found : Failure X
  value_error : Failure X
  raised : X → Failure X

abbrev pub same : {A : Type 0} → A → A
same x = x

-- `WHERE id = $1 AND tenant_id = $2`
abbrev pub is_workspace : String → String → Workspace → Bool
is_workspace id tenant_id w = str_eq w.id id && str_eq w.tenant_id tenant_id

abbrev pub first : {A : Type 0} → List A → Option A
first [] = none
first (x ∷ xs) = some x

abbrev pub is_empty : {A : Type 0} → List A → Bool
is_empty [] = true
is_empty (x ∷ xs) = false

abbrev pub is_of_workspace : String → WorkspaceSource → Bool
is_of_workspace workspace_id s = str_eq s.workspace_id workspace_id

abbrev pub is_source : String → String → WorkspaceSource → Bool
is_source source_id workspace_id s = str_eq s.id source_id && str_eq s.workspace_id workspace_id

-- `workspace_sources` refers to `workspaces`, and a row that is referred to is not deleted.
unfoldable pub has_sources : List Workspace → List WorkspaceSource → Bool
has_sources [] sources = false
has_sources (w ∷ ws) sources =
    not (is_empty (select_where (is_of_workspace w.id) same sources)) || has_sources ws sources

-- The statements.
unfoldable pub select_workspace : String → String → Tables → Option Workspace
select_workspace id tenant_id db =
    first (select_where (is_workspace id tenant_id) same db.workspaces)

unfoldable pub remove_workspace : String → String → Tables → Option (Bool × Tables)
remove_workspace id tenant_id db =
    let gone = select_where (is_workspace id tenant_id) same db.workspaces in
    if has_sources gone db.workspace_sources
    then none
    else some (
      not (is_empty gone),
      record db {
        workspaces = select_where (λ w. not (is_workspace id tenant_id w)) same db.workspaces;
      },
    )

-- The key of a source is unique but for its id, and its workspace exists.
unfoldable pub insert_source : WorkspaceSource → Tables → Option (WorkspaceSource × Tables)
insert_source row db =
    let twins =
      select_where
        (λ s.
          str_eq s.workspace_id row.workspace_id
          && (str_eq s.connector_id row.connector_id && str_eq s.path_prefix row.path_prefix))
        same db.workspace_sources in
    if not (is_empty twins)
      || is_empty (select_where (λ w. str_eq w.id row.workspace_id) same db.workspaces)
    then none
    else some (row, record db { workspace_sources = db.workspace_sources ++ (row ∷ []) })

unfoldable pub remove_source : String → String → Tables → Bool × Tables
remove_source source_id workspace_id db = (
  not (is_empty (select_where (is_source source_id workspace_id) same db.workspace_sources)),
  record db {
    workspace_sources =
        select_where (λ s. not (is_source source_id workspace_id s)) same db.workspace_sources;
  },
)

-- The join of the files with the sources of a workspace.
unfoldable pub workspace_files : String → String → Tables → List FileStatus
workspace_files workspace_id tenant_id db =
    concat_map
      (λ f.
        if str_eq f.tenant_id tenant_id
        then select_where
            (λ s. str_eq s.connector_id f.status.connector_id && is_of_workspace workspace_id s)
            (λ s. f.status) db.workspace_sources
        else [])
      db.source_file_status

-- `LIMIT $3 OFFSET $4`
unfoldable pub page_of {ℓ} : {A : Type ℓ} → ℕ → ℕ → List A → List A
page_of page per_page rows = take per_page (drop ((page - 1) * per_page) rows)

module _ (p : Pool Tables) where
  abbrev pub Endpoint : Type 0 → Type 0
  Endpoint A = Action p.State (Failure p.Exn) A

  abbrev pub outcome : {A : Type 0} → Result p.Exn A → Result (Failure p.Exn) A
  outcome (ok a) = ok a
  outcome (err e) = err (raised e)

  unfoldable pub statement : {A : Type 0} → (Tables → Option (A × Tables)) → Endpoint A
  statement f s = let (r, s') = p.run f s in (outcome r, s')

  -- `uuid.UUID(text)`
  unfoldable pub uuid : String → Endpoint String
  uuid text s = elim (p.parse_uuid text) [ some u ↦ (ok u, s) | none ↦ (err value_error, s) ]

  abbrev pub fresh_id : Endpoint String
  fresh_id s = (ok (p.uuid4 s), s)

  -- db_client.py
  unfoldable pub db_get_workspaces : String → Endpoint (List Workspace)
  db_get_workspaces tenant_id = uuid tenant_id >>= λ t.
      statement (λ db. some (select_where (λ w. str_eq w.tenant_id t) same db.workspaces, db))

  unfoldable pub db_create_workspace : String → String → String → Option String → Endpoint Workspace
  db_create_workspace tenant_id owner_id name description = fresh_id >>= λ workspace_id.
      uuid workspace_id >>= λ id. uuid tenant_id >>= λ t. uuid owner_id >>= λ owner.
      let row : Workspace = record {
        id = id;
        tenant_id = t;
        owner_id = owner;
        name = name;
        description = description;
      } in
      statement (λ db. some (row, record db { workspaces = db.workspaces ++ (row ∷ []) }))

  unfoldable pub db_get_workspace : String → String → Endpoint (Option Workspace)
  db_get_workspace workspace_id tenant_id = uuid workspace_id >>= λ id.
      uuid tenant_id >>= λ t. statement (λ db. some (select_workspace id t db, db))

  unfoldable pub db_delete_workspace : String → String → Endpoint Bool
  db_delete_workspace workspace_id tenant_id =
      uuid workspace_id >>= λ id. uuid tenant_id >>= λ t. statement (remove_workspace id t)

  unfoldable pub db_get_workspace_sources : String → Endpoint (List WorkspaceSource)
  db_get_workspace_sources workspace_id = uuid workspace_id >>= λ id.
      statement (λ db. some (select_where (is_of_workspace id) same db.workspace_sources, db))

  unfoldable pub db_add_workspace_source : String → String → String → Endpoint WorkspaceSource
  db_add_workspace_source workspace_id connector_id path_prefix = fresh_id >>= λ source_id.
      uuid source_id >>= λ id. uuid workspace_id >>= λ w. statement (
        insert_source (record {
          id = id;
          workspace_id = w;
          connector_id = connector_id;
          path_prefix = path_prefix;
        }))

  unfoldable pub db_delete_workspace_source : String → String → Endpoint Bool
  db_delete_workspace_source workspace_id source_id = uuid source_id >>= λ id.
      uuid workspace_id >>= λ w. statement (λ db. some (remove_source id w db))

  -- `order_by` is the order in which the database answers this query, by a column that is not
  -- unique and may be null.
  unfoldable pub db_get_workspace_files :
      (List FileStatus → List FileStatus) → String → String → ℕ → ℕ → Endpoint (List FileStatus)
  db_get_workspace_files order_by workspace_id tenant_id page per_page = uuid workspace_id >>= λ id.
      uuid tenant_id >>= λ t.
      statement (λ db. some (page_of page per_page (order_by (workspace_files id t db)), db))

  -- The first lines of an endpoint under `/workspaces/{workspace_id}`.
  unfoldable pub found_or_404 : Option Workspace → Endpoint Unit
  found_or_404 none = raise not_found
  found_or_404 (some w) = pure tt

  unfoldable pub require_workspace : String → JwtClaims → Endpoint Unit
  require_workspace workspace_id claims =
      db_get_workspace workspace_id claims.org_id >>= found_or_404

  unfoldable pub deleted_or_404 : Bool → Endpoint Unit
  deleted_or_404 true = pure tt
  deleted_or_404 false = raise not_found

  -- The endpoints.
  unfoldable pub list_workspaces : JwtClaims → Endpoint (List Workspace)
  list_workspaces claims = db_get_workspaces claims.org_id

  unfoldable pub create_workspace : WorkspaceCreate → JwtClaims → Endpoint Workspace
  create_workspace body claims =
      db_create_workspace claims.org_id claims.sub body.name body.description

  unfoldable pub delete_workspace : String → JwtClaims → Endpoint Unit
  delete_workspace workspace_id claims =
      require_workspace workspace_id claims
      >> (db_delete_workspace workspace_id claims.org_id >>= λ _. pure tt)

  unfoldable pub list_workspace_sources : String → JwtClaims → Endpoint (List WorkspaceSource)
  list_workspace_sources workspace_id claims =
      require_workspace workspace_id claims >> db_get_workspace_sources workspace_id

  unfoldable pub add_workspace_source :
      String → WorkspaceSourceAdd → JwtClaims → Endpoint WorkspaceSource
  add_workspace_source workspace_id body claims =
      require_workspace workspace_id claims
      >> db_add_workspace_source workspace_id body.connector_id body.path_prefix

  unfoldable pub delete_workspace_source : String → String → JwtClaims → Endpoint Unit
  delete_workspace_source workspace_id source_id claims =
      require_workspace workspace_id claims
      >> (db_delete_workspace_source workspace_id source_id >>= deleted_or_404)

  unfoldable pub list_workspace_files :
      (List FileStatus → List FileStatus) → String → JwtClaims → ℕ → ℕ → Endpoint (List FileStatus)
  list_workspace_files order_by workspace_id claims page per_page =
      require_workspace workspace_id claims
      >> db_get_workspace_files order_by workspace_id claims.org_id page per_page

  -- Nothing is queued.
  unfoldable pub reindex_file : String → JwtClaims → Endpoint Unit
  reindex_file workspace_id claims = require_workspace workspace_id claims >> pure tt
