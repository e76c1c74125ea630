-- ===== src/Bff/Admin.antt =====
-- services/bff/src/admin_endpoints.py: the connectors of a tenant and the configuration of the
-- pipeline. Python's `json`, `str` and `int` are parameters.
pub mod Guards
use Prim.Native.String.{◌++◌}
use text.Mathlib.Text.{◌==◌ as str_eq}
use aidata_pipeline.Prelude.{
  ℕ, String, Bool, true, false, Option, none, some, List, [], ◌∷◌, if◌then◌else◌,
}
use aidata_pipeline.Prelude.Int.{ℤ, pos}
use aidata_pipeline.Prelude.Action.{Action, Result, ok, err, pure, raise, ◌>>=◌, ◌>>◌}
use aidata_pipeline.External.Calls.{Outside, Trace}
use aidata_pipeline.Bff.Auth.{JwtClaims, get_or}
use aidata_pipeline.Bff.Sources.{
  ConfigData, set, Write, create_configmap, patch_configmap, delete_configmap, create_custom_object,
  delete_custom_object, Failure, not_found, forbidden, Services, cm_name, lower, is_of_tenant,
  Endpoint, ask, write, try_write,
}

-- The builtins that the code reads and writes the data of a config map with; a reader answers none
-- where Python raises.
pub record Builtins : Type 1 where
  pub Json : Type 0
  pub dumps : Json → String
  pub loads : String → Option Json
  pub str : ℤ → String
  pub int : String → Option ℤ
  pub lowered : String → String
  pub empty_object : Json

pub record ConnectorCreate (b : Builtins) : Type 0 where
  pub name : String
  pub source_type : String
  pub config : b.Json
  pub start_paused : Bool

pub record ConnectorPatch (b : Builtins) : Type 0 where
  pub name : Option String
  pub config : Option b.Json
  pub start_paused : Option Bool

pub record ConnectorResponse (b : Builtins) : Type 0 where
  pub id : String
  pub name : String
  pub source_type : String
  pub config : b.Json
  pub tenant_id : String
  pub start_paused : Bool

pub record PipelineConfig : Type 0 where
  pub chunk_size : ℤ
  pub chunk_overlap : ℤ
  pub embedding_backend : String
  pub milvus_index_type : String
  pub milvus_nlist : ℤ

abbrev pub default_config : PipelineConfig
default_config = record {
  chunk_size = pos 512;
  chunk_overlap = pos 50;
  embedding_backend = "bge-small-en-v1.5";
  milvus_index_type = "IVF_FLAT";
  milvus_nlist = pos 128;
}

infixl 5 ◌and_then◌
abbrev pub ◌and_then◌ : {A B : Type 0} → Option A → (A → Option B) → Option B
none and_then f = none
some a and_then f = f a

abbrev pub pipeline_config_cm : String
pipeline_config_cm = "pipeline-config"

abbrev pub set_if : Option String → String → ConfigData → ConfigData
set_if none key entries = entries
set_if (some value) key entries = set key value entries

abbrev pub mapped : {A B : Type 0} → (A → B) → Option A → Option B
mapped f none = none
mapped f (some a) = some (f a)

module _ (b : Builtins) where
  -- `_cm_to_connector`: none where a key is missing or the config is no JSON.
  unfoldable pub cm_to_connector : ConfigData → Option (ConnectorResponse b)
  cm_to_connector entries = entries "id" and_then λ id. entries "name" and_then λ name.
      entries "source_type" and_then λ source_type.
      b.loads (get_or (entries "config") "{}") and_then λ config.
      entries "tenant_id" and_then λ tenant_id. some (record {
        id = id;
        name = name;
        source_type = source_type;
        config = config;
        tenant_id = tenant_id;
        start_paused = str_eq (b.lowered (get_or (entries "start_paused") "false")) "true";
      })

  -- The data that `create_connector` writes.
  unfoldable pub connector_data : String → ConnectorCreate b → String → ConfigData
  connector_data id body org_id = set "id" id (
      set "name" body.name (
        set "source_type" body.source_type (
          set "config" (b.dumps body.config)
            (set "tenant_id" org_id (set "start_paused" (lower body.start_paused) (λ _. none))))))

  -- The data that `update_connector` writes.
  unfoldable pub patched_data : ConnectorPatch b → ConfigData → ConfigData
  patched_data body entries =
      set_if (mapped lower body.start_paused) "start_paused"
        (set_if (mapped b.dumps body.config) "config" (set_if body.name "name" entries))

  -- What a new connector's response says.
  abbrev pub response_of : String → ConnectorCreate b → String → ConnectorResponse b
  response_of id body org_id = record {
    id = id;
    name = body.name;
    source_type = body.source_type;
    config = body.config;
    tenant_id = org_id;
    start_paused = body.start_paused;
  }

  -- `int(d.get(key, default))`
  abbrev pub int_or : Option String → ℤ → Option ℤ
  int_or none default = some default
  int_or (some text) default = b.int text

  -- What `get_pipeline_config` makes of the data; none where `int` raises.
  unfoldable pub config_of_data : ConfigData → Option PipelineConfig
  config_of_data d = int_or (d "chunk_size") (pos 512) and_then λ chunk_size.
      int_or (d "chunk_overlap") (pos 50) and_then λ chunk_overlap.
      int_or (d "milvus_nlist") (pos 128) and_then λ milvus_nlist. some (record {
        chunk_size = chunk_size;
        chunk_overlap = chunk_overlap;
        embedding_backend = get_or (d "embedding_backend") "bge-small-en-v1.5";
        milvus_index_type = get_or (d "milvus_index_type") "IVF_FLAT";
        milvus_nlist = milvus_nlist;
      })

  -- What `update_pipeline_config` writes.
  unfoldable pub data_of_config : PipelineConfig → ConfigData
  data_of_config body = set "chunk_size" (b.str body.chunk_size) (
      set "chunk_overlap" (b.str body.chunk_overlap) (
        set "embedding_backend" body.embedding_backend (
          set "milvus_index_type" body.milvus_index_type
            (set "milvus_nlist" (b.str body.milvus_nlist) (λ _. none)))))

module _ (b : Builtins) (o : Outside Write) (services : Services o)
    -- The data of the object that a patch is answered with, and what a reader raises.
    (answered : ConfigData → ConfigData) (read_error : o.Exn) where
  unfoldable pub read_or_raise : {A : Type 0} → Option A → Endpoint o services A
  read_or_raise none s = (err (Failure.raised read_error), s)
  read_or_raise (some a) s = (ok a, s)

  -- The first lines of the endpoints for one connector.
  unfoldable pub own_or_raise : Option ConfigData → String → Endpoint o services ConfigData
  own_or_raise none org_id = raise not_found
  own_or_raise (some entries) org_id =
      if is_of_tenant entries org_id then pure entries else raise forbidden

  unfoldable pub get_own : String → JwtClaims → Endpoint o services ConfigData
  get_own connector_id claims =
      ask o services (services.get_configmap (cm_name connector_id)) >>= λ cm.
      own_or_raise cm claims.org_id

  unfoldable pub create_connector :
      ConnectorCreate b → JwtClaims → Endpoint o services (ConnectorResponse b)
  create_connector body claims s =
      let connector_id = services.uuid4 s.world in
      (write o services (
            create_configmap (cm_name connector_id)
              (connector_data b connector_id body claims.org_id))
          >> write o services (
              create_custom_object (cm_name connector_id) body.source_type claims.org_id
                body.start_paused)
          >> pure (response_of b connector_id body claims.org_id))
        s

  unfoldable pub update_connector :
      String → ConnectorPatch b → JwtClaims → Endpoint o services (ConnectorResponse b)
  update_connector connector_id body claims = get_own connector_id claims >>= λ entries.
      write o services (patch_configmap (cm_name connector_id) (patched_data b body entries))
      >> read_or_raise (cm_to_connector b (answered (patched_data b body entries)))

  -- The custom object's deletion may fail without notice.
  unfoldable pub delete_connector : String → JwtClaims → Endpoint o services Unit
  delete_connector connector_id claims = get_own connector_id claims >>= λ _.
      write o services (delete_configmap (cm_name connector_id))
      >> try_write o services (delete_custom_object (cm_name connector_id))

  unfoldable pub config_or_default : Option ConfigData → Endpoint o services PipelineConfig
  config_or_default none = pure default_config
  config_or_default (some d) = read_or_raise (config_of_data b d)

  unfoldable pub get_pipeline_config : Endpoint o services PipelineConfig
  get_pipeline_config =
      ask o services (services.get_configmap pipeline_config_cm) >>= config_or_default

  unfoldable pub write_config : PipelineConfig → Option ConfigData → Endpoint o services Unit
  write_config body none =
      write o services (create_configmap pipeline_config_cm (data_of_config b body))
  write_config body (some existing) =
      write o services (patch_configmap pipeline_config_cm (data_of_config b body))

  unfoldable pub update_pipeline_config : PipelineConfig → Endpoint o services PipelineConfig
  update_pipeline_config body =
      ask o services (services.get_configmap pipeline_config_cm) >>= λ existing.
      write_config body existing >> pure body
