-- ===== src/Bff/Sources.antt =====
-- services/bff/src/user_sources.py: creating, pausing, resuming and deleting a connector. What
-- Kubernetes and the quota service answer is a parameter; the log keeps the writes.
pub mod Ownership
mod Tests
use Prim.Native.String.{◌++◌}
use text.Mathlib.Text.{◌==◌}
use aidata_pipeline.Prelude.{
  String, Bool, true, false, not, ◌||◌, Option, none, some, List, [], ◌∷◌, if◌then◌else◌,
}
use aidata_pipeline.Prelude.Action.{Action, Result, ok, err, pure, raise, raise_if, ◌>>=◌, ◌>>◌}
use aidata_pipeline.External.Calls.{Outside, Trace, call, attempt}
use aidata_pipeline.Bff.Auth.{JwtClaims, has_role, get_or}

-- The data of a config map, by key.
abbrev pub ConfigData : Type 0
ConfigData = String → Option String

-- `data[key] = value`
abbrev pub set : String → String → ConfigData → ConfigData
set key value entries k = if k == key then some value else entries k

pub record UserSourceCreate : Type 0 where
  pub name : String
  pub source_type : String
  pub config_json : String
  pub start_paused : Bool

pub data Write : Type 0 where
  create_configmap : String → ConfigData → Write
  patch_configmap : String → ConfigData → Write
  delete_configmap : String → Write
  create_custom_object : String → String → String → Bool → Write
  delete_custom_object : String → Write

-- How an endpoint fails: with an `HTTPException`, or with what a call raised.
pub data Failure (Exn : Type 0) : Type 0 where
  not_found forbidden quota_exceeded : Failure Exn
  raised : Exn → Failure Exn

pub record Services (o : Outside Write) : Type 0 where
  pub get_configmap : String → Action o.World o.Exn (Option ConfigData)
  pub check_quota : String → Action o.World o.Exn Bool
  pub uuid4 : o.World → String

abbrev pub cm_name : String → String
cm_name connector_id = "connector-" ++ connector_id

-- `str(flag).lower()`
abbrev pub lower : Bool → String
lower true = "true"
lower false = "false"

-- The test of `_assert_owns`: a tenant admin, or the owner.
abbrev pub owns : ConfigData → JwtClaims → Bool
owns entries claims =
    has_role "pipeline-admin" claims.roles || (get_or (entries "owner_id") "" == claims.sub)

-- The test of `_get_connector` on a config map.
abbrev pub is_of_tenant : ConfigData → String → Bool
is_of_tenant entries org_id = elim (entries "tenant_id") [ some t ↦ t == org_id | none ↦ false ]

-- The data of a new connector.
abbrev pub new_data : String → UserSourceCreate → JwtClaims → ConfigData
new_data connector_id body claims = set "id" connector_id (
    set "name" body.name (
      set "source_type" body.source_type (
        set "config" body.config_json (
          set "tenant_id" claims.org_id (
            set "owner_id" claims.sub
              (set "start_paused" (lower body.start_paused) (λ _. none)))))))

module _ (o : Outside Write) (services : Services o) where
  abbrev pub Endpoint : Type 0 → Type 0
  Endpoint A = Action (Trace o) (Failure o.Exn) A

  abbrev pub ask : {A : Type 0} → Action o.World o.Exn A → Endpoint A
  ask m s =
      let (r, w) = m s.world in
      (elim r [ ok a ↦ ok a | err e ↦ err (raised e) ], record s { world = w })

  abbrev pub write : Write → Endpoint Unit
  write w s = let (r, s') = call o w s in (elim r [ ok a ↦ ok a | err e ↦ err (raised e) ], s')

  abbrev pub try_write : Write → Endpoint Unit
  try_write w s = (ok tt, (call o w s).1)

  -- `_get_connector`
  unfoldable pub get_connector : String → String → Endpoint ConfigData
  get_connector connector_id org_id = ask (services.get_configmap (cm_name connector_id)) >>= λ cm.
      elim cm [
        | none ↦ raise not_found
        | some entries ↦ if is_of_tenant entries org_id then pure entries else raise not_found
      ]

  -- `_assert_owns`
  abbrev pub assert_owns : ConfigData → JwtClaims → Endpoint Unit
  assert_owns entries claims = raise_if (not (owns entries claims)) forbidden

  unfoldable pub pause_source : String → JwtClaims → Endpoint Unit
  unfolding get_connector
  pause_source connector_id claims = get_connector connector_id claims.org_id >>= λ entries.
      assert_owns entries claims
      >> write (patch_configmap (cm_name connector_id) (set "start_paused" "true" entries))

  unfoldable pub resume_source : String → JwtClaims → Endpoint Unit
  unfolding get_connector
  resume_source connector_id claims = get_connector connector_id claims.org_id >>= λ entries.
      assert_owns entries claims
      >> write (patch_configmap (cm_name connector_id) (set "start_paused" "false" entries))

  -- The custom object's deletion may fail without notice.
  unfoldable pub delete_source : String → JwtClaims → Endpoint Unit
  unfolding get_connector
  delete_source connector_id claims = get_connector connector_id claims.org_id >>= λ entries.
      assert_owns entries claims
      >> write (delete_configmap (cm_name connector_id))
      >> try_write (delete_custom_object (cm_name connector_id))

  -- Tiers whose connectors are not counted.
  abbrev pub is_unlimited : String → Bool
  is_unlimited license_type = (license_type == "pro") || (license_type == "enterprise")

  abbrev admit : JwtClaims → Endpoint Unit
  admit claims =
      if is_unlimited claims.license_type
      then pure tt
      else (ask (services.check_quota claims.org_id) >>= λ allowed.
          raise_if (not allowed) quota_exceeded)

  -- `create_source`, which answers the new connector's id.
  unfoldable pub create_source : UserSourceCreate → JwtClaims → Endpoint String
  create_source body claims = admit claims >>= λ _ s.
      let connector_id = services.uuid4 s.world in
      (write (create_configmap (cm_name connector_id) (new_data connector_id body claims))
          >> write (
              create_custom_object (cm_name connector_id) body.source_type claims.org_id
                body.start_paused)
          >> pure connector_id)
        s
