-- ===== src/Bff/Admin/Guards.antt =====
-- Another tenant's connector is neither changed nor deleted.
use text.Mathlib.Text.{◌==◌ as str_eq}
use text.Mathlib.TextEquality.{eq_iff}
use aidata_pipeline.Prelude.{
  ◌≡◌, ◌≢◌, ◌∙◌, refl, inl, inr, String, false, Option, none, some, arith, Option-cases,
}
use aidata_pipeline.Prelude.Action.{ok, err}
use aidata_pipeline.External.Calls.{Outside, Trace}
use aidata_pipeline.Bff.Auth.{JwtClaims}
use aidata_pipeline.Bff.Sources.{
  ConfigData, Write, forbidden, Services, cm_name, is_of_tenant, lower,
}
use aidata_pipeline.Bff.Admin.{
  Builtins, ConnectorPatch, patched_data, set_if, mapped, get_own, own_or_raise, update_connector,
  delete_connector,
}

is_of_tenant-other :
    (entries : ConfigData) (org_id : String)
    → entries "tenant_id" ≢ some org_id
    → is_of_tenant entries org_id ≡ false
is_of_tenant-other entries org_id h = elim (Option-cases (entries "tenant_id")) [
  | inl e ↦ ground (arith, e)
  | inr (t, e) ↦ ground (arith, e, h, eq_iff t org_id)
]

set_if-other :
    (value : Option String) (key j : String) (entries : ConfigData)
    → str_eq j key ≡ false
    → set_if value key entries j ≡ entries j
set_if-other none key j entries h = refl
set_if-other (some v) key j entries h = ground (arith, h)

patched_data-kept :
    (b : Builtins) (body : ConnectorPatch b) (entries : ConfigData)
    → (patched_data b body entries "tenant_id" ≡ entries "tenant_id")
      × (patched_data b body entries "id" ≡ entries "id")
unfolding patched_data
patched_data-kept b body entries =
    let named = set_if body.name "name" entries in
    let configured = set_if (mapped b.dumps body.config) "config" named in
    let paused = mapped lower body.start_paused in
    (
      set_if-other paused "start_paused" "tenant_id" configured refl
          ∙ (set_if-other (mapped b.dumps body.config) "config" "tenant_id" named refl
              ∙ set_if-other body.name "name" "tenant_id" entries refl),
      set_if-other paused "start_paused" "id" configured refl
          ∙ (set_if-other (mapped b.dumps body.config) "config" "id" named refl
              ∙ set_if-other body.name "name" "id" entries refl),
    )

-- When the connector that is asked for is another tenant's, an admin's update and deletion are both a
-- 403 and write nothing; and no update's data names another tenant or another id than before.
pub admin_endpoints-Forbidden :
    (b : Builtins) (o : Outside Write) (services : Services o) (answered : ConfigData → ConfigData)
    (read_error : o.Exn) (connector_id : String) (body : ConnectorPatch b) (claims : JwtClaims)
    (entries : ConfigData) (s : Trace o)
    → (services.get_configmap (cm_name connector_id) s.world).0 ≡ ok (some entries)
    → entries "tenant_id" ≢ some claims.org_id
    → let s' : Trace o = record s {
      world = (services.get_configmap (cm_name connector_id) s.world).1;
    } in
      (update_connector b o services answered read_error connector_id body claims s
        ≡ (err forbidden, s'))
      × (delete_connector b o services answered read_error connector_id claims s
          ≡ (err forbidden, s'))
      × (patched_data b body entries "tenant_id" ≡ entries "tenant_id")
      × (patched_data b body entries "id" ≡ entries "id")
unfolding update_connector delete_connector get_own own_or_raise
admin_endpoints-Forbidden b o services answered read_error connector_id body claims entries s e h =
    let other = is_of_tenant-other entries claims.org_id h in
    (
      ground (arith, e, other),
      ground (arith, e, other),
      (patched_data-kept b body entries).0,
      (patched_data-kept b body entries).1,
    )
