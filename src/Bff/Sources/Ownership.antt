-- ===== src/Bff/Sources/Ownership.antt =====
-- Who may change a connector, and what a change writes.
use text.Mathlib.TextEquality.{eq_iff}
use aidata_pipeline.Prelude.{
  ◌≡◌, ◌≢◌, refl, ◌⊎◌, inl, inr, String, true, false, none, some, ◌∷◌, arith, Option-cases,
}
use aidata_pipeline.Prelude.Action.{ok, err, ◌>>◌}
use aidata_pipeline.External.Calls.{Outside, Trace}
use aidata_pipeline.Bff.Auth.{JwtClaims, has_role, get_or}
use aidata_pipeline.Bff.Sources.{
  ConfigData, set, UserSourceCreate, Write, create_configmap, patch_configmap, delete_configmap,
  create_custom_object, delete_custom_object, not_found, forbidden, quota_exceeded, raised,
  Services, cm_name, is_of_tenant, new_data, pause_source, resume_source, delete_source,
  is_unlimited, create_source, Endpoint, write, try_write,
}

module _ (o : Outside Write) (services : Services o) (connector_id : String)
    (claims : JwtClaims) where
  -- What an endpoint does, by what is stored: without the connector, or with another tenant's, it is
  -- a 404, for a caller of the tenant who is neither admin nor owner a 403, and nothing is written;
  -- otherwise it goes on as `change` says.
  pub Guarded : Endpoint o services Unit → (ConfigData → Endpoint o services Unit) → Type 0
  Guarded endpoint change =
      (s : Trace o)
      → let (r, w) = services.get_configmap (cm_name connector_id) s.world in
        let s' : Trace o = record s { world = w } in
        (r ≡ ok none → endpoint s ≡ (err not_found, s'))
        × ((e : o.Exn) → r ≡ err e → endpoint s ≡ (err (raised e), s'))
        × ((entries : ConfigData)
            → r ≡ ok (some entries)
            → (entries "tenant_id" ≢ some claims.org_id → endpoint s ≡ (err not_found, s'))
              × (entries "tenant_id" ≡ some claims.org_id
                  → (has_role "pipeline-admin" claims.roles ≡ false)
                  → (get_or (entries "owner_id") "" ≢ claims.sub)
                  → endpoint s ≡ (err forbidden, s'))
              × (entries "tenant_id" ≡ some claims.org_id
                  → (has_role "pipeline-admin" claims.roles ≡ true)
                    ⊎ (get_or (entries "owner_id") "" ≡ claims.sub)
                  → endpoint s ≡ change entries s'))

  is_of_tenant_iff :
      (entries : ConfigData) (org_id : String)
      → ((entries "tenant_id" ≡ some org_id) × (is_of_tenant entries org_id ≡ true))
        ⊎ ((entries "tenant_id" ≢ some org_id) × (is_of_tenant entries org_id ≡ false))
  is_of_tenant_iff entries org_id = elim (Option-cases (entries "tenant_id")) [
    | inl e ↦ ground arith
    | inr (t, e) ↦ ground (arith, eq_iff t org_id)
  ]

  pause-Guarded : Guarded (pause_source o services connector_id claims) (λ entries.
      write o services (patch_configmap (cm_name connector_id) (set "start_paused" "true" entries)))
  unfolding pause_source Guarded
  pause-Guarded s = (
    λ h. ground arith,
    λ e h. ground arith,
    λ entries h.
        let tenant = is_of_tenant_iff entries claims.org_id in
        let owner = eq_iff (get_or (entries "owner_id") "") claims.sub in
        (
          λ n. ground (arith, tenant),
          λ t a n. ground (arith, tenant, owner),
          λ t a. ground (arith, tenant, owner),
        ),
  )

  resume-Guarded : Guarded (resume_source o services connector_id claims) (λ entries.
      write o services
        (patch_configmap (cm_name connector_id) (set "start_paused" "false" entries)))
  unfolding resume_source Guarded
  resume-Guarded s = (
    λ h. ground arith,
    λ e h. ground arith,
    λ entries h.
        let tenant = is_of_tenant_iff entries claims.org_id in
        let owner = eq_iff (get_or (entries "owner_id") "") claims.sub in
        (
          λ n. ground (arith, tenant),
          λ t a n. ground (arith, tenant, owner),
          λ t a. ground (arith, tenant, owner),
        ),
  )

  delete-Guarded : Guarded (delete_source o services connector_id claims) (λ entries.
      write o services (delete_configmap (cm_name connector_id))
      >> try_write o services (delete_custom_object (cm_name connector_id)))
  unfolding delete_source Guarded
  delete-Guarded s = (
    λ h. ground arith,
    λ e h. ground arith,
    λ entries h.
        let tenant = is_of_tenant_iff entries claims.org_id in
        let owner = eq_iff (get_or (entries "owner_id") "") claims.sub in
        (
          λ n. ground (arith, tenant),
          λ t a n. ground (arith, tenant, owner),
          λ t a. ground (arith, tenant, owner),
        ),
  )

  -- Pausing, resuming and deleting alike: without the connector, or with another tenant's, it is a
  -- 404, and for a caller of the tenant who is neither its admin nor the owner a 403, and nothing is
  -- written; for any other caller the flag is written into the data stored, which keeps the rest, or
  -- both objects are deleted.
  pub owner_endpoints-Guarded :
      Guarded (pause_source o services connector_id claims) (λ entries.
        write o services
          (patch_configmap (cm_name connector_id) (set "start_paused" "true" entries)))
      × Guarded (resume_source o services connector_id claims) (λ entries.
        write o services
          (patch_configmap (cm_name connector_id) (set "start_paused" "false" entries)))
      × Guarded (delete_source o services connector_id claims) (λ entries.
        write o services (delete_configmap (cm_name connector_id))
        >> try_write o services (delete_custom_object (cm_name connector_id)))
  owner_endpoints-Guarded = (pause-Guarded, resume-Guarded, delete-Guarded)

module _ (o : Outside Write) (services : Services o) (body : UserSourceCreate)
    (claims : JwtClaims) where
  -- A tier that is counted and has no quota left creates nothing. A connector that is created is
  -- stored, and then announced, with the tenant and the user of the caller as its tenant and owner.
  pub create_source_owned :
      (connector_id : String) (s : Trace o)
      → (is_unlimited o services claims.license_type ≡ false
          → (services.check_quota claims.org_id s.world).0 ≡ ok false
          → ((create_source o services body claims s).0 ≡ err quota_exceeded)
            × ((create_source o services body claims s).1.log ≡ s.log))
        × ((create_source o services body claims s).0 ≡ ok connector_id
            → let entries = new_data connector_id body claims in
              ((create_source o services body claims s).1.log
                ≡ record {
                  made =
                      create_custom_object
                        (cm_name connector_id)
                        body.source_type
                        claims.org_id
                        body.start_paused;
                  returned = true;
                }
                  ∷ record {
                    made = create_configmap (cm_name connector_id) entries;
                    returned = true;
                  }
                  ∷ s.log)
              × (entries "tenant_id" ≡ some claims.org_id)
              × (entries "owner_id" ≡ some claims.sub))
  unfolding create_source
  create_source_owned connector_id s = (λ u q. ground arith, λ h. (ground arith, refl, refl))
