-- ===== src/Bff/Sources/Tests.antt =====
-- A connector of one user, and what another user of the tenant gets.
use aidata_pipeline.Prelude.{◌≡◌, refl, String, false, some, []}
use aidata_pipeline.Prelude.Action.{ok, err, ◌>>◌}
use aidata_pipeline.External.Calls.{Outside, Trace}
use aidata_pipeline.Bff.Auth.{JwtClaims}
use aidata_pipeline.Bff.Sources.{
  set, UserSourceCreate, Write, patch_configmap, delete_configmap, delete_custom_object, forbidden,
  Services, cm_name, new_data, get_connector, pause_source, resume_source, delete_source, write,
  try_write,
}
use aidata_pipeline.Bff.Sources.Ownership.{Guarded, owner_endpoints-Guarded}

abbrev outside : Outside Write
outside = record { World = Unit; Exn = Unit; answer = λ c w. (ok tt, w) }

abbrev user : String → JwtClaims
user sub = record {
  sub = sub;
  email = "";
  org_id = "acme";
  org_name = "";
  license_type = "pro";
  quota_tier = "free";
  roles = [];
}

abbrev body : UserSourceCreate
body = record { name = "files"; source_type = "nfs"; config_json = "{}"; start_paused = false }

abbrev services : Services outside
services = record {
  get_configmap = λ name w. (ok (some (new_data "c1" body (user "u1"))), w);
  check_quota = λ org_id w. (ok false, w);
  uuid4 = λ w. "c1";
}

abbrev start : Trace outside
start = record { world = tt; log = [] }

not_the_owner : pause_source outside services "c1" (user "u2") start ≡ (err forbidden, start)
unfolding pause_source get_connector
not_the_owner = refl

owner_endpoints-Guarded_example :
    Guarded outside services "c1"
      (user "u1")
      (pause_source outside services "c1" (user "u1"))
      (λ entries.
        write outside services (patch_configmap (cm_name "c1") (set "start_paused" "true" entries)))
    × Guarded outside services "c1"
        (user "u1")
        (resume_source outside services "c1" (user "u1"))
        (λ entries.
          write outside services
            (patch_configmap (cm_name "c1") (set "start_paused" "false" entries)))
    × Guarded outside services "c1"
        (user "u1")
        (delete_source outside services "c1" (user "u1"))
        (λ entries.
          write outside services (delete_configmap (cm_name "c1"))
          >> try_write outside services (delete_custom_object (cm_name "c1")))
owner_endpoints-Guarded_example = owner_endpoints-Guarded outside services "c1" (user "u1")
