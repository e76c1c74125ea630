-- ===== src/Bff/Auth/Tests.antt =====
-- Requests with and without a token.
use text.Mathlib.Text.{starts_with}
use aidata_pipeline.Prelude.{◌≡◌, ◌≢◌, refl, String, true, Option, none, some, [], ◌∷◌}
use aidata_pipeline.Prelude.Action.{ok, err}
use aidata_pipeline.Bff.Auth.{tenant_mismatch, TokenClaims, Headers, claims_of, require_auth}
use aidata_pipeline.Bff.Auth.Laws.{require_auth_sound}

abbrev token : TokenClaims
token = record {
  sub = some "u1";
  email = none;
  org_id = some "acme";
  org_name = none;
  license_type = none;
  quota_tier = none;
  roles = some ("pipeline-admin" ∷ []);
}

abbrev decode : String → Option TokenClaims
decode text = some token

abbrev headers : Option String → Headers
headers tenant = record { authorization = some "Bearer abc"; x_tenant_id = tenant }

other_tenant : require_auth decode (headers (some "beta")) ≡ err tenant_mismatch
unfolding require_auth
other_tenant = refl

let_in : require_auth decode (headers (some "acme")) ≡ ok (claims_of token "acme")
unfolding require_auth
let_in = refl

require_auth_sound_example :
    (starts_with "Bearer abc" "Bearer " ≡ true)
    × ((claims_of token "acme").org_id ≢ "")
    × ((t : String) → some "acme" ≡ some t → t ≢ "" → t ≡ "acme")
    × ((c : TokenClaims) × (decode "abc" ≡ some c)
        × (claims_of token "acme" ≡ claims_of c "acme")
        × (c.org_id ≡ some "acme"))
require_auth_sound_example =
    require_auth_sound decode (headers (some "acme")) (claims_of token "acme") let_in
