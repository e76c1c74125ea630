-- ===== src/Bff/Auth.antt =====
-- services/bff/src/auth.py: `require_auth` and `require_admin`. Decoding and checking a token is a
-- parameter; a request is its two headers.
pub mod Laws
mod Tests
use text.Mathlib.Text.{◌==◌, starts_with}
use Prim.Native.String.{slice, len}
use aidata_pipeline.Prelude.{
  ℕ, String, Bool, true, false, ◌||◌, not, Option, none, some, List, [], ◌∷◌, if◌then◌else◌,
}
use aidata_pipeline.Prelude.Action.{Result, ok, err}

pub data AuthError : Type 0 where
  missing_token invalid_token missing_org_id tenant_mismatch admin_required : AuthError

pub record JwtClaims : Type 0 where
  pub sub : String
  pub email : String
  pub org_id : String
  pub org_name : String
  pub license_type : String
  pub quota_tier : String
  pub roles : List String

-- What a token says; a claim may be missing.
pub record TokenClaims : Type 0 where
  pub sub : Option String
  pub email : Option String
  pub org_id : Option String
  pub org_name : Option String
  pub license_type : Option String
  pub quota_tier : Option String
  pub roles : Option (List String)

pub record Headers : Type 0 where
  pub authorization : Option String
  pub x_tenant_id : Option String

abbrev pub status_of : AuthError → ℕ
status_of missing_token = 401
status_of invalid_token = 401
status_of missing_org_id = 401
status_of tenant_mismatch = 403
status_of admin_required = 403

abbrev pub get_or {ℓ} : {A : Type ℓ} → Option A → A → A
get_or none d = d
get_or (some a) d = a

-- `if x_tenant_id and x_tenant_id != org_id`
abbrev pub is_mismatch : Option String → String → Bool
is_mismatch none org_id = false
is_mismatch (some t) org_id = if t == "" then false else not (t == org_id)

abbrev pub claims_of : TokenClaims → String → JwtClaims
claims_of c org_id = record {
  sub = get_or c.sub "";
  email = get_or c.email "";
  org_id = org_id;
  org_name = get_or c.org_name "";
  license_type = get_or c.license_type "free";
  quota_tier = get_or c.quota_tier "free";
  roles = get_or c.roles [];
}

-- What `require_auth` does with the claims of a token.
unfoldable pub check_claims : Option String → TokenClaims → Result AuthError JwtClaims
check_claims x_tenant_id c =
    let org_id = get_or c.org_id "" in
    if org_id == ""
    then err missing_org_id
    else if is_mismatch x_tenant_id org_id
    then err tenant_mismatch
    else ok (claims_of c org_id)

-- `require_auth`, where `decode_token` answers none for a `JWTError`. A header that starts with
-- `Bearer ` is the token from the eighth character on.
unfoldable pub require_auth : (String → Option TokenClaims) → Headers → Result AuthError JwtClaims
unfolding check_claims
require_auth decode_token headers =
    let authorization = get_or headers.authorization "" in
    if starts_with authorization "Bearer "
    then elim (decode_token (slice authorization 7 (len authorization))) [
      | none ↦ err invalid_token
      | some c ↦ check_claims headers.x_tenant_id c
    ]
    else err missing_token

-- `"pipeline-admin" in claims.roles`
abbrev pub has_role : String → List String → Bool
has_role role [] = false
has_role role (r ∷ roles) = (role == r) || has_role role roles

-- `require_admin`, from the result of `require_auth`.
unfoldable pub require_admin : Result AuthError JwtClaims → Result AuthError JwtClaims
require_admin (err e) = err e
require_admin (ok claims) =
    if has_role "pipeline-admin" claims.roles then ok claims else err admin_required
