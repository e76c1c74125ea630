-- ===== src/Bff/Auth/Laws.antt =====
-- Whom the authentication lets in.
use text.Mathlib.Text.{starts_with}
use text.Mathlib.TextEquality.{eq_iff}
use Prim.Native.String.{slice, len}
use aidata_pipeline.Prelude.{◌≡◌, ◌≢◌, inl, inr, String, true, Option, some, arith, Option-cases}
use aidata_pipeline.Prelude.Action.{ok}
use aidata_pipeline.Bff.Auth.{
  JwtClaims, TokenClaims, Headers, get_or, claims_of, check_claims, require_auth,
}

check_claims-org_id :
    (x : Option String) (c : TokenClaims) (claims : JwtClaims)
    → check_claims x c ≡ ok claims
    → (claims ≡ claims_of c claims.org_id) × (c.org_id ≡ some claims.org_id) × (claims.org_id ≢ "")
unfolding check_claims
check_claims-org_id x c claims h = elim (Option-cases c.org_id) [
  | inl e ↦ ground (arith, eq_iff (get_or c.org_id "") "")
  | inr (t, e) ↦ ground (arith, eq_iff t "")
]

check_claims-tenant :
    (x : Option String) (t : String) (c : TokenClaims) (claims : JwtClaims)
    → x ≡ some t
    → check_claims x c ≡ ok claims
    → t ≢ ""
    → t ≡ claims.org_id
unfolding check_claims
check_claims-tenant x t c claims present h n =
    ground (arith, eq_iff t "", eq_iff t (get_or c.org_id ""))

-- Who is let in has a token that was decoded; its organisation is the token's and not empty, and a
-- tenant header that is present and not empty names it too. Without a bearer token no one is.
pub require_auth_sound :
    (decode_token : String → Option TokenClaims) (headers : Headers) (claims : JwtClaims)
    → require_auth decode_token headers ≡ ok claims
    → let authorization = get_or headers.authorization "" in
      (starts_with authorization "Bearer " ≡ true)
      × (claims.org_id ≢ "")
      × ((t : String) → headers.x_tenant_id ≡ some t → t ≢ "" → t ≡ claims.org_id)
      × ((c : TokenClaims) × (decode_token (slice authorization 7 (len authorization)) ≡ some c)
          × (claims ≡ claims_of c claims.org_id)
          × (c.org_id ≡ some claims.org_id))
unfolding require_auth check_claims
require_auth_sound decode_token headers claims h =
    let token = slice (get_or headers.authorization "") 7 (len (get_or headers.authorization "")) in
    elim (Option-cases (decode_token token)) [
      | inl e ↦ ground arith
      | inr (c, e) ↦
          let checked : check_claims headers.x_tenant_id c ≡ ok claims = ground arith in
          let known = check_claims-org_id headers.x_tenant_id c claims checked in
          (
            ground arith,
            known.2,
            λ t present n. check_claims-tenant headers.x_tenant_id t c claims present checked n,
            (c, e, known.0, known.1),
          )
    ]
