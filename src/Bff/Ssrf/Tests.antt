-- ===== src/Bff/Ssrf/Tests.antt =====
-- An endpoint in a private network.
use text.Mathlib.Text.{◌==◌ as str_eq}
use aidata_pipeline.Prelude.{◌≡◌, ◌≢◌, ◌↔◌, refl, ap, String, true, false, some, arith}
use aidata_pipeline.Prelude.Action.{ok}
use aidata_pipeline.Bff.Ssrf.{
  v4, Url, Parsers, octets, is_one_of, blocked_schemes, is_blocked_ip, is_blocked_hostname,
  validate_endpoint,
}
use aidata_pipeline.Bff.Ssrf.Private.{validate_endpoint-private}

abbrev host : String
host = "172.20.0.1"

abbrev url : Url
url = record { scheme = some "http"; hostname = some host }

abbrev parsers : Parsers
parsers = record {
  urlparse = λ endpoint. some url;
  ip_address = λ text. some (v4 (octets 172 20 0 1));
  lowered = λ text. text;
}

host_is_there : host ≢ ""
host_is_there h = ground (arith, ap (λ x. str_eq x "") h)

validate_endpoint-private_example :
    (is_blocked_ip parsers host ≡ true)
    × ((validate_endpoint parsers "http://172.20.0.1/b" ≡ ok tt) ↔ (
        (is_one_of "http" blocked_schemes ≡ false)
        × (true ≡ false)
        × (is_blocked_hostname parsers host ≡ false)))
validate_endpoint-private_example =
    validate_endpoint-private parsers "http://172.20.0.1/b" host url 172 20 0 1 refl refl
      host_is_there refl (omega arith) (omega arith) (omega arith)
