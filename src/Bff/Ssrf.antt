-- ===== src/Bff/Ssrf.antt =====
-- services/bff/src/ssrf_validator.py: which endpoints a connector may be given. `urlparse`,
-- `ipaddress.ip_address` and `str.lower` are parameters; an address is a number of 32 or 128 bits.
pub mod Private
mod Tests
use text.Mathlib.Text.{◌==◌ as str_eq}
use Prim.Native.String.{slice, len}
use aidata_pipeline.Prelude.{
  ℕ, ◌+◌, ◌-◌, ◌*◌, ◌/◌, ◌^◌, String, Bool, true, false, ◌&&◌, ◌||◌, leb, Option, none, some, List,
  [], ◌∷◌, ◌==◌, if◌then◌else◌,
}
use aidata_pipeline.Prelude.Action.{Result, ok, err}

pub data Address : Type 0 where
  v4 v6 : ℕ → Address

-- A network by its first address and the length of its prefix.
pub data Network : Type 0 where
  net4 net6 : (base prefix : ℕ) → Network

abbrev pub octets : ℕ → ℕ → ℕ → ℕ → ℕ
octets a b c d = a * 16777216 + b * 65536 + c * 256 + d

-- `addr in net`
unfoldable pub is_in : Address → Network → Bool
is_in (v4 n) (net4 base prefix) = n / 2 ^ (32 - prefix) == base / 2 ^ (32 - prefix)
is_in (v4 n) (net6 base prefix) = false
is_in (v6 n) (net4 base prefix) = false
is_in (v6 n) (net6 base prefix) = n / 2 ^ (128 - prefix) == base / 2 ^ (128 - prefix)

unfoldable pub any_of : Address → List Network → Bool
any_of addr [] = false
any_of addr (net ∷ nets) = is_in addr net || any_of addr nets

-- `_BLOCKED_NETWORKS`
unfoldable pub blocked_networks : List Network
blocked_networks =
    net4 (octets 10 0 0 0) 8
    ∷ net4 (octets 172 16 0 0) 12
    ∷ net4 (octets 192 168 0 0) 16
    ∷ net4 (octets 127 0 0 0) 8
    ∷ net4 (octets 169 254 0 0) 16
    ∷ net6 1 128
    ∷ net6 (252 * 2 ^ 120) 7
    ∷ net6 (65152 * 2 ^ 112) 10
    ∷ []

abbrev pub blocked_schemes : List String
blocked_schemes = "file" ∷ "gopher" ∷ "dict" ∷ "ldap" ∷ "ldaps" ∷ "ftp" ∷ "netdoc" ∷ []

abbrev pub svc_suffixes : List String
svc_suffixes = ".svc" ∷ ".svc.cluster.local" ∷ ".internal" ∷ []

unfoldable pub is_one_of : String → List String → Bool
is_one_of text [] = false
is_one_of text (x ∷ xs) = str_eq text x || is_one_of text xs

-- `text.endswith(suffix)`
abbrev pub ends_with : String → String → Bool
ends_with text suffix =
    leb (len suffix) (len text) && str_eq (slice text (len text - len suffix) (len text)) suffix

unfoldable pub ends_with_any : String → List String → Bool
ends_with_any text [] = false
ends_with_any text (x ∷ xs) = ends_with text x || ends_with_any text xs

pub record Url : Type 0 where
  pub scheme : Option String
  pub hostname : Option String

-- None stands for an exception.
pub record Parsers : Type 0 where
  pub urlparse : String → Option Url
  pub ip_address : String → Option Address
  pub lowered : String → String

-- Why an endpoint is refused, always with a 400.
pub data Blocked : Type 0 where
  invalid_url scheme_not_permitted no_hostname internal_address : Blocked

abbrev pub or_empty : Option String → String
or_empty none = ""
or_empty (some text) = text

module _ (p : Parsers) where
  unfoldable pub is_blocked_ip : String → Bool
  is_blocked_ip host = elim (p.ip_address host) [
    | some addr ↦ any_of addr blocked_networks
    | none ↦ false
  ]

  unfoldable pub is_blocked_hostname : String → Bool
  is_blocked_hostname host =
      str_eq (p.lowered host) "localhost" || ends_with_any (p.lowered host) svc_suffixes

  unfoldable pub validate_url : Url → Result Blocked Unit
  validate_url url =
      if is_one_of (p.lowered (or_empty url.scheme)) blocked_schemes
      then err scheme_not_permitted
      else if str_eq (or_empty url.hostname) ""
      then err no_hostname
      else if is_blocked_ip (or_empty url.hostname) || is_blocked_hostname (or_empty url.hostname)
      then err internal_address
      else ok tt

  unfoldable pub validate_endpoint : String → Result Blocked Unit
  validate_endpoint endpoint = elim (p.urlparse endpoint) [
    | none ↦ err invalid_url
    | some url ↦ validate_url url
  ]
