-- ===== src/Bff/Ssrf/Private.antt =====
-- Which addresses of four octets are refused.
use text.Mathlib.Text.{◌==◌ as str_eq}
use text.Mathlib.TextEquality.{eq_iff}
use aidata_pipeline.Prelude.{
  ℕ, ◌+◌, ◌*◌, ◌/◌, ◌<◌, ◌≡◌, ◌≢◌, ◌↔◌, ap, ◌∙◌, inl, inr, String, Bool, false, ◌&&◌, ◌||◌, some,
  arith, Bool-cases, ◌==◌, leb,
}
use aidata_pipeline.Prelude.Action.{ok}
use aidata_pipeline.Bff.Ssrf.{
  v4, Url, Parsers, octets, is_in, any_of, blocked_networks, is_blocked_ip, validate_url,
  validate_endpoint, or_empty, is_one_of, blocked_schemes, is_blocked_hostname,
}

-- 10/8, 172.16/12, 192.168/16, 127/8 and 169.254/16, by the first two octets.
abbrev pub is_private : ℕ → ℕ → Bool
is_private a b =
    (a == 10)
    || (((a == 172) && (leb 16 b && leb b 31))
        || (((a == 192) && (b == 168)) || ((a == 127) || ((a == 169) && (b == 254)))))

-- An address in the first network of a list of length 8, 12 or 16.
in8 : (a b c d x : ℕ) → b < 256 → c < 256 → d < 256 → (octets a b c d / 16777216 == x) ≡ (a == x)
in8 a b c d x hb hc hd =
    let q : octets a b c d / 16777216 ≡ a = omega (arith, hb, hc, hd) in ap (λ n. n == x) q

in16 :
    (a b c d x y : ℕ)
    → b < 256
    → c < 256
    → d < 256
    → y < 256
    → (octets a b c d / 65536 == x * 256 + y) ≡ ((a == x) && (b == y))
in16 a b c d x y hb hc hd hy =
    let q : octets a b c d / 65536 ≡ a * 256 + b = omega (arith, hb, hc, hd) in
    ap (λ n. n == x * 256 + y) q ∙ ground (arith, hb, hy)

in12 :
    (a b c d : ℕ)
    → b < 256
    → c < 256
    → d < 256
    → (octets a b c d / 1048576 == 2753) ≡ ((a == 172) && (leb 16 b && leb b 31))
in12 a b c d hb hc hd =
    let q : octets a b c d / 1048576 ≡ a * 16 + b / 16 = omega (arith, hb, hc, hd) in
    ap (λ n. n == 2753) q ∙ ground (arith, hb)

any_of-private :
    (a b c d : ℕ)
    → b < 256
    → c < 256
    → d < 256
    → any_of (v4 (octets a b c d)) blocked_networks ≡ is_private a b
unfolding any_of blocked_networks is_in
any_of-private a b c d hb hc hd = ground (
  arith,
  in8 a b c d 10 hb hc hd,
  in12 a b c d hb hc hd,
  in16 a b c d 192 168 hb hc hd (omega arith),
  in8 a b c d 127 hb hc hd,
  in16 a b c d 169 254 hb hc hd (omega arith),
)

is_blocked_ip-v4 :
    (p : Parsers) (host : String) (n : ℕ)
    → p.ip_address host ≡ some (v4 n)
    → is_blocked_ip p host ≡ any_of (v4 n) blocked_networks
unfolding is_blocked_ip
is_blocked_ip-v4 p host n i = ground (arith, i)

-- An endpoint whose host is written as an address of four octets passes exactly where the address is
-- not in 10/8, 172.16/12, 192.168/16, 127/8 or 169.254/16 and neither the scheme nor the name is
-- refused; so no private one passes, whatever the scheme, the path and the port.
pub validate_endpoint-private :
    (p : Parsers) (endpoint host : String) (url : Url) (a b c d : ℕ)
    → p.urlparse endpoint ≡ some url
    → url.hostname ≡ some host
    → host ≢ ""
    → p.ip_address host ≡ some (v4 (octets a b c d))
    → b < 256
    → c < 256
    → d < 256
    → (is_blocked_ip p host ≡ is_private a b)
      × ((validate_endpoint p endpoint ≡ ok tt) ↔ (
          (is_one_of (p.lowered (or_empty url.scheme)) blocked_schemes ≡ false)
          × (is_private a b ≡ false)
          × (is_blocked_hostname p host ≡ false)))
unfolding validate_endpoint validate_url
validate_endpoint-private p endpoint host url a b c d u h n i hb hc hd =
    let private : any_of (v4 (octets a b c d)) blocked_networks ≡ is_private a b =
      any_of-private a b c d hb hc hd in
    let ip : is_blocked_ip p host ≡ is_private a b =
      is_blocked_ip-v4 p host (octets a b c d) i ∙ private in
    let named : or_empty url.hostname ≡ host = ap or_empty h in
    let full : str_eq host "" ≡ false = ground (arith, n, eq_iff host "") in
    let scheme = is_one_of (p.lowered (or_empty url.scheme)) blocked_schemes in
    elim (Bool-cases scheme) [
      | inl x ↦ (ip, (ground (arith, u, x), ground (arith, u, x)))
      | inr x ↦ elim (Bool-cases (is_private a b)) [
        | inl y ↦ (
          ip,
          (ground (arith, u, x, y, ip, named, full), ground (arith, u, x, y, ip, named, full)),
        )
        | inr y ↦ (
          ip,
          (ground (arith, u, x, y, ip, named, full), ground (arith, u, x, y, ip, named, full)),
        )
      ]
    ]
