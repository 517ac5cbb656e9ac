-- ===== src/Host/Tests.antt =====
-- internal/auth/host.go: concrete peers and headers.
use tablex.Common.{
  none, true, [], Bool, ℕ, false, ◌∷◌, some, ◌==◌, ◌≡◌, refl, arith, bytes, length, ap,
}
use tablex.Text.{Tables, trim_space}
use tablex.Host.{v6, quad, dial_control, client_ip}
use tablex.Host.Embedded.{within_ipv6, nat64}
use tablex.Host.Proxies.{forwarded, client_ip-forwarded}

-- NAT64 and 0.0.0.1.
this_network_let_through :
    dial_control true (some (v6 (within_ipv6 nat64 (quad 0 0 0 1)) [])) ≡ none
unfolding dial_control
this_network_let_through = refl

-- Tables that know ASCII alone.
abbrev ascii : Tables
ascii = record {
  lower_text = λ s. s;
  upper_text = λ s. s;
  trim_text = λ s. s;
  fields_text = λ s. s ∷ [];
  equal_text = λ _ _. false;
  letter = λ _. false;
  digit = λ _. false;
  space = λ _. false;
}

-- An address is a text, known by its length; the proxies' has three bytes.
abbrev proxy : ℕ → Bool
proxy n = n == 3

client_ip-forwarded_example :
    client_ip ascii
      (λ s. some (length s))
      proxy
      (bytes "abc")
      (forwarded (some (bytes "1.1.1.1, abc")) (bytes " ab") (bytes "xyz" ∷ []))
    ≡ trim_space ascii (bytes " ab")
unfolding trim_space
client_ip-forwarded_example =
    client_ip-forwarded ascii (λ s. some (length s)) proxy (bytes "abc") (bytes " ab")
      (some (bytes "1.1.1.1, abc")) (bytes "xyz" ∷ []) 3 2 refl refl (refl, (refl, (refl, tt)))
      ((refl, (refl, (refl, tt))), tt) refl refl ((3, refl, refl), tt)
      (λ e. absurd (omega (arith, ap length e)))
