-- ===== src/Host/Embedded.antt =====
-- internal/auth/host.go: an IPv4 address inside an IPv6 one is judged as itself.
use Prim.Native.Nat.{◌^◌}
use tablex.Common.{
  [], Option, none, not, ◌&&◌, ◌||◌, if◌then◌else◌, ℕ, ◌+◌, ◌*◌, Bool, List, ◌∷◌, some, ◌==◌,
}
use tablex.Host.Judged.{verdict}
use tablex.Host.{quad, Refusal, metadata, private_address, Addr, v4, v6, groups}

-- The IPv6 forms of an IPv4 address: ::ffff:a.b.c.d, ::a.b.c.d and 64:ff9b::a.b.c.d.
pub data Form : Type 0 where
  mapped compatible nat64 : Form

abbrev pub within_ipv6 : Form → ℕ → ℕ
within_ipv6 mapped v = 0xffff * 2 ^ 32 + v
within_ipv6 compatible v = v
within_ipv6 nat64 v = groups 0x64 0xff9b + v

-- The targets of a form: the address itself, mapped, or both.
abbrev targets_of : Form → ℕ → List Addr
targets_of mapped v = v4 v ∷ []
targets_of compatible v = v6 v [] ∷ v4 v ∷ []
targets_of nat64 v = v6 (groups 0x64 0xff9b + v) [] ∷ v4 v ∷ []

-- The addresses by which a form is judged whose IPv4 address is in 0.0.0.0/8.
abbrev low_targets : Form → ℕ → List Addr
low_targets mapped v = v4 v ∷ []
low_targets compatible v = v6 v [] ∷ []
low_targets nat64 v = v6 (groups 0x64 0xff9b + v) [] ∷ []

-- What becomes of a peer that is written as an IPv4 address inside an IPv6 one.
abbrev pub form_verdict : Form → Bool → ℕ → ℕ → ℕ → ℕ → Option Refusal
form_verdict mapped block_private a b c d = verdict block_private a b c d
form_verdict nat64 block_private a b c d = if a == 0 then none else verdict block_private a b c d
form_verdict compatible block_private a b c d =
    if a == 0
    then if quad a b c d == 0
      then some metadata
      else if block_private && quad a b c d == 1 then some private_address else none
    else verdict block_private a b c d
