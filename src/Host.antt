-- ===== src/Host.antt =====
-- internal/auth/host.go: which hosts and peers a login may reach (CheckHost, DialControl), and the
-- client's address behind proxies (ClientIP); CanonicalHost of internal/config/config.go. An
-- address is netip.Addr of the standard library; parsing one and resolving a name are parameters.
pub mod Embedded
pub mod Judged
pub mod Proxies
mod Tests
use Prim.Native.Nat.{◌^◌}
use tablex.Common.{
  [], ℕ, ◌+◌, ◌-◌, ◌*◌, ◌/◌, ◌%◌, Bool, true, false, not, ◌&&◌, ◌||◌, List, ◌∷◌, Option, none, some,
  if◌then◌else◌, ◌==◌, Str,
}
use tablex.Text.{Tables, trim_space, to_lower, equal_fold, split_on}

-- netip.Addr: an IPv6 address has a zone, empty for none.
pub data Addr : Type 0 where
  v4 : ℕ → Addr
  v6 : ℕ → Str → Addr

-- netip.Prefix, and its Contains: another family never matches, nor does an address with a zone.
pub data Prefix : Type 0 where
  p4 : ℕ → ℕ → Prefix
  p6 : ℕ → ℕ → Prefix

abbrev pub same_block : ℕ → ℕ → ℕ → Bool
same_block size a b = a / size == b / size

abbrev pub prefix_contains : Prefix → Addr → Bool
prefix_contains (p4 base bits) (v4 x) = same_block (2 ^ (32 - bits)) x base
prefix_contains (p6 base bits) (v6 x []) = same_block (2 ^ (128 - bits)) x base
prefix_contains (p6 base bits) (v6 x (c ∷ zone)) = false
prefix_contains (p4 base bits) (v6 x zone) = false
prefix_contains (p6 base bits) (v4 x) = false

-- Four bytes, and the first two groups of sixteen bits.
abbrev pub quad : ℕ → ℕ → ℕ → ℕ → ℕ
quad a b c d = a * 2 ^ 24 + b * 2 ^ 16 + c * 2 ^ 8 + d

abbrev pub groups : ℕ → ℕ → ℕ
groups a b = a * 2 ^ 112 + b * 2 ^ 96

abbrev pub always_blocked_prefixes : List Prefix
always_blocked_prefixes =
    p4 0 8
    ∷ p4 (quad 169 254 0 0) 16
    ∷ p4 (quad 100 100 100 200) 32
    ∷ p4 (quad 192 0 0 0) 24
    ∷ p4 (quad 198 18 0 0) 15
    ∷ p4 (quad 224 0 0 0) 4
    ∷ p4 (quad 255 255 255 255) 32
    ∷ p6 0 128
    ∷ p6 (groups 0xfe80 0) 10
    ∷ p6 (groups 0xfec0 0) 10
    ∷ p6 (groups 0xff00 0) 8
    ∷ []

abbrev pub private_prefixes : List Prefix
private_prefixes =
    p4 (quad 127 0 0 0) 8
    ∷ p4 (quad 10 0 0 0) 8
    ∷ p4 (quad 172 16 0 0) 12
    ∷ p4 (quad 192 168 0 0) 16
    ∷ p4 (quad 100 64 0 0) 10
    ∷ p6 1 128
    ∷ p6 (groups 0xfc00 0) 7
    ∷ []

abbrev pub nat64_well_known : Prefix
nat64_well_known = p6 (groups 0x64 0xff9b) 96

abbrev pub v4_compatible : Prefix
v4_compatible = p6 0 96

abbrev pub this_network : Prefix
this_network = p4 0 8

-- Unmap, and WithZone("").
abbrev pub unmap : Addr → Addr
unmap (v4 x) = v4 x
unmap (v6 x zone) = if x / 2 ^ 32 == 0xffff then v4 (x % 2 ^ 32) else v6 x zone

abbrev pub without_zone : Addr → Addr
without_zone (v4 x) = v4 x
without_zone (v6 x zone) = v6 x []

pub embedded_ipv4 : Addr → Option Addr
embedded_ipv4 (v4 x) = none
embedded_ipv4 (v6 x zone) =
    if not
      (prefix_contains v4_compatible (v6 x zone) || prefix_contains nat64_well_known (v6 x zone))
    then none
    else if prefix_contains this_network (v4 (x % 2 ^ 32))
    then none
    else some (v4 (x % 2 ^ 32))

abbrev pub with_embedded : Addr → Option Addr → List Addr
with_embedded a none = a ∷ []
with_embedded a (some b) = a ∷ b ∷ []

pub targets_for : Addr → List Addr
unfolding embedded_ipv4
targets_for a = with_embedded (without_zone (unmap a)) (embedded_ipv4 (without_zone (unmap a)))

abbrev pub in_prefixes : List Prefix → Addr → Bool
in_prefixes [] a = false
in_prefixes (p ∷ ps) a = prefix_contains p a || in_prefixes ps a

abbrev pub any_in : List Addr → List Prefix → Bool
any_in [] ps = false
any_in (a ∷ as_) ps = in_prefixes ps a || any_in as_ ps

pub in_any : Addr → List Prefix → Bool
unfolding targets_for
in_any a ps = any_in (targets_for a) ps

pub is_link_local_or_metadata : Addr → Bool
unfolding in_any
is_link_local_or_metadata a = in_any a always_blocked_prefixes

pub is_private_or_loopback : Addr → Bool
unfolding in_any
is_private_or_loopback a = in_any a private_prefixes

-- The errors; of the network, the first two are DialControl's too.
pub data Refusal : Type 0 where
  metadata private_address unnamed denied unlisted unresolved : Refusal

-- DialControl on the peer that ParseAddrPort reads; none is nil.
pub dial_control : Bool → Option Addr → Option Refusal
unfolding is_link_local_or_metadata is_private_or_loopback
dial_control block_private none = none
dial_control block_private (some ip) =
    if is_link_local_or_metadata ip
    then some metadata
    else if block_private && is_private_or_loopback ip
    then some private_address
    else none

pub record SecurityConfig : Type 0 where
  pub host_denylist : List Str
  pub host_allowlist : List Str
  pub block_private : Bool

module _ (t : Tables) (parse_addr : Str → Option Addr) (lookup : Str → Option (List Addr)) where
  -- The text between brackets.
  abbrev inner : Str → Option Str
  inner [] = none
  inner (c ∷ []) = if c == b']' then some [] else none
  inner (c ∷ d ∷ s) = elim (inner (d ∷ s)) [ none ↦ none | some w ↦ some (c ∷ w) ]

  abbrev bracketed : Str → Option Str
  bracketed [] = none
  bracketed (c ∷ s) = if c == b'[' then inner s else none

  abbrev bare_if : Str → Str → Option Addr → Str
  bare_if host bare none = host
  bare_if host bare (some ip) = bare

  pub canonical_trimmed : Str → Str
  canonical_trimmed host = elim (bracketed host) [
    | none ↦ host
    | some bare ↦ bare_if host bare (parse_addr bare)
  ]

  pub canonical_host : Str → Str
  unfolding canonical_trimmed trim_space
  canonical_host host = canonical_trimmed (trim_space t host)

  pub listed : List Str → Str → Bool
  unfolding canonical_host equal_fold
  listed [] host = false
  listed (d ∷ ds) host = equal_fold t (canonical_host d) host || listed ds host

  pub check_ips : Bool → List Addr → Option Refusal
  unfolding dial_control
  check_ips block_private [] = none
  check_ips block_private (ip ∷ ips) = elim (dial_control block_private (some ip)) [
    | some r ↦ some r
    | none ↦ check_ips block_private ips
  ]

  pub check_resolved : Bool → Str → Option Addr → Option Refusal
  unfolding check_ips
  check_resolved block_private host (some ip) = check_ips block_private (ip ∷ [])
  check_resolved block_private host none = elim (lookup host) [
    | none ↦ if block_private then some unresolved else none
    | some addrs ↦ check_ips block_private addrs
  ]

  abbrev is_empty : List Str → Bool
  is_empty [] = true
  is_empty (a ∷ as_) = false

  pub check_canonical : SecurityConfig → Str → Option Refusal
  unfolding listed check_resolved to_lower
  check_canonical sec [] = some unnamed
  check_canonical sec (c ∷ host) =
      if listed sec.host_denylist (c ∷ host)
      then some denied
      else if not (is_empty sec.host_allowlist) && not (listed sec.host_allowlist (c ∷ host))
      then some unlisted
      else check_resolved sec.block_private (c ∷ host) (parse_addr (to_lower t (c ∷ host)))

  pub check_host : SecurityConfig → Str → Option Refusal
  unfolding check_canonical canonical_host
  check_host sec host = check_canonical sec (canonical_host host)

abbrev pub backwards : List Str → List Str → List Str
backwards [] acc = acc
backwards (x ∷ xs) acc = backwards xs (x ∷ acc)

abbrev pub first_part : List Str → Str
first_part [] = []
first_part (x ∷ xs) = x

abbrev pub blank_or : Str → Str → Str → Str
blank_or [] remote answer = remote
blank_or (c ∷ s) remote answer = answer

-- ClientIP: net.ParseIP and Trusted are parameters; `remote` is the connected address, `xff` the
-- joined headers.
module _ (t : Tables) {IP : Type 0} (parse_ip : Str → Option IP) (trusted : IP → Bool) where
  abbrev trusts : Option IP → Bool
  trusts none = false
  trusts (some ip) = trusted ip

  -- The hops from the right; `all` is the answer where every hop is trusted.
  pub client_hop : Str → Str → List Str → Str
  unfolding trim_space
  client_hop remote all [] = all
  client_hop remote all (part ∷ parts) = elim (parse_ip (trim_space t part)) [
    | none ↦ remote
    | some ip ↦ if trusted ip then client_hop remote all parts else trim_space t part
  ]

  pub client_ip : Str → Str → Str
  unfolding client_hop split_on trim_space
  client_ip remote xff =
      if trusts (parse_ip remote)
      then blank_or (trim_space t xff) remote (
          client_hop remote (trim_space t (first_part (split_on b',' xff)))
            (backwards (split_on b',' xff) []))
      else remote
