-- ===== src/Host/Judged.antt =====
-- internal/auth/host.go: the blocked networks, told by the bytes of an address.
use Prim.Native.Nat.{◌^◌}
use tablex.Common.{
  [], ◌∷◌, List, ◌-◌, ℕ, ◌+◌, ◌*◌, ◌/◌, ◌%◌, ◌≤◌, ◌<◌, Bool, true, false, ◌&&◌, ◌||◌, Option, none, some, if◌then◌else◌,
  ◌==◌, ◌≡◌, refl, ap, ◌∙◌, arith, Str,
}
use tablex.Text.{within}
use tablex.Host.{
  v4, v6, quad, groups, same_block, always_blocked_prefixes, private_prefixes, in_prefixes, in_any, targets_for, embedded_ipv4, Addr, any_in, is_link_local_or_metadata, is_private_or_loopback,
  Refusal, dial_control,
}

abbrev pub any_of : List Bool → Bool
any_of [] = false
any_of (x ∷ xs) = x || any_of xs

-- Refused always: 0/8, 169.254/16, 100.100.100.200, 192.0.0/24, 198.18/15, 224/4, 255.255.255.255.
abbrev pub always_refused : ℕ → ℕ → ℕ → ℕ → Bool
always_refused a b c d =
    any_of
      ((a == 0)
        ∷ (a == 169 && b == 254)
        ∷ (a == 100 && b == 100 && c == 100 && d == 200)
        ∷ (a == 192 && b == 0 && c == 0)
        ∷ (a == 198 && within 18 19 b)
        ∷ (within 224 239 a)
        ∷ (a == 255 && b == 255 && c == 255 && d == 255)
        ∷ [])

-- Refused where private networks are: 127/8, 10/8, 172.16/12, 192.168/16, 100.64/10.
abbrev pub privately_refused : ℕ → ℕ → Bool
privately_refused a b =
    any_of
      ((a == 127)
        ∷ (a == 10)
        ∷ (a == 172 && within 16 31 b)
        ∷ (a == 192 && b == 168)
        ∷ (a == 100 && within 64 127 b)
        ∷ [])

abbrev pub verdict : Bool → ℕ → ℕ → ℕ → ℕ → Option Refusal
verdict block_private a b c d =
    if always_refused a b c d
    then some Refusal.metadata
    else if block_private && privately_refused a b
    then some Refusal.private_address
    else none

or_eq : {x y u v : Bool} → x ≡ y → u ≡ v → (x || u) ≡ (y || v)
or_eq e f = rw (e, f) refl

or_false : {x y : Bool} → x ≡ y → (x || false) ≡ y
or_false e = ground arith

module _ (a b c d : ℕ) (ha : a < 256) (hb : b < 256) (hc : c < 256) (hd : d < 256) where
  eight : quad a b c d / 2 ^ 24 ≡ a
  eight = omega arith

  nine : quad a b c d / 2 ^ 28 ≡ a / 16
  nine = omega arith

  sixteen : quad a b c d / 2 ^ 16 ≡ a * 256 + b
  sixteen = omega arith

  fifteen : quad a b c d / 2 ^ 17 ≡ a * 128 + b / 2
  fifteen = omega arith

  twelve : quad a b c d / 2 ^ 20 ≡ a * 16 + b / 16
  twelve = omega arith

  ten : quad a b c d / 2 ^ 22 ≡ a * 4 + b / 64
  ten = omega arith

  twenty_four : quad a b c d / 2 ^ 8 ≡ a * 65536 + b * 256 + c
  twenty_four = omega arith

  one : quad a b c d / 2 ^ 0 ≡ quad a b c d
  one = omega arith

  in_p4 : (bits base : ℕ) → Bool
  in_p4 bits base = same_block (2 ^ (32 - bits)) (quad a b c d) base

  this_network_bytes : in_p4 8 0 ≡ (a == 0)
  unfolding in_p4
  this_network_bytes = let e = eight in ground arith

  link_local_bytes : in_p4 16 (quad 169 254 0 0) ≡ (a == 169 && b == 254)
  unfolding in_p4
  link_local_bytes = let e = sixteen in ground arith

  metadata_bytes : in_p4 32 (quad 100 100 100 200) ≡ (a == 100 && b == 100 && c == 100 && d == 200)
  unfolding in_p4
  metadata_bytes = let e = one in ground arith

  protocol_bytes : in_p4 24 (quad 192 0 0 0) ≡ (a == 192 && b == 0 && c == 0)
  unfolding in_p4
  protocol_bytes = let e = twenty_four in ground arith

  benchmark_bytes : in_p4 15 (quad 198 18 0 0) ≡ (a == 198 && within 18 19 b)
  unfolding in_p4
  benchmark_bytes = let e = fifteen in ground arith

  multicast_bytes : in_p4 4 (quad 224 0 0 0) ≡ within 224 239 a
  unfolding in_p4
  multicast_bytes = let e = nine in ground arith

  broadcast_bytes :
      in_p4 32 (quad 255 255 255 255) ≡ (a == 255 && b == 255 && c == 255 && d == 255)
  unfolding in_p4
  broadcast_bytes = let e = one in ground arith

  loopback_bytes : (n : ℕ) → in_p4 8 (n * 2 ^ 24) ≡ (a == n)
  unfolding in_p4
  loopback_bytes n = let e = eight in let f : n * 2 ^ 24 / 2 ^ 24 ≡ n = omega arith in ground arith

  twelve_bytes : in_p4 12 (quad 172 16 0 0) ≡ (a == 172 && within 16 31 b)
  unfolding in_p4
  twelve_bytes = let e = twelve in ground arith

  sixteen_bytes : in_p4 16 (quad 192 168 0 0) ≡ (a == 192 && b == 168)
  unfolding in_p4
  sixteen_bytes = let e = sixteen in ground arith

  shared_bytes : in_p4 10 (quad 100 64 0 0) ≡ (a == 100 && within 64 127 b)
  unfolding in_p4
  shared_bytes = let e = ten in ground arith

  always_by_bytes : in_prefixes always_blocked_prefixes (v4 (quad a b c d)) ≡ always_refused a b c d
  unfolding in_p4
  always_by_bytes =
      or_eq this_network_bytes
        (or_eq link_local_bytes
          (or_eq metadata_bytes
            (or_eq protocol_bytes
              (or_eq benchmark_bytes (or_eq multicast_bytes (or_eq broadcast_bytes refl))))))

  private_by_bytes : in_prefixes private_prefixes (v4 (quad a b c d)) ≡ privately_refused a b
  unfolding in_p4
  private_by_bytes =
      or_eq (loopback_bytes 127)
        (or_eq (loopback_bytes 10)
          (or_eq twelve_bytes (or_eq sixteen_bytes (or_eq shared_bytes refl))))

  pub dial_control-verdict :
      (block_private : Bool)
      → dial_control block_private (some (v4 (quad a b c d))) ≡ verdict block_private a b c d
  unfolding dial_control in_any
  dial_control-verdict block_private = 
      let always = or_false always_by_bytes in
      let private = or_false private_by_bytes in rw (always, private) refl

-- The IPv6 networks, told by the first group: fe80::/10, fec0::/10 and ff00::/8 always, and fc00::/7
-- where private networks are refused.
abbrev pub group_verdict : Bool → ℕ → Option Refusal
group_verdict block_private g =
    if any_of ((within 0xfe80 0xfeff g) ∷ (within 0xff00 0xffff g) ∷ [])
    then some Refusal.metadata
    else if block_private && within 0xfc00 0xfdff g
    then some Refusal.private_address
    else none

module _ (g rest : ℕ) (low : 0x65 ≤ g) (high : g < 0x10000) (inside : rest < 2 ^ 112) where
  by_118 : (groups g 0 + rest) / 2 ^ 118 ≡ g / 64
  by_118 = omega arith

  by_120 : (groups g 0 + rest) / 2 ^ 120 ≡ g / 256
  by_120 = omega arith

  by_121 : (groups g 0 + rest) / 2 ^ 121 ≡ g / 512
  by_121 = omega arith

  always_by_group :
      in_prefixes always_blocked_prefixes (v6 (groups g 0 + rest) [])
      ≡ any_of ((within 0xfe80 0xfeff g) ∷ (within 0xff00 0xffff g) ∷ [])
  always_by_group =
      let t = by_118 in
      let u = by_120 in
      let zero_block : same_block (2 ^ (128 - 128)) (groups g 0 + rest) 0 ≡ false = ground arith in
      let link : same_block (2 ^ (128 - 10)) (groups g 0 + rest) (groups 0xfe80 0)
        ≡ within 0xfe80 0xfebf g = ground arith in
      let site : same_block (2 ^ (128 - 10)) (groups g 0 + rest) (groups 0xfec0 0)
        ≡ within 0xfec0 0xfeff g = ground arith in
      let multi : same_block (2 ^ (128 - 8)) (groups g 0 + rest) (groups 0xff00 0)
        ≡ within 0xff00 0xffff g = ground arith in
      or_eq zero_block (or_eq link (or_eq site (or_eq multi refl))) ∙ ground arith

  private_by_group :
      in_prefixes private_prefixes (v6 (groups g 0 + rest) []) ≡ within 0xfc00 0xfdff g
  private_by_group =
      let t = by_121 in
      let loopback : same_block (2 ^ (128 - 128)) (groups g 0 + rest) 1 ≡ false = ground arith in
      let unique : same_block (2 ^ (128 - 7)) (groups g 0 + rest) (groups 0xfc00 0)
        ≡ within 0xfc00 0xfdff g = ground arith in
      or_eq loopback (or_eq unique refl) ∙ ground arith

  -- Behind 64::/16 no address embeds another.
  plain_targets : (zone : Str) → targets_for (v6 (groups g 0 + rest) zone) ≡ v6 (groups g 0 + rest) [] ∷ []
  unfolding targets_for embedded_ipv4
  plain_targets zone =
      let x = groups g 0 + rest in
      let e : x / 2 ^ 32 == 0xffff ≡ false = ground arith in
      let outside : same_block (2 ^ (128 - 96)) x 0 ≡ false = ground arith in
      let other : same_block (2 ^ (128 - 96)) x (groups 0x64 0xff9b) ≡ false = ground arith in
      rw (e, outside, other) refl

  pub dial_control-group_verdict :
      (block_private : Bool) (zone : Str)
      → dial_control block_private (some (v6 (groups g 0 + rest) zone))
        ≡ group_verdict block_private g
  unfolding dial_control in_any
  dial_control-group_verdict block_private zone =
      let ts = plain_targets zone in
      let always : is_link_local_or_metadata (v6 (groups g 0 + rest) zone)
        ≡ any_of ((within 0xfe80 0xfeff g) ∷ (within 0xff00 0xffff g) ∷ []) =
        unfold is_link_local_or_metadata in unfold in_any in
        ap (λ (l : List Addr). any_in l always_blocked_prefixes) ts ∙ or_false always_by_group in
      let private : is_private_or_loopback (v6 (groups g 0 + rest) zone) ≡ within 0xfc00 0xfdff g =
        unfold is_private_or_loopback in unfold in_any in
        ap (λ (l : List Addr). any_in l private_prefixes) ts ∙ or_false private_by_group in
      rw (always, private) refl
