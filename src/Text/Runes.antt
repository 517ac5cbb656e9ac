-- ===== src/Text/Runes.antt =====
-- Runes as UTF-8: `[]rune(s)` and `strings.Builder.WriteRune`.
use tablex.Common.{
  [], ℕ, zero, suc, ◌+◌, ◌-◌, ◌*◌, ◌/◌, ◌%◌, ◌≤◌, ◌<◌, true, false, ◌||◌, List, ◌∷◌, ◌++◌,
  if◌then◌else◌, ltb, ◌≡◌, refl, ap, ◌∙◌, arith, Str, dec_lt,
}
use tablex.Text.{decode_rune, within, rune_error}

-- What utf8.AppendRune writes; a surrogate or a number out of range as U+FFFD.
abbrev three_bytes : ℕ → Str
three_bytes r = (0xe0 + r / 4096) ∷ (0x80 + r / 64 % 64) ∷ (0x80 + r % 64) ∷ []

unfoldable pub encode_rune : ℕ → Str
encode_rune r =
    if ltb r 0x80
    then r ∷ []
    else if ltb r 0x800
    then (0xc0 + r / 64) ∷ (0x80 + r % 64) ∷ []
    else if within 0xd800 0xdfff r || ltb 0x10ffff r
    then three_bytes rune_error
    else if ltb r 0x10000
    then three_bytes r
    else (0xf0 + r / 262144) ∷ (0x80 + r / 4096 % 64) ∷ (0x80 + r / 64 % 64) ∷ (0x80 + r % 64) ∷ []

unfoldable pub encode : List ℕ → Str
unfolding encode_rune
encode [] = []
encode (r ∷ rs) = encode_rune r ++ encode rs

-- `[]rune(s)`: `skip` counts the bytes left of the rune that was read.
unfoldable pub runes_from : ℕ → Str → List ℕ
unfolding decode_rune
runes_from skip [] = []
runes_from (suc skip) (c ∷ s) = runes_from skip s
runes_from zero (c ∷ s) = (decode_rune (c ∷ s)).0 ∷ runes_from ((decode_rune (c ∷ s)).1 - 1) s

unfoldable pub runes : Str → List ℕ
unfolding runes_from
runes s = runes_from 0 s

-- A Unicode scalar value.
abbrev pub IsRune : ℕ → Type 0
IsRune r = (r ≤ 0x10ffff) × (within 0xd800 0xdfff r ≡ false)

abbrev pub AreRunes : List ℕ → Type 0
AreRunes [] = Unit {0}
AreRunes (r ∷ rs) = IsRune r × AreRunes rs

-- What the bytes of a rune decode to.
decode_one : (c : ℕ) (s : Str) → c < 0x80 → decode_rune (c ∷ s) ≡ (c, 1)
unfolding decode_rune
decode_one c s h = let e : ltb c 0x80 ≡ true = ground arith in rw e refl

decode_two :
    (a b : ℕ) (s : Str)
    → 2 ≤ a
    → a < 32
    → b < 64
    → decode_rune ((0xc0 + a) ∷ (0x80 + b) ∷ s) ≡ (a * 64 + b, 2)
unfolding decode_rune
decode_two a b s h k l = ground arith

decode_three :
    (a b c : ℕ) (s : Str)
    → a < 16
    → b < 64
    → c < 64
    → 0x800 ≤ a * 4096 + b * 64 + c
    → within 0xd800 0xdfff (a * 4096 + b * 64 + c) ≡ false
    → decode_rune ((0xe0 + a) ∷ (0x80 + b) ∷ (0x80 + c) ∷ s) ≡ (a * 4096 + b * 64 + c, 3)
unfolding decode_rune
decode_three a b c s h k l m n = ground arith

decode_four :
    (a b c d : ℕ) (s : Str)
    → a < 5
    → b < 64
    → c < 64
    → d < 64
    → 0x10000 ≤ a * 262144 + b * 4096 + c * 64 + d
    → a * 262144 + b * 4096 + c * 64 + d ≤ 0x10ffff
    → decode_rune ((0xf0 + a) ∷ (0x80 + b) ∷ (0x80 + c) ∷ (0x80 + d) ∷ s)
      ≡ (a * 262144 + b * 4096 + c * 64 + d, 4)
unfolding decode_rune
decode_four a b c d s h k l m n o = ground arith

runes_step :
    (c r n : ℕ) (s : Str)
    → decode_rune (c ∷ s) ≡ (r, suc n)
    → runes_from 0 (c ∷ s) ≡ r ∷ runes_from n s
unfolding runes_from
runes_step c r n s e =
    let f : suc n - 1 ≡ n = omega arith in
    ap (λ (x : ℕ × ℕ). x.0 ∷ runes_from (x.1 - 1) s) e ∙ ap (λ (k : ℕ). r ∷ runes_from k s) f

pub encode_one : (r : ℕ) → r < 0x80 → encode_rune r ≡ r ∷ []
unfolding encode_rune
encode_one r h = let e : ltb r 0x80 ≡ true = ground arith in rw e refl

pub encode_two :
    (r : ℕ) → 0x80 ≤ r → r < 0x800 → encode_rune r ≡ (0xc0 + r / 64) ∷ (0x80 + r % 64) ∷ []
unfolding encode_rune
encode_two r h k =
    let e : ltb r 0x80 ≡ false = ground arith in
    let f : ltb r 0x800 ≡ true = ground arith in rw (e, f) refl

pub encode_three :
    (r : ℕ)
    → 0x800 ≤ r
    → r < 0x10000
    → within 0xd800 0xdfff r ≡ false
    → encode_rune r ≡ (0xe0 + r / 4096) ∷ (0x80 + r / 64 % 64) ∷ (0x80 + r % 64) ∷ []
unfolding encode_rune
encode_three r h k w =
    let e : ltb r 0x80 ≡ false = ground arith in
    let f : ltb r 0x800 ≡ false = ground arith in
    let g : within 0xd800 0xdfff r || ltb 0x10ffff r ≡ false = ground arith in
    let i : ltb r 0x10000 ≡ true = ground arith in rw (e, f, g, i) refl

pub encode_four :
    (r : ℕ)
    → 0x10000 ≤ r
    → r ≤ 0x10ffff
    → encode_rune r
      ≡ (0xf0 + r / 262144) ∷ (0x80 + r / 4096 % 64) ∷ (0x80 + r / 64 % 64) ∷ (0x80 + r % 64) ∷ []
unfolding encode_rune
encode_four r h k =
    let e : ltb r 0x80 ≡ false = ground arith in
    let f : ltb r 0x800 ≡ false = ground arith in
    let g : within 0xd800 0xdfff r || ltb 0x10ffff r ≡ false = ground arith in
    let i : ltb r 0x10000 ≡ false = ground arith in rw (e, f, g, i) refl

abbrev front_runes : Str → Str → List ℕ
front_runes e s = runes_from 0 (e ++ s)

runes-rune_two :
    (r : ℕ) (s : Str)
    → 0x80 ≤ r
    → r < 0x800
    → runes_from 0 (encode_rune r ++ s) ≡ r ∷ runes_from 0 s
unfolding runes_from
runes-rune_two r s h k =
    ap (λ (e : Str). front_runes e s) (encode_two r h k)
    ∙ runes_step (0xc0 + r / 64) r 1 ((0x80 + r % 64) ∷ s) (
        decode_two (r / 64) (r % 64) s (omega arith) (omega arith) (omega arith)
        ∙ ap (λ (x : ℕ). (x, 2)) (omega arith))

runes-rune_three :
    (r : ℕ) (s : Str)
    → 0x800 ≤ r
    → r < 0x10000
    → within 0xd800 0xdfff r ≡ false
    → runes_from 0 (encode_rune r ++ s) ≡ r ∷ runes_from 0 s
unfolding runes_from
runes-rune_three r s h k w =
    let sum : r / 4096 * 4096 + r / 64 % 64 * 64 + r % 64 ≡ r = omega arith in
    ap (λ (e : Str). front_runes e s) (encode_three r h k w)
    ∙ runes_step (0xe0 + r / 4096) r 2 ((0x80 + r / 64 % 64) ∷ (0x80 + r % 64) ∷ s) (
        decode_three (r / 4096) (r / 64 % 64) (r % 64) s (omega arith) (omega arith) (omega arith)
          (omega (arith, sum)) (ap (within 0xd800 0xdfff) sum ∙ w)
        ∙ ap (λ (x : ℕ). (x, 3)) sum)

runes-rune_four :
    (r : ℕ) (s : Str)
    → 0x10000 ≤ r
    → r ≤ 0x10ffff
    → runes_from 0 (encode_rune r ++ s) ≡ r ∷ runes_from 0 s
unfolding runes_from
runes-rune_four r s h k =
    let sum : r / 262144 * 262144 + r / 4096 % 64 * 4096 + r / 64 % 64 * 64 + r % 64 ≡ r =
      omega arith in
    ap (λ (e : Str). front_runes e s) (encode_four r h k)
    ∙ runes_step (0xf0 + r / 262144) r 3
        ((0x80 + r / 4096 % 64) ∷ (0x80 + r / 64 % 64) ∷ (0x80 + r % 64) ∷ s)
        (decode_four (r / 262144) (r / 4096 % 64) (r / 64 % 64) (r % 64) s (omega arith)
            (omega arith) (omega arith) (omega arith) (omega (arith, sum)) (omega (arith, sum))
          ∙ ap (λ (x : ℕ). (x, 4)) sum)

runes-rune_one :
    (r : ℕ) (s : Str) → r < 0x80 → runes_from 0 (encode_rune r ++ s) ≡ r ∷ runes_from 0 s
unfolding runes_from encode_rune
runes-rune_one r s h =
    let e : ltb r 0x80 ≡ true = ground arith in rw e (runes_step r r 0 s (decode_one r s h))

pub runes-rune :
    (r : ℕ) (s : Str) → IsRune r → runes_from 0 (encode_rune r ++ s) ≡ r ∷ runes_from 0 s
runes-rune r s (max, scalar) = elim (dec_lt r 0x80) [
  | yes h ↦ runes-rune_one r s h
  | no h ↦ elim (dec_lt r 0x800) [
    | yes k ↦ runes-rune_two r s (omega arith) k
    | no k ↦ elim (dec_lt r 0x10000) [
      | yes l ↦ runes-rune_three r s (omega arith) l scalar
      | no l ↦ runes-rune_four r s (omega arith) max
    ]
  ]
]

-- Reading the bytes of runes gives the runes.
pub runes-encode : (rs : List ℕ) → AreRunes rs → runes (encode rs) ≡ rs
unfolding runes runes_from encode
runes-encode [] h = refl
runes-encode (r ∷ rs) (h, hs) =
    runes-rune r (encode rs) h ∙ ap (◌∷◌ r) (unfold runes in runes-encode rs hs)
