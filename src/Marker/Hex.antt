-- ===== src/Marker/Hex.antt =====
-- internal/driver/marker.go: hex fields, and the front of a marker line.
use tablex.Common.{
  [], ℕ, ◌+◌, ◌*◌, ◌/◌, ◌%◌, ◌≤◌, ◌<◌, Bool, true, false, not, ◌||◌, ◌∷◌, ◌++◌, some, ltb, ◌==◌,
  ◌≡◌, ◌≢◌, refl, sym, ◌∙◌, ap, arith, Str, length, append_assoc,
}
use tablex.Text.{cut_prefix}
use tablex.Text.Split.{Free, Free-no_byte, Free-append}
use tablex.Marker.{
  marker_prefix, hex_digit, hex_encode, trim_cr, cut_marker, lower_hex, all_lower_hex, hex_value,
  hex_decode, hex_field,
}

abbrev pub AreBytes : Str → Type 0
AreBytes [] = Unit {0}
AreBytes (c ∷ s) = (c < 256) × AreBytes s

-- The optional carriage return at the end of a line.
abbrev pub line_cr : Bool → Str → Str
line_cr true s = s ++ (13 ∷ [])
line_cr false s = s

digit_value : (d : ℕ) → d < 16 → hex_value (hex_digit d) ≡ d
digit_value d h = ground arith

digit_lower : (d : ℕ) → d < 16 → lower_hex (hex_digit d) ≡ true
digit_lower d h = ground arith

digit-Free : (q d : ℕ) → q < b'0' → d < 16 → hex_digit d == q ≡ false
digit-Free q d k h = ground arith

length-hex_encode : (s : Str) → length (hex_encode s) ≡ 2 * length s
unfolding hex_encode
length-hex_encode [] = omega arith
length-hex_encode (c ∷ s) = omega (arith, length-hex_encode s)

all_lower_hex-encode : (s : Str) → AreBytes s → all_lower_hex (hex_encode s) ≡ true
unfolding hex_encode all_lower_hex
all_lower_hex-encode [] h = refl
all_lower_hex-encode (c ∷ s) (b, h) =
    rw (digit_lower (c / 16) (omega arith), digit_lower (c % 16) (omega arith), all_lower_hex)
      (all_lower_hex-encode s h)

hex_decode-encode : (s : Str) → AreBytes s → hex_decode (hex_encode s) ≡ some s
unfolding hex_encode hex_decode
hex_decode-encode [] h = refl
hex_decode-encode (c ∷ s) (b, h) =
    let whole : hex_value (hex_digit (c / 16)) * 16 + hex_value (hex_digit (c % 16)) ≡ c =
      rw (digit_value (c / 16) (omega arith), digit_value (c % 16) (omega arith)) (omega arith) in
    rw (hex_decode-encode s h, hex_decode) (ap (λ (x : ℕ). some (x ∷ s)) whole)

pub hex_encode-Free : (q : ℕ) (s : Str) → q < b'0' → AreBytes s → Free q (hex_encode s)
unfolding hex_encode
hex_encode-Free q [] k h = tt
hex_encode-Free q (c ∷ s) k (b, h) = (
  digit-Free q (c / 16) k (omega arith),
  (digit-Free q (c % 16) k (omega arith), hex_encode-Free q s k h),
)

even_length : (n : ℕ) → (2 * n) % 2 ≡ 0
even_length n = omega arith

in_bounds :
    (n : ℕ)
    → 0 < n
    → n ≤ 512
    → (2 * n == 0 || ltb 1024 (2 * n) || not (2 * n % 2 == 0) || not true) ≡ false
in_bounds n p l = rw (even_length n) (ground arith)

pub hex_field-encode :
    (s : Str) → s ≢ [] → length s ≤ 512 → AreBytes s → hex_field (hex_encode s) ≡ some s
unfolding hex_field
hex_field-encode [] ne l h = absurd (ne refl)
hex_field-encode (c ∷ s) ne l h =
    rw (all_lower_hex-encode (c ∷ s) h, length-hex_encode (c ∷ s))
      (rw (in_bounds (length (c ∷ s)) (omega arith) l) (hex_decode-encode (c ∷ s) h))

pub cut_prefix-append : (p s : Str) → cut_prefix p (p ++ s) ≡ some s
unfolding cut_prefix
cut_prefix-append [] s = refl
cut_prefix-append (c ∷ p) s = ground (arith, cut_prefix-append p s)

-- Without a carriage return of its own, a line is what cutMarker reads, with one behind it or not.
trim_cr-cr : (s : Str) → trim_cr (s ++ (13 ∷ [])) ≡ s
unfolding trim_cr
trim_cr-cr [] = refl
trim_cr-cr (c ∷ []) = refl
trim_cr-cr (c ∷ d ∷ s) = ap (◌∷◌ c) (trim_cr-cr (d ∷ s))

trim_cr-Free : (s : Str) → Free 13 s → trim_cr s ≡ s
unfolding trim_cr
trim_cr-Free [] h = refl
trim_cr-Free (c ∷ []) (n, _) = rw n refl
trim_cr-Free (c ∷ d ∷ s) (_, h) = ap (◌∷◌ c) (trim_cr-Free (d ∷ s) h)

trim_cr-line_cr : (b : Bool) (s : Str) → Free 13 s → trim_cr (line_cr b s) ≡ s
trim_cr-line_cr true s h = trim_cr-cr s
trim_cr-line_cr false s h = trim_cr-Free s h

pub cut_marker-append :
    (b : Bool) (word rest : Str)
    → Free 13 (word ++ (b' ' ∷ rest))
    → cut_marker (line_cr b (marker_prefix ++ (word ++ (b' ' ∷ rest)))) word ≡ some rest
unfolding cut_marker
cut_marker-append b word rest h =
    let text = word ++ (b' ' ∷ rest) in
    rw
      (
        trim_cr-line_cr b (marker_prefix ++ text)
            (Free-append 13 marker_prefix text (Free-no_byte 13 marker_prefix refl) h),
        cut_marker,
      )
      (ap (cut_prefix (word ++ (b' ' ∷ []))) (sym (append_assoc word (b' ' ∷ []) rest))
        ∙ cut_prefix-append (word ++ (b' ' ∷ [])) rest)
