-- ===== src/Csv/Cells.antt =====
-- internal/dump/csv.go, internal/server/handlers/importer.go: a cell that is exported and imported.
use tablex.Common.{
  [], ℕ, ◌+◌, ◌*◌, ◌/◌, ◌%◌, ◌<◌, true, false, ◌||◌, ◌∷◌, none, some, ◌≡◌, ◌⊎◌, inl, inr, refl, ap,
  arith, Str, if◌then◌else◌, ◌==◌, Bool-cases,
}
use tablex.Csv.{
  Column, Value, is_binary_column, escape_csv_cell, unescape_csv_cell, utf8_valid, csv_cell,
  csv_null_sentinel, from_hex_char, decode_string, without_hex_prefix, decode_hex_cell, Arg,
  null_arg, bytes_arg, Numbers, is_sentinel, bind_text, import_cell,
}
use tablex.Marker.{hex_digit, hex_encode}
use tablex.Marker.Hex.{AreBytes}

from_hex_char-digit : (d : ℕ) → d < 16 → from_hex_char (hex_digit d) ≡ some d
from_hex_char-digit d h = ground arith

decode_string-encode : (s : Str) → AreBytes s → decode_string (hex_encode s) ≡ some s
unfolding hex_encode decode_string
decode_string-encode [] h = refl
decode_string-encode (c ∷ s) (b, h) =
    let whole : (c / 16) * 16 + c % 16 ≡ c = omega arith in
    rw
      (
        from_hex_char-digit (c / 16) (omega arith),
        from_hex_char-digit (c % 16) (omega arith),
        decode_string-encode s h,
      )
      (ap (λ (x : ℕ). some (x ∷ s)) whole)

digit_plain : (d : ℕ) → d < 16 → (hex_digit d == b'x' || hex_digit d == b'X') ≡ false
digit_plain d h = ground arith

hex-NoPrefix : (s : Str) → AreBytes s → without_hex_prefix (hex_encode s) ≡ hex_encode s
unfolding hex_encode
hex-NoPrefix [] h = refl
hex-NoPrefix (c ∷ s) (b, h) = let d = digit_plain (c % 16) (omega arith) in ground arith

decode_hex_cell-encode : (s : Str) → AreBytes s → decode_hex_cell (hex_encode s) ≡ some s
unfolding decode_hex_cell
decode_hex_cell-encode s h = rw (hex-NoPrefix s h) (decode_string-encode s h)

digit_sentinel : (d : ℕ) → d < 16 → hex_digit d == b'\\' ≡ false
digit_sentinel d h = ground arith

hex_sentinel : (s : Str) → AreBytes s → is_sentinel (hex_encode s) ≡ false
unfolding hex_encode
hex_sentinel [] h = refl
hex_sentinel (c ∷ []) (b, h) = let d = digit_sentinel (c / 16) (omega arith) in ground arith
hex_sentinel (c ∷ e ∷ s) (b, h) = refl

escaped_sentinel : (s : Str) → is_sentinel (escape_csv_cell s) ≡ false
escaped_sentinel [] = refl
escaped_sentinel (c ∷ []) = ground arith
escaped_sentinel (c ∷ d ∷ []) = ground arith
escaped_sentinel (c ∷ d ∷ e ∷ s) = ground arith

unescape-escape : (s : Str) → unescape_csv_cell (escape_csv_cell s) ≡ s
unescape-escape [] = refl
unescape-escape (c ∷ s) = ground arith

-- The bytes that a value stands for.
abbrev pub content : Value → Str
content v = if v.binary then v.raw else v.str

-- What an import of the value into the column has to bind.
pub bound : Numbers → Column → Value → Arg
unfolding is_binary_column
bound t c v =
    if v.null
    then null_arg
    else if is_binary_column c
    then bytes_arg (content v)
    else bind_text t c (content v)

-- A value that CSV cannot hold: a text column with bytes that are not UTF-8.
pub record IsRefused (c : Column) (v : Value) : Type 0 where
  pub no_null : v.null ≡ false
  pub in_text : is_binary_column c ≡ false
  pub has_bytes : v.binary ≡ true
  pub invalid : utf8_valid v.raw ≡ false

text_back :
    (t : Numbers) (c : Column) (s : Str)
    → is_binary_column c ≡ false
    → import_cell t c (escape_csv_cell s) ≡ some (bind_text t c s)
unfolding import_cell
text_back t c s h = rw (escaped_sentinel s, h, unescape-escape s) refl

null_back : (t : Numbers) (c : Column) → import_cell t c csv_null_sentinel ≡ some null_arg
unfolding import_cell
null_back t c = refl

hex_back :
    (t : Numbers) (c : Column) (s : Str)
    → is_binary_column c ≡ true
    → AreBytes s
    → import_cell t c (hex_encode s) ≡ some (bytes_arg s)
unfolding import_cell
hex_back t c s h b = rw (hex_sentinel s b, h, decode_hex_cell-encode s b) refl

-- A cell of the column's own kind is either written and imported again as the value it was, NULL as
-- NULL and bytes as bytes, or refused, which happens to bytes that are not UTF-8 in a text column
-- alone.
pub csv_cell_cases :
    (t : Numbers) (c : Column) (v : Value)
    → AreBytes (content v)
    → (IsRefused c v × (csv_cell (is_binary_column c) v ≡ none))
      ⊎ ((cell : Str) × (csv_cell (is_binary_column c) v ≡ some cell)
          × (import_cell t c cell ≡ some (bound t c v)))
unfolding csv_cell bound
csv_cell_cases t c v b = elim (Bool-cases v.null) [
  | inl n ↦ rw n (inr (csv_null_sentinel, refl, null_back t c))
  | inr n ↦ elim (Bool-cases (is_binary_column c)) [
    | inl k ↦ rw (n, k) (inr (hex_encode (content v), refl, hex_back t c (content v) k b))
    | inr k ↦ elim (Bool-cases v.binary) [
      | inr x ↦ rw (n, k, x) (inr (escape_csv_cell v.str, refl, text_back t c v.str k))
      | inl x ↦ elim (Bool-cases (utf8_valid v.raw)) [
        | inl u ↦ rw (n, k, x, u) (inr (escape_csv_cell v.raw, refl, text_back t c v.raw k))
        | inr u ↦
            inl (
              record { no_null = n; in_text = k; has_bytes = x; invalid = u },
              rw (n, k, x, u) refl,
            )
      ]
    ]
  ]
]
