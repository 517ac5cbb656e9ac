-- ===== src/Text.antt =====
-- The Go text functions that the components use. A byte index i into a string s is the suffix
-- s[i:]. Outside ASCII, Go reads the Unicode tables: those answers are a parameter, `Tables`.
pub mod Suffix
pub mod Split
pub mod Runes
use tablex.Common.{
  [], ℕ, zero, suc, ◌+◌, ◌-◌, ◌*◌, Bool, true, false, ◌&&◌, ◌||◌, List, ◌∷◌, ◌++◌, map,
  if◌then◌else◌, ltb, leb, ◌==◌, Str, str_eq, ite, Option, none, some, length, take,
}

-- Go's answers for text that is not ASCII, and for runes from 0x80 on.
pub record Tables : Type 0 where
  pub lower_text : Str → Str
  pub upper_text : Str → Str
  pub trim_text : Str → Str
  pub fields_text : Str → List Str
  pub equal_text : Str → Str → Bool
  pub letter : ℕ → Bool
  pub digit : ℕ → Bool
  pub space : ℕ → Bool

abbrev pub within : ℕ → ℕ → ℕ → Bool
within lo hi c = leb lo c && leb c hi

unfoldable pub all_ascii : Str → Bool
all_ascii [] = true
all_ascii (c ∷ cs) = ltb c 0x80 && all_ascii cs

unfoldable pub lower_byte : ℕ → ℕ
lower_byte c = if within b'A' b'Z' c then c + 32 else c

unfoldable pub upper_byte : ℕ → ℕ
upper_byte c = if within b'a' b'z' c then c - 32 else c

-- `unicode.IsSpace` on an ASCII byte.
unfoldable pub space_byte : ℕ → Bool
space_byte c = c == b' ' || within 9 13 c

unfoldable pub trim_left : Str → Str
unfolding space_byte
trim_left [] = []
trim_left (c ∷ cs) = if space_byte c then trim_left cs else c ∷ cs

unfoldable pub trim_right : Str → Str
unfolding space_byte
trim_right [] = []
trim_right (c ∷ cs) = elim (trim_right cs) [
  | [] ↦ if space_byte c then [] else c ∷ []
  | d ∷ ds ↦ c ∷ d ∷ ds
]

abbrev push_field : Str → List Str → List Str
push_field [] more = more
push_field (c ∷ w) more = (c ∷ w) ∷ more

-- The fields of ASCII text: the word at the front, and the fields behind it.
ascii_fields : Str → Str × List Str
unfolding space_byte
ascii_fields [] = ([], [])
ascii_fields (c ∷ cs) =
    let (word, more) = ascii_fields cs in
    if space_byte c then ([], push_field word more) else (c ∷ word, more)

module _ (t : Tables) where
  -- `strings.ToLower`, `strings.ToUpper`, `strings.TrimSpace`.
  unfoldable pub to_lower : Str → Str
  unfolding all_ascii lower_byte
  to_lower s = if all_ascii s then map lower_byte s else t.lower_text s

  unfoldable pub to_upper : Str → Str
  unfolding all_ascii upper_byte
  to_upper s = if all_ascii s then map upper_byte s else t.upper_text s

  unfoldable pub trim_space : Str → Str
  unfolding all_ascii trim_left trim_right
  trim_space s = if all_ascii s then trim_right (trim_left s) else t.trim_text s

  -- `strings.Fields`.
  unfoldable pub fields : Str → List Str
  unfolding all_ascii ascii_fields
  fields s =
      if all_ascii s then push_field (ascii_fields s).0 (ascii_fields s).1 else t.fields_text s

  -- `strings.EqualFold`.
  unfoldable pub equal_fold : Str → Str → Bool
  unfolding all_ascii lower_byte str_eq
  equal_fold a b =
      if all_ascii a && all_ascii b
      then ite (str_eq (map lower_byte a) (map lower_byte b)) true false
      else t.equal_text a b

-- `strings.Split` at a one-byte separator.
abbrev pub add_first : ℕ → List Str → List Str
add_first c [] = (c ∷ []) ∷ []
add_first c (w ∷ ws) = (c ∷ w) ∷ ws

unfoldable pub split_on : ℕ → Str → List Str
split_on q [] = [] ∷ []
split_on q (c ∷ s) = let rest = split_on q s in if c == q then [] ∷ rest else add_first c rest

-- `strings.Join`.
unfoldable pub join : Str → List Str → Str
join sep [] = []
join sep (x ∷ []) = x
join sep (x ∷ y ∷ ys) = x ++ sep ++ join sep (y ∷ ys)

-- `strings.HasPrefix` with the rest behind it: `strings.CutPrefix`.
unfoldable pub cut_prefix : Str → Str → Option Str
cut_prefix [] s = some s
cut_prefix (p ∷ ps) [] = none
cut_prefix (p ∷ ps) (c ∷ cs) = let rest = cut_prefix ps cs in if c == p then rest else none

-- `strings.Contains`.
unfoldable pub contains : Str → Str → Bool
unfolding cut_prefix
contains [] w = elim (cut_prefix w []) [ some _ ↦ true | none ↦ false ]
contains (c ∷ cs) w = elim (cut_prefix w (c ∷ cs)) [ some _ ↦ true | none ↦ contains cs w ]

-- `strings.ReplaceAll(s, q, q+q)` for a one-byte q.
unfoldable pub double : ℕ → Str → Str
double q [] = []
double q (c ∷ cs) = let rest = double q cs in if c == q then q ∷ q ∷ rest else c ∷ rest

-- `s[i:j]` for the suffixes s of i and rest of j.
unfoldable pub upto : Str → Str → Str
upto s rest = take (length s - length rest) s

-- Runes.
abbrev pub rune_error : ℕ
rune_error = 0xfffd

abbrev continuation : ℕ → Bool
continuation = within 0x80 0xbf

-- The first byte of the second position, by the first byte: Go's accept ranges.
abbrev accept_lo : ℕ → ℕ
accept_lo c = if c == 0xe0 then 0xa0 else if c == 0xf0 then 0x90 else 0x80

abbrev accept_hi : ℕ → ℕ
accept_hi c = if c == 0xed then 0x9f else if c == 0xf4 then 0x8f else 0xbf

abbrev bad_rune : ℕ × ℕ
bad_rune = (rune_error, 1)

decode2 : ℕ → Str → ℕ × ℕ
decode2 c (b ∷ _) = if continuation b then ((c - 0xc0) * 64 + (b - 0x80), 2) else bad_rune
decode2 c [] = bad_rune

decode3 : ℕ → Str → ℕ × ℕ
decode3 c (b ∷ d ∷ _) =
    if within (accept_lo c) (accept_hi c) b && continuation d
    then ((c - 0xe0) * 4096 + (b - 0x80) * 64 + (d - 0x80), 3)
    else bad_rune
decode3 c _ = bad_rune

decode4 : ℕ → Str → ℕ × ℕ
decode4 c (b ∷ d ∷ e ∷ _) =
    if within (accept_lo c) (accept_hi c) b && continuation d && continuation e
    then ((c - 0xf0) * 262144 + (b - 0x80) * 4096 + (d - 0x80) * 64 + (e - 0x80), 4)
    else bad_rune
decode4 c _ = bad_rune

-- `utf8.DecodeRuneInString`: the rune and its width, 0 only on the empty string.
unfoldable pub decode_rune : Str → ℕ × ℕ
unfolding decode2 decode3 decode4
decode_rune [] = (rune_error, 0)
decode_rune (c ∷ cs) =
    if ltb c 0x80
    then (c, 1)
    else if ltb c 0xc2
    then bad_rune
    else if ltb c 0xe0
    then decode2 c cs
    else if ltb c 0xf0
    then decode3 c cs
    else if ltb c 0xf5
    then decode4 c cs
    else bad_rune

-- The rune of `s` if it takes all of it.
whole_rune : Str → ℕ
unfolding decode_rune
whole_rune s = let (r, n) = decode_rune s in if n == length s then r else rune_error

-- The rune that ends with the bytes `tail`, behind the bytes given last first: the scan back to the
-- byte that starts it, at most four bytes in all.
ends_rune : ℕ → Str → Str → ℕ
unfolding whole_rune
ends_rune zero tail before = rune_error
ends_rune (suc n) tail [] = rune_error
ends_rune (suc n) tail (b ∷ before) =
    let further = ends_rune n (b ∷ tail) before in
    if continuation b then further else whole_rune (b ∷ tail)

-- `utf8.DecodeLastRuneInString` on the text whose bytes, last first, are given; none if it is
-- empty.
unfoldable pub last_rune : Str → Option ℕ
unfolding ends_rune
last_rune [] = none
last_rune (a ∷ before) = some (if ltb a 0x80 then a else ends_rune 3 (a ∷ []) before)
