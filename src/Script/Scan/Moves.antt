-- ===== src/Script/Scan/Moves.antt =====
-- internal/sqlscript/sqlscript.go: how far the scanner of scanCapped goes with each move.
use tablex.Common.{
  [], ℕ, ◌+◌, ◌≤◌, ◌<◌, Bool, true, false, not, ◌&&◌, List, ◌∷◌, Option, none, some, if◌then◌else◌,
  ◌==◌, ◌≡◌, refl, arith, Str, bytes, str_eq, ite, length, length-drop,
}
use mathlib.Core.Logic.{if_pos, if_neg}
use tablex.Text.{Tables, trim_space, decode_rune, cut_prefix, equal_fold}
use tablex.Script.{LexerProfile, skip_bracket_ident, behind_newline, script_line, to_newline}
use tablex.Script.Frame.{behind_line}
use tablex.Script.Total.{to_newline_le, behind_newline_le}
use tablex.Script.Scan.{
  Event, Scanner, ◌>>=◌, move, content, custom_delimiter, batch_line, skip_blanks, line_start,
  skipped, or_delim,
}
use tablex.Script.Scan.Returns.{Returns}

-- The scanner stands in front of less than n bytes, with a delimiter.
abbrev pub Moves : ℕ → Scanner → Type 0
Moves n k = (length k.at < n) × (0 < length k.delim)

abbrev pub Goes : ℕ → Option (Scanner × List Event) → Type 0
Goes n o = (r : Scanner × List Event) × (o ≡ some r) × Moves n r.0

pub Goes-bind :
    {A : Type 0} (n : ℕ) (m : Option A) (f : A → Option (Scanner × List Event))
    → Returns m
    → ((a : A) → Goes n (f a))
    → Goes n (m >>= f)
Goes-bind n m f (a, e) h = rw e (h a)

pub Goes-if :
    (n : ℕ) (b : Bool) (x y : Option (Scanner × List Event))
    → Goes n x
    → Goes n y
    → Goes n (if b then x else y)
Goes-if n true x y h k = h
Goes-if n false x y h k = k

pub Moves-if :
    (n : ℕ) (b : Bool) (x y : Scanner) → Moves n x → Moves n y → Moves n (if b then x else y)
Moves-if n true x y h k = h
Moves-if n false x y h k = k

pub move-Moves :
    (k : Scanner) (rest : Str) (n : ℕ)
    → length rest < n
    → 0 < length k.delim
    → Moves n (move k rest)
unfolding move
move-Moves k rest n h d = (h, d)

pub content-Moves :
    (k : Scanner) (size n : ℕ)
    → 0 < size
    → 0 < length k.at
    → length k.at ≤ n
    → 0 < length k.delim
    → Moves n (content k size)
unfolding content move
content-Moves k size n s a h d = (omega (arith, length-drop size k.at), d)

pub skip_bracket_ident_le :
    (s rest : Str) → skip_bracket_ident s ≡ some rest → length rest ≤ length s
unfolding skip_bracket_ident
skip_bracket_ident_le [] rest e = cc
skip_bracket_ident_le (c ∷ []) rest e = ground arith
skip_bracket_ident_le (c ∷ d ∷ s) rest e =
    ground (arith, skip_bracket_ident_le s rest, skip_bracket_ident_le (d ∷ s) rest)

pub decode_rune_pos : (c : ℕ) (s : Str) → 0 < (decode_rune (c ∷ s)).1
unfolding decode_rune
decode_rune_pos c [] = ground arith
decode_rune_pos c (b ∷ []) = ground arith
decode_rune_pos c (b ∷ d ∷ []) = ground arith
decode_rune_pos c (b ∷ d ∷ e ∷ s) = ground arith

pub skip_blanks_le : (s : Str) → length (skip_blanks s) ≤ length s
unfolding skip_blanks
skip_blanks_le [] = omega arith
skip_blanks_le (c ∷ s) = ground (arith, skip_blanks_le s)

pub behind_newline_lt : (s : Str) → 0 < length s → length (behind_newline s) < length s
unfolding behind_newline
behind_newline_lt [] h = absurd (omega (arith, h))
behind_newline_lt (c ∷ s) h = ground (arith, behind_newline_le s)

pub or_delim_pos : (nd delim : Str) → 0 < length delim → 0 < length (or_delim nd delim)
or_delim_pos [] delim h = h
or_delim_pos (c ∷ nd) delim h = omega arith

pub skipped-Moves :
    (k : Scanner) (size n : ℕ) (o : Option Str)
    → 0 < size
    → 0 < length k.at
    → length k.at ≤ n
    → 0 < length k.delim
    → ((rest : Str) → o ≡ some rest → length rest < n)
    → Moves n (skipped k size o)
skipped-Moves k size n none s a le d h = content-Moves k size n s a le d
skipped-Moves k size n (some rest) s a le d h =
    move-Moves (record k { has_content = true }) rest n (h rest refl) d

behind_line_le : (s : Str) → length (behind_line s) ≤ length s
behind_line_le [] = omega arith
behind_line_le (c ∷ s) = omega arith

length-cut_prefix :
    (q s rest : Str) → cut_prefix q s ≡ some rest → length rest + length q ≡ length s
unfolding cut_prefix
length-cut_prefix [] s rest e = ground arith
length-cut_prefix (a ∷ q) [] rest e = cc
length-cut_prefix (a ∷ q) (c ∷ s) rest e = ground (arith, length-cut_prefix q s rest)

behind_line_lt : (s : Str) → 0 < length s → length (behind_line (script_line s).1) < length s
unfolding script_line to_newline
behind_line_lt [] h = absurd (omega (arith, h))
behind_line_lt (c ∷ s) h = ground (arith, to_newline_le s, behind_line_le (to_newline s))

pub custom_delimiter_lt :
    (t : Tables) (p : LexerProfile) (k : Scanner) (rest : Str)
    → 0 < length k.delim
    → custom_delimiter t p k ≡ some rest
    → length rest < length k.at
unfolding custom_delimiter
custom_delimiter_lt t p k rest d e =
    let cut : cut_prefix k.delim k.at ≡ some rest → length rest < length k.at =
      λ f. omega (arith, length-cut_prefix k.delim k.at rest f, d) in
    elim (str_eq k.delim (bytes ";")) [
      | yes q ↦ absurd (let f : none ≡ some rest = rw (if_pos _ q) at e in cc)
      | no q ↦ cut (rw (if_neg _ q) at e)
    ]

pub batch_line_lt :
    (t : Tables) (p : LexerProfile) (k : Scanner) (rest : Str)
    → 0 < length k.at
    → batch_line t p k ≡ some rest
    → length rest < length k.at
unfolding batch_line
batch_line_lt t p k rest a e =
    let lt = behind_line_lt k.at a in
    by_test
      (not (ite (str_eq p.batch_separator []) true false)
        && k.block.depth == 0
        && line_start k.before
        && equal_fold t (trim_space t (script_line k.at).0) p.batch_separator)
      e lt
  where
    by_test :
        (b : Bool)
        → (if b then some (behind_line (script_line k.at).1) else none) ≡ some rest
        → length (behind_line (script_line k.at).1) < length k.at
        → length rest < length k.at
    by_test true f lt = ground arith
    by_test false f lt = absurd (let g : none ≡ some rest = f in cc)
