-- ===== src/Script/Restore/Names.antt =====
-- internal/sqlscript/restore.go: the \connect line of a server dump, read back.
use tablex.Common.{
  [], ℕ, ◌<◌, true, false, List, ◌∷◌, ◌++◌, some, ltb, ◌≡◌, ◌≢◌, inl, inr, refl, ap, ◌∙◌, arith,
  Str, bytes, length, length-append, Bool-cases,
}
use tablex.Text.{Tables, trim_space, trim_left, trim_right, all_ascii, space_byte, double}
use tablex.Text.Runes.{encode_rune, encode, AreRunes}
use tablex.Script.Restore.{
  parse_connect_target, to, named, target_of, behind_command, parse_command, parse_connect_line,
}
use tablex.Script.Restore.Header.{quote_ansi_ident, connect_line}
use tablex.Script.Restore.Quoted.{parse_target_quoted}

-- What Go documents of TrimSpace, where it is not ASCII alone: it drops a space at the front, and
-- stops at both ends at an ASCII byte that is no space.
pub record TrimsEnds (t : Tables) : Type 0 where
  pub drops : (s : Str) → t.trim_text (b' ' ∷ s) ≡ t.trim_text s
  pub keeps :
      (a z : ℕ) (s : Str)
      → ltb a 0x80 ≡ true
      → ltb z 0x80 ≡ true
      → space_byte a ≡ false
      → space_byte z ≡ false
      → t.trim_text (a ∷ (s ++ z ∷ [])) ≡ a ∷ (s ++ z ∷ [])

pub trim_right_ends :
    (s : Str) (z : ℕ) → space_byte z ≡ false → trim_right (s ++ z ∷ []) ≡ s ++ z ∷ []
unfolding trim_right
trim_right_ends [] z h = rw h refl
trim_right_ends (c ∷ []) z h = rw (trim_right_ends [] z h, trim_right) refl
trim_right_ends (c ∷ d ∷ s) z h = rw (trim_right_ends (d ∷ s) z h, trim_right) refl

module _ (t : Tables) (ends : TrimsEnds t) where
  trim_space_ends :
      (a z : ℕ) (s : Str)
      → ltb a 0x80 ≡ true
      → ltb z 0x80 ≡ true
      → space_byte a ≡ false
      → space_byte z ≡ false
      → trim_space t (a ∷ (s ++ z ∷ [])) ≡ a ∷ (s ++ z ∷ [])
  unfolding trim_space trim_left
  trim_space_ends a z s h k i j = elim (Bool-cases (all_ascii (a ∷ (s ++ z ∷ [])))) [
    | inl e ↦ rw e (rw i (trim_right_ends (a ∷ s) z j))
    | inr e ↦ rw e (ends.keeps a z s h k i j)
  ]

  trim_space_drops : (s : Str) → trim_space t (b' ' ∷ s) ≡ trim_space t s
  unfolding trim_space trim_left all_ascii
  trim_space_drops s = elim (Bool-cases (all_ascii s)) [
    | inl e ↦ rw e refl
    | inr e ↦ rw e (ends.drops s)
  ]

of_quoted : (line q : Str) → 0 < length q → target_of line q ≡ named line (parse_connect_target q)
unfolding target_of
of_quoted line [] h = absurd (omega (arith, h))
of_quoted line (c ∷ q) h = refl

named_to : (line w : Str) → 0 < length w → named line (some w) ≡ to w
named_to line [] h = absurd (omega (arith, h))
named_to line (c ∷ w) h = refl

length-encode_rune : (r : ℕ) → 0 < length (encode_rune r)
unfolding encode_rune
length-encode_rune r = ground arith

length-encode : (rs : List ℕ) → rs ≢ [] → 0 < length (encode rs)
unfolding encode
length-encode [] h = absurd (h refl)
length-encode (r ∷ rs) h =
    omega (arith, length-append (encode_rune r) (encode rs), length-encode_rune r)

module _ (t : Tables) (ends : TrimsEnds t) where
  abbrev tail_of : Str → Str
  tail_of name = double b'"' name ++ b'"' ∷ []

  trim_line : (name : Str) → trim_space t (connect_line name) ≡ connect_line name
  unfolding connect_line space_byte
  trim_line name =
      trim_space_ends t ends b'\\' b'"' (bytes "connect \"" ++ double b'"' name) refl refl refl refl

  trim_quoted : (name : Str) → trim_space t (quote_ansi_ident name) ≡ quote_ansi_ident name
  unfolding quote_ansi_ident space_byte
  trim_quoted name = trim_space_ends t ends b'"' b'"' (double b'"' name) refl refl refl refl

  command_at :
      (name : Str)
      → parse_command t (connect_line name)
        ≡ behind_command t (connect_line name) (b' ' ∷ quote_ansi_ident name)
  unfolding parse_command connect_line
  command_at name = refl

  target_at :
      (line name : Str)
      → behind_command t line (b' ' ∷ quote_ansi_ident name)
        ≡ named line (parse_connect_target (quote_ansi_ident name))
  unfolding behind_command quote_ansi_ident
  target_at line name =
      ap (target_of line) (trim_space_drops t ends (quote_ansi_ident name) ∙ trim_quoted name)
      ∙ of_quoted line (quote_ansi_ident name) (omega arith)

  -- The \connect line that a server dump writes for a database, read back by ParseConnectLine:
  -- whatever characters the name holds, quotes, spaces and those outside ASCII included, the answer
  -- is that name. The name is valid UTF-8, the runes rs, and not empty. Of Go's TrimSpace outside
  -- ASCII this takes that it drops a space at the front and stops at ASCII bytes that are no
  -- spaces.
  pub parse_connect_line-quoted :
      (rs : List ℕ)
      → AreRunes rs
      → rs ≢ []
      → parse_connect_line t (connect_line (encode rs)) ≡ to (encode rs)
  unfolding parse_connect_line
  parse_connect_line-quoted rs h ne =
      ap (parse_command t) (trim_line (encode rs))
      ∙ command_at (encode rs)
      ∙ target_at (connect_line (encode rs)) (encode rs)
      ∙ ap (named (connect_line (encode rs))) (parse_target_quoted rs h)
      ∙ named_to (connect_line (encode rs)) (encode rs) (length-encode rs ne)
