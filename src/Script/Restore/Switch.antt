-- ===== src/Script/Restore/Switch.antt =====
-- internal/sqlscript/restore.go: SplitRestoreSections at the header of a database's section.
use tablex.Common.{
  [], ℕ, suc, true, false, List, ◌∷◌, ◌++◌, Option, none, ◌==◌, ◌≡◌, ◌≢◌, inl, inr, refl, ap, ◌∙◌,
  arith, Str, bytes, append_assoc, Bool-cases,
}
use tablex.Text.{Tables, upto, double}
use tablex.Text.Split.{Free, Free-append, Free-no_byte}
use tablex.Text.Runes.{encode, AreRunes}
use tablex.Script.{to_newline}
use tablex.Script.Frame.Verbatim.{to_newline-Free, upto-line}
use tablex.Script.Restore.{
  Section, Splitter, go_on, flush_section, to, at_connect, section_round, section_loop, round_at,
  parse_connect_line,
}
use tablex.Script.Restore.Header.{
  quote_ansi_ident, connect_line, database_section_header, unaddressable_database,
}
use tablex.Script.Restore.Names.{TrimsEnds, parse_connect_line-quoted}

addressable-Free : (name : Str) → unaddressable_database name ≡ false → Free 10 name
unfolding unaddressable_database
addressable-Free [] h = tt
addressable-Free (c ∷ name) h = (ground arith, addressable-Free name (ground arith))

double-Free : (q : ℕ) (name : Str) → Free 10 name → q == 10 ≡ false → Free 10 (double q name)
unfolding double
double-Free q [] h o = tt
double-Free q (c ∷ name) (e, h) o = elim (Bool-cases (c == q)) [
  | inl f ↦ rw f (o, (o, double-Free q name h o))
  | inr f ↦ rw f (e, double-Free q name h o)
]

connect_line-Free : (name : Str) → unaddressable_database name ≡ false → Free 10 (connect_line name)
unfolding connect_line quote_ansi_ident
connect_line-Free name h =
    Free-append 10 (bytes "\\connect \"") (double b'"' name ++ b'"' ∷ [])
      (Free-no_byte 10 (bytes "\\connect \"") refl)
      (Free-append 10 (double b'"' name) (b'"' ∷ [])
        (double-Free b'"' name (addressable-Free name h) refl) (refl, tt))

module _ (t : Tables) (ends : TrimsEnds t) (max : ℕ) where
  -- The splitter at the start of a line.
  abbrev pub at_line : List Section → Str → Str → Str → Str → Splitter
  at_line secs cur seg before at = record {
    sections = secs;
    cur = cur;
    seg = seg;
    overflow = false;
    line_start = true;
    before = before;
    at = at;
  }

  abbrev behind : Str → Str
  behind rest = bytes "\n\n" ++ rest

  -- The section of `name` begins, and the one in front of it is flushed.
  abbrev pub switched : Str → Str → Splitter → Splitter
  switched name rest k =
      go_on true (behind rest)
        (record (flush_section t max k.at k) { cur = name; seg = behind rest })

  round_connect :
      (s name rest : Str) (secs : List Section) (cur seg before at : Str)
      → to_newline at ≡ behind rest
      → parse_connect_line t (upto at (to_newline at)) ≡ to name
      → section_round t max b'\\' s (at_line secs cur seg before at)
        ≡ (switched name rest (at_line secs cur seg before at), none)
  unfolding section_round
  round_connect s name rest secs cur seg before at eol line =
      ap (at_connect t max s (at_line secs cur seg before at)) line
      ∙ ap
          (λ (x : Str). (
            go_on true x (record (flush_section t max at (at_line secs cur seg before at)) {
              cur = name;
              seg = x;
            }),
            none,
          ))
          eol

  -- SplitRestoreSections at the header that a server dump writes for a database, at the start of a
  -- line: it ends the section in front of the header, under that section's own database, and goes
  -- on behind the \connect line in a section of the database of that very name. The name is valid
  -- UTF-8, the runes rs, not empty, and one that UnaddressableDatabase lets pass; it may hold
  -- quotes, spaces, backslashes and characters outside ASCII. Of Go's TrimSpace outside ASCII this
  -- takes that it drops a space at the front and stops at ASCII bytes that are no spaces.
  pub section_loop-header :
      (rs : List ℕ) (fuel : ℕ) (secs : List Section) (cur seg before rest : Str)
      → AreRunes rs
      → rs ≢ []
      → unaddressable_database (encode rs) ≡ false
      → section_loop t max
          (suc fuel)
          (at_line secs cur seg before (database_section_header (encode rs) ++ rest))
        ≡ section_loop t max fuel (
            switched
              (encode rs)
              rest
              (at_line secs cur seg before (database_section_header (encode rs) ++ rest)))
  unfolding section_loop round_at database_section_header connect_line
  section_loop-header rs fuel secs cur seg before rest h ne ok =
      let name = encode rs in
      let at = database_section_header name ++ rest in
      let lines : at ≡ connect_line name ++ (10 ∷ (10 ∷ rest)) =
        append_assoc (connect_line name) (bytes "\n\n") rest in
      let eol : to_newline at ≡ behind rest =
        ap to_newline lines
        ∙ to_newline-Free (connect_line name) (10 ∷ rest) (connect_line-Free name ok) in
      let line : parse_connect_line t (upto at (to_newline at)) ≡ to name =
        ap (λ (x : Str). parse_connect_line t (upto at x)) eol
        ∙ ap (λ (x : Str). parse_connect_line t (upto x (behind rest))) lines
        ∙ ap (parse_connect_line t) (upto-line (connect_line name) (behind rest))
        ∙ parse_connect_line-quoted t ends rs h ne in
      let turn =
        round_connect (bytes "connect " ++ (quote_ansi_ident name ++ bytes "\n\n") ++ rest) name
          rest secs cur seg before at eol line in
      rw (turn, section_loop) (ap (λ (x : Splitter × Option Str). section_loop t max fuel x.0) turn)
