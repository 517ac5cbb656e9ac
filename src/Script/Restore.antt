-- ===== src/Script/Restore.antt =====
-- internal/sqlscript/restore.go: SplitRestoreSections and ParseConnectLine; what writes the
-- \connect lines in internal/driver/postgres/postgres.go; the checks of
-- internal/server/handlers/importer.go before a restore. The outer none stands for fuel that ran
-- out.
pub mod Header
pub mod Quoted
pub mod Names
pub mod Switch
pub mod Rounds
pub mod Preflight
use tablex.Common.{
  [], ℕ, zero, suc, ◌+◌, Bool, true, false, ◌&&◌, ◌||◌, List, ◌∷◌, ◌++◌, Option, none, some,
  if◌then◌else◌, ltb, leb, ◌==◌, Str, bytes, length,
}
use tablex.Text.{Tables, trim_space, cut_prefix, upto}
use tablex.Text.Runes.{runes, encode_rune}
use tablex.Script.{
  is_esc_string_quote, skip_string_literal, skip_block_comment, skip_dollar_quoted, to_newline,
}
use tablex.Script.Query.{back_from}
use tablex.Script.Scan.{◌>>=◌}

pub record Section : Type 0 where
  pub db : Str
  pub script : Str

-- parseConnectTarget on runes, inside a quoted run or not: none for an unterminated one.
abbrev pub written : ℕ → Option Str → Option Str
written c o = o >>= λ w. some (encode_rune c ++ w)

pub connect_target : Bool → List ℕ → Option Str
unfolding encode_rune
connect_target true [] = none
connect_target false [] = some []
connect_target true (c ∷ []) = if c == b'"' then some [] else none
connect_target true (c ∷ d ∷ rs) = elim (c == b'"') [
  | true ↦ elim (d == b'"') [
    | true ↦ written b'"' (connect_target true rs)
    | false ↦ connect_target false (d ∷ rs)
  ]
  | false ↦ written c (connect_target true (d ∷ rs))
]
connect_target false (c ∷ rs) = elim (c == b'"') [
  | true ↦ connect_target true rs
  | false ↦ elim (c == b' ' || c == 9 || c == 13) [
    | true ↦ some []
    | false ↦ written c (connect_target false rs)
  ]
]

pub parse_connect_target : Str → Option Str
unfolding connect_target runes
parse_connect_target rest = connect_target false (runes rest)

-- The answer of ParseConnectLine: ok = false, a name, or the error with its text.
pub data Connect : Type 0 where
  content : Connect
  to : Str → Connect
  unterminated : Str → Connect

abbrev pub named : Str → Option Str → Connect
named line none = unterminated line
named line (some []) = content
named line (some (c ∷ name)) = to (c ∷ name)

abbrev pub target_of : Str → Str → Connect
unfolding parse_connect_target
target_of line [] = content
target_of line (c ∷ rest) = named line (parse_connect_target (c ∷ rest))

module _ (t : Tables) where
  -- Behind the command word.
  pub behind_command : Str → Str → Connect
  unfolding trim_space parse_connect_target
  behind_command line [] = content
  behind_command line (c ∷ rest) =
      if c == b' ' || c == 9 then target_of line (trim_space t (c ∷ rest)) else content

  -- Of the trimmed line.
  pub parse_command : Str → Connect
  unfolding cut_prefix behind_command
  parse_command line = elim (cut_prefix (bytes "\\connect") line) [
    | some rest ↦ behind_command line rest
    | none ↦ elim (cut_prefix (bytes "\\c") line) [
      | some rest ↦ behind_command line rest
      | none ↦ content
    ]
  ]

  pub parse_connect_line : Str → Connect
  unfolding parse_command trim_space
  parse_connect_line line = parse_command (trim_space t line)

-- The result: the sections, ErrTooManyStatements, or the error of a \connect line.
pub data Sections : Type 0 where
  ok : List Section → Sections
  too_many : Sections
  bad_connect : Str → Sections

-- The variables of SplitRestoreSections; `seg` is the text from segStart on, `before` what is in
-- front of `at`, last byte first.
pub record Splitter : Type 0 where
  pub sections : List Section
  pub cur : Str
  pub seg : Str
  pub overflow : Bool
  pub line_start : Bool
  pub before : Str
  pub at : Str

pub add_section : ℕ → Str → Splitter → Splitter
add_section max [] k = k
add_section max (c ∷ s) k =
    if ltb 0 max && leb max (length k.sections)
    then record k { overflow = true }
    else record k { sections = k.sections ++ (record { db = k.cur; script = c ∷ s }) ∷ [] }

-- A new value of lineStart, and i goes on to `rest`.
pub go_on : Bool → Str → Splitter → Splitter
go_on start rest k = record k {
  line_start = start;
  before = back_from k.before k.at rest;
  at = rest;
}

abbrev pub or_here : Str → Option Str → Str
or_here s none = s
or_here s (some rest) = rest

module _ (t : Tables) (max : ℕ) where
  -- flush(end).
  pub flush_section : Str → Splitter → Splitter
  unfolding add_section trim_space upto
  flush_section end k = add_section max (trim_space t (upto k.seg end)) k

  -- The byte c in front of s where a second byte decides.
  pub pair_case : ℕ → Str → Splitter → Splitter
  unfolding go_on to_newline skip_block_comment
  pair_case c [] k = go_on false [] k
  pair_case c (d ∷ s) k =
      if c == b'-' && d == b'-'
      then go_on k.line_start (to_newline (c ∷ d ∷ s)) k
      else if c == b'/' && d == b'*'
      then go_on false (skip_block_comment true 0 s) k
      else go_on false (d ∷ s) k

  -- A backslash that is first on its line; s is behind it. The text of an error stands on the
  -- right.
  abbrev pub at_connect : Str → Splitter → Connect → Splitter × Option Str
  at_connect s k content = (go_on false s k, none)
  at_connect s k (to db) = (
    go_on k.line_start (to_newline k.at)
        (record (flush_section k.at k) { cur = db; seg = to_newline k.at }),
    none,
  )
  at_connect s k (unterminated line) = (k, some line)

  -- One round at the byte c in front of s.
  pub section_round : ℕ → Str → Splitter → Splitter × Option Str
  unfolding go_on skip_string_literal is_esc_string_quote skip_dollar_quoted pair_case
      parse_connect_line flush_section to_newline upto
  section_round c s k =
      if c == 10
      then (go_on true s k, none)
      else if c == b' ' || c == 9 || c == 13
      then (go_on k.line_start s k, none)
      else if c == b'\'' || c == b'"'
      then (
        go_on false (skip_string_literal c (c == b'\'' && is_esc_string_quote t k.before) s) k,
        none,
      )
      else if c == b'$'
      then (go_on false (or_here s (skip_dollar_quoted t s)) k, none)
      else if c == b'\\' && k.line_start
      then at_connect s k (parse_connect_line t (upto k.at (to_newline k.at)))
      else (pair_case c s k, none)

  abbrev pub sections_of : Splitter → Sections
  sections_of k = if k.overflow then too_many else ok k.sections

  abbrev pub round_at : Str → Splitter → Option (Splitter × Option Str)
  unfolding section_round
  round_at [] k = none
  round_at (c ∷ s) k = if k.overflow then none else some (section_round c s k)

  -- The loop, with the flush(n) behind it.
  pub section_loop : ℕ → Splitter → Option Sections
  unfolding section_round flush_section
  section_loop zero k = none
  section_loop (suc fuel) k = elim (round_at k.at k) [
    | none ↦ some (sections_of (flush_section [] k))
    | some (k', some line) ↦ some (bad_connect line)
    | some (k', none) ↦ section_loop fuel k'
  ]

  -- A script that is one section.
  abbrev pub one_section : Str → List Section
  one_section [] = []
  one_section (c ∷ s) = record { db = []; script = c ∷ s } ∷ []

  pub split_restore_sections : Str → Bool → Option Sections
  unfolding section_loop trim_space
  split_restore_sections script allow_connect =
      if allow_connect
      then section_loop (length script + 1) (record {
        sections = [];
        cur = [];
        seg = script;
        overflow = false;
        line_start = true;
        before = [];
        at = script;
      })
      else some (ok (one_section (trim_space t script)))
