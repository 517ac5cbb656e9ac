-- ===== src/Script/Scan.antt =====
-- internal/sqlscript/sqlscript.go: one round of scanCapped. The scanner stands at a suffix `at` of
-- the script; a round gives the scanner behind it and the events that it emits.
pub mod Loop
pub mod Returns
pub mod Moves
pub mod Progress
pub mod Cap
pub mod Limits
pub mod Dumped
pub mod Frames
pub mod Restored
use tablex.Common.{
  [], ℕ, zero, suc, ◌+◌, ◌-◌, Bool, true, false, not, ◌&&◌, ◌||◌, List, ◌∷◌, ◌++◌, Option, none,
  some, if◌then◌else◌, ltb, ◌==◌, Str, bytes, str_eq, str_mem, ite, drop,
}
use tablex.Text.{
  Tables, to_upper, trim_space, equal_fold, cut_prefix, decode_rune, upto, space_byte,
}
use tablex.Marker.{DumpMarker, parse_frame_marker, parse_collation_marker}
use tablex.Script.{
  LexerProfile, is_word_rune, dash_is_comment, skip_string_literal, skip_block_comment,
  skip_bracket_ident, skip_dollar_quoted, behind_newline, has_word, script_line,
}
use tablex.Script.Query.{strip_leading_comments, backslash_in, back_from, read_back}
use tablex.Script.Frame.{consume_frame, behind_line}

-- A statement, or a collation marker.
pub data Event : Type 0 where
  stmt : Str → Event
  marker : DumpMarker → Event

-- What is known of the routine body that the scanner stands in.
pub record Block : Type 0 where
  pub depth : ℕ
  pub pending_end : Bool
  pub routine_known : Bool
  pub in_routine : Bool

abbrev pub no_block : Block
no_block = record { depth = 0; pending_end = false; routine_known = false; in_routine = false }

-- The variables of the loop: `start` and `word_start` are suffixes of the script, `before` is the
-- text in front of `at`, last byte first.
pub record Scanner : Type 0 where
  pub delim : Str
  pub start : Str
  pub block : Block
  pub has_content : Bool
  pub word_start : Option Str
  pub before : Str
  pub at : Str

infixl 5 ◌>>=◌
abbrev pub ◌>>=◌ : {A B : Type 0} → Option A → (A → Option B) → Option B
none >>= f = none
some a >>= f = f a

-- At the start of a statement.
abbrev pub restart : Str → Str → Str → Scanner
restart delim before at = record {
  delim = delim;
  start = at;
  block = no_block;
  has_content = false;
  word_start = none;
  before = before;
  at = at;
}

-- `i` goes on to the suffix `rest`.
pub move : Scanner → Str → Scanner
unfolding read_back upto
move k rest = record k { before = back_from k.before k.at rest; at = rest }

-- `hasContent = true; i += size`.
pub content : Scanner → ℕ → Scanner
unfolding move
content k size = move (record k { has_content = true }) (drop size k.at)

abbrev pub line_start : Str → Bool
line_start [] = true
line_start (c ∷ before) = c == 10

-- `depth--` where the depth is not 0.
abbrev pub shallower : Block → Block
shallower b = record b { depth = b.depth - 1 }

abbrev pub deeper : Block → Block
deeper b = if b.in_routine then record b { depth = b.depth + 1 } else b

-- `unicode.IsSpace`.
abbrev pub is_space : Tables → ℕ → Bool
unfolding space_byte
is_space t c = if ltb c 0x80 then space_byte c else t.space c

pub skip_blanks : Str → Str
skip_blanks [] = []
skip_blanks (c ∷ s) = if c == b' ' || c == 9 then skip_blanks s else c ∷ s

-- The delimiter of a DELIMITER line; empty where its quote is not closed on the line.
pub quoted_token : ℕ → Str → Option Str
quoted_token q [] = none
quoted_token q (c ∷ s) =
    let rest = quoted_token q s in
    if c == q then some [] else if c == 10 then none else (rest >>= λ w. some (c ∷ w))

abbrev pub or_empty : Option Str → Str
or_empty none = []
or_empty (some w) = w

abbrev pub or_delim : Str → Str → Str
or_delim [] delim = delim
or_delim (c ∷ nd) delim = c ∷ nd

-- A quote, a '$' or a '[' that a skip goes over; without one it is content.
abbrev pub skipped : Scanner → ℕ → Option Str → Scanner
skipped k size none = content k size
skipped k size (some rest) = move (record k { has_content = true }) rest

abbrev pub body_event : Str → List Event
body_event [] = []
body_event (c ∷ body) = stmt (c ∷ body) ∷ []

abbrev pub marker_event : Option DumpMarker → List Event
marker_event none = []
marker_event (some m) = marker m ∷ []

abbrev pub end_pending : Block → Block
end_pending b = if b.pending_end then shallower (record b { pending_end = false }) else b

abbrev pub behind_byte : Str → Str
behind_byte [] = []
behind_byte (c ∷ s) = s

module _ (t : Tables) (p : LexerProfile) where
  -- BEGIN or CASE; `end` is where the word ends.
  pub open_block : (Str → Bool) → Str → Str → Block → Option Block
  unfolding strip_leading_comments trim_space upto
  open_block re start end b =
      if b.routine_known
      then some (deeper b)
      else strip_leading_comments t p (trim_space t (upto start end)) >>= λ s.
          some (deeper (record b { in_routine = re s; routine_known = true }))

  pub keyword : (Str → Bool) → Str → Str → Str → Block → Option Block
  unfolding open_block str_mem str_eq
  keyword re up start end b =
      if str_mem up (bytes "BEGIN" ∷ bytes "CASE" ∷ [])
      then open_block re start end b
      else some (
          ite (str_eq up (bytes "END"))
            (if ltb 0 b.depth then record b { pending_end = true } else b) b)

  -- token behind its guards: an END that waits is classified first.
  pub token : (Str → Bool) → Str → Str → Str → Block → Option Block
  unfolding keyword str_mem str_eq
  token re up start end b =
      if b.pending_end
      then (if str_mem up (bytes "IF" ∷ bytes "LOOP" ∷ bytes "WHILE" ∷ bytes "REPEAT" ∷ [])
          then some (record b { pending_end = false })
          else ite (str_eq up (bytes "CASE")) (some (shallower (record b { pending_end = false })))
              (keyword re up start end (shallower (record b { pending_end = false }))))
      else keyword re up start end b

  pub word_token : Str → Str → Str → Block → Option Block
  unfolding token to_upper
  word_token [] start end b = some b
  word_token (c ∷ word) start end b = elim p.routine_body [
    | none ↦ some b
    | some re ↦ token re (to_upper t (c ∷ word)) start end b
  ]

  pub end_word : Option Str → Str → Str → Block → Option Block
  unfolding word_token upto
  end_word none start end b = some b
  end_word (some from) start end b = word_token (upto from end) start end b

  -- flush: the events of the statement; the state that it resets is what `restart` holds.
  pub flush_text : Str → Option (List Event)
  unfolding strip_leading_comments
  flush_text [] = some []
  flush_text (c ∷ s) = elim (strip_leading_comments t p (c ∷ s)) [
    | none ↦ none
    | some [] ↦ some []
    | some (d ∷ rest) ↦ some (stmt (c ∷ s) ∷ [])
  ]

  pub flush : Str → Str → Option (List Event)
  unfolding flush_text trim_space upto
  flush start end = flush_text (trim_space t (upto start end))

  -- `endWord(i); flush(i)`.
  pub end_statement : Scanner → Option (List Event)
  unfolding end_word flush
  end_statement k = end_word k.word_start k.start k.at k.block >>= λ _. flush k.start k.at

  -- The text behind a custom delimiter.
  pub custom_delimiter : Scanner → Option Str
  unfolding cut_prefix str_eq
  custom_delimiter k = ite (str_eq k.delim (bytes ";")) none (cut_prefix k.delim k.at)

  -- The text behind the line of a batch separator.
  pub batch_line : Scanner → Option Str
  unfolding script_line equal_fold trim_space str_eq
  batch_line k =
      if not (ite (str_eq p.batch_separator []) true false)
        && k.block.depth == 0
        && line_start k.before
        && equal_fold t (trim_space t (script_line k.at).0) p.batch_separator
      then some (behind_line (script_line k.at).1)
      else none

  pub plain_token : ℕ → Str → Str
  unfolding decode_rune
  plain_token skip [] = []
  plain_token (suc skip) (c ∷ s) = c ∷ plain_token skip s
  plain_token zero (c ∷ s) = elim (is_space t (decode_rune (c ∷ s)).0) [
    | true ↦ []
    | false ↦ c ∷ plain_token ((decode_rune (c ∷ s)).1 - 1) s
  ]

  pub delimiter_token : Str → Str
  unfolding quoted_token plain_token
  delimiter_token [] = []
  delimiter_token (c ∷ s) =
      if c == b'\'' || c == b'"' || c == b'`'
      then or_empty (quoted_token c s)
      else plain_token 0 (c ∷ s)

  -- A DELIMITER line: the word has nine bytes.
  pub directive : Scanner → Scanner
  unfolding skip_blanks delimiter_token behind_newline read_back upto
  directive k =
      let line = skip_blanks (drop 9 k.at) in
      let rest = behind_newline line in
      record k {
        delim = or_delim (delimiter_token line) k.delim;
        start = rest;
        before = back_from k.before k.at rest;
        at = rest;
      }

  -- At a word rune of `size` bytes.
  pub word_round : Scanner → ℕ → Scanner
  unfolding content directive has_word
  word_round k size = elim k.word_start [
    | some from ↦ content k size
    | none ↦
        if p.delimiter_directives && not k.has_content && has_word t (bytes "DELIMITER") k.at
        then directive k
        else content (record k { word_start = some k.at }) size
  ]

  -- The frame that a marker line opens: its body, and the text behind it.
  pub frame_at : Str × Str → Option (Option (Str × Str))
  unfolding parse_frame_marker consume_frame
  frame_at (line, eol) =
      if p.delimiter_directives
      then elim (parse_frame_marker line) [ none ↦ some none | some tok ↦ consume_frame tok eol ]
      else some none

  -- A comment line that may be a marker.
  pub marker_line : Scanner → Option (Scanner × List Event)
  unfolding frame_at flush script_line parse_collation_marker move behind_newline
  marker_line k = frame_at (script_line k.at) >>= λ o. elim o [
    | some (body, next) ↦ flush k.start k.at >>= λ evs.
        some (restart k.delim (back_from k.before k.at next) next, evs ++ body_event body)
    | none ↦
        some
          (move k (behind_newline k.at), marker_event (parse_collation_marker (script_line k.at).0))
  ]

  pub dash_round : Scanner → ℕ → Str → Option (Scanner × List Event)
  unfolding dash_is_comment marker_line move behind_newline content str_eq
  dash_round k size [] = some (content k size, [])
  dash_round k size (d ∷ s) =
      if d == b'-' && dash_is_comment p s
      then if not k.has_content
          && k.block.depth == 0
          && ite (str_eq k.delim (bytes ";")) true false
          && line_start k.before
        then marker_line k
        else some (move k (behind_newline k.at), [])
      else some (content k size, [])

  pub slash_round : Scanner → ℕ → Str → Scanner
  unfolding skip_block_comment move content
  slash_round k size [] = content k size
  slash_round k size (d ∷ s) =
      if d == b'*' then move k (skip_block_comment p.nested_block_comments 0 s) else content k size

  pub semicolon_round : Scanner → ℕ → Option (Scanner × List Event)
  unfolding flush content str_eq read_back upto
  semicolon_round k size =
      ite (str_eq k.delim (bytes ";"))
        (if ltb 0 (end_pending k.block).depth
          then some (content (record k { block = end_pending k.block }) size, [])
          else (flush k.start k.at >>= λ evs.
              some
                (restart k.delim (back_from k.before k.at (drop size k.at)) (drop size k.at), evs)))
        (some (content k size, []))

  -- The switch on a rune c that is no word rune; `s` is behind its byte.
  pub other_round : Scanner → ℕ → ℕ → Str → Option (Scanner × List Event)
  unfolding skip_string_literal skip_dollar_quoted skip_bracket_ident dash_round slash_round
      semicolon_round move content behind_newline
  other_round k c size s =
      if c == b'\'' || c == b'"' || c == b'`'
      then some (skipped k size (some (skip_string_literal c (backslash_in t p k.before c) s)), [])
      else if c == b'-'
      then dash_round k size s
      else if c == b'$'
      then some (skipped k size (if p.dollar_quotes then skip_dollar_quoted t s else none), [])
      else if c == b'['
      then some (skipped k size (if p.bracket_identifiers then skip_bracket_ident s else none), [])
      else if c == b'#'
      then some (if p.hash_comments then move k (behind_newline k.at) else content k size, [])
      else if c == b'/'
      then some (slash_round k size s, [])
      else if c == b';'
      then semicolon_round k size
      else some (if is_space t c then move k (drop size k.at) else content k size, [])

  pub rune_round : Scanner → Option (Scanner × List Event)
  unfolding decode_rune word_round end_word other_round
  rune_round k =
      let (c, size) = decode_rune k.at in
      if is_word_rune t c p.dollar_in_words
      then some (word_round k size, [])
      else (end_word k.word_start k.start k.at k.block >>= λ b.
          other_round (record k { block = b; word_start = none }) c size (behind_byte k.at))

  -- One round of the loop.
  pub round : Scanner → Option (Scanner × List Event)
  unfolding custom_delimiter batch_line end_statement rune_round read_back upto
  round k = elim (custom_delimiter k) [
    | some rest ↦
        end_statement k >>= λ evs. some (restart k.delim (back_from k.before k.at rest) rest, evs)
    | none ↦ elim (batch_line k) [
      | some rest ↦
          end_statement k >>= λ evs. some (restart k.delim (back_from k.before k.at rest) rest, evs)
      | none ↦ rune_round k
    ]
  ]
