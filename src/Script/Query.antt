-- ===== src/Script/Query.antt =====
-- internal/sqlscript/sqlscript.go: whether a statement is run as a query.
use tablex.Common.{
  [], ℕ, zero, suc, ◌+◌, ◌-◌, Bool, true, false, not, ◌&&◌, ◌||◌, ◌∷◌, ◌++◌, Option, none, some,
  if◌then◌else◌, ◌==◌, Str, bytes, str_eq, str_mem, ite, length,
}
use tablex.Text.{Tables, within, to_upper, trim_space, upto}
use tablex.Script.{
  LexerProfile, allows, dash_is_comment, is_esc_string_quote, skip_string_literal,
  skip_block_comment, skip_dollar_quoted, to_newline, behind_newline,
}

-- The text read, last byte first, when the scan goes on from s to rest.
unfoldable pub read_back : Str → Str → Str
read_back before [] = before
read_back before (c ∷ s) = read_back (c ∷ before) s

abbrev pub back_from : Str → Str → Str → Str
unfolding read_back upto
back_from before s rest = read_back before (upto s rest)

abbrev pub space : Str
space = b' ' ∷ []

module _ (t : Tables) (p : LexerProfile) where
  -- Whether a backslash escapes in the literal that the quote c opens.
  abbrev pub backslash_in : Str → ℕ → Bool
  unfolding is_esc_string_quote
  backslash_in before c =
      (p.backslash_strings && not (c == b'`'))
      || (p.escape_string_e && c == b'\'' && is_esc_string_quote t before)

  unfoldable pub dollar_step : Str → Option Str → Str × Str
  dollar_step s (some rest) = (space, rest)
  dollar_step s none = (b'$' ∷ [], s)

  -- The cases at a byte c that a second one decides.
  unfoldable pub pair_step : ℕ → Str → Str × Str
  unfolding dash_is_comment to_newline skip_block_comment
  pair_step c [] = (c ∷ [], [])
  pair_step c (d ∷ s) =
      if c == b'-' && d == b'-' && dash_is_comment p s
      then (space, to_newline (d ∷ s))
      else if c == b'/' && d == b'*'
      then (space, skip_block_comment p.nested_block_comments 0 s)
      else (c ∷ [], d ∷ s)

  -- One round of stmtSkeleton at the byte c in front of s: what is written, and the text behind.
  unfoldable pub skeleton_step : Str → ℕ → Str → Str × Str
  unfolding skip_string_literal dollar_step skip_dollar_quoted pair_step to_newline
  skeleton_step before c s =
      if c == b'\'' || c == b'"' || c == b'`'
      then (space, skip_string_literal c (backslash_in before c) s)
      else if c == b'$' && p.dollar_quotes
      then dollar_step s (skip_dollar_quoted t s)
      else if c == b'#' && p.hash_comments
      then (space, to_newline s)
      else pair_step c s

  -- The loop; none only when the fuel runs out.
  unfoldable pub skeleton_loop : ℕ → Str → Str → Option Str
  unfolding skeleton_step
  skeleton_loop fuel before [] = some []
  skeleton_loop zero before (c ∷ s) = none
  skeleton_loop (suc fuel) before (c ∷ s) =
      elim (skeleton_loop fuel (back_from (c ∷ before) s (skeleton_step before c s).1)
        (skeleton_step before c s).1) [
          | none ↦ none
          | some out ↦ some ((skeleton_step before c s).0 ++ out)
        ]

  unfoldable pub stmt_skeleton : Str → Option Str
  unfolding skeleton_loop
  stmt_skeleton stmt = skeleton_loop (length stmt) [] stmt

  -- A comment at the front of a statement: the text behind it.
  unfoldable pub front_pair : ℕ → Str → Option Str
  unfolding dash_is_comment behind_newline skip_block_comment
  front_pair c [] = none
  front_pair c (d ∷ s) =
      if c == b'-' && d == b'-' && dash_is_comment p s
      then some (behind_newline s)
      else if c == b'/' && d == b'*'
      then some (skip_block_comment p.nested_block_comments 0 s)
      else none

  unfoldable pub front_comment : Str → Option Str
  unfolding behind_newline front_pair
  front_comment [] = none
  front_comment (c ∷ s) =
      if c == b'#' && p.hash_comments then some (behind_newline s) else front_pair c s

  -- stripLeadingComments, on fuel.
  unfoldable pub strip_comments : ℕ → Str → Option Str
  unfolding front_comment trim_space
  strip_comments zero stmt = none
  strip_comments (suc fuel) stmt = elim (front_comment stmt) [
    | none ↦ some stmt
    | some rest ↦ strip_comments fuel (trim_space t rest)
  ]

  unfoldable pub strip_leading_comments : Str → Option Str
  unfolding strip_comments
  strip_leading_comments stmt = strip_comments (length stmt + 1) stmt

abbrev word_byte : ℕ → Bool
word_byte c = c == b'_' || c == b'$' || within b'A' b'Z' c || within b'0' b'9' c

-- The word at the front.
word_front : Str → Str
word_front [] = []
word_front (c ∷ s) = elim (word_byte c) [ true ↦ c ∷ word_front s | false ↦ [] ]

is_main_keyword : Str → Bool
unfolding str_mem
is_main_keyword w = str_mem w (
    bytes "SELECT"
    ∷ bytes "VALUES"
    ∷ bytes "TABLE"
    ∷ bytes "INSERT"
    ∷ bytes "UPDATE"
    ∷ bytes "DELETE"
    ∷ bytes "MERGE"
    ∷ bytes "REPLACE"
    ∷ [])

-- firstTopLevelKeyword: `skip` counts the bytes left of a word that was read.
pub first_keyword : ℕ → ℕ → Str → Str
unfolding word_front is_main_keyword
first_keyword skip depth [] = []
first_keyword (suc skip) depth (c ∷ s) = first_keyword skip depth s
first_keyword zero depth (c ∷ s) = elim (c == b'(') [
  | true ↦ first_keyword 0 (depth + 1) s
  | false ↦ elim (c == b')') [
    | true ↦ first_keyword 0 (depth - 1) s
    | false ↦ elim (depth == 0 && (c == b'_' || within b'A' b'Z' c)) [
      | true ↦ elim (is_main_keyword (word_front (c ∷ s))) [
        | true ↦ word_front (c ∷ s)
        | false ↦ first_keyword (length (word_front s)) depth s
      ]
      | false ↦ first_keyword 0 depth s
    ]
  ]
]

is_denied : Str → Bool
unfolding str_mem
is_denied w = str_mem w (
    bytes "WITH"
    ∷ bytes "FROM"
    ∷ bytes "INTO"
    ∷ bytes "UPDATE"
    ∷ bytes "JOIN"
    ∷ bytes "ONLY"
    ∷ bytes "AS"
    ∷ bytes "SET"
    ∷ bytes "WHERE"
    ∷ bytes "AND"
    ∷ bytes "OR"
    ∷ bytes "ON"
    ∷ bytes "BY"
    ∷ bytes ","
    ∷ bytes "."
    ∷ [])

-- hasReturningClause, with the last significant token.
pub has_returning : ℕ → ℕ → Str → Str → Bool
unfolding word_front is_denied str_eq
has_returning skip depth prev [] = false
has_returning (suc skip) depth prev (c ∷ s) = has_returning skip depth prev s
has_returning zero depth prev (c ∷ s) = elim (c == b'(') [
  | true ↦ has_returning 0 (depth + 1) (c ∷ []) s
  | false ↦ elim (c == b')') [
    | true ↦ has_returning 0 (depth - 1) (c ∷ []) s
    | false ↦ elim (c == b',' || c == b'.') [
      | true ↦ has_returning 0 depth (c ∷ []) s
      | false ↦ elim (word_byte c) [
        | true ↦
            elim (depth == 0
              && ite (str_eq (word_front (c ∷ s)) (bytes "RETURNING")) true false
              && not (is_denied prev)) [
                | true ↦ true
                | false ↦ has_returning (length (word_front s)) depth (word_front (c ∷ s)) s
              ]
        | false ↦ has_returning 0 depth prev s
      ]
    ]
  ]
]

pub has_returning_clause : Str → Bool
unfolding has_returning
has_returning_clause up = has_returning 0 0 [] up

-- leadingKeyword.
abbrev keyword_stop : ℕ → Bool
keyword_stop c = c == b' ' || c == 9 || c == 10 || c == 13 || c == b'('

skip_stops : Str → Str
skip_stops [] = []
skip_stops (c ∷ s) = elim (keyword_stop c) [ true ↦ skip_stops s | false ↦ c ∷ s ]

to_stop : Str → Str
to_stop [] = []
to_stop (c ∷ s) = elim (keyword_stop c) [ true ↦ [] | false ↦ c ∷ to_stop s ]

abbrev or_with : Str → Str
or_with [] = bytes "WITH"
or_with (c ∷ w) = c ∷ w

pub leading_keyword : Str → Str
unfolding skip_stops to_stop first_keyword str_eq
leading_keyword up =
    ite (str_eq (to_stop (skip_stops up)) (bytes "WITH")) (or_with (first_keyword 0 0 up))
      (to_stop (skip_stops up))

is_query_keyword : Str → Bool
unfolding str_mem
is_query_keyword w = str_mem w (
    bytes "SELECT"
    ∷ bytes "WITH"
    ∷ bytes "SHOW"
    ∷ bytes "EXPLAIN"
    ∷ bytes "PRAGMA"
    ∷ bytes "DESCRIBE"
    ∷ bytes "DESC"
    ∷ bytes "VALUES"
    ∷ bytes "TABLE"
    ∷ [])

module _ (t : Tables) (p : LexerProfile) where
  -- The decision on an upper-case skeleton.
  pub classify : Str → Bool
  unfolding allows leading_keyword has_returning_clause is_query_keyword
  classify up =
      (allows p.returning (leading_keyword up) && has_returning_clause up)
      || is_query_keyword (leading_keyword up)

  unfoldable pub classify_stmt : Str → Option Bool
  unfolding stmt_skeleton to_upper classify
  classify_stmt [] = some false
  classify_stmt (c ∷ s) = elim (stmt_skeleton t p (c ∷ s)) [
    | none ↦ none
    | some skeleton ↦ some (classify (to_upper t skeleton))
  ]

  unfoldable pub is_query : Str → Option Bool
  unfolding strip_leading_comments trim_space classify_stmt
  is_query stmt = elim (strip_leading_comments t p (trim_space t stmt)) [
    | none ↦ none
    | some rest ↦ classify_stmt rest
  ]
