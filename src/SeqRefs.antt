-- ===== src/SeqRefs.antt =====
-- internal/driver/seqrewrite.go: the rewriting of sequence references in emitted table DDL. An
-- index into the text is the suffix that begins there.
pub mod Quoting
pub mod Rewrite
pub mod Hit
pub mod Nextval
mod Tests
use tablex.Common.{
  [], ℕ, zero, suc, ◌+◌, Bool, true, false, ◌&&◌, ◌||◌, List, ◌∷◌, ◌++◌, map, Option, none, some,
  if◌then◌else◌, leb, ◌==◌, Str, bytes, str_eq, ite, length,
}
use tablex.Common.Maps.{lookup}
use tablex.Text.{Tables, within, to_lower, lower_byte, trim_space, double, cut_prefix, upto}

-- A byte written to the content.
abbrev pub add : ℕ → Option (Str × Str) → Option (Str × Str)
add c none = none
add c (some (w, rest)) = some (c ∷ w, rest)

-- The scan behind an opening quote q, in which a doubled q stands for one: the content and the text
-- behind the closing quote; none where there is no closing quote.
unfoldable pub scan_quoted : ℕ → Str → Option (Str × Str)
scan_quoted q [] = none
scan_quoted q (c ∷ []) = if c == q then some ([], []) else none
scan_quoted q (c ∷ d ∷ s) = elim (c == q) [
  | true ↦ elim (d == q) [ true ↦ add q (scan_quoted q s) | false ↦ some ([], d ∷ s) ]
  | false ↦ add c (scan_quoted q (d ∷ s))
]

abbrev pub scan_sql_literal : Str → Option (Str × Str)
scan_sql_literal = scan_quoted b'\''

-- `skipQuotedIdent` behind the opening quote.
pub skip_quoted_ident : Str → Str
skip_quoted_ident [] = []
skip_quoted_ident (c ∷ []) = []
skip_quoted_ident (c ∷ d ∷ s) = elim (c == b'"') [
  | true ↦ elim (d == b'"') [ true ↦ skip_quoted_ident s | false ↦ d ∷ s ]
  | false ↦ skip_quoted_ident (d ∷ s)
]

abbrev pub sql_space : ℕ → Bool
sql_space c = c == b' ' || c == 9 || c == 10 || c == 13

pub skip_sql_spaces : Str → Str
skip_sql_spaces [] = []
skip_sql_spaces (c ∷ s) = if sql_space c then skip_sql_spaces s else c ∷ s

abbrev pub ident_start : ℕ → Bool
ident_start c = c == b'_' || within b'a' b'z' c || within b'A' b'Z' c || leb 0x80 c

abbrev pub ident_char : ℕ → Bool
ident_char c = ident_start c || c == b'$' || within b'0' b'9' c

-- The identifier at the front of a text, and the rest.
pub ident_word : Str → Str × Str
ident_word [] = ([], [])
ident_word (c ∷ s) =
    let (w, rest) = ident_word s in if ident_char c then (c ∷ w, rest) else ([], c ∷ s)

-- `strings.EqualFold(w, "pg_catalog")`: no other letter folds to one of these.
is_pg_catalog : Str → Bool
unfolding lower_byte str_eq
is_pg_catalog w = ite (str_eq (map lower_byte w) (bytes "pg_catalog")) true false

module _ (t : Tables) where
  -- The cast type from its first word on, with an optional `pg_catalog.` in front.
  cast_word : Str → Str → Str × Str
  unfolding ident_word to_lower is_pg_catalog
  cast_word w [] = (to_lower t w, [])
  cast_word w (c ∷ rest) =
      if is_pg_catalog w && c == b'.'
      then (to_lower t (ident_word rest).0, (ident_word rest).1)
      else (to_lower t w, c ∷ rest)

  pub literal_cast_at : Str → Str × Str
  unfolding skip_sql_spaces ident_word cast_word cut_prefix
  literal_cast_at s = elim (cut_prefix (bytes "::") (skip_sql_spaces s)) [
    | none ↦ ([], s)
    | some rest ↦ let word = ident_word (skip_sql_spaces rest) in cast_word word.0 word.1
  ]

  pub literal_cast_type : Str → Str
  unfolding literal_cast_at
  literal_cast_type s = (literal_cast_at s).0

-- An unquoted part: the bytes up to a dot or the end; none at a quote.
pub unquoted_part : Str → Option (Str × Str)
unquoted_part [] = some ([], [])
unquoted_part (c ∷ s) =
    let rest = add c (unquoted_part s) in
    if c == b'.' then some ([], c ∷ s) else if c == b'"' then none else rest

-- A part with content; none for an empty one.
abbrev nonempty : Str → Str → Option (Str × Str)
nonempty [] rest = none
nonempty (c ∷ p) rest = some (c ∷ p, rest)

-- The list of parts with one more in front.
abbrev pub with_part : Str → Option (List Str) → Option (List Str)
with_part p none = none
with_part p (some ps) = some (p ∷ ps)

module _ (t : Tables) where
  -- One round of the loop of parseQualifiedIdent: a part, and the text behind it.
  folded_part : Option (Str × Str) → Option (Str × Str)
  unfolding trim_space to_lower
  folded_part none = none
  folded_part (some (p, rest)) = elim (trim_space t p) [
    | [] ↦ none
    | c ∷ w ↦ some (to_lower t (c ∷ w), rest)
  ]

  quoted_part : Option (Str × Str) → Option (Str × Str)
  quoted_part none = none
  quoted_part (some (p, rest)) = nonempty p rest

  ident_part : Str → Option (Str × Str)
  unfolding scan_quoted unquoted_part folded_part quoted_part
  ident_part [] = folded_part (unquoted_part [])
  ident_part (c ∷ s) =
      if c == b'"' then quoted_part (scan_quoted b'"' s) else folded_part (unquoted_part (c ∷ s))

  -- The loop, on fuel: every round but the last takes a dot.
  ident_parts : ℕ → Str → Option (List Str)
  unfolding ident_part skip_sql_spaces
  ident_parts zero s = none
  ident_parts (suc fuel) s = elim (ident_part (skip_sql_spaces s)) [
    | none ↦ none
    | some (p, rest) ↦ elim (skip_sql_spaces rest) [
      | [] ↦ some (p ∷ [])
      | c ∷ more ↦ elim (c == b'.') [ true ↦ with_part p (ident_parts fuel more) | false ↦ none ]
    ]
  ]

  two_parts : Option (List Str) → Option (Str × Str)
  two_parts (some (schema ∷ name ∷ [])) = some (schema, name)
  two_parts _ = none

  pub parse_qualified_ident : Str → Option (Str × Str)
  unfolding ident_parts two_parts
  parse_qualified_ident s = two_parts (ident_parts (length s + 1) s)

  pub parse_qualified_seq_literal : Str → Option (Str × Str)
  unfolding parse_qualified_ident
  parse_qualified_seq_literal content = parse_qualified_ident content

abbrev safe_first : ℕ → Bool
safe_first c = within b'a' b'z' c || c == b'_'

abbrev safe_later : ℕ → Bool
safe_later c = safe_first c || within b'0' b'9' c || c == b'$'

all_safe : Str → Bool
all_safe [] = true
all_safe (c ∷ s) = safe_later c && all_safe s

is_safe : Str → Bool
unfolding all_safe
is_safe [] = false
is_safe (c ∷ s) = safe_first c && all_safe s

pub maybe_quote_ident_part : Str → Str
unfolding is_safe double
maybe_quote_ident_part p = if is_safe p then p else b'"' ∷ (double b'"' p ++ b'"' ∷ [])

pub render_qualified_ident : Str → Str → Str
unfolding maybe_quote_ident_part
render_qualified_ident schema name =
    maybe_quote_ident_part schema ++ (b'.' ∷ maybe_quote_ident_part name)

abbrev pub seq_ref_key : Str → Str → Str
seq_ref_key schema name = schema ++ (0 ∷ name)

-- `strings.Cut(repl, "\x00")`, its first two results.
unfoldable pub cut_nul : Str → Str × Str
cut_nul [] = ([], [])
cut_nul (c ∷ s) = let (before, after) = cut_nul s in if c == 0 then ([], s) else (c ∷ before, after)

-- The literal that stands for the replacement.
pub render_literal : Str → Str
unfolding render_qualified_ident cut_nul double
render_literal repl =
    let (schema, name) = cut_nul repl in
    b'\'' ∷ (double b'\'' (render_qualified_ident schema name) ++ b'\'' ∷ [])

unfoldable pub has_quote : Str → Bool
has_quote [] = false
has_quote (c ∷ s) = c == b'\'' || has_quote s

module _ (t : Tables) (rewrites : List (Str × Str)) where
  -- The replacement of a reference, if it has one.
  replacement : Option (Str × Str) → Option Str
  unfolding lookup
  replacement none = none
  replacement (some (schema, name)) = lookup (seq_ref_key schema name) rewrites

  -- The replacement of a literal with this content in front of `rest`.
  pub rewrite_target : Str → Str → Option Str
  unfolding replacement parse_qualified_ident literal_cast_type str_eq
  rewrite_target content rest =
      ite (str_eq (literal_cast_type t rest) (bytes "regclass"))
        (replacement (parse_qualified_ident t content))
        (ite (str_eq (literal_cast_type t rest) (bytes "text"))
          (replacement (parse_qualified_ident t content)) none)

  -- What is written for a literal, its opening quote in front of `s`.
  literal_text : Str → Option (Str × Str) → Str
  unfolding rewrite_target render_literal upto
  literal_text s none = b'\'' ∷ s
  literal_text s (some (content, rest)) = elim (rewrite_target content rest) [
    | some repl ↦ render_literal repl
    | none ↦ b'\'' ∷ upto s rest
  ]

  literal_rest : Option (Str × Str) → Str
  literal_rest none = []
  literal_rest (some (content, rest)) = rest

  -- One round of the loop at the byte c in front of s: what is written, and the text behind it.
  pub rewrite_step : ℕ → Str → Str × Str
  unfolding literal_text literal_rest skip_quoted_ident scan_quoted upto
  rewrite_step c s =
      if c == b'"'
      then (b'"' ∷ upto s (skip_quoted_ident s), skip_quoted_ident s)
      else if c == b'\''
      then (literal_text s (scan_sql_literal s), literal_rest (scan_sql_literal s))
      else (c ∷ [], s)

  -- The loop; none only when the fuel runs out.
  unfoldable pub rewrite_loop : ℕ → Str → Option Str
  unfolding rewrite_step
  rewrite_loop fuel [] = some []
  rewrite_loop zero (c ∷ s) = none
  rewrite_loop (suc fuel) (c ∷ s) = elim (rewrite_loop fuel (rewrite_step c s).1) [
    | none ↦ none
    | some out ↦ some ((rewrite_step c s).0 ++ out)
  ]

  unfoldable pub rewrite_sequence_refs : Str → Option Str
  unfolding rewrite_loop has_quote
  rewrite_sequence_refs ddl = elim rewrites [
    | [] ↦ some ddl
    | _ ↦ if has_quote ddl then rewrite_loop (length ddl) ddl else some ddl
  ]
