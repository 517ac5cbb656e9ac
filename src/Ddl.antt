-- ===== src/Ddl.antt =====
-- internal/driver/sqlite/ddlparse.go: the scanners of a CREATE TABLE text. An index into the text
-- is the suffix that begins there.
pub mod Columns
pub mod Scan
pub mod Pieces
pub mod Options
pub mod Items
pub mod Region
pub mod Total
mod Tests
use tablex.Common.{
  [], ℕ, zero, suc, ◌+◌, ◌-◌, Bool, true, false, ◌&&◌, ◌||◌, ◌∷◌, Option, none, some, if◌then◌else◌,
  ◌==◌, ◌⊎◌, inl, inr, Str, length,
}
use tablex.Text.{Tables, within, trim_space, upto}

-- The text from the end of the line on; the newline is kept.
pub line_end : Str → Str
line_end [] = []
line_end (c ∷ s) = elim (c == 10) [ true ↦ c ∷ s | false ↦ line_end s ]

-- The text behind the end of a block comment; nothing is behind an unterminated one.
pub block_end : Str → Str
block_end [] = []
block_end (c ∷ []) = []
block_end (c ∷ d ∷ s) = elim (c == b'*' && d == b'/') [ true ↦ s | false ↦ block_end (d ∷ s) ]

-- The text behind the comment that begins at the byte c in front of s, if one does.
pub skip_ddl_comment : ℕ → Str → Option Str
unfolding line_end block_end
skip_ddl_comment c [] = none
skip_ddl_comment c (d ∷ s) =
    if c == b'-' && d == b'-'
    then some (line_end s)
    else if c == b'/' && d == b'*'
    then some (block_end s)
    else none

abbrev pub is_ident_byte : ℕ → Bool
is_ident_byte c =
    c == b'_' || c == b'$' || within b'0' b'9' c || within b'a' b'z' c || within b'A' b'Z' c

abbrev pub is_quote : ℕ → Bool
is_quote c = c == b'\'' || c == b'"' || c == b'`'

-- The text behind a quoted region, from behind its opening quote q on: a doubled q stays inside.
pub skip_quoted : ℕ → Str → Str
skip_quoted q [] = []
skip_quoted q (c ∷ []) = []
skip_quoted q (c ∷ d ∷ s) = elim (c == q) [
  | true ↦ elim (d == q) [ true ↦ skip_quoted q s | false ↦ d ∷ s ]
  | false ↦ skip_quoted q (d ∷ s)
]

-- The text behind a bracket name.
pub skip_bracket : Str → Str
skip_bracket [] = []
skip_bracket (c ∷ s) = elim (c == b']') [ true ↦ s | false ↦ skip_bracket s ]

-- What one round of a scan meets: a comment, a quoted region with its quote and its text, a bracket
-- name with its text, or another byte.
pub data Token : Type 0 where
  comment : Token
  quoted : ℕ → Str → Token
  bracket : Str → Token
  byte : ℕ → Token

-- The switch at the byte c in front of s, and the text that the next round begins with.
pub next : ℕ → Str → Token × Str
unfolding skip_quoted skip_bracket upto
next c s =
    if is_quote c
    then (Token.quoted c (c ∷ upto s (skip_quoted c s)), skip_quoted c s)
    else if c == b'['
    then (Token.bracket (c ∷ upto s (skip_bracket s)), skip_bracket s)
    else (Token.byte c, s)

-- The same, behind the test for a comment.
pub next_ddl : ℕ → Str → Token × Str
unfolding next skip_ddl_comment
next_ddl c s = elim (skip_ddl_comment c s) [ some rest ↦ (Token.comment, rest) | none ↦ next c s ]

-- The `for` loop of the scanners, on fuel: a round goes on with a state or returns. none only when
-- the fuel runs out.
module _ {S R : Type 0} (read : ℕ → Str → Token × Str) (turn : S → Token → Str → S ⊎ R)
    (finish : S → R) where
  unfoldable pub scan : ℕ → S → Str → Option R
  scan fuel state [] = some (finish state)
  scan zero state (c ∷ s) = none
  scan (suc fuel) state (c ∷ s) = elim (turn state (read c s).0 (read c s).1) [
    | inl following ↦ scan fuel following (read c s).1
    | inr r ↦ some r
  ]

-- findGeneratedAs.
abbrev ddl_space : ℕ → Bool
ddl_space c = c == b' ' || c == 9 || c == 10 || c == 13

skip_ddl_spaces : Str → Str
skip_ddl_spaces [] = []
skip_ddl_spaces (c ∷ s) = elim (ddl_space c) [ true ↦ skip_ddl_spaces s | false ↦ c ∷ s ]

-- The text from a '(' on, if it begins with one.
abbrev at_paren : Str → Option Str
at_paren [] = none
at_paren (c ∷ s) = if c == b'(' then some (c ∷ s) else none

-- Behind the letters of the keyword: its end, spaces and the '('.
as_clause : Str → Option Str
unfolding skip_ddl_spaces
as_clause [] = none
as_clause (c ∷ s) = if is_ident_byte c then none else at_paren (skip_ddl_spaces (c ∷ s))

-- Behind the letter a.
as_keyword : Str → Option Str
unfolding as_clause
as_keyword [] = none
as_keyword (d ∷ s) = if d == b's' || d == b'S' then as_clause s else none

-- The depth of parentheses and the byte in front, 0 at the start.
abbrev pub generated_byte : ℕ → ℕ → ℕ → Str → Option Str
unfolding as_keyword
generated_byte depth prev c rest =
    if depth == 0 && (c == b'a' || c == b'A') && (if is_ident_byte prev then false else true)
    then as_keyword rest
    else none

abbrev or_go : ℕ → ℕ → Option Str → (ℕ × ℕ) ⊎ Option Str
or_go depth c (some s) = inr (some s)
or_go depth c none = inl (depth, c)

pub generated_turn : ℕ × ℕ → Token → Str → (ℕ × ℕ) ⊎ Option Str
unfolding as_keyword
generated_turn (depth, prev) (Token.quoted q w) rest = inl (depth, q)
generated_turn (depth, prev) (Token.bracket w) rest = inl (depth, b']')
generated_turn (depth, prev) Token.comment rest = inl (depth, prev)
generated_turn (depth, prev) (Token.byte c) rest =
    if c == b'('
    then inl (depth + 1, c)
    else if c == b')'
    then inl (depth - 1, c)
    else or_go depth c (generated_byte depth prev c rest)

-- The text from the '(' of the generation clause on, or none for -1.
pub find_generated_as : Str → Option (Option Str)
unfolding scan next generated_turn
find_generated_as def = scan next generated_turn (λ _. none) (length def) (0, 0) def

-- balancedParen, of the text from `open` on: the depth is the state.
module _ (t : Tables) (start : Str) where
  pub balanced_turn : ℕ → Token → Str → ℕ ⊎ Option Str
  unfolding upto trim_space
  balanced_turn depth (Token.byte c) rest =
      if c == b'('
      then inl (depth + 1)
      else if c == b')'
      then if depth == 1 then inr (some (trim_space t (upto start (c ∷ rest)))) else inl (depth - 1)
      else inl depth
  balanced_turn depth _ rest = inl depth

module _ (t : Tables) where
  pub balanced_paren : Str → Option (Option Str)
  unfolding scan next balanced_turn
  balanced_paren [] = some none
  balanced_paren (c ∷ s) =
      if c == b'('
      then scan next (balanced_turn t s) (λ _. none) (length s + 1) 0 (c ∷ s)
      else some none
