-- ===== src/SeqRefs/Nextval.antt =====
-- internal/driver/seqrewrite.go: the late-bound references of a default expression
-- (NextvalTextRefs). The references found and the flag `dynamic` are the state of its loop.
pub mod LateBound
use tablex.Common.{
  [], ℕ, zero, suc, Bool, true, false, ◌||◌, List, ◌∷◌, ◌++◌, Option, none, some, if◌then◌else◌,
  ◌==◌, Str, bytes, str_eq, ite, length,
}
use tablex.Text.{Tables, to_lower}
use tablex.SeqRefs.{
  scan_quoted, scan_sql_literal, skip_quoted_ident, skip_sql_spaces, sql_space, ident_start,
  ident_word, literal_cast_at,
}

abbrev pub Refs : Type 0
Refs = List Str × Bool

-- The state behind a round, and the text that the next one begins with; none where the loop
-- returns.
abbrev pub Round : Type 0
Round = Refs × Option Str

abbrev dynamic : Refs → Refs
dynamic (refs, _) = (refs, true)

-- Spaces and further opening parentheses in front of the argument.
open_parens : Str → Str
open_parens [] = []
open_parens (c ∷ s) = elim (sql_space c || c == b'(') [ true ↦ open_parens s | false ↦ c ∷ s ]

-- The end, or the closing parenthesis.
abbrev is_closed : Str → Bool
is_closed [] = true
is_closed (c ∷ s) = c == b')'

-- A literal argument with its content, its cast type and whether the parenthesis closes behind it.
cast_round : Refs → Str → Str → Bool → Refs
unfolding str_eq
cast_round (refs, d) content cast closed =
    ite (str_eq cast (bytes "text")) (if closed then (refs ++ (content ∷ []), d) else (refs, true))
      (ite (str_eq cast (bytes "regclass")) (if closed then (refs, d) else (refs, true))
        (refs, true))

module _ (t : Tables) where
  literal_round : Refs → Option (Str × Str) → Round
  unfolding cast_round literal_cast_at skip_sql_spaces
  literal_round acc none = (dynamic acc, none)
  literal_round acc (some (content, after)) = (
    cast_round acc content (literal_cast_at t after).0
        (is_closed (skip_sql_spaces (literal_cast_at t after).1)),
    some after,
  )

  -- Behind the parentheses of the call; `rest` is the text behind its name.
  argument_round : Refs → Str → Str → Round
  unfolding literal_round scan_quoted
  argument_round acc rest [] = (dynamic acc, some rest)
  argument_round acc rest (c ∷ s) = elim (c == b'\'') [
    | true ↦ literal_round acc (scan_sql_literal s)
    | false ↦ (dynamic acc, some rest)
  ]

  call_round : Refs → Str → Str → Round
  unfolding argument_round open_parens
  call_round acc rest [] = (acc, some rest)
  call_round acc rest (c ∷ s) = elim (c == b'(') [
    | true ↦ argument_round acc rest (open_parens s)
    | false ↦ (acc, some rest)
  ]

  word_round : Refs → Str × Str → Round
  unfolding call_round skip_sql_spaces to_lower str_eq
  word_round acc (word, rest) =
      ite (str_eq (to_lower t word) (bytes "nextval")) (call_round acc rest (skip_sql_spaces rest))
        (acc, some rest)

  quote_round : Refs → Option (Str × Str) → Round
  quote_round acc none = (acc, none)
  quote_round acc (some (_, after)) = (acc, some after)

  -- One round at the byte c in front of s.
  pub nextval_round : Refs → ℕ → Str → Round
  unfolding word_round quote_round skip_quoted_ident scan_quoted ident_word
  nextval_round acc c s = elim (c == b'"') [
    | true ↦ (acc, some (skip_quoted_ident s))
    | false ↦ elim (c == b'\'') [
      | true ↦ quote_round acc (scan_sql_literal s)
      | false ↦ elim (ident_start c) [
        | true ↦ word_round acc (ident_word (c ∷ s))
        | false ↦ (acc, some s)
      ]
    ]
  ]

  -- The loop, on fuel.
  pub nextval_loop : ℕ → Refs → Str → Option Refs
  unfolding nextval_round
  nextval_loop fuel acc [] = some acc
  nextval_loop zero acc (c ∷ s) = none
  nextval_loop (suc fuel) acc (c ∷ s) = elim (nextval_round acc c s).1 [
    | none ↦ some (nextval_round acc c s).0
    | some rest ↦ nextval_loop fuel (nextval_round acc c s).0 rest
  ]

  pub nextval_text_refs : Str → Option Refs
  unfolding nextval_loop
  nextval_text_refs expr = nextval_loop (length expr) ([], false) expr
