-- ===== src/Ddl/Columns.antt =====
-- internal/driver/sqlite/ddlparse.go: the column list of a CREATE TABLE text, its options, and the
-- expressions of generated columns.
use tablex.Common.{
  [], ℕ, ◌+◌, ◌-◌, Bool, true, false, ◌&&◌, ◌||◌, List, ◌∷◌, ◌++◌, Option, none, some,
  if◌then◌else◌, ltb, ◌==◌, ◌⊎◌, inl, inr, Str, bytes, length,
}
use tablex.Common.Maps.{insert}
use tablex.Text.{Tables, to_upper, trim_space, fields, join, contains}
use tablex.Ddl.{Token, next_ddl, scan, ddl_space, find_generated_as, balanced_paren}

-- columnDefsRegion: the depth and the text written.
pub record Region : Type 0 where
  pub depth : ℕ
  pub written : Str

-- A byte written at depth 1.
abbrev pub written_at : ℕ → Str → ℕ → Str
written_at depth b c = if depth == 1 then b ++ (c ∷ []) else b

unfoldable pub region_turn : Region → Token → Str → Region ⊎ Str
region_turn r (Token.byte c) rest =
    if c == b'('
    then inl (record { depth = r.depth + 1; written = written_at r.depth r.written b' ' })
    else if c == b')'
    then if r.depth == 1
      then inr r.written
      else inl (record { depth = r.depth - 1; written = r.written })
    else inl (record { depth = r.depth; written = written_at r.depth r.written c })
region_turn r _ rest = inl (record { depth = r.depth; written = written_at r.depth r.written b' ' })

unfoldable pub column_defs_region : Str → Option Str
unfolding scan next_ddl region_turn
column_defs_region ddl =
    scan next_ddl region_turn (λ r. r.written) (length ddl) (record { depth = 0; written = [] }) ddl

-- elideDDLTail: the text written.
unfoldable pub elide_turn : Str → Token → Str → Str ⊎ Str
elide_turn b (Token.byte c) rest = inl (b ++ (c ∷ []))
elide_turn b _ rest = inl (b ++ (b' ' ∷ []))

unfoldable pub elide_ddl_tail : Str → Option Str
unfolding scan next_ddl elide_turn
elide_ddl_tail s = scan next_ddl elide_turn (λ b. b) (length s) [] s

-- tableOptions: the depth, and whether a '(' opened a group at depth 0.
unfoldable pub options_turn : ℕ × Bool → Token → Str → (ℕ × Bool) ⊎ Str
options_turn (depth, started) (Token.byte c) rest =
    if c == b'('
    then inl (depth + 1, if depth == 0 then true else started)
    else if c == b')' && ltb 0 depth
    then if depth - 1 == 0 && started then inr rest else inl (depth - 1, started)
    else inl (depth, started)
options_turn state _ rest = inl state

unfoldable pub table_options : Str → Option Str
unfolding scan next_ddl options_turn
table_options ddl = scan next_ddl options_turn (λ _. []) (length ddl) (0, false) ddl

-- splitColumnDefs.
pub record Split : Type 0 where
  pub items : List Str
  pub cur : Str
  pub depth : ℕ
  pub started : Bool

abbrev pub started_with : Split → Str → Split
started_with s w = if s.started then record s { cur = s.cur ++ w } else s

abbrev pub push_item : List Str → Str → List Str
push_item items [] = items
push_item items (c ∷ w) = items ++ ((c ∷ w) ∷ [])

module _ (t : Tables) where
  unfoldable pub flush : Split → Split
  unfolding trim_space
  flush s = record s { items = push_item s.items (trim_space t s.cur); cur = [] }

  unfoldable pub split_byte : Split → ℕ → Split ⊎ List Str
  unfolding flush
  split_byte s c =
      if c == b'('
      then if s.depth == 0
        then inl (record s { depth = 1; started = true })
        else inl (record s { depth = s.depth + 1; cur = s.cur ++ (c ∷ []) })
      else if c == b')'
      then if s.depth == 1
        then inr (flush s).items
        else inl (record s { depth = s.depth - 1; cur = s.cur ++ (c ∷ []) })
      else if c == b',' && s.depth == 1
      then inl (flush s)
      else inl (started_with s (c ∷ []))

  unfoldable pub split_turn : Split → Token → Str → Split ⊎ List Str
  unfolding split_byte
  split_turn s Token.comment rest = inl (started_with s (b' ' ∷ []))
  split_turn s (Token.quoted q w) rest = inl (started_with s w)
  split_turn s (Token.bracket w) rest = inl (started_with s w)
  split_turn s (Token.byte c) rest = split_byte s c

  unfoldable pub split_column_defs : Str → Option (List Str)
  unfolding scan next_ddl split_turn flush
  split_column_defs ddl =
      scan next_ddl split_turn (λ s. (flush s).items) (length ddl)
        (record { items = []; cur = []; depth = 0; started = false }) ddl

-- leadingIdent.
abbrev ident_end : ℕ → Bool
ident_end c = ddl_space c || c == b'('

-- The bytes up to the end of an unquoted name.
bare_ident : Str → Str
bare_ident [] = []
bare_ident (c ∷ s) = elim (ident_end c) [ true ↦ [] | false ↦ c ∷ bare_ident s ]

abbrev some_name : Str → Option Str
some_name [] = none
some_name (c ∷ w) = some (c ∷ w)

-- The loop behind the opening quote q, with what it has written: the name at the closing quote.
quoted_name : ℕ → Str → Str → Option Str
quoted_name q b [] = none
quoted_name q b (c ∷ []) = if c == q then some_name b else none
quoted_name q b (c ∷ d ∷ s) = elim (c == q) [
  | true ↦ elim (d == q) [ true ↦ quoted_name q (b ++ (q ∷ [])) s | false ↦ some_name b ]
  | false ↦ quoted_name q (b ++ (c ∷ [])) (d ∷ s)
]

-- The bytes up to the first ']', if there is one.
bracket_name : Str → Option Str
bracket_name [] = none
bracket_name (c ∷ s) = elim (c == b']') [
  | true ↦ some []
  | false ↦ elim (bracket_name s) [ none ↦ none | some w ↦ some (c ∷ w) ]
]

ident_of : Str → Option Str
unfolding quoted_name bracket_name bare_ident
ident_of [] = none
ident_of (q ∷ s) =
    if q == b'"' || q == b'`'
    then quoted_name q [] s
    else if q == b'['
    then elim (bracket_name s) [ none ↦ none | some w ↦ some_name w ]
    else some_name (bare_ident (q ∷ s))

module _ (t : Tables) where
  pub leading_ident : Str → Option Str
  unfolding ident_of trim_space
  leading_ident def = ident_of (trim_space t def)

  -- parseGeneratedExprs: one definition, with what is behind it in its column's map.
  pub named_expr : Str → Option Str → List (Str × Str) → List (Str × Str)
  unfolding leading_ident insert
  named_expr def none out = out
  named_expr def (some expr) out = elim (leading_ident def) [
    | none ↦ out
    | some name ↦ insert name expr out
  ]

  unfoldable pub generated_def : Str → List (Str × Str) → Option (List (Str × Str))
  unfolding find_generated_as balanced_paren named_expr
  generated_def def out = elim (find_generated_as def) [
    | none ↦ none
    | some none ↦ some out
    | some (some group) ↦ elim (balanced_paren t group) [
      | none ↦ none
      | some found ↦ some (named_expr def found out)
    ]
  ]

  unfoldable pub generated_defs : List Str → List (Str × Str) → Option (List (Str × Str))
  unfolding generated_def
  generated_defs [] out = some out
  generated_defs (def ∷ defs) out = elim (generated_def def out) [
    | none ↦ none
    | some more ↦ generated_defs defs more
  ]

  unfoldable pub parse_generated_exprs : Str → Option (List (Str × Str))
  unfolding split_column_defs generated_defs
  parse_generated_exprs ddl = elim (split_column_defs t ddl) [
    | none ↦ none
    | some defs ↦ generated_defs defs []
  ]

  -- ddlIsWithoutRowid.
  pub without_rowid : Str → Bool
  unfolding to_upper fields join contains
  without_rowid elided =
      contains (to_upper t (join (bytes " ") (fields t elided))) (bytes "WITHOUT ROWID")

  unfoldable pub ddl_is_without_rowid : Str → Option Bool
  unfolding table_options elide_ddl_tail without_rowid
  ddl_is_without_rowid ddl = elim (table_options ddl) [
    | none ↦ none
    | some tail ↦ elim (elide_ddl_tail tail) [
      | none ↦ none
      | some elided ↦ some (without_rowid elided)
    ]
  ]
