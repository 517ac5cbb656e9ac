-- ===== src/Ddl/Total.antt =====
-- internal/driver/sqlite/ddlparse.go: the scanners return for every text.
use tablex.Common.{
  [], ◌+◌, Bool, false, List, ◌∷◌, Option, none, some, ◌==◌, ◌≡◌, inl, inr, refl, arith, Str,
  length, Bool-cases,
}
use tablex.Text.{Tables}
use tablex.Ddl.{next, next_ddl, find_generated_as, generated_turn, balanced_paren, balanced_turn}
use tablex.Ddl.Columns.{
  elide_ddl_tail, elide_turn, table_options, options_turn, split_column_defs, split_turn, flush,
  named_expr, generated_def, generated_defs, parse_generated_exprs, ddl_is_without_rowid,
}
use tablex.Ddl.Scan.{next-ReadsOn, next_ddl-ReadsOn, scan_total}

abbrev Returns : {R : Type 0} → Option R → Type 0
Returns {R} o = (r : R) × (o ≡ some r)

elide_ddl_tail-Returns : (s : Str) → Returns (elide_ddl_tail s)
unfolding elide_ddl_tail
elide_ddl_tail-Returns s =
    scan_total next_ddl elide_turn (λ b. b) next_ddl-ReadsOn (length s) [] s (omega arith)

table_options-Returns : (s : Str) → Returns (table_options s)
unfolding table_options
table_options-Returns s =
    scan_total next_ddl options_turn (λ _. []) next_ddl-ReadsOn (length s) (0, false) s
      (omega arith)

find_generated_as-Returns : (s : Str) → Returns (find_generated_as s)
unfolding find_generated_as
find_generated_as-Returns s =
    scan_total next generated_turn (λ _. none) next-ReadsOn (length s) (0, 0) s (omega arith)

module _ (t : Tables) where
  split_column_defs-Returns : (s : Str) → Returns (split_column_defs t s)
  unfolding split_column_defs
  split_column_defs-Returns s =
      scan_total next_ddl (split_turn t) (λ s. (flush t s).items) next_ddl-ReadsOn (length s)
        (record { items = []; cur = []; depth = 0; started = false }) s (omega arith)

  balanced_paren-Returns : (s : Str) → Returns (balanced_paren t s)
  unfolding balanced_paren
  balanced_paren-Returns [] = (none, refl)
  balanced_paren-Returns (c ∷ s) = elim (Bool-cases (c == b'(')) [
    | inl e ↦ rw e (
        scan_total next (balanced_turn t s) (λ _. none) next-ReadsOn (length s + 1) 0 (c ∷ s)
          (omega arith))
    | inr e ↦ rw e (none, refl)
  ]

  generated_def-Returns : (def : Str) (out : List (Str × Str)) → Returns (generated_def t def out)
  unfolding generated_def
  generated_def-Returns def out =
      let (found, e) = find_generated_as-Returns def in clause_found found e
    where
      clause_found :
          (o : Option Str) → find_generated_as def ≡ some o → Returns (generated_def t def out)
      clause_found none e = rw (e, generated_def) (out, refl)
      clause_found (some group) e =
          let (expr, f) = balanced_paren-Returns group in
          rw (e, generated_def) (rw (f, generated_def) (named_expr t def expr out, refl))

  generated_defs-Returns :
      (defs : List Str) (out : List (Str × Str)) → Returns (generated_defs t defs out)
  unfolding generated_defs
  generated_defs-Returns [] out = (out, refl)
  generated_defs-Returns (def ∷ defs) out =
      let (more, e) = generated_def-Returns def out in
      rw (e, generated_defs) (generated_defs-Returns defs more)

  -- Both readings of a CREATE TABLE text return for every text: no loop runs on past its end, so
  -- parseGeneratedExprs gives a map and ddlIsWithoutRowid an answer.
  pub parse_ddl_total :
      (ddl : Str)
      → ((out : List (Str × Str)) × (parse_generated_exprs t ddl ≡ some out))
        × ((b : Bool) × (ddl_is_without_rowid t ddl ≡ some b))
  unfolding parse_generated_exprs ddl_is_without_rowid
  parse_ddl_total ddl =
      let (defs, e) = split_column_defs-Returns ddl in
      let (tail, f) = table_options-Returns ddl in
      let (elided, g) = elide_ddl_tail-Returns tail in
      (
        rw (e, parse_generated_exprs) (generated_defs-Returns defs []),
        rw (f, ddl_is_without_rowid) (rw (g, ddl_is_without_rowid) (_, refl)),
      )
