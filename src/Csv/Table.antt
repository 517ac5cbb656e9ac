-- ===== src/Csv/Table.antt =====
-- internal/dump/csv.go: the header and the rows of an exported table (BuildCSVPlan, WriteCSV);
-- internal/server/handlers/importer.go: importCSV on the records of a file. Reading and writing of
-- records is encoding/csv; a record that it cannot read, and a commit that fails, are left out.
use tablex.Common.{
  [], ℕ, ◌+◌, Bool, false, List, ◌∷◌, Option, none, some, Str, str_eq, str_mem, ite, map,
  if◌then◌else◌,
}
use tablex.Csv.{Column, Value, Arg, null_arg, Numbers, is_binary_column, csv_cell, import_cell}
use tablex.Text.{Tables, trim_space}

unfoldable pub insertable_columns : List Column → List Column
insertable_columns [] = []
insertable_columns (c ∷ cs) =
    let rest = insertable_columns cs in if c.is_generated then rest else c ∷ rest

-- The columns of the SELECT, in its order: what is written above the rows, and which are binary.
unfoldable pub plan_header : List Column → List Str
unfolding insertable_columns
plan_header cols = map (λ c. c.name) (insertable_columns cols)

unfoldable pub plan_binary_cols : List Column → List Bool
unfolding insertable_columns is_binary_column
plan_binary_cols cols = map is_binary_column (insertable_columns cols)

abbrev pub prepend {ℓ} : {A : Type ℓ} → Option A → Option (List A) → Option (List A)
prepend (some x) (some xs) = some (x ∷ xs)
prepend _ _ = none

-- none: the first error of csvCell.
unfoldable pub write_row : List Bool → List Value → Option (List Str)
unfolding csv_cell
write_row bs [] = some []
write_row [] (v ∷ vs) = prepend (csv_cell false v) (write_row [] vs)
write_row (b ∷ bs) (v ∷ vs) = prepend (csv_cell b v) (write_row bs vs)

unfoldable pub write_rows : List Bool → List (List Value) → Option (List (List Str))
unfolding write_row
write_rows bs [] = some []
write_rows bs (r ∷ rs) = prepend (write_row bs r) (write_rows bs rs)

-- `colSet`: of two columns with one name the later one stays.
unfoldable pub by_name : List Column → Str → Option Column
unfolding str_eq
by_name [] n = none
by_name (c ∷ cs) n = elim (by_name cs n) [
  | some d ↦ some d
  | none ↦ ite (str_eq c.name n) (some c) none
]

pub data HeaderError : Type 0 where
  no_header : HeaderError
  unknown_column generated_column duplicate_column : Str → HeaderError

-- What a map read gives where the key is missing.
abbrev zero_column : Column
zero_column = record { name = []; base_type = []; nullable = false; is_generated = false }

abbrev pub found_column : Option Column → Column
found_column none = zero_column
found_column (some c) = c

-- An import: refused at the header, or at a row, of which the count stands in front of the error
-- and nothing is committed; or the rows that are committed, as they were bound.
pub data Import : Type 0 where
  header_error : HeaderError → Import
  row_error : ℕ → Import
  committed : List (List Arg) → Import

abbrev pub commit_row : List Arg → Import → Import
commit_row a (committed rows) = committed (a ∷ rows)
commit_row a failed = failed

module _ (t : Tables) (numbers : Numbers) (cols : List Column) where
  unfoldable pub check_header : List Str → List Str → Option HeaderError
  unfolding trim_space by_name str_mem
  check_header seen [] = none
  check_header seen (h ∷ hs) =
      let name = trim_space t h in
      let rest = check_header (name ∷ seen) hs in
      elim (by_name cols name) [
        | none ↦ some (unknown_column h)
        | some c ↦
            if c.is_generated
            then some (generated_column h)
            else if str_mem name seen
            then some (duplicate_column h)
            else rest
      ]

  -- A short row binds NULL for what is missing; what is more than the header is left out.
  unfoldable pub row_args : List Str → List Str → Option (List Arg)
  unfolding trim_space by_name import_cell
  row_args [] rec = some []
  row_args (h ∷ hs) [] = prepend (some null_arg) (row_args hs [])
  row_args (h ∷ hs) (cell ∷ rec) =
      prepend (import_cell numbers (found_column (by_name cols (trim_space t h))) cell)
        (row_args hs rec)

  module _ (exec : List Arg → Bool) where
    unfoldable pub import_rows : List Str → ℕ → List (List Str) → Import
    unfolding row_args
    import_rows header count [] = committed []
    import_rows header count (rec ∷ recs) =
        let rest = import_rows header (count + 1) recs in
        elim (row_args header rec) [
          | none ↦ row_error count
          | some args ↦ if exec args then commit_row args rest else row_error count
        ]

    unfoldable pub import_csv : List (List Str) → Import
    unfolding check_header import_rows
    import_csv [] = header_error no_header
    import_csv (header ∷ recs) = elim (check_header [] header) [
      | some e ↦ header_error e
      | none ↦ import_rows header 0 recs
    ]
