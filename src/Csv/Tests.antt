-- ===== src/Csv/Tests.antt =====
-- internal/dump/csv.go, internal/server/handlers/importer.go: the theorems at concrete tables.
use tablex.Common.{
  [], ℕ, Bool, true, false, List, ◌∷◌, ◌++◌, Option, none, some, ◌≡◌, refl, Str, bytes,
}
use tablex.Csv.{
  Column, Value, Arg, null_arg, bytes_arg, text_arg, int_arg, Numbers, is_binary_column,
  import_cell, coerce_value,
}
use tablex.Csv.Comments.{
  TableRef, labels, skip_leading_csv_comments, KeepsHash, has_hash,
  skip_leading_csv_comments-labels,
}
use tablex.Csv.Table.{plan_header, committed, import_csv}
use tablex.Text.Split.{Free-no_byte}
use tablex.Text.{Tables, trim_space}

-- Tables that know ASCII alone, and numbers of one digit.
abbrev ascii : Tables
ascii = record {
  lower_text = λ s. s;
  upper_text = λ s. s;
  trim_text = λ s. s;
  fields_text = λ s. s ∷ [];
  equal_text = λ _ _. false;
  letter = λ _. false;
  digit = λ _. false;
  space = λ _. false;
}

abbrev one_digit : Str → Option ℕ
one_digit (c ∷ []) = some c
one_digit _ = none

abbrev numbers : Numbers
numbers = record { parse_int = one_digit; parse_float = one_digit; parse_bool = λ _. none }

abbrev id_column : Column
id_column = record {
  name = bytes "id";
  base_type = bytes "int";
  nullable = false;
  is_generated = false;
}

abbrev twice_column : Column
twice_column = record {
  name = bytes "twice";
  base_type = bytes "int";
  nullable = true;
  is_generated = true;
}

abbrev note_column : Column
note_column = record {
  name = bytes "note";
  base_type = bytes "text";
  nullable = true;
  is_generated = false;
}

abbrev data_column : Column
data_column = record {
  name = bytes "data";
  base_type = bytes "blob";
  nullable = true;
  is_generated = false;
}

abbrev cols : List Column
cols = id_column ∷ twice_column ∷ note_column ∷ data_column ∷ []

abbrev text_value : Str → Value
text_value s = record { null = false; binary = false; str = s; raw = [] }

abbrev null_value : Value
null_value = record { null = true; binary = false; str = []; raw = [] }

abbrev blob_value : Str → Value
blob_value s = record { null = false; binary = true; str = bytes "[BLOB]"; raw = s }

-- A text that reads like the NULL of CSV, and a real NULL.
abbrev rows : List (List Value)
rows =
    (text_value (bytes "1") ∷ text_value (b'\\' ∷ b'N' ∷ []) ∷ blob_value (0 ∷ 255 ∷ []) ∷ [])
    ∷ (text_value (bytes "2") ∷ null_value ∷ null_value ∷ [])
    ∷ []

abbrev accept : List Arg → Bool
accept a = true

-- What is imported: the generated column is left out, the texts \N and NULL are told apart.
rows_imported :
    import_csv ascii numbers cols accept (
      plan_header cols
      ∷ (bytes "1" ∷ (b'\\' ∷ b'\\' ∷ b'N' ∷ []) ∷ bytes "00ff" ∷ [])
      ∷ (bytes "2" ∷ (b'\\' ∷ b'N' ∷ []) ∷ (b'\\' ∷ b'N' ∷ []) ∷ [])
      ∷ [])
    ≡ committed (
        (int_arg b'1' ∷ text_arg (b'\\' ∷ b'N' ∷ []) ∷ bytes_arg (0 ∷ 255 ∷ []) ∷ [])
        ∷ (int_arg b'2' ∷ null_arg ∷ null_arg ∷ [])
        ∷ [])
unfolding import_csv plan_header import_cell is_binary_column coerce_value
rows_imported = refl

ascii-KeepsHash : KeepsHash ascii
ascii-KeepsHash = record { keeps = λ s e. refl }

abbrev scope : TableRef
scope = record { schema = bytes "public"; table = bytes "a\nb" }

skip_leading_csv_comments-labels_example :
    (has_hash (trim_space ascii (bytes "id,note")) ≡ false
      → skip_leading_csv_comments ascii (labels scope ++ (bytes "id,note" ++ (10 ∷ bytes "1,x")))
        ≡ bytes "id,note" ++ (10 ∷ bytes "1,x"))
    × (skip_leading_csv_comments ascii
          (labels scope ++ ((b'#' ∷ bytes "id,note") ++ (10 ∷ bytes "1,x")))
        ≡ skip_leading_csv_comments ascii (bytes "1,x"))
skip_leading_csv_comments-labels_example =
    skip_leading_csv_comments-labels ascii scope (bytes "id,note") (bytes "1,x") ascii-KeepsHash
      (Free-no_byte 10 (bytes "id,note") refl)
