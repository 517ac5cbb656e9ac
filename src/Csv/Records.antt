-- ===== src/Csv/Records.antt =====
-- encoding/csv as internal/dump/csv.go writes with it (a Writer as NewWriter makes it) and as
-- internal/server/handlers/importer.go reads with it (a Reader with any number of fields).
use tablex.Common.{
  [], ℕ, Bool, true, false, ◌||◌, List, ◌∷◌, ◌++◌, Option, none, some, if◌then◌else◌, ltb, ◌==◌, Str,
  bytes, str_eq, ite, map,
}
use tablex.Text.{Tables, space_byte, decode_rune, double, join}

abbrev pub is_special : ℕ → Bool
is_special c = c == b',' || c == b'"' || c == 10 || c == 13

abbrev pub has_special : Str → Bool
has_special [] = false
has_special (c ∷ s) = is_special c || has_special s

module _ (t : Tables) where
  abbrev is_space : ℕ → Bool
  is_space r = if ltb r 0x80 then space_byte r else t.space r

  -- `fieldNeedsQuotes`.
  unfoldable pub field_needs_quotes : Str → Bool
  unfolding str_eq decode_rune space_byte
  field_needs_quotes [] = false
  field_needs_quotes (c ∷ s) =
      has_special (c ∷ s)
      || is_space (decode_rune (c ∷ s)).0
      || ite (str_eq (c ∷ s) (b'\\' ∷ b'.' ∷ [])) true false

  unfoldable pub write_field : Str → Str
  unfolding field_needs_quotes double
  write_field f = if field_needs_quotes f then b'"' ∷ (double b'"' f ++ b'"' ∷ []) else f

  unfoldable pub write_fields : List Str → Str
  unfolding write_field
  write_fields [] = []
  write_fields (f ∷ []) = write_field f
  write_fields (f ∷ g ∷ fs) = write_field f ++ b',' ∷ write_fields (g ∷ fs)

  -- `Writer.Write` for each record.
  unfoldable pub write_csv : List (List Str) → Str
  unfolding write_fields
  write_csv [] = []
  write_csv (r ∷ rs) = write_fields r ++ 10 ∷ write_csv rs

-- `Reader.readLine` on all lines: a carriage return in front of a newline, or of the end, is dropped.
unfoldable pub normal_lines : Str → Str
normal_lines [] = []
normal_lines (c ∷ []) = if c == 13 then [] else c ∷ []
normal_lines (c ∷ d ∷ s) =
    let rest = normal_lines (d ∷ s) in if c == 13 then (if d == 10 then rest else c ∷ rest) else c ∷ rest

-- Where `Reader.readRecord` stands: at a record, at a field, in a field without or with quotes, or
-- behind a quote in a quoted field.
pub data Mode : Type 0 where
  at_record at_field in_plain in_quoted behind_quote : Mode

-- What is read from there on: no record any more; an error; or the rest of the field, the other
-- fields of the record, and the records behind it, the last of which may be an error.
pub data Out : Type 0 where
  ended : Out
  broken : Out
  fields : Str → List Str → List (Option (List Str)) → Out

abbrev pub to_records : Out → List (Option (List Str))
to_records ended = []
to_records broken = none ∷ []
to_records (fields f fs more) = some (f ∷ fs) ∷ more

abbrev pub add_char : ℕ → Out → Out
add_char c (fields f fs more) = fields (c ∷ f) fs more
add_char c o = o

abbrev pub next_field : Out → Out
next_field (fields f fs more) = fields [] (f ∷ fs) more
next_field o = o

abbrev pub end_record : Out → Out
end_record o = fields [] [] (to_records o)

unfoldable pub scan : Mode → Str → Out
scan at_record [] = ended
scan at_field [] = end_record ended
scan in_plain [] = end_record ended
scan in_quoted [] = broken
scan behind_quote [] = end_record ended
scan at_record (c ∷ s) = elim (c == 10) [
  | true ↦ scan at_record s
  | false ↦ elim (c == b'"') [
    | true ↦ scan in_quoted s
    | false ↦ elim (c == b',') [
      | true ↦ next_field (scan at_field s)
      | false ↦ add_char c (scan in_plain s)
    ]
  ]
]
scan at_field (c ∷ s) = elim (c == 10) [
  | true ↦ end_record (scan at_record s)
  | false ↦ elim (c == b'"') [
    | true ↦ scan in_quoted s
    | false ↦ elim (c == b',') [
      | true ↦ next_field (scan at_field s)
      | false ↦ add_char c (scan in_plain s)
    ]
  ]
]
scan in_plain (c ∷ s) = elim (c == 10) [
  | true ↦ end_record (scan at_record s)
  | false ↦ elim (c == b',') [
    | true ↦ next_field (scan at_field s)
    | false ↦ elim (c == b'"') [ true ↦ broken | false ↦ add_char c (scan in_plain s) ]
  ]
]
scan in_quoted (c ∷ s) = elim (c == b'"') [
  | true ↦ scan behind_quote s
  | false ↦ add_char c (scan in_quoted s)
]
scan behind_quote (c ∷ s) = elim (c == b'"') [
  | true ↦ add_char c (scan in_quoted s)
  | false ↦ elim (c == b',') [
    | true ↦ next_field (scan at_field s)
    | false ↦ elim (c == 10) [ true ↦ end_record (scan at_record s) | false ↦ broken ]
  ]
]

unfoldable pub read_csv : Str → List (Option (List Str))
unfolding normal_lines scan
read_csv content = to_records (scan at_record (normal_lines content))
