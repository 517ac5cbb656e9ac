-- ===== src/Csv/Reads.antt =====
-- internal/server/handlers/importer.go: what an import binds for a value, by the names of the
-- types, which are written out here once more.
use tablex.Common.{
  [], ℕ, Bool, true, false, ◌||◌, ◌&&◌, List, ◌∷◌, ◌++◌, Option, none, some, ◌≡◌, refl, sym, ap, arith, Str, bytes, str_eq, str_mem,
  if◌then◌else◌, Bool-cases, Option-cases, inl, inr, ◌∙◌,
}
use tablex.Csv.{
  Column, Value, is_binary_column, Arg, null_arg, bytes_arg, text_arg, int_arg, float_arg, bool_arg, Numbers, bind_text, coerce_value, is_numeric, blank_to_null_type, is_empty, parsed,
}

-- The bytes that a value stands for.
abbrev pub content : Value → Str
content v = if v.binary then v.raw else v.str

abbrev pub binary_types : List Str
binary_types =
    bytes "blob"
    ∷ bytes "tinyblob"
    ∷ bytes "mediumblob"
    ∷ bytes "longblob"
    ∷ bytes "bytea"
    ∷ bytes "binary"
    ∷ bytes "varbinary"
    ∷ bytes "image"
    ∷ []

abbrev whole_types : List Str
whole_types =
    bytes "tinyint"
    ∷ bytes "smallint"
    ∷ bytes "mediumint"
    ∷ bytes "int"
    ∷ bytes "integer"
    ∷ bytes "bigint"
    ∷ bytes "int2"
    ∷ bytes "int4"
    ∷ bytes "int8"
    ∷ bytes "serial"
    ∷ bytes "bigserial"
    ∷ bytes "smallserial"
    ∷ []

abbrev floating_types : List Str
floating_types =
    bytes "float"
    ∷ bytes "double"
    ∷ bytes "real"
    ∷ bytes "float4"
    ∷ bytes "float8"
    ∷ bytes "double precision"
    ∷ []

abbrev exact_types : List Str
exact_types =
    bytes "decimal" ∷ bytes "numeric" ∷ bytes "dec" ∷ bytes "fixed" ∷ bytes "money" ∷ []

abbrev truth_types : List Str
truth_types = bytes "bool" ∷ bytes "boolean" ∷ []

abbrev time_types : List Str
time_types =
    bytes "date"
    ∷ bytes "time"
    ∷ bytes "datetime"
    ∷ bytes "timestamp"
    ∷ bytes "timestamptz"
    ∷ bytes "year"
    ∷ bytes "timestamp with time zone"
    ∷ bytes "timestamp without time zone"
    ∷ bytes "time with time zone"
    ∷ bytes "time without time zone"
    ∷ bytes "interval"
    ∷ []

-- The types in which an empty text is no value.
abbrev no_blank_types : List Str
no_blank_types =
    whole_types ++ (floating_types ++ (exact_types ++ (truth_types ++ time_types)))

-- What stands in a statement for a value: NULL, the bytes, the number or truth value that the text
-- reads as in a column of such a type, or the text where it does not; and NULL for an empty text
-- where the type has none and the column takes NULL.
pub data Reads (n : Numbers) (c : Column) (v : Value) : Arg → Type 0 where
  as_null : v.null ≡ true → Reads n c v null_arg
  as_bytes :
      v.null ≡ false → str_mem c.base_type binary_types ≡ true → Reads n c v (bytes_arg (content v))
  as_missing :
      v.null ≡ false
      → content v ≡ []
      → c.nullable ≡ true
      → str_mem c.base_type no_blank_types ≡ true
      → Reads n c v null_arg
  as_int :
      (k : ℕ)
      → v.null ≡ false
      → str_mem c.base_type whole_types ≡ true
      → n.parse_int (content v) ≡ some k
      → Reads n c v (int_arg k)
  as_float :
      (k : ℕ)
      → v.null ≡ false
      → str_mem c.base_type floating_types ≡ true
      → n.parse_float (content v) ≡ some k
      → Reads n c v (float_arg k)
  as_bool :
      (k : Bool)
      → v.null ≡ false
      → str_mem c.base_type truth_types ≡ true
      → n.parse_bool (content v) ≡ some k
      → Reads n c v (bool_arg k)
  as_text :
      v.null ≡ false
      → str_mem c.base_type binary_types ≡ false
      → (content v ≡ []
          → c.nullable ≡ true
          → str_mem c.base_type no_blank_types ≡ true
          → ⊥)
      → (str_mem c.base_type whole_types ≡ true → n.parse_int (content v) ≡ none)
      → (str_mem c.base_type whole_types ≡ false
          → str_mem c.base_type truth_types ≡ true
          → n.parse_bool (content v) ≡ none)
      → (str_mem c.base_type whole_types ≡ false
          → str_mem c.base_type truth_types ≡ false
          → str_mem c.base_type floating_types ≡ true
          → n.parse_float (content v) ≡ none)
      → Reads n c v (text_arg (content v))

str_mem-append :
    (x : Str) (a b : List Str) → str_mem x (a ++ b) ≡ (str_mem x a || str_mem x b)
unfolding str_mem
str_mem-append x [] b = refl
str_mem-append x (y ∷ a) b = elim (str_eq y x) [
  | yes e ↦ ground arith
  | no e ↦ let ih = str_mem-append x a b in ground arith
]

or_assoc : (a b c d e : Bool) → (((a || b || c) || d || e)) ≡ (a || (b || (c || (d || e))))
or_assoc a b c d e = ground arith

blank_to_null_type-types :
    (c : Column) → blank_to_null_type c ≡ str_mem c.base_type no_blank_types
unfolding blank_to_null_type is_numeric
blank_to_null_type-types c =
    let b = c.base_type in
    rw
      (
        str_mem-append b whole_types (floating_types ++ (exact_types ++ (truth_types ++ time_types))),
        str_mem-append b floating_types (exact_types ++ (truth_types ++ time_types)),
        str_mem-append b exact_types (truth_types ++ time_types),
        str_mem-append b truth_types time_types,
      )
      (or_assoc (str_mem b whole_types) (str_mem b floating_types) (str_mem b exact_types)
          (str_mem b truth_types) (str_mem b time_types))

-- The Boolean test of bind_text is about an empty text.
is_empty-nil : (s : Str) → s ≡ [] → is_empty s ≡ true
is_empty-nil [] e = refl
is_empty-nil (c ∷ s) e = cc

nil-is_empty : (s : Str) → is_empty s ≡ true → s ≡ []
nil-is_empty [] e = refl
nil-is_empty (c ∷ s) e = cc

module _ (n : Numbers) (c : Column) (v : Value) (nn : v.null ≡ false) (nb : is_binary_column c ≡ false) where
  coerce_value-Reads :
      (content v ≡ []
        → c.nullable ≡ true
        → str_mem c.base_type no_blank_types ≡ true
        → ⊥)
      → Reads n c v (coerce_value n c (content v))
  unfolding is_binary_column coerce_value
  coerce_value-Reads keep = elim (Bool-cases (str_mem c.base_type whole_types)) [
    | inl w ↦ elim (Option-cases (n.parse_int (content v))) [
      | inl e ↦ rw (w, e) (as_text nn nb keep (λ _. e) (λ f _. cc) (λ f _ _. cc))
      | inr (k, e) ↦ rw (w, e) (as_int k nn w e)
    ]
    | inr w ↦ elim (Bool-cases (str_mem c.base_type truth_types)) [
      | inl b ↦ elim (Option-cases (n.parse_bool (content v))) [
        | inl e ↦ rw (w, b, e) (as_text nn nb keep (λ f. cc) (λ _ _. e) (λ _ f _. cc))
        | inr (k, e) ↦ rw (w, b, e) (as_bool k nn b e)
      ]
      | inr b ↦ elim (Bool-cases (str_mem c.base_type floating_types)) [
        | inl f ↦ elim (Option-cases (n.parse_float (content v))) [
          | inl e ↦ rw (w, b, f, e) (as_text nn nb keep (λ g. cc) (λ _ g. cc) (λ _ _ _. e))
          | inr (k, e) ↦ rw (w, b, f, e) (as_float k nn f e)
        ]
        | inr f ↦ rw (w, b, f) (as_text nn nb keep (λ g. cc) (λ _ g. cc) (λ _ _ g. cc))
      ]
    ]
  ]

  pub bind_text-Reads : Reads n c v (bind_text n c (content v))
  bind_text-Reads =
      let types = blank_to_null_type-types c in
      elim (Bool-cases (is_empty (content v) && c.nullable && blank_to_null_type c)) [
        | inl m ↦
            rw m (as_missing nn (nil-is_empty (content v) (ground arith)) (ground arith)
                (sym types ∙ ground arith))
        | inr m ↦
            rw m (coerce_value-Reads (λ e u x.
                let z = is_empty-nil (content v) e in let y = types ∙ x in ground arith))
      ]
