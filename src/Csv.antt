-- ===== src/Csv.antt =====
-- internal/dump/csv.go and internal/server/handlers/importer.go: a cell of a CSV export, and what
-- an import binds for it. The numbers that strconv reads are codes: `Numbers` is what ParseInt,
-- ParseFloat and ParseBool answer.
pub mod Records
pub mod ReadBack
pub mod Table
pub mod Reads
pub mod Cells
pub mod Rows
pub mod Comments
mod Tests
use tablex.Common.{
  [], ℕ, zero, suc, ◌+◌, ◌-◌, ◌*◌, Bool, true, false, ◌&&◌, ◌||◌, List, ◌∷◌, Option, none, some,
  Str, bytes, str_mem, if◌then◌else◌, ◌==◌,
}
use tablex.Marker.{hex_encode}
use tablex.Text.{within, rune_error, decode_rune}

-- The fields of model.Column that export and import read.
pub record Column : Type 0 where
  pub name : Str
  pub base_type : Str
  pub nullable : Bool
  pub is_generated : Bool

-- driver.Value: `raw` is its field Bytes.
pub record Value : Type 0 where
  pub null : Bool
  pub binary : Bool
  pub str : Str
  pub raw : Str

pub is_binary_column : Column → Bool
unfolding str_mem
is_binary_column c = str_mem c.base_type (
    bytes "blob"
    ∷ bytes "tinyblob"
    ∷ bytes "mediumblob"
    ∷ bytes "longblob"
    ∷ bytes "bytea"
    ∷ bytes "binary"
    ∷ bytes "varbinary"
    ∷ bytes "image"
    ∷ [])

-- `\N`.
abbrev pub csv_null_sentinel : Str
csv_null_sentinel = b'\\' ∷ b'N' ∷ []

abbrev pub escape_csv_cell : Str → Str
escape_csv_cell [] = []
escape_csv_cell (c ∷ s) = if c == b'\\' then b'\\' ∷ c ∷ s else c ∷ s

abbrev pub unescape_csv_cell : Str → Str
unescape_csv_cell [] = []
unescape_csv_cell (c ∷ s) = if c == b'\\' then s else c ∷ s

-- `utf8.Valid`; the number is how many bytes of a rune are still ahead.
utf8_from : ℕ → Str → Bool
unfolding decode_rune
utf8_from k [] = true
utf8_from (suc k) (c ∷ s) = utf8_from k s
utf8_from zero (c ∷ s) =
    let (r, n) = decode_rune (c ∷ s) in
    let rest = utf8_from (n - 1) s in if r == rune_error && n == 1 then false else rest

pub utf8_valid : Str → Bool
unfolding utf8_from
utf8_valid s = utf8_from 0 s

-- none: the error on a text column whose bytes are not UTF-8.
pub csv_cell : Bool → Value → Option Str
unfolding hex_encode utf8_valid
csv_cell binary_col v =
    if v.null
    then some csv_null_sentinel
    else if binary_col
    then some (hex_encode (if v.binary then v.raw else v.str))
    else if v.binary
    then if utf8_valid v.raw then some (escape_csv_cell v.raw) else none
    else some (escape_csv_cell v.str)

-- `hex.DecodeString`: none for an odd length or a byte that is no digit.
abbrev pub from_hex_char : ℕ → Option ℕ
from_hex_char c =
    if within b'0' b'9' c
    then some (c - b'0')
    else if within b'a' b'f' c
    then some (c - b'a' + 10)
    else if within b'A' b'F' c
    then some (c - b'A' + 10)
    else none

abbrev pub hex_byte : Option ℕ → Option ℕ → Option Str → Option Str
hex_byte (some a) (some b) (some s) = some ((a * 16 + b) ∷ s)
hex_byte _ _ _ = none

unfoldable pub decode_string : Str → Option Str
decode_string [] = some []
decode_string (c ∷ []) = none
decode_string (c ∷ d ∷ s) = hex_byte (from_hex_char c) (from_hex_char d) (decode_string s)

-- The prefixes 0x, 0X, \x and \X.
abbrev pub without_hex_prefix : Str → Str
without_hex_prefix (c ∷ d ∷ s) =
    if (c == b'0' || c == b'\\') && (d == b'x' || d == b'X') then s else c ∷ d ∷ s
without_hex_prefix s = s

unfoldable pub decode_hex_cell : Str → Option Str
unfolding decode_string
decode_hex_cell s = decode_string (without_hex_prefix s)

-- What a statement binds.
pub data Arg : Type 0 where
  null_arg : Arg
  bytes_arg text_arg : Str → Arg
  int_arg float_arg : ℕ → Arg
  bool_arg : Bool → Arg

pub record Numbers : Type 0 where
  pub parse_int : Str → Option ℕ
  pub parse_float : Str → Option ℕ
  pub parse_bool : Str → Option Bool

abbrev int_types : List Str
int_types =
    bytes "tinyint"
    ∷ bytes "smallint"
    ∷ bytes "mediumint"
    ∷ bytes "int"
    ∷ bytes "integer"
    ∷ bytes "bigint"
    ∷ bytes "int2"
    ∷ bytes "int4"
    ∷ bytes "int8"
    ∷ bytes "serial"
    ∷ bytes "bigserial"
    ∷ bytes "smallserial"
    ∷ []

abbrev float_types : List Str
float_types =
    bytes "float"
    ∷ bytes "double"
    ∷ bytes "real"
    ∷ bytes "float4"
    ∷ bytes "float8"
    ∷ bytes "double precision"
    ∷ []

abbrev bool_types : List Str
bool_types = bytes "bool" ∷ bytes "boolean" ∷ []

abbrev pub parsed : {A : Type 0} → (A → Arg) → Str → Option A → Arg
parsed f s none = text_arg s
parsed f s (some n) = f n

pub coerce_value : Numbers → Column → Str → Arg
unfolding str_mem
coerce_value t c s =
    if str_mem c.base_type int_types
    then parsed int_arg s (t.parse_int s)
    else if str_mem c.base_type bool_types
    then parsed bool_arg s (t.parse_bool s)
    else if str_mem c.base_type float_types
    then parsed float_arg s (t.parse_float s)
    else text_arg s

pub is_numeric : Column → Bool
unfolding str_mem
is_numeric c =
    str_mem c.base_type int_types
    || str_mem c.base_type float_types
    || str_mem c.base_type
        (bytes "decimal" ∷ bytes "numeric" ∷ bytes "dec" ∷ bytes "fixed" ∷ bytes "money" ∷ [])

pub blank_to_null_type : Column → Bool
unfolding is_numeric str_mem
blank_to_null_type c =
    is_numeric c
    || str_mem c.base_type bool_types
    || str_mem c.base_type (
        bytes "date"
        ∷ bytes "time"
        ∷ bytes "datetime"
        ∷ bytes "timestamp"
        ∷ bytes "timestamptz"
        ∷ bytes "year"
        ∷ bytes "timestamp with time zone"
        ∷ bytes "timestamp without time zone"
        ∷ bytes "time with time zone"
        ∷ bytes "time without time zone"
        ∷ bytes "interval"
        ∷ [])

abbrev pub is_sentinel : Str → Bool
is_sentinel (a ∷ b ∷ []) = a == b'\\' && b == b'N'
is_sentinel _ = false

abbrev pub is_empty : Str → Bool
is_empty [] = true
is_empty (c ∷ s) = false

-- A text value for a column.
abbrev pub bind_text : Numbers → Column → Str → Arg
bind_text t c s =
    if is_empty s && c.nullable && blank_to_null_type c then null_arg else coerce_value t c s

abbrev pub bind_bytes : Option Str → Option Arg
bind_bytes none = none
bind_bytes (some s) = some (bytes_arg s)

-- The switch on a cell in the loop of importCSV; none: the error on a binary cell that is not hex.
pub import_cell : Numbers → Column → Str → Option Arg
unfolding is_binary_column decode_hex_cell
import_cell t c cell =
    if is_sentinel cell
    then some null_arg
    else if is_binary_column c
    then bind_bytes (decode_hex_cell cell)
    else some (bind_text t c (unescape_csv_cell cell))
