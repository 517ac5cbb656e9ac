-- ===== src/Marker.antt =====
-- internal/driver/marker.go: the marker lines of a dump.
pub mod Hex
pub mod Collation
pub mod Delimiter
mod Tests
use tablex.Common.{
  [], ℕ, ◌+◌, ◌-◌, ◌*◌, ◌/◌, ◌%◌, Bool, true, not, ◌&&◌, ◌||◌, List, ◌∷◌, ◌++◌, Option, none, some,
  if◌then◌else◌, ltb, leb, ◌==◌, Str, bytes, str_mem, length,
}
use tablex.Text.{within, cut_prefix, split_on}

abbrev pub marker_prefix : Str
marker_prefix = bytes "-- tablex:v1 "

abbrev max_marker_hex_field : ℕ
max_marker_hex_field = 1024

abbrev max_frame_delim_bytes : ℕ
max_frame_delim_bytes = 16

pub record DumpMarker : Type 0 where
  pub kind : Str
  pub name : Str
  pub collation : Str

pub is_collation_kind : Str → Bool
unfolding str_mem
is_collation_kind kind = str_mem kind (bytes "routine" ∷ bytes "trigger" ∷ bytes "event" ∷ [])

-- `hex.EncodeToString`.
abbrev pub hex_digit : ℕ → ℕ
hex_digit d = if ltb d 10 then b'0' + d else b'a' + (d - 10)

unfoldable pub hex_encode : Str → Str
hex_encode [] = []
hex_encode (c ∷ s) = hex_digit (c / 16) ∷ hex_digit (c % 16) ∷ hex_encode s

pub format_collation_marker : Str → Str → Str → Str
unfolding hex_encode
format_collation_marker kind name collation =
    marker_prefix
    ++ (bytes "db-collation kind="
        ++ (kind
            ++ (bytes " name=" ++ (hex_encode name ++ (bytes " value=" ++ hex_encode collation)))))

-- `strings.TrimSuffix(line, "\r")`.
pub trim_cr : Str → Str
trim_cr [] = []
trim_cr (c ∷ []) = if c == 13 then [] else c ∷ []
trim_cr (c ∷ d ∷ s) = c ∷ trim_cr (d ∷ s)

unfoldable pub cut_marker : Str → Str → Option Str
unfolding trim_cr cut_prefix
cut_marker line marker_type = elim (cut_prefix marker_prefix (trim_cr line)) [
  | none ↦ none
  | some rest ↦ cut_prefix (marker_type ++ (b' ' ∷ [])) rest
]

-- The bytes of markerHexField's loop.
abbrev pub lower_hex : ℕ → Bool
lower_hex c = within b'0' b'9' c || within b'a' b'f' c

all_lower_hex : Str → Bool
all_lower_hex [] = true
all_lower_hex (c ∷ s) = lower_hex c && all_lower_hex s

-- `hex.DecodeString` on lower-case digits: none for an odd length.
abbrev pub hex_value : ℕ → ℕ
hex_value c = if leb c b'9' then c - b'0' else c - b'a' + 10

pub hex_decode : Str → Option Str
hex_decode [] = some []
hex_decode (c ∷ []) = none
hex_decode (c ∷ d ∷ s) = elim (hex_decode s) [
  | none ↦ none
  | some out ↦ some ((hex_value c * 16 + hex_value d) ∷ out)
]

-- markerHexField behind the key.
pub hex_field : Str → Option Str
unfolding all_lower_hex hex_decode
hex_field h =
    if length h == 0
      || ltb max_marker_hex_field (length h)
      || not (length h % 2 == 0)
      || not (all_lower_hex h)
    then none
    else hex_decode h

pub marker_hex_field : Str → Str → Option Str
unfolding cut_prefix hex_field
marker_hex_field field key = elim (cut_prefix key field) [ none ↦ none | some h ↦ hex_field h ]

-- The fields of a collation marker, each answer as it is read.
abbrev marker_of : Str → Option Str → Option Str → Option DumpMarker
marker_of kind (some (a ∷ name)) (some (b ∷ collation)) =
    some (record { kind = kind; name = a ∷ name; collation = b ∷ collation })
marker_of kind _ _ = none

pub marker_fields : List Str → Option DumpMarker
unfolding cut_prefix is_collation_kind marker_hex_field
marker_fields (first ∷ second ∷ third ∷ []) = elim (cut_prefix (bytes "kind=") first) [
  | none ↦ none
  | some kind ↦
      if is_collation_kind kind
      then marker_of kind (marker_hex_field second (bytes "name="))
          (marker_hex_field third (bytes "value="))
      else none
]
marker_fields _ = none

unfoldable pub parse_collation_marker : Str → Option DumpMarker
unfolding cut_marker split_on marker_fields
parse_collation_marker line = elim (cut_marker line (bytes "db-collation")) [
  | none ↦ none
  | some rest ↦ marker_fields (split_on b' ' rest)
]

-- A byte of a frame delimiter.
abbrev pub frame_byte : ℕ → Bool
frame_byte c =
    ltb b' ' c
    && leb c b'~'
    && not (c == b'\'')
    && not (c == b'"')
    && not (c == b'`')
    && not (c == b'\\')

unfoldable pub all_frame : Str → Bool
all_frame [] = true
all_frame (c ∷ s) = frame_byte c && all_frame s

unfoldable pub valid_frame_delimiter : Str → Bool
unfolding all_frame
valid_frame_delimiter s = not (length s == 0) && leb (length s) max_frame_delim_bytes && all_frame s

abbrev pub format_frame_marker : Str → Str
format_frame_marker delim = marker_prefix ++ (bytes "frame delimiter=" ++ delim)

unfoldable pub parse_frame_marker : Str → Option Str
unfolding cut_marker cut_prefix valid_frame_delimiter
parse_frame_marker line = elim (cut_marker line (bytes "frame")) [
  | none ↦ none
  | some rest ↦ elim (cut_prefix (bytes "delimiter=") rest) [
    | none ↦ none
    | some delim ↦ if valid_frame_delimiter delim then some delim else none
  ]
]
