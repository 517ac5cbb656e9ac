-- ===== src/Marker/Collation.antt =====
-- internal/driver/marker.go: reading back the marker lines.
use tablex.Common.{
  [], ℕ, ◌≤◌, ◌<◌, Bool, true, ◌∷◌, ◌++◌, some, ◌≡◌, ◌≢◌, ◌⊎◌, inl, inr, refl, ◌∙◌, ap, arith, Str,
  bytes, length,
}
use tablex.Text.{split_on}
use tablex.Text.Split.{Free, no_byte, Free-no_byte, Free-append, split-three}
use tablex.Marker.{
  is_collation_kind, hex_encode, format_collation_marker, marker_hex_field, marker_of,
  marker_fields, parse_collation_marker, all_frame, valid_frame_delimiter, format_frame_marker,
  parse_frame_marker,
}
use tablex.Marker.Hex.{
  AreBytes, line_cr, hex_encode-Free, hex_field-encode, cut_prefix-append, cut_marker-append,
}

-- The kinds that a db-collation marker may carry.
abbrev pub IsKind : Str → Type 0
IsKind kind = (kind ≡ bytes "routine") ⊎ (kind ≡ bytes "trigger") ⊎ (kind ≡ bytes "event")

IsKind-Free : (q : ℕ) (kind : Str) → IsKind kind → (q ≡ 13) ⊎ (q ≡ b' ') → Free q kind
IsKind-Free q kind (inl e) (inl f) = rw (e, f) (Free-no_byte 13 (bytes "routine") refl)
IsKind-Free q kind (inl e) (inr f) = rw (e, f) (Free-no_byte b' ' (bytes "routine") refl)
IsKind-Free q kind (inr (inl e)) (inl f) = rw (e, f) (Free-no_byte 13 (bytes "trigger") refl)
IsKind-Free q kind (inr (inl e)) (inr f) = rw (e, f) (Free-no_byte b' ' (bytes "trigger") refl)
IsKind-Free q kind (inr (inr e)) (inl f) = rw (e, f) (Free-no_byte 13 (bytes "event") refl)
IsKind-Free q kind (inr (inr e)) (inr f) = rw (e, f) (Free-no_byte b' ' (bytes "event") refl)

is_collation_kind-IsKind : (kind : Str) → IsKind kind → is_collation_kind kind ≡ true
unfolding is_collation_kind
is_collation_kind-IsKind kind (inl e) = rw e refl
is_collation_kind-IsKind kind (inr (inl e)) = rw e refl
is_collation_kind-IsKind kind (inr (inr e)) = rw e refl

-- A value that a field can carry.
abbrev pub IsFieldValue : Str → Type 0
IsFieldValue s = (s ≢ []) × (length s ≤ 512) × AreBytes s

field-Free :
    (q : ℕ) (key s : Str)
    → q < b'0'
    → no_byte q key ≡ true
    → AreBytes s
    → Free q (key ++ hex_encode s)
field-Free q key s k e h =
    Free-append q key (hex_encode s) (Free-no_byte q key e) (hex_encode-Free q s k h)

marker_hex_field-encode :
    (key s : Str) → IsFieldValue s → marker_hex_field (key ++ hex_encode s) key ≡ some s
unfolding marker_hex_field
marker_hex_field-encode key s (ne, l, h) =
    rw (cut_prefix-append key (hex_encode s), marker_hex_field) (hex_field-encode s ne l h)

marker_of-some :
    (kind name collation : Str)
    → name ≢ []
    → collation ≢ []
    → marker_of kind (some name) (some collation)
      ≡ some (record { kind = kind; name = name; collation = collation })
marker_of-some kind [] collation n c = absurd (n refl)
marker_of-some kind (a ∷ name) [] n c = absurd (c refl)
marker_of-some kind (a ∷ name) (b ∷ collation) n c = refl

abbrev named_field : Str → Str
named_field name = bytes "name=" ++ hex_encode name

abbrev value_field : Str → Str
value_field collation = bytes "value=" ++ hex_encode collation

fields_text : Str → Str → Str → Str
fields_text kind name collation =
    (bytes "kind=" ++ kind) ++ (b' ' ∷ (named_field name ++ (b' ' ∷ value_field collation)))

fields_text-Free :
    (kind name collation : Str)
    → IsKind kind
    → AreBytes name
    → AreBytes collation
    → Free 13 (bytes "db-collation" ++ (b' ' ∷ fields_text kind name collation))
unfolding fields_text
fields_text-Free kind name collation k n c =
    Free-append 13 (bytes "db-collation kind=") _
      (Free-no_byte 13 (bytes "db-collation kind=") refl)
      (Free-append 13 kind _ (IsKind-Free 13 kind k (inl refl)) (
        refl,
        Free-append 13 (named_field name) _
            (field-Free 13 (bytes "name=") name (omega arith) refl n)
            (refl, field-Free 13 (bytes "value=") collation (omega arith) refl c),
      ))

split-fields :
    (kind name collation : Str)
    → IsKind kind
    → AreBytes name
    → AreBytes collation
    → split_on b' ' (fields_text kind name collation)
      ≡ (bytes "kind=" ++ kind) ∷ named_field name ∷ value_field collation ∷ []
unfolding fields_text
split-fields kind name collation k n c =
    split-three b' ' (bytes "kind=" ++ kind) (named_field name) (value_field collation)
      (Free-append b' ' (bytes "kind=") kind (Free-no_byte b' ' (bytes "kind=") refl)
        (IsKind-Free b' ' kind k (inr refl)))
      (field-Free b' ' (bytes "name=") name (omega arith) refl n)
      (field-Free b' ' (bytes "value=") collation (omega arith) refl c)

marker_fields-some :
    (kind name collation : Str)
    → IsKind kind
    → IsFieldValue name
    → IsFieldValue collation
    → marker_fields ((bytes "kind=" ++ kind) ∷ named_field name ∷ value_field collation ∷ [])
      ≡ some (record { kind = kind; name = name; collation = collation })
unfolding marker_fields
marker_fields-some kind name collation k (n, nl, nb) (c, cl, cb) =
    (rw
      (
        is_collation_kind-IsKind kind k,
        marker_hex_field-encode (bytes "name=") name (n, nl, nb),
        marker_hex_field-encode (bytes "value=") collation (c, cl, cb),
      )
      (marker_of-some kind name collation n c))

-- ParseCollationMarker reads back what FormatCollationMarker writes, with a carriage return behind
-- the line or without, for each of the three kinds and every object name and collation of 1 to 512
-- bytes, whatever these bytes are.
pub parse_collation_marker-format :
    (cr : Bool) (kind name collation : Str)
    → IsKind kind
    → IsFieldValue name
    → IsFieldValue collation
    → parse_collation_marker (line_cr cr (format_collation_marker kind name collation))
      ≡ some (record { kind = kind; name = name; collation = collation })
unfolding parse_collation_marker format_collation_marker fields_text
parse_collation_marker-format cr kind name collation k (n, nl, nb) (c, cl, cb) =
    rw
      (
        cut_marker-append cr (bytes "db-collation") (fields_text kind name collation)
            (fields_text-Free kind name collation k nb cb),
        parse_collation_marker,
      )
      (ap marker_fields (split-fields kind name collation k nb cb)
        ∙ marker_fields-some kind name collation k (n, nl, nb) (c, cl, cb))

all_frame-Free : (q : ℕ) (s : Str) → q ≤ b' ' → all_frame s ≡ true → Free q s
unfolding all_frame
all_frame-Free q [] k h = tt
all_frame-Free q (c ∷ s) k h = (ground arith, all_frame-Free q s k (ground arith))

-- A valid delimiter has no byte up to the space.
pub valid-Free :
    (q : ℕ) (delim : Str) → q ≤ b' ' → valid_frame_delimiter delim ≡ true → Free q delim
unfolding valid_frame_delimiter
valid-Free q delim k h = all_frame-Free q delim k (ground arith)

-- ParseFrameMarker reads back the delimiter that FormatFrameMarker writes, with a carriage return
-- behind the line or without, for every valid delimiter.
pub parse_frame_marker-format :
    (cr : Bool) (delim : Str)
    → valid_frame_delimiter delim ≡ true
    → parse_frame_marker (line_cr cr (format_frame_marker delim)) ≡ some delim
unfolding parse_frame_marker
parse_frame_marker-format cr delim h =
    let rest = bytes "delimiter=" ++ delim in
    rw
      (
        cut_marker-append cr (bytes "frame") rest (
            Free-append 13 (bytes "frame delimiter=") delim
              (Free-no_byte 13 (bytes "frame delimiter=") refl)
              (valid-Free 13 delim (omega arith) h)),
        parse_frame_marker,
      )
      (rw h refl)
