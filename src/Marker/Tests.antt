-- ===== src/Marker/Tests.antt =====
-- internal/driver/marker.go: concrete marker lines.
use tablex.Common.{[], true, ◌∷◌, ◌++◌, some, ◌≡◌, inr, refl, arith, bytes, Str}
use tablex.Marker.{
  parse_collation_marker, format_collation_marker, valid_frame_delimiter, parse_frame_marker,
  format_frame_marker,
}
use tablex.Marker.Delimiter.{choose_frame_delimiter}
use tablex.Marker.Delimiter.Fresh.{IsFresh, choose_frame_delimiter-IsFresh}
use tablex.Marker.Collation.{parse_collation_marker-format, parse_frame_marker-format}

parse_collation_marker-format_example :
    parse_collation_marker
      (format_collation_marker (bytes "event") (0 ∷ 255 ∷ []) (bytes "utf8") ++ (13 ∷ []))
    ≡ some (record { kind = bytes "event"; name = 0 ∷ 255 ∷ []; collation = bytes "utf8" })
parse_collation_marker-format_example =
    parse_collation_marker-format true (bytes "event") (0 ∷ 255 ∷ []) (bytes "utf8")
      (inr (inr refl)) (λ e. cc, omega arith, (omega arith, (omega arith, tt)))
      (λ e. cc, omega arith, (omega arith, (omega arith, (omega arith, (omega arith, tt)))))

parse_frame_marker-format_example :
    parse_frame_marker (format_frame_marker (bytes "$$") ++ (13 ∷ [])) ≡ some (bytes "$$")
unfolding valid_frame_delimiter
parse_frame_marker-format_example = parse_frame_marker-format true (bytes "$$") refl

choose_frame_delimiter-IsFresh_example :
    (tok : Str) × (choose_frame_delimiter (bytes "$$;;@@//$$1$$") ≡ some tok)
    × IsFresh (bytes "$$;;@@//$$1$$") tok
choose_frame_delimiter-IsFresh_example =
    choose_frame_delimiter-IsFresh (bytes "$$;;@@//$$1$$") (omega arith)
