-- ===== src/Group/Tests.antt =====
-- internal/driver/group.go: a concrete stream of rows.
use tablex.Common.{[], some, ℕ, List, ◌∷◌, ◌≡◌, refl, Str, bytes, str_eq, str_mem}
use tablex.Group.{new_grouper, add_rows, slice}
use tablex.Common.Maps.{lookup}
use tablex.Group.Nested.{new_nested_grouper, nested_map, add_nested_rows, rows_under}
use tablex.Group.Nested.Streams.{groups_alone, nested_map-add_nested_rows}
use tablex.Group.Rows.{rows_of, slice-add_rows}

abbrev stream : List (Str × ℕ)
stream = (bytes "b", 1) ∷ (bytes "a", 2) ∷ (bytes "b", 3) ∷ []

slice-add_rows_example : slice (add_rows new_grouper stream) ≡ (1 ∷ 3 ∷ []) ∷ (2 ∷ []) ∷ []
unfolding rows_of str_eq str_mem
slice-add_rows_example = slice-add_rows stream

-- Rows of two tables, with the name of a constraint in each.
abbrev keyed : List (Str × Str × ℕ)
keyed =
    (bytes "t", bytes "x", 1)
    ∷ (bytes "u", bytes "x", 2)
    ∷ (bytes "t", bytes "y", 3)
    ∷ (bytes "t", bytes "x", 4)
    ∷ []

nested_map-add_nested_rows_example :
    lookup (bytes "t") (nested_map (add_nested_rows new_nested_grouper keyed))
    ≡ groups_alone (rows_under (bytes "t") keyed)
nested_map-add_nested_rows_example = nested_map-add_nested_rows keyed (bytes "t")

keyed_groups :
    lookup (bytes "t") (nested_map (add_nested_rows new_nested_grouper keyed))
    ≡ some ((1 ∷ 4 ∷ []) ∷ (3 ∷ []) ∷ [])
unfolding lookup nested_map add_nested_rows new_nested_grouper add_rows slice new_grouper
keyed_groups = refl
