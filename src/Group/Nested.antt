-- ===== src/Group/Nested.antt =====
-- internal/driver/group.go: NestedGrouper and StringSet. A grouper that a map holds by pointer is
-- changed where it stands.
pub mod Streams
use tablex.Common.{[], Bool, true, List, ◌∷◌, ◌++◌, none, some, Str, str_eq, ite}
use tablex.Common.Maps.{lookup, insert}
use tablex.Group.{Grouper, new_grouper, get_or_add, change, slice}

pub record NestedGrouper (T : Type 0) : Type 0 where
  pub order : List Str
  pub by_key : List (Str × Grouper T)

module _ {T : Type 0} where
  unfoldable pub new_nested_grouper : NestedGrouper T
  new_nested_grouper = record { order = []; by_key = [] }

  pub nested_get_or_add : NestedGrouper T → Str → Str → T → NestedGrouper T
  unfolding lookup insert
  nested_get_or_add n outer inner fresh = elim (lookup outer n.by_key) [
    | some g ↦ record n { by_key = insert outer (get_or_add g inner fresh) n.by_key }
    | none ↦ record {
      order = n.order ++ (outer ∷ []);
      by_key = insert outer (get_or_add new_grouper inner fresh) n.by_key;
    }
  ]

  -- The element of two keys, changed through its pointer.
  pub nested_change : NestedGrouper T → Str → Str → (T → T) → NestedGrouper T
  unfolding lookup insert
  nested_change n outer inner f = elim (lookup outer n.by_key) [
    | some g ↦ record n { by_key = insert outer (change g inner f) n.by_key }
    | none ↦ n
  ]

  pub slices : List (Str × Grouper T) → List Str → List (Str × List T)
  unfolding lookup insert
  slices m [] = []
  slices m (k ∷ ks) = elim (lookup k m) [
    | some g ↦ insert k (slice g) (slices m ks)
    | none ↦ slices m ks
  ]

  unfoldable pub nested_map : NestedGrouper T → List (Str × List T)
  unfolding slices
  nested_map n = slices n.by_key n.order

pub string_set : List Str → List (Str × Bool)
unfolding insert
string_set [] = []
string_set (n ∷ names) = insert n true (string_set names)

-- The rows of a stream, each put under its two keys.
module _ {R : Type 0} where
  pub add_nested_row : NestedGrouper (List R) → Str × Str × R → NestedGrouper (List R)
  unfolding nested_get_or_add nested_change
  add_nested_row n (outer, inner, row) =
      nested_change (nested_get_or_add n outer inner []) outer inner (λ rows. rows ++ (row ∷ []))

  unfoldable pub add_nested_rows :
      NestedGrouper (List R) → List (Str × Str × R) → NestedGrouper (List R)
  unfolding add_nested_row
  add_nested_rows n [] = n
  add_nested_rows n (row ∷ rows) = add_nested_rows (add_nested_row n row) rows

  -- The rows of one outer key, with their inner keys.
  pub rows_under : Str → List (Str × Str × R) → List (Str × R)
  unfolding str_eq
  rows_under k [] = []
  rows_under k ((outer, inner, row) ∷ rows) =
      ite (str_eq outer k) ((inner, row) ∷ rows_under k rows) (rows_under k rows)
