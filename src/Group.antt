-- ===== src/Group.antt =====
-- internal/driver/group.go: Grouper. A pointer that GetOrAdd returns is the key of the
-- element; a change through it is `change`.
pub mod Rows
pub mod Nested
mod Tests
use tablex.Common.{[], List, ◌∷◌, ◌++◌, none, some, Str}
use tablex.Common.Maps.{lookup, insert}

pub record Grouper (T : Type 0) : Type 0 where
  pub order : List Str
  pub by_key : List (Str × T)

module _ {T : Type 0} where
  pub new_grouper : Grouper T
  new_grouper = record { order = []; by_key = [] }

  pub get_or_add : Grouper T → Str → T → Grouper T
  unfolding lookup insert
  get_or_add g key fresh = elim (lookup key g.by_key) [
    | some _ ↦ g
    | none ↦ record { order = g.order ++ (key ∷ []); by_key = insert key fresh g.by_key }
  ]

  -- The element of a key that has one, changed through its pointer.
  pub change : Grouper T → Str → (T → T) → Grouper T
  unfolding lookup insert
  change g key f = elim (lookup key g.by_key) [
    | some v ↦ record { order = g.order; by_key = insert key (f v) g.by_key }
    | none ↦ g
  ]

  -- The elements of the keys; a key of `order` has one.
  pub elements : List (Str × T) → List Str → List T
  unfolding lookup
  elements m [] = []
  elements m (k ∷ ks) = elim (lookup k m) [ some v ↦ v ∷ elements m ks | none ↦ elements m ks ]

  pub slice : Grouper T → List T
  unfolding elements
  slice g = elements g.by_key g.order

-- The rows of a stream, each put into the group of its key, as the introspections do.
module _ {R : Type 0} where
  pub add_row : Grouper (List R) → Str × R → Grouper (List R)
  unfolding get_or_add change
  add_row g (key, row) = change (get_or_add g key []) key (λ rows. rows ++ (row ∷ []))

  pub add_rows : Grouper (List R) → List (Str × R) → Grouper (List R)
  unfolding add_row
  add_rows g [] = g
  add_rows g (row ∷ rows) = add_rows (add_row g row) rows
