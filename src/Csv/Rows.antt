-- ===== src/Csv/Rows.antt =====
-- internal/dump/csv.go, internal/server/handlers/importer.go: a table that is exported and
-- imported.
use tablex.Common.{[], Bool, true, List, ◌∷◌, some, ◌≡◌, ◌≢◌, ◌⊎◌, Elem}
use tablex.Csv.{Column, Value, Arg, Numbers}
use tablex.Csv.Cells.{content, bound, IsRefused}
use tablex.Csv.Table.{by_name}
use tablex.Marker.Hex.{AreBytes}
use tablex.Text.{Tables, trim_space}

-- No two columns of one name.
abbrev pub AreDistinct : List Column → Type 0
AreDistinct [] = Unit
AreDistinct (c ∷ cs) = ((d : Column) → Elem d cs → c.name ≢ d.name) × AreDistinct cs

-- A row with a value for each column.
abbrev pub Fits : List Column → List Value → Type 0
Fits [] [] = Unit
Fits (c ∷ cs) (v ∷ vs) = AreBytes (content v) × Fits cs vs
Fits _ _ = ⊥

abbrev pub bound_row : Numbers → List Column → List Value → List Arg
bound_row n (c ∷ cs) (v ∷ vs) = bound n c v ∷ bound_row n cs vs
bound_row n _ _ = []

-- A row with a value that CSV cannot hold.
abbrev pub RefusedRow : List Column → List Value → Type 0
RefusedRow (c ∷ cs) (v ∷ vs) = IsRefused c v ⊎ RefusedRow cs vs
RefusedRow _ _ = ⊥

-- Rows of which one cannot be written.
abbrev pub RefusedRows : List Column → List (List Value) → Type 0
RefusedRows cs [] = ⊥
RefusedRows cs (r ∷ rs) = RefusedRow cs r ⊎ RefusedRows cs rs

abbrev pub AllFit : List Column → List (List Value) → Type 0
AllFit cs [] = Unit
AllFit cs (r ∷ rs) = Fits cs r × AllFit cs rs

-- The server takes each of the rows.
abbrev pub Accepts : (List Arg → Bool) → List (List Arg) → Type 0
Accepts exec [] = Unit
Accepts exec (a ∷ as_) = (exec a ≡ true) × Accepts exec as_

module _ (t : Tables) (numbers : Numbers) (cols : List Column) where
  -- Columns that a header names as they are: of a table, by one name each, with no blanks around
  -- it.
  abbrev pub AreNamed : List Column → Type 0
  AreNamed cs =
      (c : Column) → Elem c cs → (trim_space t c.name ≡ c.name) × (by_name cols c.name ≡ some c)
