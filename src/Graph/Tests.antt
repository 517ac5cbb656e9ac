-- ===== src/Graph/Tests.antt =====
-- internal/driver/dump.go: the orders at concrete graphs.
use tablex.Common.{
  [], ℕ, ◌+◌, ◌<◌, inl, inr, sym, true, List, ◌∷◌, some, ◌≡◌, ◌≢◌, arith, Str, str_mem, Elem,
}
use tablex.Graph.{topo_order}
use tablex.Graph.Order.{IsOrder, topo_order-IsOrder}

abbrev a : Str
a = 1 ∷ []

abbrev b : Str
b = 2 ∷ []

-- Each of the two depends on the other.
abbrev cycle : Str → List Str
cycle n = a ∷ b ∷ []

topo_order-IsOrder_example :
    (out : List Str) × (topo_order (a ∷ b ∷ []) cycle ≡ some out) × IsOrder (a ∷ b ∷ []) cycle out
topo_order-IsOrder_example = topo_order-IsOrder (a ∷ b ∷ []) cycle

-- A name depends on itself and on the shorter ones of the same byte.
abbrev shorter : Str → List Str
shorter [] = []
shorter (c ∷ s) = s ∷ (c ∷ s) ∷ []

abbrev rank : Str → ℕ
rank [] = 0
rank (c ∷ s) = rank s + 1

falls : (n d : Str) → Elem d (shorter n) → str_mem d (a ∷ [] ∷ []) ≡ true → d ≢ n → rank d < rank n
falls [] d e m ne = absurd e
falls (c ∷ s) d (inl e) m ne = rw (← e) (omega arith)
falls (c ∷ s) d (inr (inl e)) m ne = absurd (ne (sym e))
falls (c ∷ s) d (inr (inr e)) m ne = absurd e
