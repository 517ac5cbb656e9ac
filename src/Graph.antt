-- ===== src/Graph.antt =====
-- internal/driver/dump.go: the dependency order of dumped objects (TopoOrder, HasSelfEdge).
-- A `map[string][]string` is the function that gives the edges of a key, [] for a missing one.
pub mod Marks
pub mod Walk
pub mod Order
mod Tests
use tablex.Common.{
  [], ℕ, zero, suc, Bool, List, ◌∷◌, ◌++◌, Option, none, some, ite, if◌then◌else◌, Str, str_eq,
  str_mem, length,
}

-- The values of `visited`: 0, 1 and 2.
pub data Mark : Type 0 where
  unvisited in_progress finished : Mark

pub record Topo : Type 0 where
  pub visited : Str → Mark
  pub out : List Str

abbrev pub set_mark : (Str → Mark) → Str → Mark → Str → Mark
set_mark v n m k = ite (str_eq n k) m (v k)

infixl 5 ◌>>=◌
abbrev pub ◌>>=◌ {ℓ κ} : {A : Type ℓ} {B : Type κ} → Option A → (A → Option B) → Option B
none >>= f = none
some a >>= f = f a

-- One round of the loop over `deps[n]`, for the recursive call `visit`.
pub visit_dep : List Str → (Str → Topo → Option Topo) → Str → Str → Topo → Option Topo
visit_dep names visit n dep t =
    if str_mem dep names then ite (str_eq dep n) (some t) (visit dep t) else some t

pub visit_deps : List Str → (Str → Topo → Option Topo) → Str → List Str → Topo → Option Topo
unfolding visit_dep
visit_deps names visit n [] t = some t
visit_deps names visit n (dep ∷ deps) t =
    visit_dep names visit n dep t >>= visit_deps names visit n deps

abbrev pub finish : Str → Topo → Topo
finish n t = record { visited = set_mark t.visited n finished; out = t.out ++ n ∷ [] }

-- `visit`; `none` only when the fuel, the depth of the calls, runs out.
pub visit : List Str → (Str → List Str) → ℕ → Str → Topo → Option Topo
unfolding visit_deps
visit names deps zero n t = elim (t.visited n) [ unvisited ↦ none | _ ↦ some t ]
visit names deps (suc fuel) n t = elim (t.visited n) [
  | unvisited ↦
      visit_deps names (visit names deps fuel) n (deps n)
        (record t { visited = set_mark t.visited n in_progress })
      >>= λ u. some (finish n u)
  | _ ↦ some t
]

pub visit_all : List Str → (Str → List Str) → ℕ → List Str → Topo → Option Topo
visit_all names deps fuel [] t = some t
visit_all names deps fuel (n ∷ ns) t = visit names deps fuel n t >>= visit_all names deps fuel ns

abbrev pub blank : Topo
blank = record { visited = λ _. unvisited; out = [] }

pub topo_order : List Str → (Str → List Str) → Option (List Str)
unfolding visit_all visit
topo_order names deps = visit_all names deps (length names) names blank >>= λ t. some t.out

pub has_self_edge : Str → (Str → List Str) → Bool
has_self_edge name deps = str_mem name (deps name)
