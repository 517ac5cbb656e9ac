-- ===== src/Graph/Order.antt =====
-- internal/driver/dump.go, TopoOrder: the walk ends, and its output is an order of the names.
use tablex.Common.{
  [], ℕ, ◌≤◌, ◌<◌, true, List, ◌∷◌, some, ◌≡◌, ◌≢◌, ◌↔◌, inl, inr, refl, arith, Str, str_eq,
  str_mem, length, Elem, Elem-concat,
}
use mathlib.Core.Logic.{if_pos, if_neg}
use tablex.Graph.{blank, topo_order}
use tablex.Graph.Marks.{Built, nil, snoc, Reach, here, step, open_names, Placed}
use tablex.Graph.Walk.{finished-cases, Grows-quiet, visit_all_ends, Inv-blank}

-- `out` is an order of the names: built one name at a time, each new when it was appended and
-- behind every dependency that is not on a cycle with it; and it has every name and no other.
pub record IsOrder (names : List Str) (deps : Str → List Str) (out : List Str) : Type 0 where
  pub built : Built (Placed names deps) out
  pub complete : (k : Str) → Elem k names ↔ Elem k out

blank-open : (ns : List Str) → open_names blank.visited ns ≡ length ns
unfolding open_names
blank-open [] = refl
blank-open (n ∷ ns) = omega (arith, blank-open ns)

pub str_mem-Elem : (k : Str) (ns : List Str) → Elem k ns → str_mem k ns ≡ true
unfolding str_mem
str_mem-Elem k (n ∷ ns) (inl e) = rw (if_pos _ e)
str_mem-Elem k (n ∷ ns) (inr e) = let ih = str_mem-Elem k ns e in ground arith
str_mem-Elem k [] e = elim e [ ]

Elem-of_str_mem : (k : Str) (ns : List Str) → str_mem k ns ≡ true → Elem k ns
unfolding str_mem
Elem-of_str_mem k [] m = cc
Elem-of_str_mem k (n ∷ ns) m = elim (str_eq n k) [
  | yes e ↦ inl e
  | no ne ↦ inr (Elem-of_str_mem k ns (rw (if_neg _ ne) at m))
]

-- What held of each name when it was appended may be restated, for the names of the list.
Built-map :
    {P Q : Str → List Str → Type 0} {out : List Str}
    → ((n : Str) (before : List Str) → P n before → Q n before)
    → Built P out
    → Built Q out
Built-map f nil = nil
Built-map f (snoc n out b p e) = snoc n out (Built-map f b) (f n out p) e

Built-only :
    (names : List Str) (deps : Str → List Str) {out : List Str} (k : Str)
    → Built (Placed names deps) out
    → Elem k out
    → Elem k names
Built-only names deps k nil m = absurd m
Built-only names deps k (snoc n out b p e) m = elim (Elem-concat k n out (rw e at m)) [
  | inl l ↦ Built-only names deps k b l
  | inr x ↦ rw (← x) (Elem-of_str_mem n names p.0)
]

-- TopoOrder returns for every graph, cyclic or not, and what it returns is an order of the names:
-- every name stands there, none twice, and each behind all its dependencies in the set but those
-- that lie on a cycle with it.
pub topo_order-IsOrder :
    (names : List Str) (deps : Str → List Str)
    → (out : List Str) × (topo_order names deps ≡ some out) × IsOrder names deps out
unfolding topo_order
topo_order-IsOrder names deps =
    let (u, eu, w) =
      visit_all_ends names deps (length names) names blank (λ k e. str_mem-Elem k names e)
        (Inv-blank names deps) (λ k e. cc) (omega (arith, blank-open names)) in
    (
      u.out,
      rw eu,
      record {
        built = w.inv.emitted;
        complete = λ k. (
          λ e. elim (finished-cases names deps (u.visited k)) [
            | inl f ↦ w.inv.done k f
            | inr (inl p) ↦ absurd (Grows-quiet names deps blank u w.grows (λ k e. cc) k p)
            | inr (inr z) ↦ absurd (w.marked k e z)
          ],
          Built-only names deps k w.inv.emitted,
        );
      },
    )

-- `out` is a linear extension: each name was new when it was appended, and behind every
-- dependency in the set but itself.
abbrev pub Follows : List Str → (Str → List Str) → Str → List Str → Type 0
Follows names deps n before =
    (¬ Elem n before)
    × ((d : Str) → Elem d (deps n) → str_mem d names ≡ true → d ≢ n → Elem d before)

module _ (names : List Str) (deps : Str → List Str) (rank : Str → ℕ)
    (falls : (n d : Str) → Elem d (deps n) → str_mem d names ≡ true → d ≢ n → rank d < rank n) where
  rank-Reach : (a b : Str) → Reach names deps a b → rank b ≤ rank a
  rank-Reach a b here = omega arith
  rank-Reach a b (step {b = c} r e m) = elim (str_eq b c) [
    | yes same ↦ rw same (rank-Reach a c r)
    | no other ↦ omega (arith, rank-Reach a c r, falls c b e m other)
  ]

  -- On a graph with no cycle but self-edges (some rank falls along every other edge inside the
  -- set), TopoOrder returns a linear extension of it with every name of the set and no other.
  pub topo_order-Follows :
      (out : List Str) × (topo_order names deps ≡ some out)
      × Built (Follows names deps) out
      × ((k : Str) → Elem k names ↔ Elem k out)
  topo_order-Follows =
      let (out, e, o) = topo_order-IsOrder names deps in
      (
        out,
        e,
        Built-map
            (λ n before p. (
              p.1,
              λ d de dm ne. elim (p.2 d de dm ne) [
                | inl there ↦ there
                | inr r ↦ absurd (omega (arith, rank-Reach d n r, falls n d de dm ne))
              ],
            ))
            o.built,
        o.complete,
      )
