-- ===== src/Graph/Marks.antt =====
-- internal/driver/dump.go, TopoOrder: the marks of the walk, and what a list must
-- satisfy to be an order of its names.
use tablex.Common.{
  [], ℕ, ◌+◌, ◌≤◌, ◌<◌, true, List, ◌∷◌, ◌++◌, ◌≡◌, ◌≢◌, ◌⊎◌, inl, inr, refl, sym, ◌∙◌, ap, arith,
  Str, str_mem, Elem,
}
use tablex.Graph.{Mark, unvisited, in_progress, finished, Topo, set_mark}

-- A list built by appending: `P n before` held of each name when it was appended.
pub data Built (P : Str → List Str → Type 0) : List Str → Type 0 where
  nil : Built P []
  snoc :
      {all : List Str} (n : Str) (out : List Str)
      → Built P out
      → P n out
      → all ≡ out ++ n ∷ []
      → Built P all

-- The edges inside the set of names, followed any number of times.
pub data Reach (names : List Str) (deps : Str → List Str) (a : Str) : Str → Type 0 where
  here : Reach names deps a a
  step :
      {b c : Str}
      → Reach names deps a b
      → Elem c (deps b)
      → str_mem c names ≡ true
      → Reach names deps a c

pub Mark-cases : (m : Mark) → (m ≡ unvisited) ⊎ (m ≢ unvisited)
Mark-cases unvisited = inl refl
Mark-cases in_progress = inr (λ e. cc)
Mark-cases finished = inr (λ e. cc)

abbrev pub is_open : Mark → ℕ
is_open unvisited = 1
is_open in_progress = 0
is_open finished = 0

unfoldable pub open_names : (Str → Mark) → List Str → ℕ
open_names v [] = 0
open_names v (n ∷ ns) = is_open (v n) + open_names v ns

module _ (names : List Str) (deps : Str → List Str) where
  -- When `n` was appended: it is a name of the set, it was new, and each dependency was there, or
  -- lies on a cycle with `n`.
  abbrev pub Placed : Str → List Str → Type 0
  Placed n out =
      (str_mem n names ≡ true)
      × (¬ Elem n out)
      × ((d : Str)
          → Elem d (deps n)
          → str_mem d names ≡ true
          → d ≢ n
          → Elem d out ⊎ Reach names deps d n)

  pub record Inv (t : Topo) : Type 0 where
    pub emitted : Built Placed t.out
    pub done : (k : Str) → t.visited k ≡ finished → Elem k t.out
    pub only : (k : Str) → Elem k t.out → t.visited k ≡ finished

-- What a call of `visit` does to the marks.
pub record Grows (t u : Topo) : Type 0 where
  pub kept : (k : Str) → t.visited k ≢ unvisited → u.visited k ≡ t.visited k
  pub fresh : (k : Str) → t.visited k ≡ unvisited → u.visited k ≢ in_progress

pub Grows-refl : (t : Topo) → Grows t t
Grows-refl t = record { kept = λ k h. refl; fresh = λ k h e. cc }

pub Grows-trans : (t u v : Topo) → Grows t u → Grows u v → Grows t v
Grows-trans t u v g h = record {
  kept = λ k ne. let same = g.kept k ne in h.kept k (rw same ne) ∙ same;
  fresh = λ k e. elim (Mark-cases (u.visited k)) [
    | inl still ↦ h.fresh k still
    | inr shut ↦ λ p. g.fresh k e (sym (h.kept k shut) ∙ p)
  ];
}

pub Grows-marked :
    (t u : Topo) (k : Str) → Grows t u → t.visited k ≢ unvisited → u.visited k ≢ unvisited
Grows-marked t u k g ne e = ne (sym (g.kept k ne) ∙ e)

is_open-le : (t u : Topo) → Grows t u → (k : Str) → is_open (u.visited k) ≤ is_open (t.visited k)
is_open-le t u g k = elim (Mark-cases (t.visited k)) [
  | inl e ↦ ground arith
  | inr ne ↦ rw (g.kept k ne) (omega arith)
]

pub open_names-le :
    (t u : Topo) (ns : List Str) → Grows t u → open_names u.visited ns ≤ open_names t.visited ns
unfolding open_names
open_names-le t u [] g = omega arith
open_names-le t u (n ∷ ns) g = omega (arith, is_open-le t u g n, open_names-le t u ns g)

pub set_mark-open :
    (v : Str → Mark) (n : Str) (ns : List Str)
    → open_names (set_mark v n in_progress) ns ≤ open_names v ns
unfolding open_names
set_mark-open v n [] = omega arith
set_mark-open v n (k ∷ ns) = ground (arith, set_mark-open v n ns)

-- Marking an unvisited name of the set leaves one fewer.
pub set_mark-lt :
    (v : Str → Mark) (n : Str) (ns : List Str)
    → v n ≡ unvisited
    → str_mem n ns ≡ true
    → open_names (set_mark v n in_progress) ns < open_names v ns
unfolding open_names str_mem
set_mark-lt v n [] e m = cc
set_mark-lt v n (k ∷ ns) e m = ground (arith, set_mark-lt v n ns, set_mark-open v n ns, ap v)
