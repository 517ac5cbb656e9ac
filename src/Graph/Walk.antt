-- ===== src/Graph/Walk.antt =====
-- internal/driver/dump.go: what a walk of TopoOrder keeps and reaches.
use tablex.Common.{
  [], ℕ, zero, suc, ◌≤◌, true, List, ◌∷◌, ◌++◌, some, ite, ◌≡◌, ◌≢◌, ◌⊎◌, inl, inr, refl, sym, ◌∙◌,
  ap, arith, Bool-cases, Str, str_eq, str_mem, Elem, Elem-concat, Elem-append_left,
  Elem-append_right,
}
use mathlib.Core.Logic.{if_pos, if_neg}
use tablex.Graph.{
  Mark, unvisited, in_progress, finished, Topo, set_mark, visit_dep, visit_deps, finish, visit,
  visit_all, blank,
}
use tablex.Graph.Marks.{
  nil, snoc, Reach, here, step, Mark-cases, open_names, Placed, Inv, Grows, Grows-refl, Grows-trans,
  Grows-marked, open_names-le, set_mark-lt,
}

module _ (names : List Str) (deps : Str → List Str) where
  -- The names in progress are the callers: each reaches `n`.
  abbrev Callers : Topo → Str → Type 0
  Callers t n = (k : Str) → t.visited k ≡ in_progress → Reach names deps k n

  record Visited (t : Topo) (n : Str) (u : Topo) : Type 0 where
    inv : Inv names deps u
    grows : Grows t u
    marked : u.visited n ≢ unvisited

  abbrev VisitEnds : ℕ → Type 0
  VisitEnds fuel =
      (n : Str) (t : Topo)
      → Inv names deps t
      → Callers t n
      → open_names t.visited names ≤ fuel
      → str_mem n names ≡ true
      → (u : Topo) × (visit names deps fuel n t ≡ some u) × Visited t n u

  record AllVisited (t : Topo) (n : Str) (ds : List Str) (u : Topo) : Type 0 where
    inv : Inv names deps u
    grows : Grows t u
    marked : (d : Str) → Elem d ds → str_mem d names ≡ true → d ≢ n → u.visited d ≢ unvisited

  Callers-Grows : (t u : Topo) (n : Str) → Grows t u → Callers t n → Callers u n
  Callers-Grows t u n g c k p = elim (Mark-cases (t.visited k)) [
    | inl e ↦ absurd (g.fresh k e p)
    | inr ne ↦ c k (sym (g.kept k ne) ∙ p)
  ]

  record DepVisited (t : Topo) (n d : Str) (u : Topo) : Type 0 where
    inv : Inv names deps u
    grows : Grows t u
    marked : str_mem d names ≡ true → d ≢ n → u.visited d ≢ unvisited

  pub finished-cases : (m : Mark) → (m ≡ finished) ⊎ ((m ≡ in_progress) ⊎ (m ≡ unvisited))
  finished-cases m = ground arith

  visit_dep_ends :
      (fuel : ℕ)
      → VisitEnds fuel
      → (n d : Str) (t : Topo) → Elem d (deps n)
      → Inv names deps t
      → Callers t n
      → open_names t.visited names ≤ fuel
      → (u : Topo) × (visit_dep names (visit names deps fuel) n d t ≡ some u) × DepVisited t n d u
  unfolding visit_dep
  visit_dep_ends fuel ends n d t e i c h = elim (Bool-cases (str_mem d names)) [
    | inl m ↦ elim (str_eq d n) [
      | yes same ↦ (
        t,
        rw (m, if_pos _ same) refl,
        record { inv = i; grows = Grows-refl t; marked = λ _ ne. absurd (ne same) },
      )
      | no other ↦
          let (u, eu, du) = ends d t i (λ k p. step (c k p) e m) h m in
          (
            u,
            rw (m, if_neg _ other) eu,
            record { inv = du.inv; grows = du.grows; marked = λ _ _. du.marked },
          )
    ]
    | inr m ↦ (t, rw m refl, record { inv = i; grows = Grows-refl t; marked = λ m' _. cc })
  ]

  visit_deps_ends :
      (fuel : ℕ)
      → VisitEnds fuel
      → (n : Str) (ds : List Str) (t : Topo) → ((d : Str) → Elem d ds → Elem d (deps n))
      → Inv names deps t
      → Callers t n
      → open_names t.visited names ≤ fuel
      → (u : Topo) × (visit_deps names (visit names deps fuel) n ds t ≡ some u)
        × AllVisited t n ds u
  unfolding visit_deps
  visit_deps_ends fuel ends n [] t sub i c h =
      (t, refl, record { inv = i; grows = Grows-refl t; marked = λ d e. absurd e })
  visit_deps_ends fuel ends n (d ∷ ds) t sub i c h =
      let (v, ev, dv) = visit_dep_ends fuel ends n d t (sub d (inl refl)) i c h in
      let (u, eu, du) =
        visit_deps_ends fuel ends n ds v (λ k e. sub k (inr e)) dv.inv
          (Callers-Grows t v n dv.grows c) (omega (arith, open_names-le t v names dv.grows)) in
      (
        u,
        rw ev eu,
        record {
          inv = du.inv;
          grows = Grows-trans t v u dv.grows du.grows;
          marked = λ k. elim [
            | inl e ↦ λ m ne.
                Grows-marked v u k du.grows (rw e at (dv.marked (rw e m) (λ x. ne (sym e ∙ x))))
            | inr e ↦ du.marked k e
          ];
        },
      )

  Placed-finish :
      (n : Str) (t u : Topo)
      → str_mem n names ≡ true
      → t.visited n ≡ in_progress
      → Callers t n
      → AllVisited t n (deps n) u
      → Placed names deps n u.out
  Placed-finish n t u m' now c a = (
    m',
    λ e. let stays = a.grows.kept n (λ x. cc) in let f = a.inv.only n e in cc,
    λ d e m ne. elim (finished-cases (u.visited d)) [
      | inl f ↦ inl (a.inv.done d f)
      | inr (inl p) ↦ inr (Callers-Grows t u n a.grows c d p)
      | inr (inr z) ↦ absurd (a.marked d e m ne z)
    ],
  )

  Inv-finish :
      (n : Str) (u : Topo)
      → Inv names deps u
      → Placed names deps n u.out
      → Inv names deps (finish n u)
  Inv-finish n u i p = record {
    emitted = snoc n u.out i.emitted p refl;
    done = λ k.
        elim (str_eq n k)
          as (λ x. ite x finished (u.visited k) ≡ finished → Elem k (u.out ++ n ∷ [])) [
            | yes e ↦ λ _. Elem-append_right k u.out (n ∷ []) (inl e)
            | no _ ↦ λ f. Elem-append_left k u.out (n ∷ []) (i.done k f)
          ];
    only = λ k e. elim (str_eq n k) as (λ x. ite x finished (u.visited k) ≡ finished) [
      | yes _ ↦ refl
      | no ne ↦ elim (Elem-concat k n u.out e) [ inl l ↦ i.only k l | inr x ↦ absurd (ne x) ]
    ];
  }

  Inv-enter :
      (n : Str) (t : Topo)
      → t.visited n ≡ unvisited
      → Inv names deps t
      → Inv names deps (record t { visited = set_mark t.visited n in_progress })
  Inv-enter n t e i = record {
    emitted = i.emitted;
    done = λ k.
        elim (str_eq n k) as (λ x. ite x in_progress (t.visited k) ≡ finished → Elem k t.out) [
          | yes _ ↦ λ f. cc
          | no _ ↦ i.done k
        ];
    only = λ k m. elim (str_eq n k) as (λ x. ite x in_progress (t.visited k) ≡ finished) [
      | yes x ↦ absurd (let f = i.only k m in let e' : t.visited k ≡ unvisited = rw (← x) e in cc)
      | no _ ↦ i.only k m
    ];
  }

  Grows-around :
      (n : Str) (t u : Topo)
      → t.visited n ≡ unvisited
      → Grows (record t { visited = set_mark t.visited n in_progress }) u
      → Grows t (finish n u)
  Grows-around n t u e g = record {
    kept = λ k ne. let kept = g.kept k in ground (arith, ap t.visited, e);
    fresh = λ k z. let fresh = g.fresh k in ground arith;
  }

  Callers-enter :
      (n : Str) (t : Topo)
      → Callers t n
      → Callers (record t { visited = set_mark t.visited n in_progress }) n
  Callers-enter n t c k =
      elim (str_eq n k)
        as (λ x. ite x in_progress (t.visited k) ≡ in_progress → Reach names deps k n) [
          | yes x ↦ λ _. rw x here
          | no _ ↦ c k
        ]

  pub Grows-quiet :
      (t u : Topo)
      → Grows t u
      → ((k : Str) → t.visited k ≢ in_progress)
      → (k : Str) → u.visited k ≢ in_progress
  Grows-quiet t u g quiet k p = elim (Mark-cases (t.visited k)) [
    | inl e ↦ g.fresh k e p
    | inr ne ↦ quiet k (sym (g.kept k ne) ∙ p)
  ]

  -- Every call of `visit` at a name of the set ends, with the invariant and the name marked.
  visit_ends : (fuel : ℕ) → VisitEnds fuel
  unfolding visit
  visit_ends zero n t i c h m = elim (Mark-cases (t.visited n)) [
    | inl e ↦ absurd (omega (arith, set_mark-lt t.visited n names e m))
    | inr ne ↦ (t, ground arith, record { inv = i; grows = Grows-refl t; marked = ne })
  ]
  visit_ends (suc fuel) n t i c h m = elim (Mark-cases (t.visited n)) [
    | inr ne ↦ (t, ground arith, record { inv = i; grows = Grows-refl t; marked = ne })
    | inl e ↦
        let t' : Topo = record t { visited = set_mark t.visited n in_progress } in
        let c' : Callers t' n = Callers-enter n t c in
        let (u, eu, a) =
          visit_deps_ends fuel (visit_ends fuel) n (deps n) t' (λ d x. x) (Inv-enter n t e i) c'
            (omega (arith, set_mark-lt t.visited n names e m)) in
        (
          finish n u,
          rw (e, visit) (rw eu refl),
          record {
            inv = Inv-finish n u a.inv (Placed-finish n t' u m (rw (if_pos _ refl) refl) c' a);
            grows = Grows-around n t u e a.grows;
            marked = λ z. ground arith;
          },
        )
  ]

  pub record Walked (t : Topo) (ns : List Str) (u : Topo) : Type 0 where
    pub inv : Inv names deps u
    pub grows : Grows t u
    pub marked : (k : Str) → Elem k ns → u.visited k ≢ unvisited

  pub visit_all_ends :
      (fuel : ℕ) (ns : List Str) (t : Topo)
      → ((k : Str) → Elem k ns → str_mem k names ≡ true)
      → Inv names deps t
      → ((k : Str) → t.visited k ≢ in_progress)
      → open_names t.visited names ≤ fuel
      → (u : Topo) × (visit_all names deps fuel ns t ≡ some u) × Walked t ns u
  unfolding visit_all
  visit_all_ends fuel [] t sub i quiet h =
      (t, refl, record { inv = i; grows = Grows-refl t; marked = λ d e. absurd e })
  visit_all_ends fuel (n ∷ ns) t sub i quiet h =
      let (v, ev, dv) = visit_ends fuel n t i (λ k p. absurd (quiet k p)) h (sub n (inl refl)) in
      let (u, eu, du) =
        visit_all_ends fuel ns v (λ k e. sub k (inr e)) dv.inv (Grows-quiet t v dv.grows quiet)
          (omega (arith, open_names-le t v names dv.grows)) in
      (
        u,
        rw ev eu,
        record {
          inv = du.inv;
          grows = Grows-trans t v u dv.grows du.grows;
          marked = λ k. elim [
            | inl e ↦ Grows-marked v u k du.grows (rw e at dv.marked)
            | inr e ↦ du.marked k e
          ];
        },
      )

  pub Inv-blank : Inv names deps blank
  Inv-blank = record { emitted = nil; done = λ k e. cc; only = λ k e. absurd e }
