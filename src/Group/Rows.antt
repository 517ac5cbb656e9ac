-- ===== src/Group/Rows.antt =====
-- internal/driver/group.go: what grouping a stream of rows gives.
use tablex.Common.{
  [], true, false, List, ◌∷◌, ◌++◌, map, Option, none, some, if◌then◌else◌, ◌≡◌, refl, sym, ◌∙◌, ap,
  inl, inr, arith, Str, str_eq, str_mem, ite, append_assoc, append-nil, Elem, Bool-cases,
}
use tablex.Common.Maps.{lookup, insert, lookup-insert}
use mathlib.Core.Logic.{if_pos}
use tablex.Group.{Grouper, new_grouper, get_or_add, change, elements, slice, add_row, add_rows}

-- The keys in the order in which they are first seen.
abbrev pub see : List Str → Str → List Str
see seen k = if str_mem k seen then seen else seen ++ (k ∷ [])

mem-append :
    (k j : Str) (seen : List Str)
    → str_mem k (seen ++ (j ∷ [])) ≡ ite (str_eq j k) true (str_mem k seen)
unfolding str_mem
mem-append k j [] = refl
mem-append k j (s ∷ seen) = let ih = mem-append k j seen in ground arith

str_mem-Elem : (k : Str) (ks : List Str) → Elem k ks → str_mem k ks ≡ true
unfolding str_mem
str_mem-Elem k [] e = absurd e
str_mem-Elem k (j ∷ ks) (inl e) = rw (if_pos _ e)
str_mem-Elem k (j ∷ ks) (inr e) = let ih = str_mem-Elem k ks e in ground arith

module _ {R : Type 0} where
  abbrev pub first_seen : List Str → List (Str × R) → List Str
  first_seen seen [] = seen
  first_seen seen ((k, _) ∷ rows) = first_seen (see seen k) rows

  -- The rows of one key, in their order.
  unfoldable pub rows_of : Str → List (Str × R) → List R
  rows_of k [] = []
  rows_of k ((j, row) ∷ rows) = ite (str_eq j k) (row ∷ rows_of k rows) (rows_of k rows)

  -- The group of a key, none for a key that was not seen.
  abbrev at_key : List Str → Str → List R → Option (List R)
  at_key seen k rows = if str_mem k seen then some rows else none

  -- The grouper holds the rows `f` of each key seen.
  record Holds (g : Grouper (List R)) (seen : List Str) (f : Str → List R) : Type 0 where
    order : g.order ≡ seen
    found : (k : Str) → lookup k g.by_key ≡ at_key seen k (f k)
    unseen : (k : Str) → str_mem k seen ≡ false → f k ≡ []

  abbrev with_row : (Str → List R) → Str → R → Str → List R
  with_row f j row k = ite (str_eq j k) (f k ++ (row ∷ [])) (f k)

  get_known :
      (g : Grouper (List R)) (k : Str) (v : List R)
      → lookup k g.by_key ≡ some v
      → get_or_add g k [] ≡ g
  unfolding get_or_add
  get_known g k v e = rw (e, get_or_add) refl

  get_new :
      (g : Grouper (List R)) (k : Str)
      → lookup k g.by_key ≡ none
      → get_or_add g k [] ≡ record { order = g.order ++ (k ∷ []); by_key = insert k [] g.by_key }
  unfolding get_or_add
  get_new g k e = rw (e, get_or_add) refl

  change-some :
      (g : Grouper (List R)) (k : Str) (v : List R) (h : List R → List R)
      → lookup k g.by_key ≡ some v
      → change g k h ≡ record { order = g.order; by_key = insert k (h v) g.by_key }
  unfolding change
  change-some g k v h e = rw (e, change) refl

  abbrev push : R → List R → List R
  push row rows = rows ++ (row ∷ [])

  add_known :
      (g : Grouper (List R)) (k : Str) (row : R) (v : List R)
      → lookup k g.by_key ≡ some v
      → add_row g (k, row) ≡ record { order = g.order; by_key = insert k (push row v) g.by_key }
  unfolding add_row
  add_known g k row v e =
      ap (λ (h : Grouper (List R)). change h k (push row)) (get_known g k v e)
      ∙ change-some g k v (push row) e

  add_new :
      (g : Grouper (List R)) (k : Str) (row : R)
      → lookup k g.by_key ≡ none
      → add_row g (k, row) ≡ record {
        order = g.order ++ (k ∷ []);
        by_key = insert k (row ∷ []) (insert k [] g.by_key);
      }
  unfolding add_row
  add_new g k row e =
      ap (λ (h : Grouper (List R)). change h k (push row)) (get_new g k e)
      ∙ change-some (record { order = g.order ++ (k ∷ []); by_key = insert k [] g.by_key }) k []
          (push row)
          (lookup-insert k k [] g.by_key ∙ if_pos (str_eq k k) refl (some []) (lookup k g.by_key))

  -- One row more.
  known-Holds :
      (g : Grouper (List R)) (seen : List Str) (f : Str → List R) (k : Str) (row : R)
      → Holds g seen f
      → str_mem k seen ≡ true
      → Holds
          (record { order = g.order; by_key = insert k (push row (f k)) g.by_key })
          seen
          (with_row f k row)
  known-Holds g seen f k row v m = record {
    order = v.order;
    found = λ i. lookup-insert i k (push row (f k)) g.by_key ∙ at i (v.found i);
    unseen = λ i n. other i n (v.unseen i n);
  }
    where
      at :
          (i : Str)
          → lookup i g.by_key ≡ at_key seen i (f i)
          → ite (str_eq k i) (some (push row (f k))) (lookup i g.by_key)
            ≡ at_key seen i (with_row f k row i)
      at i h =
          elim (str_eq k i)
            as (λ d.
              ite d (some (push row (f k))) (lookup i g.by_key)
              ≡ at_key seen i (ite d (push row (f i)) (f i))) [
                | yes e ↦ rw (← e) (rw m refl)
                | no ne ↦ h
              ]

      other : (i : Str) → str_mem i seen ≡ false → f i ≡ [] → with_row f k row i ≡ []
      other i n h = elim (str_eq k i) as (λ d. ite d (push row (f i)) (f i) ≡ []) [
        | yes e ↦ absurd (let z : str_mem k seen ≡ false = rw (← e) at n in cc)
        | no ne ↦ h
      ]

  new-Holds :
      (g : Grouper (List R)) (seen : List Str) (f : Str → List R) (k : Str) (row : R)
      → Holds g seen f
      → str_mem k seen ≡ false
      → Holds
          (record {
            order = g.order ++ (k ∷ []);
            by_key = insert k (row ∷ []) (insert k [] g.by_key);
          })
          (seen ++ (k ∷ []))
          (with_row f k row)
  new-Holds g seen f k row v m = record {
    order = ap (λ (x : List Str). x ++ (k ∷ [])) v.order;
    found = λ i.
        lookup-insert i k (row ∷ []) (insert k [] g.by_key)
        ∙ ap (λ o. ite (str_eq k i) (some (row ∷ [])) o) (lookup-insert i k [] g.by_key)
        ∙ at i (v.found i) (mem-append i k seen);
    unseen = λ i n. other i (sym (mem-append i k seen) ∙ n) (v.unseen i);
  }
    where
      at :
          (i : Str)
          → lookup i g.by_key ≡ at_key seen i (f i)
          → str_mem i (seen ++ (k ∷ [])) ≡ ite (str_eq k i) true (str_mem i seen)
          → ite (str_eq k i) (some (row ∷ [])) (ite (str_eq k i) (some []) (lookup i g.by_key))
            ≡ at_key (seen ++ (k ∷ [])) i (with_row f k row i)
      at i h n =
          rw n
            (elim (str_eq k i)
              as (λ d. ite d (some (row ∷ [])) (ite d (some []) (lookup i g.by_key)) ≡ (
                if ite d true (str_mem i seen)
                then some (ite d (push row (f i)) (f i))
                else none)) [
                  | yes e ↦ let z : f i ≡ [] = v.unseen i (rw e at m) in rw z refl
                  | no ne ↦ h
                ])

      other :
          (i : Str)
          → ite (str_eq k i) true (str_mem i seen) ≡ false
          → (str_mem i seen ≡ false → f i ≡ [])
          → with_row f k row i ≡ []
      other i n h =
          (elim (str_eq k i)
              as (λ d. ite d true (str_mem i seen) ≡ false → ite d (push row (f i)) (f i) ≡ []) [
                | yes e ↦ λ z. absurd (let y : true ≡ false = z in cc)
                | no ne ↦ λ z. h z
              ])
            n

  add_row-Holds :
      (g : Grouper (List R)) (seen : List Str) (f : Str → List R) (k : Str) (row : R)
      → Holds g seen f
      → Holds (add_row g (k, row)) (see seen k) (with_row f k row)
  add_row-Holds g seen f k row v = elim (Bool-cases (str_mem k seen)) [
    | inl m ↦
        rw (add_known g k row (f k) (v.found k ∙ rw m refl)) (rw m (known-Holds g seen f k row v m))
    | inr m ↦ rw (add_new g k row (v.found k ∙ rw m refl)) (rw m (new-Holds g seen f k row v m))
  ]

  Holds-same :
      (g : Grouper (List R)) (seen : List Str) (f h : Str → List R)
      → ((k : Str) → f k ≡ h k)
      → Holds g seen f
      → Holds g seen h
  Holds-same g seen f h same v = record {
    order = v.order;
    found = λ k. v.found k ∙ ap (at_key seen k) (same k);
    unseen = λ k n. sym (same k) ∙ v.unseen k n;
  }

  more_rows :
      (f : Str → List R) (j : Str) (row : R) (rows : List (Str × R)) (k : Str)
      → with_row f j row k ++ rows_of k rows ≡ f k ++ rows_of k ((j, row) ∷ rows)
  unfolding rows_of
  more_rows f j row rows k =
      elim (str_eq j k)
        as (λ d.
          ite d (push row (f k)) (f k) ++ rows_of k rows
          ≡ f k ++ ite d (row ∷ rows_of k rows) (rows_of k rows)) [
            | yes e ↦ append_assoc (f k) (row ∷ []) (rows_of k rows)
            | no ne ↦ refl
          ]

  add_rows-Holds :
      (g : Grouper (List R)) (seen : List Str) (f : Str → List R) (rows : List (Str × R))
      → Holds g seen f
      → Holds (add_rows g rows) (first_seen seen rows) (λ k. f k ++ rows_of k rows)
  unfolding add_rows rows_of
  add_rows-Holds g seen f [] v =
      Holds-same g seen f (λ k. f k ++ []) (λ k. sym (append-nil (f k))) v
  add_rows-Holds g seen f ((j, row) ∷ rows) v =
      Holds-same _ _ (λ k. with_row f j row k ++ rows_of k rows)
        (λ k. f k ++ rows_of k ((j, row) ∷ rows)) (more_rows f j row rows)
        (add_rows-Holds (add_row g (j, row)) (see seen j) (with_row f j row) rows
          (add_row-Holds g seen f j row v))

  elements-map :
      (m : List (Str × List R)) (f : Str → List R) (ks : List Str)
      → ((k : Str) → Elem k ks → lookup k m ≡ some (f k))
      → elements m ks ≡ map f ks
  unfolding elements
  elements-map m f [] h = refl
  elements-map m f (k ∷ ks) h =
      rw (h k (inl refl), elements) (ap (◌∷◌ (f k)) (elements-map m f ks (λ j e. h j (inr e))))

  empty-Holds : Holds new_grouper [] (λ _. [])
  unfolding new_grouper lookup str_mem
  empty-Holds = record { order = refl; found = λ k. refl; unseen = λ k _. refl }

  -- Grouping a stream of rows by their keys and flattening it gives one element for each key, in
  -- the order in which the keys are first seen, and each holds the rows of its key in their order.
  pub slice-add_rows :
      (rows : List (Str × R))
      → slice (add_rows new_grouper rows) ≡ map (λ k. rows_of k rows) (first_seen [] rows)
  unfolding slice
  slice-add_rows rows =
      let v = add_rows-Holds new_grouper [] (λ _. []) rows empty-Holds in
      let seen = first_seen [] rows in
      ap (elements (add_rows new_grouper rows).by_key) v.order
      ∙ elements-map (add_rows new_grouper rows).by_key (λ k. rows_of k rows) seen
          (λ k e.
            v.found k ∙ ap (λ b. if b then some (rows_of k rows) else none) (str_mem-Elem k seen e))
