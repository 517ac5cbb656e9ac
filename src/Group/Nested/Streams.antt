-- ===== src/Group/Nested/Streams.antt =====
-- internal/driver/group.go: NestedGrouper on a stream of rows, and StringSet.
use tablex.Common.{
  [], true, List, ◌∷◌, ◌++◌, Option, none, some, ◌≡◌, ◌≢◌, refl, sym, ◌∙◌, arith, Elem,
  Elem-append_left, Elem-append_right, Str, str_eq, str_mem, ite, inl, inr, Option-cases,
  if◌then◌else◌, ap,
}
use mathlib.Core.Logic.{if_pos, if_neg}
use mathlib.Core.Path.{subst}
use tablex.Common.Maps.{lookup, lookup-insert}
use tablex.Group.{Grouper, new_grouper, get_or_add, change, slice, add_row, add_rows}
use tablex.Group.Nested.{
  NestedGrouper, new_nested_grouper, nested_get_or_add, nested_change, slices, nested_map,
  string_set, add_nested_row, add_nested_rows, rows_under,
}

lookup-string_set :
    (n : Str) (names : List Str)
    → lookup n (string_set names) ≡ (if str_mem n names then some true else none)
unfolding lookup string_set str_mem
lookup-string_set n [] = refl
lookup-string_set n (x ∷ names) =
    let l = lookup-insert n x true (string_set names) in
    let ih = lookup-string_set n names in ground arith

module _ {R : Type 0} where
  abbrev or_new : Option (Grouper (List R)) → Grouper (List R)
  or_new none = new_grouper
  or_new (some g) = g

  got_at :
      (n : NestedGrouper (List R)) (k o i : Str) (fresh : List R)
      → lookup k (nested_get_or_add n o i fresh).by_key
        ≡ ite
            (str_eq o k)
            (some (get_or_add (or_new (lookup o n.by_key)) i fresh))
            (lookup k n.by_key)
  unfolding nested_get_or_add
  got_at n k o i fresh = elim (Option-cases (lookup o n.by_key)) [
    | inl e ↦
        rw (nested_get_or_add, e) (lookup-insert k o (get_or_add new_grouper i fresh) n.by_key)
    | inr (g, e) ↦ rw (nested_get_or_add, e) (lookup-insert k o (get_or_add g i fresh) n.by_key)
  ]

  changed_at :
      (n : NestedGrouper (List R)) (k o i : Str) (f : List R → List R) (g : Grouper (List R))
      → lookup o n.by_key ≡ some g
      → lookup k (nested_change n o i f).by_key
        ≡ ite (str_eq o k) (some (change g i f)) (lookup k n.by_key)
  unfolding nested_change
  changed_at n k o i f g e = rw (nested_change, e) (lookup-insert k o (change g i f) n.by_key)

  added_at :
      (n : NestedGrouper (List R)) (k o i : Str) (r : R)
      → lookup k (add_nested_row n (o, i, r)).by_key
        ≡ ite (str_eq o k) (some (add_row (or_new (lookup o n.by_key)) (i, r))) (lookup k n.by_key)
  unfolding add_nested_row add_row
  added_at n k o i r =
      let u = nested_get_or_add n o i [] in
      let g = get_or_add (or_new (lookup o n.by_key)) i [] in
      let at_o : lookup o u.by_key ≡ some g = got_at n o o i [] ∙ rw (if_pos _ refl) in
      changed_at u k o i (λ rows. rows ++ (r ∷ [])) g at_o
      ∙ elim (str_eq o k)
          as (λ (d : Dec (o ≡ k)).
            ite d (some (change g i (λ rows. rows ++ (r ∷ [])))) (lookup k u.by_key)
            ≡ ite d (some (change g i (λ rows. rows ++ (r ∷ [])))) (lookup k n.by_key)) [
              | yes e ↦ refl
              | no ne ↦ got_at n k o i [] ∙ rw (if_neg _ ne)
            ]

  -- What the rows of a key make of the grouper that it has.
  abbrev grown : Option (Grouper (List R)) → List (Str × R) → Option (Grouper (List R))
  grown o [] = o
  grown o (x ∷ xs) = some (add_rows (or_new o) (x ∷ xs))

  grown_step :
      (o : Option (Grouper (List R))) (x : Str × R) (xs : List (Str × R))
      → grown (some (add_row (or_new o) x)) xs ≡ grown o (x ∷ xs)
  unfolding add_rows
  grown_step o x [] = refl
  grown_step o x (y ∷ xs) = refl

  grouped_at :
      (n : NestedGrouper (List R)) (k : Str) (rows : List (Str × Str × R))
      → lookup k (add_nested_rows n rows).by_key ≡ grown (lookup k n.by_key) (rows_under k rows)
  unfolding add_nested_rows rows_under
  grouped_at n k [] = refl
  grouped_at n k ((o, i, r) ∷ rows) =
      let ih = grouped_at (add_nested_row n (o, i, r)) k rows in
      let at = added_at n k o i r in
      ih
      ∙ rw at
          (elim (str_eq o k)
            as (λ (d : Dec (o ≡ k)).
              grown (ite d (some (add_row (or_new (lookup o n.by_key)) (i, r))) (lookup k n.by_key))
                (rows_under k rows)
              ≡ grown (lookup k n.by_key)
                  (ite d ((i, r) ∷ rows_under k rows) (rows_under k rows))) [
                    | yes e ↦
                        grown_step (lookup o n.by_key) (i, r) (rows_under k rows)
                        ∙ ap (λ (z : Str). grown (lookup z n.by_key) ((i, r) ∷ rows_under k rows)) e
                    | no ne ↦ refl
                  ])

  -- Every key of the map is in the order.
  abbrev IsOrdered : NestedGrouper (List R) → Type 0
  IsOrdered n = (k : Str) (g : Grouper (List R)) → lookup k n.by_key ≡ some g → Elem k n.order

  change_order :
      (n : NestedGrouper (List R)) (o i : Str) (f : List R → List R)
      → (nested_change n o i f).order ≡ n.order
  unfolding nested_change
  change_order n o i f = elim (Option-cases (lookup o n.by_key)) [
    | inl e ↦ rw (nested_change, e) refl
    | inr (g, e) ↦ rw (nested_change, e) refl
  ]

  got_order :
      (n : NestedGrouper (List R)) (o i : Str) (fresh : List R)
      → IsOrdered n
      → Elem o (nested_get_or_add n o i fresh).order
        × ((k : Str) → Elem k n.order → Elem k (nested_get_or_add n o i fresh).order)
  unfolding nested_get_or_add
  got_order n o i fresh v = elim (Option-cases (lookup o n.by_key)) [
    | inl e ↦
        rw (nested_get_or_add, e)
          (Elem-append_right o n.order _ (inl refl), λ k h. Elem-append_left k n.order _ h)
    | inr (g, e) ↦ rw (nested_get_or_add, e) (v o g e, λ k h. h)
  ]

  add_nested_row-IsOrdered :
      (n : NestedGrouper (List R)) (row : Str × Str × R)
      → IsOrdered n
      → IsOrdered (add_nested_row n row)
  unfolding add_nested_row
  add_nested_row-IsOrdered n (o, i, r) v k g h =
      let (here, kept) = got_order n o i [] v in
      let at = added_at n k o i r in
      rw (change_order (nested_get_or_add n o i []) o i (λ rows. rows ++ (r ∷ [])))
        (elim (str_eq o k) [
          | yes e ↦ subst (λ (z : Str). Elem z (nested_get_or_add n o i []).order) e here
          | no ne ↦ kept k (v k g (sym (at ∙ rw (if_neg _ ne)) ∙ h))
        ])

  add_nested_rows-IsOrdered :
      (n : NestedGrouper (List R)) (rows : List (Str × Str × R))
      → IsOrdered n
      → IsOrdered (add_nested_rows n rows)
  unfolding add_nested_rows
  add_nested_rows-IsOrdered n [] v = v
  add_nested_rows-IsOrdered n (row ∷ rows) v =
      add_nested_rows-IsOrdered (add_nested_row n row) rows (add_nested_row-IsOrdered n row v)

  abbrev sliced : Option (Grouper (List R)) → Option (List (List R))
  sliced none = none
  sliced (some g) = some (slice g)

  slices-none :
      (m : List (Str × Grouper (List R))) (k : Str) (ks : List Str)
      → lookup k m ≡ none
      → lookup k (slices m ks) ≡ none
  unfolding slices
  slices-none m k [] h = unfold lookup in refl
  slices-none m k (j ∷ ks) h = elim (Option-cases (lookup j m)) [
    | inl e ↦ rw (slices, e) (slices-none m k ks h)
    | inr (g, e) ↦
        let ih = slices-none m k ks h in
        let ne : j ≢ k = λ same. let x : lookup k m ≡ some g = rw same at e in cc in
        rw (slices, e) (lookup-insert k j (slice g) (slices m ks) ∙ rw (if_neg _ ne) ih)
  ]

  slices-some :
      (m : List (Str × Grouper (List R))) (k : Str) (ks : List Str) (g : Grouper (List R))
      → lookup k m ≡ some g
      → Elem k ks
      → lookup k (slices m ks) ≡ some (slice g)
  unfolding slices
  slices-some m k [] g h e = absurd e
  slices-some m k (j ∷ ks) g h e = elim (str_eq j k) [
    | yes same ↦
        let x : lookup j m ≡ some g = rw same h in
        rw (slices, x) (lookup-insert k j (slice g) (slices m ks) ∙ rw (if_pos _ same))
    | no ne ↦
        let later : Elem k ks = elim e [ inl same ↦ absurd (ne same) | inr l ↦ l ] in
        let ih = slices-some m k ks g h later in
        elim (Option-cases (lookup j m)) [
          | inl f ↦ rw (slices, f) ih
          | inr (u, f) ↦
              rw (slices, f) (lookup-insert k j (slice u) (slices m ks) ∙ rw (if_neg _ ne) ih)
        ]
  ]

  nested_map-at :
      (n : NestedGrouper (List R)) (k : Str)
      → IsOrdered n
      → lookup k (nested_map n) ≡ sliced (lookup k n.by_key)
  unfolding nested_map
  nested_map-at n k v = elim (Option-cases (lookup k n.by_key)) [
    | inl e ↦ rw e (slices-none n.by_key k n.order e)
    | inr (g, e) ↦ rw e (slices-some n.by_key k n.order g e (v k g e))
  ]

  empty-IsOrdered : IsOrdered new_nested_grouper
  unfolding new_nested_grouper lookup
  empty-IsOrdered k g h = absurd (let z : none ≡ some g = h in cc)

  -- The groups of one key on its own.
  abbrev pub groups_alone : List (Str × R) → Option (List (List R))
  groups_alone [] = none
  groups_alone (x ∷ xs) = some (slice (add_rows new_grouper (x ∷ xs)))

  alone : (rows : List (Str × R)) → sliced (grown none rows) ≡ groups_alone rows
  alone [] = refl
  alone (x ∷ xs) = refl

  -- A stream of rows, grouped by two keys and flattened, has under each outer key the groups of
  -- that key's rows as a Grouper makes them of those rows alone, and no entry where there are none.
  pub nested_map-add_nested_rows :
      (rows : List (Str × Str × R)) (k : Str)
      → lookup k (nested_map (add_nested_rows new_nested_grouper rows))
        ≡ groups_alone (rows_under k rows)
  unfolding new_nested_grouper lookup
  nested_map-add_nested_rows rows k =
      nested_map-at (add_nested_rows new_nested_grouper rows) k
        (add_nested_rows-IsOrdered new_nested_grouper rows empty-IsOrdered)
      ∙ ap sliced (grouped_at new_nested_grouper k rows)
      ∙ alone (rows_under k rows)
