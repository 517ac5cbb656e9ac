-- ===== src/Ddl/Items.antt =====
-- internal/driver/sqlite/ddlparse.go: the items of a column list.
use tablex.Common.{
  [], ℕ, zero, suc, Bool, true, false, ◌&&◌, List, ◌∷◌, ◌++◌, some, ◌==◌, ◌≡◌, ◌⊎◌, inl, inr, refl,
  sym, ◌∙◌, ap, arith, Str, length, append_assoc, append-nil,
}
use tablex.Text.{Tables, trim_space}
use tablex.Ddl.{next_ddl}
use tablex.Ddl.Columns.{Split, split_turn, split_byte, flush, push_item, split_column_defs}
use tablex.Ddl.Scan.{next_ddl-ReadsOn, then_scan}
use tablex.Ddl.Pieces.{Piece, print_all, AreSpelled, quoted_text, bracket_text}
use tablex.Ddl.Options.{steps, or_steps, scan-steps, steps-append, no_paren, create}

-- A piece of the text of an item: a comment is one space, all else is kept.
abbrev pub kept : Piece → Str
kept (Piece.plain c) = c ∷ []
kept (Piece.quoted q w) = quoted_text q w
kept (Piece.bracket w) = bracket_text w
kept _ = b' ' ∷ []

abbrev pub kept_all : List Piece → Str
kept_all [] = []
kept_all (p ∷ ps) = kept p ++ kept_all ps

-- Matching parentheses, k of them open, and no comma outside of them and of regions.
abbrev pub is_item : ℕ → List Piece → Bool
is_item k [] = k == 0
is_item k (Piece.plain c ∷ ps) = elim (c == b'(') [
  | true ↦ is_item (suc k) ps
  | false ↦ elim (c == b')') [
    | true ↦ elim k [ zero ↦ false | suc j ↦ is_item j ps ]
    | false ↦ elim (c == b',' && k == 0) [ true ↦ false | false ↦ is_item k ps ]
  ]
]
is_item k (_ ∷ ps) = is_item k ps

-- The items with commas between.
abbrev pub joined : List Piece → List (List Piece) → List Piece
joined item [] = item
joined item (following ∷ items) = item ++ (Piece.plain b',' ∷ joined following items)

abbrev pub AreItems : List (List Piece) → Type 0
AreItems [] = Unit {0}
AreItems (i ∷ is) = (is_item 0 i ≡ true) × AreItems is

abbrev at : List Str → Str → ℕ → Split
at items cur depth = record { items = items; cur = cur; depth = depth; started = true }

module _ (t : Tables) where
  -- The texts of the items, trimmed, the empty ones left out.
  abbrev pub listed : List (List Piece) → List Str
  listed [] = []
  listed (i ∷ is) = push_item [] (trim_space t (kept_all i)) ++ listed is

  fin : Split → List Str
  fin s = (flush t s).items

  abbrev split_steps : Split → List Piece → Str → Split ⊎ List Str
  split_steps = steps (split_turn t) fin

  kept-step :
      (items : List Str) (cur w more : Str)
      → at items ((cur ++ w) ++ more) 1 ≡ at items (cur ++ (w ++ more)) 1
  kept-step items cur w more = ap (λ (x : Str). at items x 1) (append_assoc cur w more)

  split-item :
      (items : List Str) (cur : Str) (k : ℕ) (ps : List Piece) (tail : Str)
      → is_item k ps ≡ true
      → split_steps (at items cur (suc k)) ps tail ≡ inl (at items (cur ++ kept_all ps) 1)
  unfolding split_turn split_byte
  split-item items cur k [] tail h = let z : k ≡ 0 = ground arith in rw (z, append-nil cur) refl
  split-item items cur zero (Piece.plain c ∷ ps) tail h =
      let ih : (j : ℕ)
          → is_item j ps ≡ true
          → split_steps (at items (cur ++ (c ∷ [])) (suc j)) ps tail
            ≡ inl (at items (cur ++ (c ∷ kept_all ps)) 1) =
        λ j g.
          split-item items (cur ++ (c ∷ [])) j ps tail g
          ∙ ap inl (kept-step items cur (c ∷ []) (kept_all ps)) in
      ground (arith, ih 1, ih 0)
  split-item items cur (suc k) (Piece.plain c ∷ ps) tail h =
      let ih : (j : ℕ)
          → is_item j ps ≡ true
          → split_steps (at items (cur ++ (c ∷ [])) (suc j)) ps tail
            ≡ inl (at items (cur ++ (c ∷ kept_all ps)) 1) =
        λ j g.
          split-item items (cur ++ (c ∷ [])) j ps tail g
          ∙ ap inl (kept-step items cur (c ∷ []) (kept_all ps)) in
      ground (arith, ih (suc (suc k)), ih (suc k), ih k)
  split-item items cur k (Piece.quoted q w ∷ ps) tail h =
      split-item items (cur ++ quoted_text q w) k ps tail h
      ∙ ap inl (kept-step items cur (quoted_text q w) (kept_all ps))
  split-item items cur k (Piece.bracket w ∷ ps) tail h =
      split-item items (cur ++ bracket_text w) k ps tail h
      ∙ ap inl (kept-step items cur (bracket_text w) (kept_all ps))
  split-item items cur k (Piece.line w ∷ ps) tail h =
      split-item items (cur ++ (b' ' ∷ [])) k ps tail h
      ∙ ap inl (kept-step items cur (b' ' ∷ []) (kept_all ps))
  split-item items cur k (Piece.block w ∷ ps) tail h =
      split-item items (cur ++ (b' ' ∷ [])) k ps tail h
      ∙ ap inl (kept-step items cur (b' ' ∷ []) (kept_all ps))

  split-head :
      (ps : List Piece) (tail : Str)
      → no_paren ps ≡ true
      → split_steps (record { items = []; cur = []; depth = 0; started = false }) ps tail
        ≡ inl (record { items = []; cur = []; depth = 0; started = false })
  unfolding split_turn split_byte
  split-head [] tail h = refl
  split-head (Piece.plain c ∷ ps) tail h = ground (arith, split-head ps tail)
  split-head (Piece.quoted q w ∷ ps) tail h = split-head ps tail h
  split-head (Piece.bracket w ∷ ps) tail h = split-head ps tail h
  split-head (Piece.line w ∷ ps) tail h = split-head ps tail h
  split-head (Piece.block w ∷ ps) tail h = split-head ps tail h

  push_item-append : (items : List Str) (w : Str) → push_item items w ≡ items ++ push_item [] w
  push_item-append items [] = sym (append-nil items)
  push_item-append items (c ∷ w) = refl

  item-then :
      (items : List Str) (i qs : List Piece) (tail : Str)
      → is_item 0 i ≡ true
      → split_steps (at items [] 1) (i ++ qs) tail ≡ split_steps (at items (kept_all i) 1) qs tail
  item-then items i qs tail h =
      steps-append (split_turn t) fin (at items [] 1) i qs tail
      ∙ ap (or_steps (split_turn t) fin (λ st. split_steps st qs tail))
          (split-item items [] 0 i (print_all qs tail) h)

  -- The items behind the opening parenthesis, up to the closing one.
  split-joined :
      (items : List Str) (i : List Piece) (is : List (List Piece)) (tail : Str)
      → AreItems (i ∷ is)
      → split_steps (at items [] 1) (joined i is ++ (Piece.plain b')' ∷ [])) tail
        ≡ inr (items ++ listed (i ∷ is))
  unfolding split_turn split_byte flush
  split-joined items i [] tail (h, _) =
      item-then items i (Piece.plain b')' ∷ []) tail h
      ∙ ap inr (
          push_item-append items (trim_space t (kept_all i))
          ∙ ap (λ (x : List Str). items ++ x)
              (sym (append-nil (push_item [] (trim_space t (kept_all i))))))
  split-joined items i (f ∷ is) tail (h, hs) =
      let item = push_item [] (trim_space t (kept_all i)) in
      ap (λ ps. split_steps (at items [] 1) ps tail)
        (append_assoc i (Piece.plain b',' ∷ joined f is) (Piece.plain b')' ∷ []))
      ∙ item-then items i (Piece.plain b',' ∷ (joined f is ++ (Piece.plain b')' ∷ []))) tail h
      ∙ split-joined (push_item items (trim_space t (kept_all i))) f is tail hs
      ∙ ap inr (
          ap (λ (x : List Str). x ++ listed (f ∷ is))
            (push_item-append items (trim_space t (kept_all i)))
          ∙ append_assoc items item (listed (f ∷ is)))

  -- For a CREATE TABLE text written out of pieces whose column list holds the items i and is, with
  -- commas between, and with no parenthesis in front of the list: splitColumnDefs gives the text of
  -- each item in order, trimmed, empty ones left out, every comment in an item one space, and no
  -- item split at a comma inside parentheses, quotes, brackets or comments.
  pub split_column_defs_lem :
      (head i : List Piece) (is : List (List Piece)) (tail : Str)
      → AreSpelled (create head (joined i is)) tail
      → no_paren head ≡ true
      → AreItems (i ∷ is)
      → split_column_defs t (print_all (create head (joined i is)) tail) ≡ some (listed (i ∷ is))
  unfolding split_column_defs split_turn split_byte flush fin
  split_column_defs_lem head i is tail s h items =
      let start : Split = record { items = []; cur = []; depth = 0; started = false } in
      let list = Piece.plain b'(' ∷ (joined i is ++ (Piece.plain b')' ∷ [])) in
      scan-steps (split_turn t) fin start (create head (joined i is)) tail s
      ∙ ap (λ o. then_scan next_ddl (split_turn t) fin next_ddl-ReadsOn (length tail) o tail)
          (steps-append (split_turn t) fin start head list tail
            ∙ ap (or_steps (split_turn t) fin (λ st. split_steps st list tail))
                (split-head head (print_all list tail) h)
            ∙ split-joined [] i is tail items)
