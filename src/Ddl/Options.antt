-- ===== src/Ddl/Options.antt =====
-- internal/driver/sqlite/ddlparse.go: what the scanners make of a CREATE TABLE text that is written
-- out of pieces, and the options behind its column list.
use tablex.Common.{
  [], ℕ, zero, suc, Bool, true, false, ◌||◌, List, ◌∷◌, ◌++◌, map, some, ◌==◌, ◌≡◌, ◌⊎◌, inl, inr,
  refl, sym, ◌∙◌, ap, arith, Str, length, append_assoc, append-nil,
}
use tablex.Text.{Tables}
use tablex.Ddl.{Token, next_ddl, scan}
use tablex.Ddl.Columns.{
  elide_turn, elide_ddl_tail, options_turn, table_options, without_rowid, ddl_is_without_rowid,
}
use tablex.Ddl.Scan.{next_ddl-ReadsOn, then_scan, scan_round}
use tablex.Ddl.Pieces.{Piece, print, print_all, IsSpelled, AreSpelled, token, next_ddl-print}

print_all-append :
    (ps qs : List Piece) (tail : Str) → print_all (ps ++ qs) tail ≡ print_all ps (print_all qs tail)
print_all-append [] qs tail = refl
print_all-append (p ∷ ps) qs tail = ap (print p) (print_all-append ps qs tail)

module _ {S R : Type 0} (turn : S → Token → Str → S ⊎ R) (finish : S → R) where
  -- The rounds of a scan on pieces.
  abbrev pub or_steps : (S → S ⊎ R) → S ⊎ R → S ⊎ R
  or_steps f (inl state) = f state
  or_steps f (inr r) = inr r

  abbrev pub steps : S → List Piece → Str → S ⊎ R
  steps state [] tail = inl state
  steps state (p ∷ ps) tail =
      or_steps (λ st. steps st ps tail) (turn state (token p) (print_all ps tail))

  scan-print :
      (state : S) (p : Piece) (rest : Str)
      → IsSpelled p rest
      → scan next_ddl turn finish (length (print p rest)) state (print p rest)
        ≡ then_scan next_ddl turn finish next_ddl-ReadsOn
            (length rest)
            (turn state (token p) rest)
            rest
  scan-print state p rest h =
      let (c, s, e, r) = next_ddl-print p rest h in
      rw e (
        scan_round next_ddl turn finish next_ddl-ReadsOn (length (c ∷ s)) state c s (token p) rest
          (omega arith) r)

  pub scan-steps :
      (state : S) (ps : List Piece) (tail : Str)
      → AreSpelled ps tail
      → scan next_ddl turn finish (length (print_all ps tail)) state (print_all ps tail)
        ≡ then_scan next_ddl turn finish next_ddl-ReadsOn (length tail) (steps state ps tail) tail
  scan-steps state [] tail h = refl
  scan-steps state (p ∷ ps) tail (h, hs) =
      scan-print state p (print_all ps tail) h
      ∙ go (λ st. scan-steps st ps tail hs) (turn state (token p) (print_all ps tail))
    where
      go :
          ((st : S)
            → scan next_ddl turn finish (length (print_all ps tail)) st (print_all ps tail)
              ≡ then_scan next_ddl turn finish next_ddl-ReadsOn
                  (length tail)
                  (steps st ps tail)
                  tail)
          → (o : S ⊎ R)
          → then_scan next_ddl turn finish next_ddl-ReadsOn
              (length (print_all ps tail))
              o
              (print_all ps tail)
            ≡ then_scan next_ddl turn finish next_ddl-ReadsOn
                (length tail)
                (or_steps (λ st. steps st ps tail) o)
                tail
      go ih (inl st) = ih st
      go ih (inr r) = refl

  pub steps-append :
      (state : S) (ps qs : List Piece) (tail : Str)
      → steps state (ps ++ qs) tail
        ≡ or_steps (λ st. steps st qs tail) (steps state ps (print_all qs tail))
  steps-append state [] qs tail = refl
  steps-append state (p ∷ ps) qs tail =
      ap (λ (x : Str). or_steps (λ st. steps st (ps ++ qs) tail) (turn state (token p) x))
        (print_all-append ps qs tail)
      ∙ go (λ st. steps-append st ps qs tail)
          (turn state (token p) (print_all ps (print_all qs tail)))
    where
      go :
          ((st : S)
            → steps st (ps ++ qs) tail
              ≡ or_steps (λ st. steps st qs tail) (steps st ps (print_all qs tail)))
          → (o : S ⊎ R)
          → or_steps (λ st. steps st (ps ++ qs) tail) o
            ≡ or_steps (λ st. steps st qs tail) (or_steps (λ st. steps st ps (print_all qs tail)) o)
      go ih (inl st) = ih st
      go ih (inr r) = refl

-- elideDDLTail.
abbrev pub elided : Piece → ℕ
elided (Piece.plain c) = c
elided _ = b' '

elide-steps :
    (b : Str) (ps : List Piece) (tail : Str)
    → steps elide_turn (λ w. w) b ps tail ≡ inl (b ++ map elided ps)
unfolding elide_turn
elide-steps b [] tail = ap inl (sym (append-nil b))
elide-steps b (Piece.plain c ∷ ps) tail =
    elide-steps (b ++ (c ∷ [])) ps tail ∙ ap inl (append_assoc b (c ∷ []) (map elided ps))
elide-steps b (Piece.quoted q w ∷ ps) tail =
    elide-steps (b ++ (b' ' ∷ [])) ps tail ∙ ap inl (append_assoc b (b' ' ∷ []) (map elided ps))
elide-steps b (Piece.bracket w ∷ ps) tail =
    elide-steps (b ++ (b' ' ∷ [])) ps tail ∙ ap inl (append_assoc b (b' ' ∷ []) (map elided ps))
elide-steps b (Piece.line w ∷ ps) tail =
    elide-steps (b ++ (b' ' ∷ [])) ps tail ∙ ap inl (append_assoc b (b' ' ∷ []) (map elided ps))
elide-steps b (Piece.block w ∷ ps) tail =
    elide-steps (b ++ (b' ' ∷ [])) ps tail ∙ ap inl (append_assoc b (b' ' ∷ []) (map elided ps))

-- In a text written out of pieces, elideDDLTail keeps every plain byte and writes one space for
-- each quoted region, bracket name and comment.
pub elide_ddl_tail_lem :
    (ps : List Piece) → AreSpelled ps [] → elide_ddl_tail (print_all ps []) ≡ some (map elided ps)
unfolding elide_ddl_tail scan
elide_ddl_tail_lem ps h =
    scan-steps elide_turn (λ w. w) [] ps [] h
    ∙ ap (λ o. then_scan next_ddl elide_turn (λ w. w) next_ddl-ReadsOn 0 o [])
        (elide-steps [] ps [])

-- Parentheses that match, k of them open.
abbrev pub balanced : ℕ → List Piece → Bool
balanced k [] = k == 0
balanced k (Piece.plain c ∷ ps) = elim (c == b'(') [
  | true ↦ balanced (suc k) ps
  | false ↦ elim (c == b')') [
    | true ↦ elim k [ zero ↦ false | suc j ↦ balanced j ps ]
    | false ↦ balanced k ps
  ]
]
balanced k (_ ∷ ps) = balanced k ps

-- No parenthesis outside of regions.
abbrev pub no_paren : List Piece → Bool
no_paren [] = true
no_paren (Piece.plain c ∷ ps) = elim (c == b'(' || c == b')') [ true ↦ false | false ↦ no_paren ps ]
no_paren (_ ∷ ps) = no_paren ps

options-head :
    (ps : List Piece) (tail : Str)
    → no_paren ps ≡ true
    → steps options_turn (λ _. []) (0, false) ps tail ≡ inl (0, false)
unfolding options_turn
options-head [] tail h = refl
options-head (Piece.plain c ∷ ps) tail h = ground (arith, options-head ps tail)
options-head (Piece.quoted q w ∷ ps) tail h = options-head ps tail h
options-head (Piece.bracket w ∷ ps) tail h = options-head ps tail h
options-head (Piece.line w ∷ ps) tail h = options-head ps tail h
options-head (Piece.block w ∷ ps) tail h = options-head ps tail h

options-body :
    (k : ℕ) (ps : List Piece) (tail : Str)
    → balanced k ps ≡ true
    → steps options_turn (λ _. []) (suc k, true) ps tail ≡ inl (1, true)
unfolding options_turn
options-body k [] tail h = ground arith
options-body zero (Piece.plain c ∷ ps) tail h =
    ground (arith, options-body 1 ps tail, options-body 0 ps tail)
options-body (suc k) (Piece.plain c ∷ ps) tail h = ground (
  arith,
  options-body (suc (suc k)) ps tail,
  options-body (suc k) ps tail,
  options-body k ps tail,
)
options-body k (Piece.quoted q w ∷ ps) tail h = options-body k ps tail h
options-body k (Piece.bracket w ∷ ps) tail h = options-body k ps tail h
options-body k (Piece.line w ∷ ps) tail h = options-body k ps tail h
options-body k (Piece.block w ∷ ps) tail h = options-body k ps tail h

-- The pieces of a CREATE TABLE text up to the end of its column list.
abbrev pub create : List Piece → List Piece → List Piece
create head body = head ++ (Piece.plain b'(' ∷ (body ++ (Piece.plain b')' ∷ [])))

options-create :
    (head body : List Piece) (tail : Str)
    → no_paren head ≡ true
    → balanced 0 body ≡ true
    → steps options_turn (λ _. []) (0, false) (create head body) tail ≡ inr tail
unfolding options_turn
options-create head body tail h b =
    steps-append options_turn (λ _. []) (0, false) head
      (Piece.plain b'(' ∷ (body ++ (Piece.plain b')' ∷ []))) tail
    ∙ ap
        (or_steps options_turn (λ _. [])
          (λ st.
            steps options_turn (λ _. []) st (Piece.plain b'(' ∷ (body ++ (Piece.plain b')' ∷ [])))
              tail))
        (options-head head (print_all (Piece.plain b'(' ∷ (body ++ (Piece.plain b')' ∷ []))) tail)
          h)
    ∙ steps-append options_turn (λ _. []) (1, true) body (Piece.plain b')' ∷ []) tail
    ∙ ap
        (or_steps options_turn (λ _. [])
          (λ st. steps options_turn (λ _. []) st (Piece.plain b')' ∷ []) tail))
        (options-body 0 body (b')' ∷ tail) b)

-- For a CREATE TABLE text written out of pieces, with no parenthesis in front of its column list
-- and matching ones in it, tableOptions is the text behind the list, whatever parentheses, quotes
-- and comment marks its quoted regions, bracket names and comments hold.
pub table_options_lem :
    (head body : List Piece) (tail : Str)
    → AreSpelled (create head body) tail
    → no_paren head ≡ true
    → balanced 0 body ≡ true
    → table_options (print_all (create head body) tail) ≡ some tail
unfolding table_options
table_options_lem head body tail s h b =
    scan-steps options_turn (λ _. []) (0, false) (create head body) tail s
    ∙ ap (λ o. then_scan next_ddl options_turn (λ _. []) next_ddl-ReadsOn (length tail) o tail)
        (options-create head body tail h b)

-- ddlIsWithoutRowid reads the plain bytes of the options alone: the words of a quoted region, of a
-- bracket name or of a comment, and those of the column list, have no say in the answer.
pub ddl_is_without_rowid_lem :
    (t : Tables) (head body options : List Piece)
    → AreSpelled (create head body) (print_all options [])
    → AreSpelled options []
    → no_paren head ≡ true
    → balanced 0 body ≡ true
    → ddl_is_without_rowid t (print_all (create head body) (print_all options []))
      ≡ some (without_rowid t (map elided options))
unfolding ddl_is_without_rowid
ddl_is_without_rowid_lem t head body options s o h b =
    rw (table_options_lem head body (print_all options []) s h b, ddl_is_without_rowid)
      (rw (elide_ddl_tail_lem options o, ddl_is_without_rowid) refl)
