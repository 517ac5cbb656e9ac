-- ===== src/Ddl/Region.antt =====
-- internal/driver/sqlite/ddlparse.go: the text of a column list at depth 1.
use tablex.Common.{
  [], ℕ, zero, suc, true, false, List, ◌∷◌, ◌++◌, map, some, ◌==◌, ◌≡◌, ◌⊎◌, inl, inr, refl, sym,
  ◌∙◌, ap, arith, Str, length, append_assoc, append-nil,
}
use tablex.Ddl.{next_ddl}
use tablex.Ddl.Columns.{Region, region_turn, column_defs_region}
use tablex.Ddl.Scan.{next_ddl-ReadsOn, then_scan}
use tablex.Ddl.Pieces.{Piece, print_all, AreSpelled}
use tablex.Ddl.Options.{
  steps, or_steps, scan-steps, steps-append, balanced, no_paren, create, elided,
}
use tablex.Ddl.Items.{}

-- The pieces of a column list with each group in parentheses as one.
pub data Top : Type 0 where
  one : Piece → Top
  group : List Piece → Top

abbrev pub flat : List Top → List Piece
flat [] = []
flat (Top.one p ∷ tops) = p ∷ flat tops
flat (Top.group ps ∷ tops) = Piece.plain b'(' ∷ (ps ++ (Piece.plain b')' ∷ flat tops))

abbrev pub AreTops : List Top → Type 0
AreTops [] = Unit {0}
AreTops (Top.one p ∷ tops) = (no_paren (p ∷ []) ≡ true) × AreTops tops
AreTops (Top.group ps ∷ tops) = (balanced 0 ps ≡ true) × AreTops tops

abbrev pub shown : Top → ℕ
shown (Top.one p) = elided p
shown (Top.group ps) = b' '

abbrev region_steps : Region → List Piece → Str → Region ⊎ Str
region_steps = steps region_turn (λ r. r.written)

abbrev deep : ℕ → Str → Region
deep d w = record { depth = d; written = w }

not_one : (k : ℕ) → suc (suc k) == 1 ≡ false
not_one k = ground arith

region-group :
    (w : Str) (k : ℕ) (ps : List Piece) (tail : Str)
    → balanced k ps ≡ true
    → region_steps (deep (suc (suc k)) w) ps tail ≡ inl (deep 2 w)
unfolding region_turn
region-group w k [] tail h = let z : k ≡ 0 = ground arith in rw z refl
region-group w zero (Piece.plain c ∷ ps) tail h =
    ground (arith, region-group w 1 ps tail, region-group w 0 ps tail)
region-group w (suc k) (Piece.plain c ∷ ps) tail h = ground (
  arith,
  region-group w (suc (suc k)) ps tail,
  region-group w (suc k) ps tail,
  region-group w k ps tail,
)
region-group w k (Piece.quoted q x ∷ ps) tail h = rw (not_one k) (region-group w k ps tail h)
region-group w k (Piece.bracket x ∷ ps) tail h = rw (not_one k) (region-group w k ps tail h)
region-group w k (Piece.line x ∷ ps) tail h = rw (not_one k) (region-group w k ps tail h)
region-group w k (Piece.block x ∷ ps) tail h = rw (not_one k) (region-group w k ps tail h)

region-head :
    (ps : List Piece) (tail : Str)
    → no_paren ps ≡ true
    → region_steps (deep 0 []) ps tail ≡ inl (deep 0 [])
unfolding region_turn
region-head [] tail h = refl
region-head (Piece.plain c ∷ ps) tail h = ground (arith, region-head ps tail)
region-head (Piece.quoted q w ∷ ps) tail h = region-head ps tail h
region-head (Piece.bracket w ∷ ps) tail h = region-head ps tail h
region-head (Piece.line w ∷ ps) tail h = region-head ps tail h
region-head (Piece.block w ∷ ps) tail h = region-head ps tail h

abbrev closing : List Piece
closing = Piece.plain b')' ∷ []

-- One top-level piece writes one byte.
region-one :
    (w : Str) (p : Piece) (ps : List Piece) (tail : Str)
    → no_paren (p ∷ []) ≡ true
    → region_steps (deep 1 w) (p ∷ ps) tail ≡ region_steps (deep 1 (w ++ (elided p ∷ []))) ps tail
unfolding region_turn
region-one w (Piece.plain c) ps tail h = ground arith
region-one w (Piece.quoted q x) ps tail h = refl
region-one w (Piece.bracket x) ps tail h = refl
region-one w (Piece.line x) ps tail h = refl
region-one w (Piece.block x) ps tail h = refl

region-nested :
    (w : Str) (ps qs : List Piece) (tail : Str)
    → balanced 0 ps ≡ true
    → region_steps (deep 1 w) (Piece.plain b'(' ∷ (ps ++ (Piece.plain b')' ∷ qs))) tail
      ≡ region_steps (deep 1 (w ++ (b' ' ∷ []))) qs tail
unfolding region_turn
region-nested w ps qs tail h =
    steps-append region_turn (λ r. r.written) (deep 2 (w ++ (b' ' ∷ []))) ps (Piece.plain b')' ∷ qs)
      tail
    ∙ ap
        (or_steps region_turn (λ r. r.written) (λ st. region_steps st (Piece.plain b')' ∷ qs) tail))
        (region-group (w ++ (b' ' ∷ [])) 0 ps (print_all (Piece.plain b')' ∷ qs) tail) h)

region-tops :
    (w : Str) (tops : List Top) (tail : Str)
    → AreTops tops
    → region_steps (deep 1 w) (flat tops ++ closing) tail ≡ inr (w ++ map shown tops)
region-tops w [] tail h = unfold region_turn in ap inr (sym (append-nil w))
region-tops w (Top.one p ∷ tops) tail (h, hs) =
    region-one w p (flat tops ++ closing) tail h
    ∙ region-tops (w ++ (elided p ∷ [])) tops tail hs
    ∙ ap inr (append_assoc w (elided p ∷ []) (map shown tops))
region-tops w (Top.group ps ∷ tops) tail (h, hs) =
    ap (λ qs. region_steps (deep 1 w) (Piece.plain b'(' ∷ qs) tail)
      (append_assoc ps (Piece.plain b')' ∷ flat tops) closing)
    ∙ region-nested w ps (flat tops ++ closing) tail h
    ∙ region-tops (w ++ (b' ' ∷ [])) tops tail hs
    ∙ ap inr (append_assoc w (b' ' ∷ []) (map shown tops))

-- For a CREATE TABLE text written out of pieces whose column list holds these top-level pieces and
-- groups, with no parenthesis in front of it: columnDefsRegion keeps the plain top-level bytes of
-- the list and writes one space for each quoted region, bracket name, comment and parenthesised
-- group.
pub column_defs_region_lem :
    (head : List Piece) (tops : List Top) (tail : Str)
    → AreSpelled (create head (flat tops)) tail
    → no_paren head ≡ true
    → AreTops tops
    → column_defs_region (print_all (create head (flat tops)) tail) ≡ some (map shown tops)
unfolding column_defs_region region_turn
column_defs_region_lem head tops tail s h list =
    let inner = Piece.plain b'(' ∷ (flat tops ++ closing) in
    scan-steps region_turn (λ r. r.written) (deep 0 []) (create head (flat tops)) tail s
    ∙ ap
        (λ o. then_scan next_ddl region_turn (λ r. r.written) next_ddl-ReadsOn (length tail) o tail)
        (steps-append region_turn (λ r. r.written) (deep 0 []) head inner tail
          ∙ ap (or_steps region_turn (λ r. r.written) (λ st. region_steps st inner tail))
              (region-head head (print_all inner tail) h)
          ∙ region-tops [] tops tail list)
