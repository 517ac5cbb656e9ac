-- ===== src/Ddl/Pieces.antt =====
-- internal/driver/sqlite/ddlparse.go: the text of a CREATE TABLE written out of its pieces, and
-- what the scanners' switch makes of each.
use tablex.Common.{
  [], ℕ, ◌-◌, true, false, ◌&&◌, List, ◌∷◌, ◌++◌, none, some, ◌==◌, ◌≡◌, ◌≢◌, inl, inr, refl, sym,
  ◌∙◌, ap, arith, Str, length, Bool-cases, append_assoc, length-append, take, take-length-append,
}
use tablex.Text.{double, upto}
use tablex.SeqRefs.Quoting.{NotAhead}
use tablex.Ddl.{
  Token, line_end, block_end, skip_ddl_comment, skip_quoted, skip_bracket, is_quote, next, next_ddl,
}

-- A byte, a quoted region with its quote and its content, a bracket name, and the two comments.
pub data Piece : Type 0 where
  plain : ℕ → Piece
  quoted : ℕ → Str → Piece
  bracket : Str → Piece
  line : Str → Piece
  block : Str → Piece

abbrev pub quoted_text : ℕ → Str → Str
quoted_text q w = q ∷ (double q w ++ (q ∷ []))

abbrev pub bracket_text : Str → Str
bracket_text w = b'[' ∷ (w ++ (b']' ∷ []))

-- A piece in front of a text.
abbrev pub print : Piece → Str → Str
print (Piece.plain c) rest = c ∷ rest
print (Piece.quoted q w) rest = q ∷ (double q w ++ (q ∷ rest))
print (Piece.bracket w) rest = b'[' ∷ (w ++ (b']' ∷ rest))
print (Piece.line w) rest = b'-' ∷ b'-' ∷ (w ++ rest)
print (Piece.block w) rest = b'/' ∷ b'*' ∷ (w ++ (b'*' ∷ b'/' ∷ rest))

abbrev pub print_all : List Piece → Str → Str
print_all [] rest = rest
print_all (p ∷ ps) rest = print p (print_all ps rest)

abbrev pub Free : ℕ → Str → Type 0
Free b [] = Unit {0}
Free b (c ∷ s) = (c == b ≡ false) × Free b s

-- No block comment ends inside the text.
abbrev pub NoEnd : Str → Type 0
NoEnd [] = Unit {0}
NoEnd (c ∷ []) = Unit {0}
NoEnd (c ∷ d ∷ s) = (c == b'*' && d == b'/' ≡ false) × NoEnd (d ∷ s)

abbrev pub LineEnds : Str → Type 0
LineEnds [] = Unit {0}
LineEnds (c ∷ s) = c ≡ 10

-- A piece that reads as one in front of the text.
abbrev pub IsSpelled : Piece → Str → Type 0
IsSpelled (Piece.plain c) rest =
    (is_quote c ≡ false) × (c == b'[' ≡ false) × (skip_ddl_comment c rest ≡ none)
IsSpelled (Piece.quoted q w) rest = (is_quote q ≡ true) × NotAhead q rest
IsSpelled (Piece.bracket w) rest = Free b']' w
IsSpelled (Piece.line w) rest = Free 10 w × LineEnds rest
IsSpelled (Piece.block w) rest = NoEnd w

abbrev pub AreSpelled : List Piece → Str → Type 0
AreSpelled [] rest = Unit {0}
AreSpelled (p ∷ ps) rest = IsSpelled p (print_all ps rest) × AreSpelled ps rest

abbrev pub token : Piece → Token
token (Piece.plain c) = Token.byte c
token (Piece.quoted q w) = Token.quoted q (quoted_text q w)
token (Piece.bracket w) = Token.bracket (bracket_text w)
token (Piece.line w) = Token.comment
token (Piece.block w) = Token.comment

-- What a region leaves to read.
line_end-Free : (w rest : Str) → Free 10 w → LineEnds rest → line_end (w ++ rest) ≡ rest
unfolding line_end
line_end-Free [] [] f e = refl
line_end-Free [] (c ∷ s) f e = ground arith
line_end-Free (c ∷ w) rest (n, f) e = rw (n, line_end) (line_end-Free w rest f e)

block_end-NoEnd : (w rest : Str) → NoEnd w → block_end (w ++ (b'*' ∷ b'/' ∷ rest)) ≡ rest
unfolding block_end
block_end-NoEnd [] rest h = refl
block_end-NoEnd (c ∷ []) rest h = ground arith
block_end-NoEnd (c ∷ d ∷ w) rest (n, h) = rw (n, block_end) (block_end-NoEnd (d ∷ w) rest h)

skip_bracket-Free : (w rest : Str) → Free b']' w → skip_bracket (w ++ (b']' ∷ rest)) ≡ rest
unfolding skip_bracket
skip_bracket-Free [] rest f = refl
skip_bracket-Free (c ∷ w) rest (n, f) = rw (n, skip_bracket) (skip_bracket-Free w rest f)

skip_other : (q c : ℕ) (s : Str) → c == q ≡ false → s ≢ [] → skip_quoted q (c ∷ s) ≡ skip_quoted q s
unfolding skip_quoted
skip_other q c [] e ne = absurd (ne refl)
skip_other q c (d ∷ s) e ne = rw (e, skip_quoted)

skip_pair : (q : ℕ) (s : Str) → skip_quoted q (q ∷ q ∷ s) ≡ skip_quoted q s
unfolding skip_quoted
skip_pair q s = ground arith

skip_closes : (q : ℕ) (s : Str) → NotAhead q s → skip_quoted q (q ∷ s) ≡ s
unfolding skip_quoted
skip_closes q [] h = refl
skip_closes q (c ∷ s) h = ground arith

append-ne-nil : (w : Str) (c : ℕ) (s : Str) → w ++ (c ∷ s) ≢ []
append-ne-nil [] c s e = cc
append-ne-nil (x ∷ w) c s e = cc

skip_quoted-double :
    (q : ℕ) (w rest : Str) → NotAhead q rest → skip_quoted q (double q w ++ (q ∷ rest)) ≡ rest
unfolding double
skip_quoted-double q [] rest h = skip_closes q rest h
skip_quoted-double q (c ∷ w) rest h =
    let ih = skip_quoted-double q w rest h in
    elim (Bool-cases (c == q)) [
      | inl e ↦ rw e (skip_pair q (double q w ++ (q ∷ rest)) ∙ ih)
      | inr e ↦ rw e (skip_other q c (double q w ++ (q ∷ rest)) e (append-ne-nil _ q rest) ∙ ih)
    ]

-- The text of a region.
upto-region : (w : Str) (c : ℕ) (rest : Str) → upto (w ++ (c ∷ rest)) rest ≡ w ++ (c ∷ [])
unfolding upto
upto-region w c rest =
    let n : length (w ++ (c ∷ rest)) - length rest ≡ length (w ++ (c ∷ [])) =
      omega (arith, length-append w (c ∷ rest), length-append w (c ∷ [])) in
    rw n (
      ap (take (length (w ++ (c ∷ [])))) (sym (append_assoc w (c ∷ []) rest))
      ∙ take-length-append (w ++ (c ∷ [])) rest)

quote_not_comment : (q : ℕ) (s : Str) → is_quote q ≡ true → skip_ddl_comment q s ≡ none
unfolding skip_ddl_comment
quote_not_comment q [] h = refl
quote_not_comment q (d ∷ s) h = ground arith

bracket_not_comment : (s : Str) → skip_ddl_comment b'[' s ≡ none
unfolding skip_ddl_comment
bracket_not_comment [] = refl
bracket_not_comment (d ∷ s) = ground arith

next_ddl-next : (c : ℕ) (s : Str) → skip_ddl_comment c s ≡ none → next_ddl c s ≡ next c s
unfolding next_ddl
next_ddl-next c s e = rw (e, next_ddl) refl

next_ddl-comment :
    (c : ℕ) (s rest : Str) → skip_ddl_comment c s ≡ some rest → next_ddl c s ≡ (Token.comment, rest)
unfolding next_ddl
next_ddl-comment c s rest e = rw (e, next_ddl) refl

next-quoted :
    (q : ℕ) (w rest : Str)
    → is_quote q ≡ true
    → NotAhead q rest
    → next q (double q w ++ (q ∷ rest)) ≡ (Token.quoted q (quoted_text q w), rest)
unfolding next
next-quoted q w rest h e =
    rw (h, next)
      (rw (skip_quoted-double q w rest e, next) (rw (upto-region (double q w) q rest) refl))

next-bracket :
    (w rest : Str)
    → Free b']' w
    → next b'[' (w ++ (b']' ∷ rest)) ≡ (Token.bracket (bracket_text w), rest)
unfolding next
next-bracket w rest f = rw (skip_bracket-Free w rest f, next) (rw (upto-region w b']' rest) refl)

next-plain :
    (c : ℕ) (rest : Str)
    → is_quote c ≡ false
    → c == b'[' ≡ false
    → next c rest ≡ (Token.byte c, rest)
unfolding next
next-plain c rest h e = rw (h, e, next) refl

-- The head of a printed piece.
abbrev pub Heads : Piece → Str → Type 0
Heads p rest = (c : ℕ) × (s : Str) × (print p rest ≡ c ∷ s) × (next_ddl c s ≡ (token p, rest))

pub next_ddl-print : (p : Piece) (rest : Str) → IsSpelled p rest → Heads p rest
unfolding skip_ddl_comment
next_ddl-print (Piece.plain c) rest (q, b, n) =
    (c, rest, refl, next_ddl-next c rest n ∙ next-plain c rest q b)
next_ddl-print (Piece.quoted q w) rest (h, e) = (
  q,
  double q w ++ (q ∷ rest),
  refl,
  next_ddl-next q (double q w ++ (q ∷ rest)) (quote_not_comment q (double q w ++ (q ∷ rest)) h)
      ∙ next-quoted q w rest h e,
)
next_ddl-print (Piece.bracket w) rest f = (
  b'[',
  w ++ (b']' ∷ rest),
  refl,
  next_ddl-next b'[' (w ++ (b']' ∷ rest)) (bracket_not_comment (w ++ (b']' ∷ rest)))
      ∙ next-bracket w rest f,
)
next_ddl-print (Piece.line w) rest (f, e) = (
  b'-',
  b'-' ∷ (w ++ rest),
  refl,
  next_ddl-comment b'-' (b'-' ∷ (w ++ rest)) rest (ap some (line_end-Free w rest f e)),
)
next_ddl-print (Piece.block w) rest h = (
  b'/',
  b'*' ∷ (w ++ (b'*' ∷ b'/' ∷ rest)),
  refl,
  next_ddl-comment b'/' (b'*' ∷ (w ++ (b'*' ∷ b'/' ∷ rest))) rest
      (ap some (block_end-NoEnd w rest h)),
)
