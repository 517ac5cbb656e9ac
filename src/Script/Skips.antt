-- ===== src/Script/Skips.antt =====
-- internal/sqlscript/sqlscript.go: what the skips of the lexer take for a literal and for a
-- comment.
use tablex.Common.{
  [], ℕ, zero, suc, Bool, true, false, ◌&&◌, List, ◌∷◌, ◌==◌, ◌≡◌, ◌≢◌, refl, ◌∙◌, arith, Str,
}
use tablex.SeqRefs.Quoting.{NotAhead}
use tablex.Script.{skip_string_literal, skip_block_comment}

-- A byte of a literal's content as a script spells it: itself, the quote doubled, or any byte
-- behind a backslash.
pub data Spell : Type 0 where
  plain : ℕ → Spell
  doubled : Spell
  escaped : ℕ → Spell

abbrev pub spell : ℕ → List Spell → Str → Str
spell q [] rest = rest
spell q (Spell.plain c ∷ w) rest = c ∷ spell q w rest
spell q (Spell.doubled ∷ w) rest = q ∷ q ∷ spell q w rest
spell q (Spell.escaped c ∷ w) rest = b'\\' ∷ c ∷ spell q w rest

abbrev pub AreSpells : ℕ → Bool → List Spell → Type 0
AreSpells q backslash [] = Unit {0}
AreSpells q backslash (Spell.plain c ∷ w) =
    (c == q ≡ false) × (backslash && c == b'\\' ≡ false) × AreSpells q backslash w
AreSpells q backslash (Spell.doubled ∷ w) = AreSpells q backslash w
AreSpells q backslash (Spell.escaped c ∷ w) = (backslash ≡ true) × AreSpells q backslash w

skip-plain :
    (q c : ℕ) (backslash : Bool) (s : Str)
    → c == q ≡ false
    → backslash && c == b'\\' ≡ false
    → s ≢ []
    → skip_string_literal q backslash (c ∷ s) ≡ skip_string_literal q backslash s
unfolding skip_string_literal
skip-plain q c backslash [] e f ne = absurd (ne refl)
skip-plain q c backslash (d ∷ s) e f ne = rw (f, e, skip_string_literal) refl

quote_plain : (q : ℕ) (backslash : Bool) → q == b'\\' ≡ false → backslash && q == b'\\' ≡ false
quote_plain q true e = e
quote_plain q false e = refl

same_byte : (q : ℕ) → q == q ≡ true
same_byte q = ground arith

skip-doubled :
    (q : ℕ) (backslash : Bool) (s : Str)
    → q == b'\\' ≡ false
    → skip_string_literal q backslash (q ∷ q ∷ s) ≡ skip_string_literal q backslash s
unfolding skip_string_literal
skip-doubled q backslash s e =
    rw (quote_plain q backslash e, same_byte q, skip_string_literal)
      (rw (same_byte q, skip_string_literal) refl)

skip-escaped :
    (q c : ℕ) (s : Str) → skip_string_literal q true (b'\\' ∷ c ∷ s) ≡ skip_string_literal q true s
unfolding skip_string_literal
skip-escaped q c s = refl

skip-closes :
    (q : ℕ) (backslash : Bool) (rest : Str)
    → q == b'\\' ≡ false
    → NotAhead q rest
    → skip_string_literal q backslash (q ∷ rest) ≡ rest
unfolding skip_string_literal
skip-closes q backslash [] e h = refl
skip-closes q backslash (d ∷ rest) e h =
    let other : d == q ≡ false = ground arith in
    rw (quote_plain q backslash e, same_byte q, skip_string_literal)
      (rw (other, skip_string_literal) refl)

spell-ne-nil : (q : ℕ) (w : List Spell) (rest : Str) → spell q w (q ∷ rest) ≢ []
spell-ne-nil q [] rest e = cc
spell-ne-nil q (Spell.plain c ∷ w) rest e = cc
spell-ne-nil q (Spell.doubled ∷ w) rest e = cc
spell-ne-nil q (Spell.escaped c ∷ w) rest e = cc

-- skipStringLiteral goes from an opening quote to right behind the closing one, over every content
-- that is spelled with doubled quotes and, where the backslash escapes, with backslashes: the
-- content may hold any byte, and what stands behind must not begin with the quote.
pub skip_string_literal_lem :
    (q : ℕ) (backslash : Bool) (w : List Spell) (rest : Str)
    → q == b'\\' ≡ false
    → AreSpells q backslash w
    → NotAhead q rest
    → skip_string_literal q backslash (spell q w (q ∷ rest)) ≡ rest
skip_string_literal_lem q backslash [] rest e h n = skip-closes q backslash rest e n
skip_string_literal_lem q backslash (Spell.plain c ∷ w) rest e (f, g, h) n =
    skip-plain q c backslash (spell q w (q ∷ rest)) f g (spell-ne-nil q w rest)
    ∙ skip_string_literal_lem q backslash w rest e h n
skip_string_literal_lem q backslash (Spell.doubled ∷ w) rest e h n =
    skip-doubled q backslash (spell q w (q ∷ rest)) e
    ∙ skip_string_literal_lem q backslash w rest e h n
skip_string_literal_lem q backslash (Spell.escaped c ∷ w) rest e (f, h) n = rw f (
    skip-escaped q c (spell q w (q ∷ rest))
    ∙ (rw f at (skip_string_literal_lem q backslash w rest e h n)))

-- The inside of a block comment: a byte, the start of a comment in it, and the end of one.
pub data Bit : Type 0 where
  text : ℕ → Bit
  opens : Bit
  closes : Bit

abbrev pub comment : List Bit → Str → Str
comment [] rest = b'*' ∷ b'/' ∷ rest
comment (Bit.text c ∷ w) rest = c ∷ comment w rest
comment (Bit.opens ∷ w) rest = b'/' ∷ b'*' ∷ comment w rest
comment (Bit.closes ∷ w) rest = b'*' ∷ b'/' ∷ comment w rest

-- No mark begins at the byte.
abbrev NoMark : ℕ → Str → Type 0
NoMark c [] = Unit {0}
NoMark c (d ∷ s) = (c == b'/' && d == b'*' ≡ false) × (c == b'*' && d == b'/' ≡ false)

-- Every comment that starts inside ends inside, `depth` of them open.
abbrev pub Nests : ℕ → List Bit → Str → Type 0
Nests zero [] rest = Unit {0}
Nests (suc depth) [] rest = ⊥
Nests depth (Bit.text c ∷ w) rest = NoMark c (comment w rest) × Nests depth w rest
Nests depth (Bit.opens ∷ w) rest = Nests (suc depth) w rest
Nests zero (Bit.closes ∷ w) rest = ⊥
Nests (suc depth) (Bit.closes ∷ w) rest = Nests depth w rest

skip-text :
    (depth c : ℕ) (s : Str)
    → NoMark c s
    → s ≢ []
    → skip_block_comment true depth (c ∷ s) ≡ skip_block_comment true depth s
unfolding skip_block_comment
skip-text depth c [] h ne = absurd (ne refl)
skip-text depth c (d ∷ s) (e, f) ne = rw (e, f, skip_block_comment) refl

comment-ne-nil : (w : List Bit) (rest : Str) → comment w rest ≢ []
comment-ne-nil [] rest e = cc
comment-ne-nil (Bit.text c ∷ w) rest e = cc
comment-ne-nil (Bit.opens ∷ w) rest e = cc
comment-ne-nil (Bit.closes ∷ w) rest e = cc

skip-bits :
    (depth : ℕ) (w : List Bit) (rest : Str)
    → Nests depth w rest
    → skip_block_comment true depth (comment w rest) ≡ rest
unfolding skip_block_comment
skip-bits zero [] rest h = refl
skip-bits (suc depth) [] rest h = absurd h
skip-bits zero (Bit.text c ∷ w) rest (n, h) =
    skip-text zero c (comment w rest) n (comment-ne-nil w rest) ∙ skip-bits zero w rest h
skip-bits (suc depth) (Bit.text c ∷ w) rest (n, h) =
    skip-text (suc depth) c (comment w rest) n (comment-ne-nil w rest)
    ∙ skip-bits (suc depth) w rest h
skip-bits zero (Bit.opens ∷ w) rest h = skip-bits 1 w rest h
skip-bits (suc depth) (Bit.opens ∷ w) rest h = skip-bits (suc (suc depth)) w rest h
skip-bits zero (Bit.closes ∷ w) rest h = absurd h
skip-bits (suc depth) (Bit.closes ∷ w) rest h = skip-bits depth w rest h

-- With nested comments, skipBlockComment goes from the opening mark to right behind its own closing
-- mark, over every inside whose comments nest, to whatever depth.
pub skip_block_comment_nested :
    (w : List Bit) (rest : Str) → Nests 0 w rest → skip_block_comment true 0 (comment w rest) ≡ rest
skip_block_comment_nested w rest h = skip-bits 0 w rest h
