-- ===== src/Policy/Segments.antt =====
-- internal/server/restrict.go: the database that a path addresses.
use tablex.Common.{
  [], ℕ, ◌+◌, ◌*◌, true, false, List, ◌∷◌, ◌++◌, map, some, if◌then◌else◌, ◌==◌, ◌≡◌, ◌≢◌, refl,
  sym, ◌∙◌, ap, arith, Str, bytes, str_eq,
}
use mathlib.Core.Logic.{if_pos}
use tablex.Text.{split_on}
use tablex.Text.Split.{Free, EndsPart, split-front, split-first}
use tablex.Policy.{
  trim_left_slash, trim_right_slash, is_hex, unhex, add_byte, path_unescape, segment, segment_or,
  database_in, database_of,
}

-- A byte of a segment as a client may spell it: itself, or escaped with two hex digits.
pub data Glyph : Type 0 where
  literal : ℕ → Glyph
  escape : ℕ → ℕ → Glyph

abbrev pub spelled : List Glyph → Str
spelled [] = []
spelled (Glyph.literal c ∷ gs) = c ∷ spelled gs
spelled (Glyph.escape a b ∷ gs) = b'%' ∷ a ∷ b ∷ spelled gs

abbrev pub meant : List Glyph → Str
meant [] = []
meant (Glyph.literal c ∷ gs) = c ∷ meant gs
meant (Glyph.escape a b ∷ gs) = (unhex a * 16 + unhex b) ∷ meant gs

abbrev pub AreGlyphs : List Glyph → Type 0
AreGlyphs [] = Unit {0}
AreGlyphs (Glyph.literal c ∷ gs) = (c == b'%' ≡ false) × (c == b'/' ≡ false) × AreGlyphs gs
AreGlyphs (Glyph.escape a b ∷ gs) = (is_hex a ≡ true) × (is_hex b ≡ true) × AreGlyphs gs

hex_not_slash : (a : ℕ) → is_hex a ≡ true → a == b'/' ≡ false
hex_not_slash a h = ground arith

spelled-Free : (gs : List Glyph) → AreGlyphs gs → Free b'/' (spelled gs)
spelled-Free [] h = tt
spelled-Free (Glyph.literal c ∷ gs) (_, n, h) = (n, spelled-Free gs h)
spelled-Free (Glyph.escape a b ∷ gs) (p, q, h) =
    (refl, (hex_not_slash a p, (hex_not_slash b q, spelled-Free gs h)))

unescape-literal :
    (c : ℕ) (s : Str) → c == b'%' ≡ false → path_unescape (c ∷ s) ≡ add_byte c (path_unescape s)
unfolding path_unescape
unescape-literal c [] e = rw e refl
unescape-literal c (a ∷ []) e = rw e refl
unescape-literal c (a ∷ b ∷ s) e = rw (e, path_unescape) refl

path_unescape-spelled :
    (gs : List Glyph) → AreGlyphs gs → path_unescape (spelled gs) ≡ some (meant gs)
unfolding path_unescape
path_unescape-spelled [] h = refl
path_unescape-spelled (Glyph.literal c ∷ gs) (n, _, h) =
    unescape-literal c (spelled gs) n ∙ ap (add_byte c) (path_unescape-spelled gs h)
path_unescape-spelled (Glyph.escape a b ∷ gs) (p, q, h) =
    rw (p, q, path_unescape) (ap (add_byte (unhex a * 16 + unhex b)) (path_unescape-spelled gs h))

segment-spelled : (gs : List Glyph) → AreGlyphs gs → segment (spelled gs) ≡ meant gs
unfolding segment
segment-spelled gs h = ap (segment_or (spelled gs)) (path_unescape-spelled gs h)

keep_byte :
    (c : ℕ) (s o : Str)
    → c == b'/' ≡ false
    → trim_right_slash s ≡ o
    → trim_right_slash (c ∷ s) ≡ c ∷ o
unfolding trim_right_slash
keep_byte c s [] n e = rw (e, trim_right_slash) (rw n refl)
keep_byte c s (d ∷ o) n e = rw (e, trim_right_slash) refl

keep_front :
    (c : ℕ) (s : Str) (d : ℕ) (o : Str)
    → trim_right_slash s ≡ d ∷ o
    → trim_right_slash (c ∷ s) ≡ c ∷ d ∷ o
unfolding trim_right_slash
keep_front c s d o e = rw (e, trim_right_slash) refl

trim_right-keeps : (w s : Str) → Free b'/' w → trim_right_slash (w ++ s) ≡ w ++ trim_right_slash s
trim_right-keeps [] s h = refl
trim_right-keeps (c ∷ w) s (n, h) = keep_byte c (w ++ s) _ n (trim_right-keeps w s h)

trim_right-EndsPart : (s : Str) → EndsPart b'/' s → EndsPart b'/' (trim_right_slash s)
unfolding trim_right_slash
trim_right-EndsPart [] h = tt
trim_right-EndsPart (c ∷ s) h = by_rest (trim_right_slash s)
  where
    by_rest :
        (o : Str)
        → EndsPart b'/' (elim o [ [] ↦ if c == b'/' then [] else c ∷ [] | d ∷ more ↦ c ∷ d ∷ more ])
    by_rest [] = rw h tt
    by_rest (d ∷ more) = h

trim_left-keeps : (c : ℕ) (s : Str) → c == b'/' ≡ false → trim_left_slash (b'/' ∷ c ∷ s) ≡ c ∷ s
unfolding trim_left_slash
trim_left-keeps c s n = rw (n, trim_left_slash) refl

two_segments :
    (c : ℕ) (first : Str) (d : ℕ) (second rest : Str)
    → Free b'/' (c ∷ first)
    → Free b'/' (d ∷ second)
    → EndsPart b'/' rest
    → (ws : List Str) × (split_on b'/' (
          trim_right_slash
            (trim_left_slash (b'/' ∷ ((c ∷ first) ++ (b'/' ∷ ((d ∷ second) ++ rest))))))
        ≡ (c ∷ first) ∷ (d ∷ second) ∷ ws)
two_segments c first d second rest (n, h) k e =
    let trimmed = trim_right-keeps (d ∷ second) rest k in
    let (ws, f) =
      split-first b'/' (d ∷ second) (trim_right_slash rest) k (trim_right-EndsPart rest e) in
    (
      ws,
      ap (λ (x : Str). split_on b'/' (trim_right_slash x))
            (trim_left-keeps c (first ++ (b'/' ∷ ((d ∷ second) ++ rest))) n)
          ∙ ap (split_on b'/') (
              trim_right-keeps (c ∷ first) (b'/' ∷ ((d ∷ second) ++ rest)) (n, h)
              ∙ ap (λ (x : Str). (c ∷ first) ++ x)
                  (keep_front b'/' ((d ∷ second) ++ rest) d (second ++ trim_right_slash rest)
                    trimmed))
          ∙ split-front b'/' (c ∷ first) ((d ∷ second) ++ trim_right_slash rest) (n, h)
          ∙ ap (λ (x : List Str). (c ∷ first) ∷ x) f,
    )

spelled-cons : (gs : List Glyph) → meant gs ≢ [] → (c : ℕ) × (s : Str) × (spelled gs ≡ c ∷ s)
spelled-cons [] h = absurd (h refl)
spelled-cons (Glyph.literal c ∷ gs) h = (c, spelled gs, refl)
spelled-cons (Glyph.escape a b ∷ gs) h = (b'%', a ∷ b ∷ spelled gs, refl)

database_in-map :
    (first second : Str) (ws : List Str) (u v : Str)
    → segment first ≡ u
    → segment second ≡ v
    → u ≡ bytes "db"
    → database_in (map segment (first ∷ second ∷ ws)) ≡ v
unfolding database_in
database_in-map first second ws u v e f h =
    rw (e, f, database_in) (if_pos (str_eq u (bytes "db")) h v [])

-- The path of a database page: a first segment that means "db", a second one that means the
-- database's name, and the rest. Whatever bytes of the two a client escapes, and with whatever case
-- of the hex digits, databaseOf is the name, a slash or an escaped '%' in it included, so that no
-- spelling of a path escapes the allowlist.
pub database_of-spelled :
    (prefix name : List Glyph) (rest : Str)
    → AreGlyphs prefix
    → AreGlyphs name
    → meant prefix ≡ bytes "db"
    → meant name ≢ []
    → EndsPart b'/' rest
    → database_of (b'/' ∷ (spelled prefix ++ (b'/' ∷ (spelled name ++ rest)))) ≡ meant name
unfolding database_of
database_of-spelled prefix name rest p q db ne e =
    let (c, first, f) = spelled-cons prefix (λ z. let bad : bytes "db" ≡ [] = sym db ∙ z in cc) in
    let (d, second, g) = spelled-cons name ne in
    let (ws, split) =
      two_segments c first d second rest (rw f at (spelled-Free prefix p))
        (rw g at (spelled-Free name q)) e in
    rw (f, g)
      (ap (λ (x : List Str). database_in (map segment x)) split
        ∙ database_in-map (c ∷ first) (d ∷ second) ws (meant prefix) (meant name)
            (ap segment (sym f) ∙ segment-spelled prefix p)
            (ap segment (sym g) ∙ segment-spelled name q) db)
