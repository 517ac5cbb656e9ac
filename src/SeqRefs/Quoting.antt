-- ===== src/SeqRefs/Quoting.antt =====
-- internal/driver/seqrewrite.go: quoting and reading back.
use tablex.Common.{
  [], ℕ, suc, ◌+◌, ◌<◌, true, false, ◌∷◌, ◌++◌, map, some, ◌==◌, ◌≡◌, ◌≢◌, inl, inr, refl, ◌∙◌, ap,
  arith, Str, length, Bool-cases, append_assoc, append-nil, length-append, ◌-◌,
}
use tablex.Text.{
  Tables, to_lower, lower_byte, trim_space, double, all_ascii, trim_left, trim_right, space_byte,
}
use tablex.SeqRefs.{
  add, scan_quoted, skip_sql_spaces, sql_space, ident_part, ident_parts, two_parts,
  parse_qualified_ident, unquoted_part, folded_part, quoted_part, with_part, safe_later, all_safe,
  is_safe, maybe_quote_ident_part, render_qualified_ident,
}

-- The text does not begin with the byte q.
abbrev pub NotAhead : ℕ → Str → Type 0
NotAhead q [] = Unit {0}
NotAhead q (c ∷ s) = c ≢ q

scan_pair : (q : ℕ) (s : Str) → scan_quoted q (q ∷ q ∷ s) ≡ add q (scan_quoted q s)
unfolding scan_quoted
scan_pair q s = ground arith

scan_other :
    (q c : ℕ) (s : Str) → c == q ≡ false → s ≢ [] → scan_quoted q (c ∷ s) ≡ add c (scan_quoted q s)
unfolding scan_quoted
scan_other q c [] e ne = absurd (ne refl)
scan_other q c (d ∷ s) e ne = rw (e, scan_quoted)

append-ne-nil : (w : Str) (c : ℕ) (s : Str) → w ++ (c ∷ s) ≢ []
append-ne-nil [] c s e = cc
append-ne-nil (x ∷ w) c s e = cc

scan_closes : (q : ℕ) (s : Str) → NotAhead q s → scan_quoted q (q ∷ s) ≡ some ([], s)
unfolding scan_quoted
scan_closes q [] h = ground arith
scan_closes q (c ∷ s) h = ground arith

-- A doubled text between quotes is read back as it was, whatever stands behind the closing quote
-- but another quote.
pub scan_quoted-double :
    (q : ℕ) (w rest : Str)
    → NotAhead q rest
    → scan_quoted q (double q w ++ (q ∷ rest)) ≡ some (w, rest)
unfolding double
scan_quoted-double q [] rest h = scan_closes q rest h
scan_quoted-double q (c ∷ w) rest h =
    let ih = scan_quoted-double q w rest h in
    elim (Bool-cases (c == q)) [
      | inl e ↦
          let same : c ≡ q = ground arith in
          rw e (rw same (scan_pair q (double q w ++ (q ∷ rest)) ∙ rw ih refl))
      | inr e ↦
          rw e (scan_other q c (double q w ++ (q ∷ rest)) e (append-ne-nil _ q rest) ∙ rw ih refl)
    ]

-- Safe text is lower-case ASCII with no space.
all_safe-ascii : (p : Str) → all_safe p ≡ true → all_ascii p ≡ true
unfolding all_safe all_ascii
all_safe-ascii [] h = refl
all_safe-ascii (c ∷ p) h = ground (arith, all_safe-ascii p)

all_safe-lower : (p : Str) → all_safe p ≡ true → map lower_byte p ≡ p
unfolding all_safe lower_byte
all_safe-lower [] h = refl
all_safe-lower (c ∷ p) h = ground (arith, all_safe-lower p)

all_safe-trim_right : (p : Str) → all_safe p ≡ true → trim_right p ≡ p
unfolding all_safe trim_right space_byte
all_safe-trim_right [] h = refl
all_safe-trim_right (c ∷ []) h = ground arith
all_safe-trim_right (c ∷ d ∷ p) h = ground (arith, all_safe-trim_right (d ∷ p))

all_safe-trim_left : (p : Str) → all_safe p ≡ true → trim_left p ≡ p
unfolding all_safe trim_left space_byte
all_safe-trim_left [] h = refl
all_safe-trim_left (c ∷ p) h = ground arith

is_safe-all_safe : (p : Str) → is_safe p ≡ true → all_safe p ≡ true
unfolding is_safe all_safe
is_safe-all_safe [] h = cc
is_safe-all_safe (c ∷ p) h = ground arith

all_safe_head : (c : ℕ) (p : Str) → all_safe (c ∷ p) ≡ true → safe_later c ≡ true
unfolding all_safe
all_safe_head c p h = ground arith

-- What may stand behind a part: the end, or a dot.
abbrev Ends : Str → Type 0
Ends [] = Unit {0}
Ends (c ∷ s) = c ≡ b'.'

unquoted_part-safe :
    (p rest : Str) → all_safe p ≡ true → Ends rest → unquoted_part (p ++ rest) ≡ some (p, rest)
unfolding all_safe unquoted_part
unquoted_part-safe [] [] h e = refl
unquoted_part-safe [] (c ∷ s) h e = ground arith
unquoted_part-safe (c ∷ p) rest h e =
    let ih = unquoted_part-safe p rest in ground (arith, unquoted_part-safe p rest)

ahead : (rest : Str) → Ends rest → NotAhead b'"' rest
ahead [] e = tt
ahead (c ∷ s) e = λ x. absurd (omega arith)

module _ (t : Tables) where
  trim_space-safe : (p : Str) → all_safe p ≡ true → trim_space t p ≡ p
  unfolding trim_space
  trim_space-safe p h = ground (
    arith,
    all_safe-ascii p,
    all_safe-trim_left p,
    all_safe-trim_right p,
    ap trim_right (all_safe-trim_left p h),
  )

  to_lower-safe : (p : Str) → all_safe p ≡ true → to_lower t p ≡ p
  unfolding to_lower
  to_lower-safe p h = ground (arith, all_safe-ascii p, all_safe-lower p)

  folded_part-safe :
      (c : ℕ) (p rest : Str)
      → all_safe (c ∷ p) ≡ true
      → folded_part t (some (c ∷ p, rest)) ≡ some (c ∷ p, rest)
  unfolding folded_part
  folded_part-safe c p rest h =
      rw (trim_space-safe (c ∷ p) h, folded_part) (rw (to_lower-safe (c ∷ p) h) refl)

  skip_other : (c : ℕ) (s : Str) → sql_space c ≡ false → skip_sql_spaces (c ∷ s) ≡ c ∷ s
  unfolding skip_sql_spaces
  skip_other c s e = rw e

  safe_not_space : (c : ℕ) → safe_later c ≡ true → (sql_space c ≡ false) × (c == b'"' ≡ false)
  safe_not_space c h = ground arith

  ident_part_plain :
      (c : ℕ) (s : Str)
      → c == b'"' ≡ false
      → ident_part t (c ∷ s) ≡ folded_part t (unquoted_part (c ∷ s))
  unfolding ident_part
  ident_part_plain c s e = rw (e, ident_part) refl

  ident_part_quote : (s : Str) → ident_part t (b'"' ∷ s) ≡ quoted_part t (scan_quoted b'"' s)
  unfolding ident_part
  ident_part_quote s = refl

  -- A rendered part is read back whole, in front of a dot or the end.
  ident_part-bare :
      (c : ℕ) (p rest : Str)
      → is_safe (c ∷ p) ≡ true
      → Ends rest
      → ident_part t (skip_sql_spaces ((c ∷ p) ++ rest)) ≡ some (c ∷ p, rest)
  ident_part-bare c p rest h e =
      let safe = is_safe-all_safe (c ∷ p) h in
      let (space, quote) = safe_not_space c (all_safe_head c p safe) in
      rw (skip_other c (p ++ rest) space) (
        ident_part_plain c (p ++ rest) quote
        ∙ ap (folded_part t) (unquoted_part-safe (c ∷ p) rest safe e)
        ∙ folded_part-safe c p rest safe)

  ident_part-quoted :
      (c : ℕ) (p rest : Str)
      → Ends rest
      → ident_part t (skip_sql_spaces (b'"' ∷ (double b'"' (c ∷ p) ++ (b'"' ∷ rest))))
        ≡ some (c ∷ p, rest)
  ident_part-quoted c p rest e = rw (skip_other b'"' (double b'"' (c ∷ p) ++ (b'"' ∷ rest)) refl) (
      ident_part_quote (double b'"' (c ∷ p) ++ (b'"' ∷ rest))
      ∙ ap (quoted_part t) (scan_quoted-double b'"' (c ∷ p) rest (ahead rest e))
      ∙ unfold quoted_part in refl)

  ident_part-rendered :
      (p rest : Str)
      → p ≢ []
      → Ends rest
      → ident_part t (skip_sql_spaces (maybe_quote_ident_part p ++ rest)) ≡ some (p, rest)
  unfolding maybe_quote_ident_part
  ident_part-rendered [] rest ne e = absurd (ne refl)
  ident_part-rendered (c ∷ p) rest ne e = elim (Bool-cases (is_safe (c ∷ p))) [
    | inl h ↦ rw h (ident_part-bare c p rest h e)
    | inr h ↦
        rw h
          (rw (append_assoc (double b'"' (c ∷ p)) (b'"' ∷ []) rest) (ident_part-quoted c p rest e))
  ]

  ident_parts_dot :
      (fuel : ℕ) (s more p : Str)
      → ident_part t (skip_sql_spaces s) ≡ some (p, b'.' ∷ more)
      → ident_parts t (suc fuel) s ≡ with_part p (ident_parts t fuel more)
  unfolding ident_parts skip_sql_spaces
  ident_parts_dot fuel s more p e = rw (e, ident_parts) refl

  ident_parts_end :
      (fuel : ℕ) (s p : Str)
      → ident_part t (skip_sql_spaces s) ≡ some (p, [])
      → ident_parts t (suc fuel) s ≡ some (p ∷ [])
  unfolding ident_parts skip_sql_spaces
  ident_parts_end fuel s p e = rw (e, ident_parts) refl

  parse_two :
      (s more p q : Str)
      → 0 < length s
      → ident_part t (skip_sql_spaces s) ≡ some (p, b'.' ∷ more)
      → ident_part t (skip_sql_spaces more) ≡ some (q, [])
      → parse_qualified_ident t s ≡ some (p, q)
  unfolding parse_qualified_ident
  parse_two s more p q h e f =
      let fuel : length s + 1 ≡ suc (suc (length s - 1)) = omega arith in
      rw fuel (
        ap (two_parts t) (
          ident_parts_dot (suc (length s - 1)) s more p e
          ∙ ap (with_part p) (ident_parts_end (length s - 1) more q f)))

  -- Parsing what renderQualifiedIdent prints gives back the two names, whatever bytes they hold, if
  -- neither is empty.
  pub parse-render :
      (schema name : Str)
      → schema ≢ []
      → name ≢ []
      → parse_qualified_ident t (render_qualified_ident schema name) ≡ some (schema, name)
  unfolding render_qualified_ident
  parse-render schema name ns nn =
      let tail = maybe_quote_ident_part name in
      parse_two (maybe_quote_ident_part schema ++ (b'.' ∷ tail)) tail schema name
        (omega (arith, length-append (maybe_quote_ident_part schema) (b'.' ∷ tail)))
        (ident_part-rendered schema (b'.' ∷ tail) ns refl)
        (rw (append-nil tail) at (ident_part-rendered name [] nn tt))
