-- ===== src/Script/Restore/Quoted.antt =====
-- internal/sqlscript/restore.go: parseConnectTarget reads a quoted name back.
use tablex.Common.{
  [], ℕ, ◌<◌, true, false, List, ◌∷◌, ◌++◌, some, if◌then◌else◌, ◌==◌, ◌≡◌, inl, inr, refl, sym, ap,
  ◌∙◌, arith, Str, length, length-append, append_assoc, Bool-cases, dec_lt,
}
use tablex.Text.{double}
use tablex.Text.Split.{Free}
use tablex.Text.Runes.{
  encode_rune, encode, runes, IsRune, AreRunes, encode_one, encode_two, encode_three, encode_four,
  runes-encode,
}
use tablex.Script.Restore.{written, connect_target, parse_connect_target}
use tablex.Script.Restore.Header.{quote_ansi_ident}

-- A rune is not the quote, and so are its bytes.
encode_rune-Free : (r : ℕ) → IsRune r → r == b'"' ≡ false → Free b'"' (encode_rune r)
encode_rune-Free r (max, scalar) h = elim (dec_lt r 0x80) [
  | yes a ↦ one a
  | no a ↦ elim (dec_lt r 0x800) [
    | yes b ↦ rw (encode_two r (omega arith) b) (ground arith, (ground arith, tt))
    | no b ↦ elim (dec_lt r 0x10000) [
      | yes c ↦
          rw (encode_three r (omega arith) c scalar)
            (ground arith, (ground arith, (ground arith, tt)))
      | no c ↦
          rw (encode_four r (omega arith) max)
            (ground arith, (ground arith, (ground arith, (ground arith, tt))))
    ]
  ]
]
  where
    one : r < 0x80 → Free b'"' (encode_rune r)
    one a = rw (encode_one r a) (h, tt)

double-Free : (q : ℕ) (v s : Str) → Free q v → double q (v ++ s) ≡ v ++ double q s
unfolding double
double-Free q [] s h = refl
double-Free q (c ∷ v) s (e, h) = rw e (ap (◌∷◌ c) (double-Free q v s h))

-- The runes between the quotes.
doubled : List ℕ → List ℕ
doubled [] = []
doubled (r ∷ rs) = if r == b'"' then b'"' ∷ b'"' ∷ doubled rs else r ∷ doubled rs

double-encode : (rs : List ℕ) → AreRunes rs → double b'"' (encode rs) ≡ encode (doubled rs)
unfolding encode doubled double encode_rune
double-encode [] h = refl
double-encode (r ∷ rs) (i, h) = elim (Bool-cases (r == b'"')) [
  | inl e ↦
      let same : r ≡ b'"' = ground arith in
      rw same (ap (λ (x : Str). b'"' ∷ b'"' ∷ x) (double-encode rs h))
  | inr e ↦ rw e (other e (double-encode rs h))
]
  where
    other :
        r == b'"' ≡ false
        → double b'"' (encode rs) ≡ encode (doubled rs)
        → double b'"' (encode_rune r ++ encode rs) ≡ encode_rune r ++ encode (doubled rs)
    other e ih =
        double-Free b'"' (encode_rune r) (encode rs) (encode_rune-Free r i e)
        ∙ ap (λ (x : Str). encode_rune r ++ x) ih

encode-append : (rs ss : List ℕ) → encode (rs ++ ss) ≡ encode rs ++ encode ss
unfolding encode
encode-append [] ss = refl
encode-append (r ∷ rs) ss =
    ap (λ (x : Str). encode_rune r ++ x) (encode-append rs ss)
    ∙ sym (append_assoc (encode_rune r) (encode rs) (encode ss))

-- A quoted name, as runes.
abbrev quoted_runes : List ℕ → List ℕ
quoted_runes rs = b'"' ∷ (doubled rs ++ b'"' ∷ [])

quote-encode : (rs : List ℕ) → AreRunes rs → quote_ansi_ident (encode rs) ≡ encode (quoted_runes rs)
unfolding quote_ansi_ident encode encode_rune
quote-encode rs h = ap (◌∷◌ b'"') (
    ap (λ (x : Str). x ++ b'"' ∷ []) (double-encode rs h)
    ∙ sym (encode-append (doubled rs) (b'"' ∷ [])))

AreRunes-append : (rs ss : List ℕ) → AreRunes rs → AreRunes ss → AreRunes (rs ++ ss)
AreRunes-append [] ss h k = k
AreRunes-append (r ∷ rs) ss (i, h) k = (i, AreRunes-append rs ss h k)

doubled-AreRunes : (rs : List ℕ) → AreRunes rs → AreRunes (doubled rs)
unfolding doubled
doubled-AreRunes [] h = tt
doubled-AreRunes (r ∷ rs) (i, h) = elim (Bool-cases (r == b'"')) [
  | inl e ↦ rw e ((omega arith, refl), ((omega arith, refl), doubled-AreRunes rs h))
  | inr e ↦ rw e (i, doubled-AreRunes rs h)
]

target_other :
    (c : ℕ) (s : List ℕ)
    → c == b'"' ≡ false
    → 0 < length s
    → connect_target true (c ∷ s) ≡ written c (connect_target true s)
unfolding connect_target
target_other c [] h l = absurd (omega (arith, l))
target_other c (d ∷ s) h l = rw (h, connect_target) refl

-- Between the quotes the name is read back.
target_quoted : (rs : List ℕ) → connect_target true (doubled rs ++ b'"' ∷ []) ≡ some (encode rs)
unfolding connect_target doubled encode encode_rune
target_quoted [] = refl
target_quoted (r ∷ rs) = elim (Bool-cases (r == b'"')) [
  | inl e ↦ let same : r ≡ b'"' = ground arith in rw same (ap (written b'"') (target_quoted rs))
  | inr e ↦ rw e (other e (target_quoted rs))
]
  where
    other :
        r == b'"' ≡ false
        → connect_target true (doubled rs ++ b'"' ∷ []) ≡ some (encode rs)
        → connect_target true (r ∷ (doubled rs ++ b'"' ∷ [])) ≡ some (encode_rune r ++ encode rs)
    other e ih =
        target_other r (doubled rs ++ b'"' ∷ []) e
          (omega (arith, length-append (doubled rs) (b'"' ∷ [])))
        ∙ ap (written r) ih

pub parse_target_quoted :
    (rs : List ℕ)
    → AreRunes rs
    → parse_connect_target (quote_ansi_ident (encode rs)) ≡ some (encode rs)
unfolding parse_connect_target
parse_target_quoted rs h =
    let are : AreRunes (quoted_runes rs) = (
      (omega arith, refl),
      AreRunes-append (doubled rs) (b'"' ∷ []) (doubled-AreRunes rs h) ((omega arith, refl), tt),
    ) in
    ap (λ (x : Str). connect_target false (runes x)) (quote-encode rs h)
    ∙ ap (connect_target false) (runes-encode (quoted_runes rs) are)
    ∙ (unfold connect_target in target_quoted rs)
