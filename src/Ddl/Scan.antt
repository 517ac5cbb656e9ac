-- ===== src/Ddl/Scan.antt =====
-- internal/driver/sqlite/ddlparse.go: the scanning loops end, and the fuel makes no difference.
use tablex.Common.{
  [], ℕ, zero, suc, ◌≤◌, ◌&&◌, ◌∷◌, Option, some, ◌==◌, ◌≡◌, ◌⊎◌, inl, inr, refl, sym, ◌∙◌, ap,
  arith, Str, length, Bool-cases, Option-cases,
}
use tablex.Text.Suffix.{IsSuffix, suffix-le, suffix-cons}
use tablex.Ddl.{
  Token, line_end, block_end, skip_ddl_comment, skip_quoted, skip_bracket, is_quote, next, next_ddl,
  scan,
}

line_end-IsSuffix : (s : Str) → IsSuffix (line_end s) s
unfolding line_end
line_end-IsSuffix [] = ([], refl)
line_end-IsSuffix (c ∷ s) = elim (Bool-cases (c == 10)) [
  | inl e ↦ rw (e, line_end) ([], refl)
  | inr e ↦ rw (e, line_end) (suffix-cons c s _ (line_end-IsSuffix s))
]

block_end-IsSuffix : (s : Str) → IsSuffix (block_end s) s
unfolding block_end
block_end-IsSuffix [] = ([], refl)
block_end-IsSuffix (c ∷ []) = (c ∷ [], refl)
block_end-IsSuffix (c ∷ d ∷ s) = elim (Bool-cases (c == b'*' && d == b'/')) [
  | inl e ↦ rw (e, block_end) (c ∷ d ∷ [], refl)
  | inr e ↦ rw (e, block_end) (suffix-cons c (d ∷ s) _ (block_end-IsSuffix (d ∷ s)))
]

skip_quoted-IsSuffix : (q : ℕ) (s : Str) → IsSuffix (skip_quoted q s) s
unfolding skip_quoted
skip_quoted-IsSuffix q [] = ([], refl)
skip_quoted-IsSuffix q (c ∷ []) = (c ∷ [], refl)
skip_quoted-IsSuffix q (c ∷ d ∷ s) = elim (Bool-cases (c == q)) [
  | inl e ↦ elim (Bool-cases (d == q)) [
    | inl f ↦
        rw (e, f, skip_quoted)
          (suffix-cons c (d ∷ s) _ (suffix-cons d s _ (skip_quoted-IsSuffix q s)))
    | inr f ↦ rw (e, f, skip_quoted) (c ∷ [], refl)
  ]
  | inr e ↦ rw (e, skip_quoted) (suffix-cons c (d ∷ s) _ (skip_quoted-IsSuffix q (d ∷ s)))
]

skip_bracket-IsSuffix : (s : Str) → IsSuffix (skip_bracket s) s
unfolding skip_bracket
skip_bracket-IsSuffix [] = ([], refl)
skip_bracket-IsSuffix (c ∷ s) = elim (Bool-cases (c == b']')) [
  | inl e ↦ rw (e, skip_bracket) (c ∷ [], refl)
  | inr e ↦ rw (e, skip_bracket) (suffix-cons c s _ (skip_bracket-IsSuffix s))
]

-- The switch reads on from a suffix.
abbrev pub ReadsOn : (ℕ → Str → Token × Str) → Type 0
ReadsOn read = (c : ℕ) (s : Str) → length (read c s).1 ≤ length s

pub next-ReadsOn : ReadsOn next
unfolding next
next-ReadsOn c s = elim (Bool-cases (is_quote c)) [
  | inl e ↦ rw (e, next) (suffix-le s _ (skip_quoted-IsSuffix c s))
  | inr e ↦
      rw (e, next)
        (elim (Bool-cases (c == b'[')) [
          | inl f ↦ rw (f, next) (suffix-le s _ (skip_bracket-IsSuffix s))
          | inr f ↦ rw (f, next) omega arith
        ])
]

skip_ddl_comment_le :
    (c : ℕ) (s rest : Str) → skip_ddl_comment c s ≡ some rest → length rest ≤ length s
unfolding skip_ddl_comment
skip_ddl_comment_le c [] rest h = cc
skip_ddl_comment_le c (d ∷ s) rest h =
    let line = suffix-le s _ (line_end-IsSuffix s) in
    let block = suffix-le s _ (block_end-IsSuffix s) in ground arith

pub next_ddl-ReadsOn : ReadsOn next_ddl
unfolding next_ddl
next_ddl-ReadsOn c s = elim (Option-cases (skip_ddl_comment c s)) [
  | inl e ↦ rw (e, next_ddl) (next-ReadsOn c s)
  | inr (rest, e) ↦ rw (e, next_ddl) (skip_ddl_comment_le c s rest e)
]

module _ {S R : Type 0} (read : ℕ → Str → Token × Str) (turn : S → Token → Str → S ⊎ R)
    (finish : S → R) (on : ReadsOn read) where
  -- The rest of a scan behind a round.
  abbrev pub then_scan : ℕ → S ⊎ R → Str → Option R
  then_scan fuel (inl following) rest = scan read turn finish fuel following rest
  then_scan fuel (inr r) rest = some r

  then_total :
      (fuel : ℕ) (rest : Str)
      → ((state : S) → (r : R) × (scan read turn finish fuel state rest ≡ some r))
      → (o : S ⊎ R) → (r : R) × (then_scan fuel o rest ≡ some r)
  then_total fuel rest h (inl following) = h following
  then_total fuel rest h (inr r) = (r, refl)

  then_same :
      (f g : ℕ) (rest : Str)
      → ((state : S) → scan read turn finish f state rest ≡ scan read turn finish g state rest)
      → (o : S ⊎ R) → then_scan f o rest ≡ then_scan g o rest
  then_same f g rest h (inl following) = h following
  then_same f g rest h (inr r) = refl

  scan_cons :
      (fuel : ℕ) (state : S) (c : ℕ) (s : Str)
      → scan read turn finish (suc fuel) state (c ∷ s)
        ≡ then_scan fuel (turn state (read c s).0 (read c s).1) (read c s).1
  unfolding scan
  scan_cons fuel state c s =
      elim (turn state (read c s).0 (read c s).1)
        as (λ o.
          elim o [
            | inl following ↦ scan read turn finish fuel following (read c s).1
            | inr r ↦ some r
          ]
          ≡ then_scan fuel o (read c s).1) [ inl x ↦ refl | inr r ↦ refl ]

  pub scan_total :
      (fuel : ℕ) (state : S) (s : Str)
      → length s ≤ fuel
      → (r : R) × (scan read turn finish fuel state s ≡ some r)
  scan_total fuel state [] h = (finish state, unfold scan in refl)
  scan_total zero state (c ∷ s) h = absurd (omega arith)
  scan_total (suc fuel) state (c ∷ s) h =
      let shorter = on c s in
      let (r, e) =
        then_total fuel _ (λ st. scan_total fuel st (read c s).1 (omega arith))
          (turn state (read c s).0 (read c s).1) in
      (r, scan_cons fuel state c s ∙ e)

  scan_fuel :
      (f g : ℕ) (state : S) (s : Str)
      → length s ≤ f
      → length s ≤ g
      → scan read turn finish f state s ≡ scan read turn finish g state s
  scan_fuel f g state [] hf hg = unfold scan in refl
  scan_fuel zero g state (c ∷ s) hf hg = absurd (omega arith)
  scan_fuel (suc f) zero state (c ∷ s) hf hg = absurd (omega arith)
  scan_fuel (suc f) (suc g) state (c ∷ s) hf hg =
      let shorter = on c s in
      scan_cons f state c s
      ∙ then_same f g _ (λ st. scan_fuel f g st (read c s).1 (omega arith) (omega arith))
          (turn state (read c s).0 (read c s).1)
      ∙ sym (scan_cons g state c s)

  -- A round that meets a token in front of `rest`, each text with its length for fuel or more.
  pub scan_round :
      (fuel : ℕ) (state : S) (c : ℕ) (s : Str) (token : Token) (rest : Str)
      → length (c ∷ s) ≤ fuel
      → read c s ≡ (token, rest)
      → scan read turn finish fuel state (c ∷ s)
        ≡ then_scan (length rest) (turn state token rest) rest
  scan_round zero state c s token rest h e = absurd (omega arith)
  scan_round (suc fuel) state c s token rest h e =
      let shorter : length rest ≤ length s = rw (ap (λ (x : Token × Str). x.1) e) at (on c s) in
      scan_cons fuel state c s
      ∙ ap (λ (x : Token × Str). then_scan fuel (turn state x.0 x.1) x.1) e
      ∙ then_same fuel (length rest) rest
          (λ st. scan_fuel fuel (length rest) st rest (omega arith) (omega arith))
          (turn state token rest)
