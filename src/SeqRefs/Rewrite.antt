-- ===== src/SeqRefs/Rewrite.antt =====
-- internal/driver/seqrewrite.go: what the rewriting of a DDL text returns.
use tablex.Common.{
  [], ℕ, zero, suc, ◌≤◌, List, ◌∷◌, ◌++◌, Option, none, some, if◌then◌else◌, ◌==◌, ◌≡◌, inl, inr,
  refl, sym, arith, Str, length, Bool-cases, append-nil,
}
use tablex.Common.Maps.{lookup}
use tablex.Text.{Tables}
use tablex.Text.Suffix.{IsSuffix, suffix-le, suffix-cons}
use tablex.SeqRefs.{
  add, scan_quoted, scan_sql_literal, skip_quoted_ident, parse_qualified_ident, has_quote,
  literal_rest, rewrite_step, rewrite_loop, rewrite_sequence_refs, seq_ref_key,
}

pub skip_quoted_ident-IsSuffix : (s : Str) → IsSuffix (skip_quoted_ident s) s
unfolding skip_quoted_ident
skip_quoted_ident-IsSuffix [] = ([], refl)
skip_quoted_ident-IsSuffix (c ∷ []) = (c ∷ [], refl)
skip_quoted_ident-IsSuffix (c ∷ d ∷ s) = elim (Bool-cases (c == b'"')) [
  | inl e ↦ elim (Bool-cases (d == b'"')) [
    | inl f ↦
        rw (e, f, skip_quoted_ident)
          (suffix-cons c (d ∷ s) _ (suffix-cons d s _ (skip_quoted_ident-IsSuffix s)))
    | inr f ↦ rw (e, f, skip_quoted_ident) (c ∷ [], refl)
  ]
  | inr e ↦ rw (e, skip_quoted_ident) (suffix-cons c (d ∷ s) _ (skip_quoted_ident-IsSuffix (d ∷ s)))
]

add-some :
    (c : ℕ) (o : Option (Str × Str)) (w rest : Str)
    → add c o ≡ some (w, rest)
    → (v : Str) × (o ≡ some (v, rest)) × (w ≡ c ∷ v)
add-some c none w rest h = cc
add-some c (some (v, r)) w rest h = (v, ground arith, ground arith)

pub scan_quoted-IsSuffix :
    (q : ℕ) (s w rest : Str) → scan_quoted q s ≡ some (w, rest) → IsSuffix rest s
unfolding scan_quoted
scan_quoted-IsSuffix q [] w rest h = cc
scan_quoted-IsSuffix q (c ∷ []) w rest h = (c ∷ [], ground arith)
scan_quoted-IsSuffix q (c ∷ d ∷ s) w rest h = elim (Bool-cases (c == q)) [
  | inl e ↦ elim (Bool-cases (d == q)) [
    | inl f ↦
        let (v, o, _) = add-some q (scan_quoted q s) w rest (rw (e, f, scan_quoted) at h) in
        suffix-cons c (d ∷ s) _ (suffix-cons d s _ (scan_quoted-IsSuffix q s v rest o))
    | inr f ↦ (
      c ∷ [],
      let h' : some ([], d ∷ s) ≡ some (w, rest) = rw (e, f, scan_quoted) at h in ground arith,
    )
  ]
  | inr e ↦
      let (v, o, _) = add-some c (scan_quoted q (d ∷ s)) w rest (rw (e, scan_quoted) at h) in
      suffix-cons c (d ∷ s) _ (scan_quoted-IsSuffix q (d ∷ s) v rest o)
]

-- The contents of the literals of a text, from every quote on that has a closing one.
abbrev pub add_literal : Option (Str × Str) → List Str → List Str
add_literal none more = more
add_literal (some (content, rest)) more = content ∷ more

unfoldable pub literals : Str → List Str
unfolding scan_quoted
literals [] = []
literals (c ∷ s) =
    let more = literals s in if c == b'\'' then add_literal (scan_sql_literal s) more else more

module _ (t : Tables) (rewrites : List (Str × Str)) where
  literal_rest-IsSuffix :
      (s : Str) (o : Option (Str × Str))
      → scan_sql_literal s ≡ o
      → IsSuffix (literal_rest t rewrites o) s
  unfolding literal_rest
  literal_rest-IsSuffix s none e = (s, sym (append-nil s))
  literal_rest-IsSuffix s (some (w, rest)) e = scan_quoted-IsSuffix b'\'' s w rest e

  -- A round reads on from a suffix of what was behind the byte.
  pub step-IsSuffix : (c : ℕ) (s : Str) → IsSuffix (rewrite_step t rewrites c s).1 s
  unfolding rewrite_step
  step-IsSuffix c s = elim (Bool-cases (c == b'"')) [
    | inl e ↦ rw e (skip_quoted_ident-IsSuffix s)
    | inr e ↦ rw e (elim (Bool-cases (c == b'\'')) [
      | inl f ↦ rw f (literal_rest-IsSuffix s (scan_sql_literal s) refl)
      | inr f ↦ rw f ([], refl)
    ])
  ]

  pub loop_cons :
      (fuel c : ℕ) (s : Str) (out : Str)
      → rewrite_loop t rewrites fuel (rewrite_step t rewrites c s).1 ≡ some out
      → rewrite_loop t rewrites (suc fuel) (c ∷ s) ≡ some ((rewrite_step t rewrites c s).0 ++ out)
  unfolding rewrite_loop
  loop_cons fuel c s out e = rw (e, rewrite_loop) refl

  -- With the length of the text for fuel the loop returns.
  pub loop_total :
      (fuel : ℕ) (s : Str)
      → length s ≤ fuel
      → (out : Str) × (rewrite_loop t rewrites fuel s ≡ some out)
  loop_total fuel [] h = ([], unfold rewrite_loop in refl)
  loop_total zero (c ∷ s) h = absurd (omega arith)
  loop_total (suc fuel) (c ∷ s) h =
      let shorter = suffix-le s _ (step-IsSuffix c s) in
      let (out, e) = loop_total fuel (rewrite_step t rewrites c s).1 (omega arith) in
      (_, loop_cons fuel c s out e)

  -- A content that names no sequence with a replacement.
  abbrev pub HasNone : Str → Type 0
  HasNone content =
      (schema name : Str)
      → parse_qualified_ident t content ≡ some (schema, name)
      → lookup (seq_ref_key schema name) rewrites ≡ none

  loop_case :
      (P : Option Str → Type 0) (ddl : Str)
      → P (some ddl)
      → P (rewrite_loop t rewrites (length ddl) ddl)
      → P (rewrite_sequence_refs t rewrites ddl)
  unfolding rewrite_sequence_refs
  loop_case P ddl a b =
      elim rewrites
        as (λ r. P (elim r [
          | [] ↦ some ddl
          | _ ↦ if has_quote ddl then rewrite_loop t rewrites (length ddl) ddl else some ddl
        ])) [
          | [] ↦ a
          | _ ∷ _ ↦ elim (Bool-cases (has_quote ddl)) [ inl e ↦ rw e b | inr e ↦ rw e a ]
        ]

  -- The rewriting returns a text for every DDL text: its loop ends within as many rounds as the
  -- text has bytes.
  pub rewrite_sequence_refs_total :
      (ddl : Str) → (out : Str) × (rewrite_sequence_refs t rewrites ddl ≡ some out)
  rewrite_sequence_refs_total ddl =
      loop_case (λ o. (out : Str) × (o ≡ some out)) ddl (ddl, refl)
        (loop_total (length ddl) ddl (omega arith))
