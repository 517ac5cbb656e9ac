-- ===== src/SeqRefs/Nextval/LateBound.antt =====
-- internal/driver/seqrewrite.go: NextvalTextRefs ends, and what it makes of a late-bound reference.
use tablex.Common.{
  [], ℕ, zero, suc, ◌+◌, ◌≤◌, Bool, true, false, List, ◌∷◌, ◌++◌, Option, none, some, ◌==◌, ◌≡◌,
  inl, inr, refl, sym, ◌∙◌, ap, arith, Str, bytes, str_eq, ite, length, length-append, Bool-cases,
}
use tablex.Text.{Tables, double, to_lower, all_ascii, lower_byte, cut_prefix}
use tablex.Text.Suffix.{suffix-le}
use tablex.SeqRefs.{
  scan_sql_literal, skip_sql_spaces, ident_start, ident_word, literal_cast_at, cast_word,
  is_pg_catalog,
}
use tablex.SeqRefs.Quoting.{scan_quoted-double}
use tablex.SeqRefs.Rewrite.{skip_quoted_ident-IsSuffix, scan_quoted-IsSuffix}
use tablex.SeqRefs.Nextval.{
  Refs, Round, open_parens, cast_round, literal_round, argument_round, call_round, word_round,
  quote_round, nextval_round, nextval_loop, nextval_text_refs,
}

-- The rest of a round is no longer than what is behind its byte.
abbrev Within : ℕ → Option Str → Type 0
Within n none = Unit {0}
Within n (some rest) = length rest ≤ n

ident_word_le : (s : Str) → length (ident_word s).1 ≤ length s
unfolding ident_word
ident_word_le [] = omega arith
ident_word_le (c ∷ s) = ground (arith, ident_word_le s)

open_parens_le : (s : Str) → length (open_parens s) ≤ length s
unfolding open_parens
open_parens_le [] = omega arith
open_parens_le (c ∷ s) = ground (arith, open_parens_le s)

skip_sql_spaces_le : (s : Str) → length (skip_sql_spaces s) ≤ length s
unfolding skip_sql_spaces
skip_sql_spaces_le [] = omega arith
skip_sql_spaces_le (c ∷ s) = ground (arith, skip_sql_spaces_le s)

scan_le : (s w rest : Str) → scan_sql_literal s ≡ some (w, rest) → length rest ≤ length s
scan_le s w rest e = suffix-le s rest (scan_quoted-IsSuffix b'\'' s w rest e)

first_word_le : (c : ℕ) (s : Str) → ident_start c ≡ true → length (ident_word (c ∷ s)).1 ≤ length s
unfolding ident_word
first_word_le c s e = let shorter = ident_word_le s in ground arith

module _ (t : Tables) where
  literal_round-Within :
      (acc : Refs) (s : Str) (o : Option (Str × Str))
      → scan_sql_literal s ≡ o
      → Within (length s) (literal_round t acc o).1
  unfolding literal_round
  literal_round-Within acc s none e = tt
  literal_round-Within acc s (some (w, after)) e = scan_le s w after e

  quote_round-Within :
      (acc : Refs) (s : Str) (o : Option (Str × Str))
      → scan_sql_literal s ≡ o
      → Within (length s) (quote_round t acc o).1
  unfolding quote_round
  quote_round-Within acc s none e = tt
  quote_round-Within acc s (some (w, after)) e = scan_le s w after e

  Within-le : (m n : ℕ) (o : Option Str) → m ≤ n → Within m o → Within n o
  Within-le m n none h w = tt
  Within-le m n (some rest) h w = omega arith

  argument_round-Within :
      (acc : Refs) (n : ℕ) (rest s : Str)
      → length rest ≤ n
      → length s ≤ n
      → Within n (argument_round t acc rest s).1
  unfolding argument_round
  argument_round-Within acc n rest [] h k = h
  argument_round-Within acc n rest (c ∷ s) h k = elim (Bool-cases (c == b'\'')) [
    | inl e ↦
        rw (e, argument_round)
          (Within-le (length s) n _ (omega arith)
            (literal_round-Within acc s (scan_sql_literal s) refl))
    | inr e ↦ rw (e, argument_round) h
  ]

  call_round-Within :
      (acc : Refs) (n : ℕ) (rest s : Str)
      → length rest ≤ n
      → length s ≤ n
      → Within n (call_round t acc rest s).1
  unfolding call_round
  call_round-Within acc n rest [] h k = h
  call_round-Within acc n rest (c ∷ s) h k = elim (Bool-cases (c == b'(')) [
    | inl e ↦
        rw (e, call_round)
          (argument_round-Within acc n rest (open_parens s) h (omega (arith, open_parens_le s)))
    | inr e ↦ rw (e, call_round) h
  ]

  word_round-Within :
      (acc : Refs) (n : ℕ) (word rest : Str)
      → length rest ≤ n
      → Within n (word_round t acc (word, rest)).1
  unfolding word_round
  word_round-Within acc n word rest h =
      elim (str_eq (to_lower t word) (bytes "nextval"))
        as (λ d.
          Within n (ite d (call_round t acc rest (skip_sql_spaces rest)) (acc, some rest)).1) [
            | yes _ ↦
                call_round-Within acc n rest (skip_sql_spaces rest) h
                  (omega (arith, skip_sql_spaces_le rest))
            | no _ ↦ h
          ]

  nextval_round-Within :
      (acc : Refs) (c : ℕ) (s : Str) → Within (length s) (nextval_round t acc c s).1
  unfolding nextval_round
  nextval_round-Within acc c s = elim (Bool-cases (c == b'"')) [
    | inl e ↦ rw (e, nextval_round) (suffix-le s _ (skip_quoted_ident-IsSuffix s))
    | inr e ↦ elim (Bool-cases (c == b'\'')) [
      | inl f ↦ rw (e, f, nextval_round) (quote_round-Within acc s (scan_sql_literal s) refl)
      | inr f ↦ elim (Bool-cases (ident_start c)) [
        | inl g ↦
            rw (e, f, g, nextval_round)
              (word_round-Within acc (length s) (ident_word (c ∷ s)).0 (ident_word (c ∷ s)).1
                (first_word_le c s g))
        | inr g ↦ rw (e, f, g, nextval_round) omega arith
      ]
    ]
  ]

  abbrev then_loop : ℕ → Round → Option Refs
  then_loop fuel (acc, none) = some acc
  then_loop fuel (acc, some rest) = nextval_loop t fuel acc rest

  nextval_cons :
      (fuel : ℕ) (acc : Refs) (c : ℕ) (s : Str)
      → nextval_loop t (suc fuel) acc (c ∷ s) ≡ then_loop fuel (nextval_round t acc c s)
  unfolding nextval_loop
  nextval_cons fuel acc c s = by_rest (nextval_round t acc c s)
    where
      by_rest :
          (r : Round)
          → elim r.1 [ none ↦ some r.0 | some rest ↦ nextval_loop t fuel r.0 rest ]
            ≡ then_loop fuel r
      by_rest (a, none) = refl
      by_rest (a, some rest) = refl

  -- Two fuels that are both enough give the same, and an answer.
  loop_same :
      (f g : ℕ) (acc : Refs) (s : Str)
      → length s ≤ f
      → length s ≤ g
      → nextval_loop t f acc s ≡ nextval_loop t g acc s
  loop_same f g acc [] h k = unfold nextval_loop in refl
  loop_same zero g acc (c ∷ s) h k = absurd (omega arith)
  loop_same (suc f) zero acc (c ∷ s) h k = absurd (omega arith)
  loop_same (suc f) (suc g) acc (c ∷ s) h k =
      nextval_cons f acc c s
      ∙ rest_same (λ a r w. loop_same f g a r (omega arith) (omega arith)) (nextval_round t acc c s)
          (nextval_round-Within acc c s)
      ∙ sym (nextval_cons g acc c s)
    where
      rest_same :
          ((a : Refs) (r : Str) → length r ≤ length s → nextval_loop t f a r ≡ nextval_loop t g a r)
          → (r : Round) → Within (length s) r.1
          → then_loop f r ≡ then_loop g r
      rest_same ih (a, none) w = refl
      rest_same ih (a, some r) w = ih a r w

  loop_ends :
      (f : ℕ) (acc : Refs) (s : Str)
      → length s ≤ f
      → (out : Refs) × (nextval_loop t f acc s ≡ some out)
  loop_ends f acc [] h = (acc, unfold nextval_loop in refl)
  loop_ends zero acc (c ∷ s) h = absurd (omega arith)
  loop_ends (suc f) acc (c ∷ s) h =
      let (out, e) =
        rest_ends (λ a r w. loop_ends f a r (omega arith)) (nextval_round t acc c s)
          (nextval_round-Within acc c s) in
      (out, nextval_cons f acc c s ∙ e)
    where
      rest_ends :
          ((a : Refs) (r : Str)
            → length r ≤ length s
            → (out : Refs) × (nextval_loop t f a r ≡ some out))
          → (r : Round) → Within (length s) r.1
          → (out : Refs) × (then_loop f r ≡ some out)
      rest_ends ih (a, none) w = (a, refl)
      rest_ends ih (a, some r) w = ih a r w

-- A late-bound default as PostgreSQL deparses it, in front of a text.
abbrev behind : Str → Str
behind rest = bytes "::text)::regclass)" ++ rest

abbrev eight_more : ℕ → ℕ
eight_more n = suc (suc (suc (suc (suc (suc (suc (suc n)))))))

abbrev pub late_bound : Str → Str → Str
late_bound content rest = bytes "nextval(('" ++ (double b'\'' content ++ (b'\'' ∷ behind rest))

module _ (t : Tables) where
  call_body :
      (acc : Refs) (content rest : Str)
      → nextval_round t acc b'n'
          (bytes "extval(('" ++ (double b'\'' content ++ (b'\'' ∷ behind rest)))
        ≡ literal_round t acc (scan_sql_literal (double b'\'' content ++ (b'\'' ∷ behind rest)))
  unfolding nextval_round word_round call_round argument_round open_parens ident_word
      skip_sql_spaces to_lower all_ascii lower_byte str_eq
  call_body acc content rest = refl

  literal_body :
      (refs : List Str) (d : Bool) (content rest : Str)
      → literal_round t (refs, d) (some (content, behind rest))
        ≡ ((refs ++ (content ∷ []), d), some (behind rest))
  unfolding literal_round cast_round literal_cast_at cast_word ident_word skip_sql_spaces to_lower
      all_ascii lower_byte str_eq cut_prefix is_pg_catalog
  literal_body refs d content rest = refl

  call_round_lem :
      (refs : List Str) (d : Bool) (content rest : Str)
      → nextval_round t
          (refs, d)
          b'n'
          (bytes "extval(('" ++ (double b'\'' content ++ (b'\'' ∷ behind rest)))
        ≡ ((refs ++ (content ∷ []), d), some (behind rest))
  call_round_lem refs d content rest =
      call_body (refs, d) content rest
      ∙ ap (literal_round t (refs, d))
          (scan_quoted-double b'\'' content (behind rest) (λ e. absurd (omega (arith, e))))
      ∙ literal_body refs d content rest

  -- What is behind the literal adds nothing.
  behind_lem :
      (fuel : ℕ) (acc : Refs) (rest : Str)
      → nextval_loop t (eight_more fuel) acc (behind rest) ≡ nextval_loop t fuel acc rest
  unfolding nextval_loop nextval_round word_round ident_word to_lower all_ascii lower_byte str_eq
  behind_lem fuel acc rest = refl

  -- NextvalTextRefs reads a late-bound reference as PostgreSQL deparses it, a quoted literal cast
  -- to text in further parentheses, cast to regclass: it is noted with its content, whatever bytes
  -- this holds, no argument is called dynamic for it, and the scan goes on with the text behind it.
  -- The whole scan returns.
  pub nextval_text_refs-late_bound :
      (content rest : Str)
      → (out : Refs) × (nextval_text_refs t (late_bound content rest) ≡ some out)
        × (nextval_loop t (length rest) (content ∷ [], false) rest ≡ some out)
  unfolding nextval_text_refs
  nextval_text_refs-late_bound content rest =
      let body = double b'\'' content ++ (b'\'' ∷ behind rest) in
      let s = bytes "extval(('" ++ body in
      let (out, e) = loop_ends t (length rest) (content ∷ [], false) rest (omega arith) in
      let enough : length (behind rest) ≤ length s =
        omega (arith, length-append (double b'\'' content) (b'\'' ∷ behind rest)) in
      let longer : length (behind rest) ≤ eight_more (10 + length rest) = omega arith in
      (
        out,
        nextval_cons t (length s) ([], false) b'n' s
            ∙ ap (then_loop t (length s)) (call_round_lem [] false content rest)
            ∙ loop_same t (length s) (eight_more (10 + length rest)) (content ∷ [], false)
                (behind rest) enough longer
            ∙ behind_lem (10 + length rest) (content ∷ [], false) rest
            ∙ loop_same t (10 + length rest) (length rest) (content ∷ [], false) rest (omega arith)
                (omega arith)
            ∙ e,
        e,
      )
