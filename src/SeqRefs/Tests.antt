-- ===== src/SeqRefs/Tests.antt =====
-- internal/driver/seqrewrite.go: concrete DDL texts.
use tablex.Common.{
  Option, [], ◌≢◌, false, List, ◌∷◌, none, some, ◌≡◌, inl, refl, arith, Str, bytes, str_eq,
}
use tablex.Common.Maps.{lookup}
use mathlib.Core.Logic.{if_neg}
use tablex.Text.{Tables, cut_prefix, to_lower, all_ascii, lower_byte}
use tablex.SeqRefs.{
  parse_qualified_ident, render_qualified_ident, seq_ref_key, rewrite_loop, rewrite_sequence_refs,
  literal_cast_type, literal_cast_at, skip_sql_spaces, ident_word, cast_word,
}
use tablex.SeqRefs.Quoting.{parse-render}
use tablex.SeqRefs.Nextval.{Refs, nextval_loop, nextval_text_refs}
use tablex.SeqRefs.Nextval.LateBound.{late_bound, nextval_text_refs-late_bound}
use tablex.SeqRefs.Hit.{named, rewrite_sequence_refs_hit}

-- Tables that know ASCII alone.
abbrev ascii : Tables
ascii = record {
  lower_text = λ s. s;
  upper_text = λ s. s;
  trim_text = λ s. s;
  fields_text = λ s. s ∷ [];
  equal_text = λ _ _. false;
  letter = λ _. false;
  digit = λ _. false;
  space = λ _. false;
}

parse-render_example :
    parse_qualified_ident ascii (render_qualified_ident (bytes "pub lic") (bytes "a\"b"))
    ≡ some (bytes "pub lic", bytes "a\"b")
parse-render_example = parse-render ascii (bytes "pub lic") (bytes "a\"b") (λ e. cc) (λ e. cc)

-- The sequence s.q moves to t.Q.
abbrev moves : List (Str × Str)
moves = (seq_ref_key (bytes "s") (bytes "q"), seq_ref_key (bytes "t") (bytes "Q")) ∷ []

rewrite_sequence_refs_hit_example :
    (out : Str) × (rewrite_loop ascii moves 13 (bytes "::regclass) x") ≡ some out)
    × (rewrite_sequence_refs ascii moves (named (bytes "s") (bytes "q") (bytes "::regclass) x"))
        ≡ some (named (bytes "t") (bytes "Q") out))
unfolding lookup str_eq literal_cast_type literal_cast_at skip_sql_spaces ident_word cast_word
    cut_prefix to_lower all_ascii lower_byte
rewrite_sequence_refs_hit_example =
    rewrite_sequence_refs_hit ascii moves (bytes "s") (bytes "q") (bytes "t") (bytes "Q")
      (bytes "::regclass) x") (λ e. cc) (λ e. cc) ((λ e. absurd (omega (arith, e))), tt)
      (λ e. absurd (omega (arith, e))) refl (inl refl)

-- A text with a reference to s.r, of which the replacements hold nothing.
abbrev other : Str
other = bytes "DEFAULT nextval('s.r'::regclass)"

abbrev pair_of : Option (Str × Str) → Str × Str
pair_of none = ([], [])
pair_of (some p) = p

nextval_text_refs-late_bound_example :
    (out : Refs) × (nextval_text_refs ascii (late_bound (bytes "s.'q") (bytes " + nextval(x)"))
      ≡ some out)
    × (nextval_loop ascii 13 (bytes "s.'q" ∷ [], false) (bytes " + nextval(x)") ≡ some out)
nextval_text_refs-late_bound_example =
    nextval_text_refs-late_bound ascii (bytes "s.'q") (bytes " + nextval(x)")
