-- ===== src/SeqRefs/Hit.antt =====
-- internal/driver/seqrewrite.go: a reference that has a replacement.
use tablex.Common.{
  [], ℕ, zero, suc, ◌≤◌, true, List, ◌∷◌, ◌++◌, none, some, ◌≡◌, ◌≢◌, ◌⊎◌, inl, inr, refl, sym, ◌∙◌,
  ap, arith, Str, bytes, length, append_assoc, length-append,
}
use tablex.Common.Maps.{lookup}
use tablex.Text.{Tables, double}
use tablex.SeqRefs.{
  render_qualified_ident, literal_cast_type, cut_nul, render_literal, has_quote, replacement,
  rewrite_target, literal_text, literal_rest, rewrite_step, rewrite_loop, rewrite_sequence_refs,
  seq_ref_key,
}
use tablex.SeqRefs.Quoting.{NotAhead, scan_quoted-double, parse-render}
use tablex.Text.Suffix.{suffix-le}
use tablex.SeqRefs.Rewrite.{step-IsSuffix, loop_cons, loop_total}

-- No NUL byte, which the key of a replacement ends the schema with.
abbrev pub NoNul : Str → Type 0
NoNul [] = Unit {0}
NoNul (c ∷ s) = (c ≢ 0) × NoNul s

cut_nul-key :
    (schema name : Str) → NoNul schema → cut_nul (seq_ref_key schema name) ≡ (schema, name)
unfolding cut_nul
cut_nul-key [] name h = refl
cut_nul-key (c ∷ s) name (n, h) = rw (cut_nul-key s name h, cut_nul) ground arith

-- The SQL literal that names a sequence.
abbrev pub named : Str → Str → Str → Str
named schema name rest =
    b'\'' ∷ (double b'\'' (render_qualified_ident schema name) ++ (b'\'' ∷ rest))

rendered :
    (schema name out : Str)
    → NoNul schema
    → render_literal (seq_ref_key schema name) ++ out ≡ named schema name out
unfolding render_literal
rendered schema name out nul =
    rw (cut_nul-key schema name nul, render_literal)
      (ap (◌∷◌ b'\'')
        (append_assoc (double b'\'' (render_qualified_ident schema name)) (b'\'' ∷ []) out))

some_rewrites :
    (t : Tables) (rewrites : List (Str × Str)) (k repl : Str)
    → lookup k rewrites ≡ some repl
    → (ddl : Str) → has_quote ddl ≡ true
    → rewrite_sequence_refs t rewrites ddl ≡ rewrite_loop t rewrites (length ddl) ddl
unfolding rewrite_sequence_refs
some_rewrites t [] k repl h ddl q = absurd (let e : none ≡ some repl = unfold lookup in h in cc)
some_rewrites t (r ∷ rs) k repl h ddl q = rw (q, rewrite_sequence_refs) refl

module _ (t : Tables) (rewrites : List (Str × Str)) where
  -- The fuel makes no difference once it is enough.
  loop_fuel :
      (f g : ℕ) (s : Str)
      → length s ≤ f
      → length s ≤ g
      → rewrite_loop t rewrites f s ≡ rewrite_loop t rewrites g s
  loop_fuel f g [] hf hg = unfold rewrite_loop in refl
  loop_fuel zero g (c ∷ s) hf hg = absurd (omega arith)
  loop_fuel (suc f) zero (c ∷ s) hf hg = absurd (omega arith)
  loop_fuel (suc f) (suc g) (c ∷ s) hf hg =
      let shorter = suffix-le s _ (step-IsSuffix t rewrites c s) in
      let (out, e) = loop_total t rewrites g (rewrite_step t rewrites c s).1 (omega arith) in
      loop_cons t rewrites f c s out (loop_fuel f g _ (omega arith) (omega arith) ∙ e)
      ∙ sym (loop_cons t rewrites g c s out e)

  target :
      (schema name repl rest : Str)
      → schema ≢ []
      → name ≢ []
      → lookup (seq_ref_key schema name) rewrites ≡ some repl
      → (literal_cast_type t rest ≡ bytes "regclass") ⊎ (literal_cast_type t rest ≡ bytes "text")
      → rewrite_target t rewrites (render_qualified_ident schema name) rest ≡ some repl
  unfolding rewrite_target replacement
  target schema name repl rest ns nn h (inl e) = rw (e, parse-render t schema name ns nn) h
  target schema name repl rest ns nn h (inr e) = rw (e, parse-render t schema name ns nn) h

  step_hit :
      (schema name repl rest : Str)
      → NotAhead b'\'' rest
      → rewrite_target t rewrites (render_qualified_ident schema name) rest ≡ some repl
      → rewrite_step t rewrites b'\''
          (double b'\'' (render_qualified_ident schema name) ++ (b'\'' ∷ rest))
        ≡ (render_literal repl, rest)
  unfolding rewrite_step literal_text literal_rest
  step_hit schema name repl rest h e =
      rw (scan_quoted-double b'\'' (render_qualified_ident schema name) rest h, rewrite_step)
        (rw (e, literal_text) refl)

  hit_loop :
      (schema name repl rest out : Str)
      → NotAhead b'\'' rest
      → rewrite_target t rewrites (render_qualified_ident schema name) rest ≡ some repl
      → rewrite_loop t rewrites (length rest) rest ≡ some out
      → rewrite_loop t rewrites (length (named schema name rest)) (named schema name rest)
        ≡ some (render_literal repl ++ out)
  hit_loop schema name repl rest out h e r =
      let body = double b'\'' (render_qualified_ident schema name) ++ (b'\'' ∷ rest) in
      let step = step_hit schema name repl rest h e in
      let enough : length rest ≤ length body =
        omega (
          arith,
          length-append (double b'\'' (render_qualified_ident schema name)) (b'\'' ∷ rest),
        ) in
      loop_cons t rewrites (length body) b'\'' body out (
        ap (λ (x : Str × Str). rewrite_loop t rewrites (length body) x.1) step
        ∙ loop_fuel (length body) (length rest) rest enough (omega arith)
        ∙ r)
      ∙ ap (λ (x : Str × Str). some (x.0 ++ out)) step

  -- A text that begins with the literal of a sequence, cast to regclass or to text, whose key has a
  -- replacement: the literal is written again with the replacement's names, quoted as those need,
  -- and what stands behind it is rewritten as on its own. This holds for all non-empty schema and
  -- name, whatever bytes they hold, and a replacement whose schema has no NUL byte.
  pub rewrite_sequence_refs_hit :
      (schema name to_schema to_name rest : Str)
      → schema ≢ []
      → name ≢ []
      → NoNul to_schema
      → NotAhead b'\'' rest
      → lookup (seq_ref_key schema name) rewrites ≡ some (seq_ref_key to_schema to_name)
      → (literal_cast_type t rest ≡ bytes "regclass") ⊎ (literal_cast_type t rest ≡ bytes "text")
      → (out : Str) × (rewrite_loop t rewrites (length rest) rest ≡ some out)
        × (rewrite_sequence_refs t rewrites (named schema name rest)
            ≡ some (named to_schema to_name out))
  rewrite_sequence_refs_hit schema name to_schema to_name rest ns nn nul h found typed =
      let (out, e) = loop_total t rewrites (length rest) rest (omega arith) in
      let repl = seq_ref_key to_schema to_name in
      let literal : render_literal repl ++ out ≡ named to_schema to_name out =
        rendered to_schema to_name out nul in
      (
        out,
        e,
        some_rewrites t rewrites (seq_ref_key schema name) repl found (named schema name rest)
              (unfold has_quote in refl)
            ∙ hit_loop schema name repl rest out h (target schema name repl rest ns nn found typed)
                e
            ∙ ap some literal,
      )
