-- ===== src/Csv/ReadBack.antt =====
-- encoding/csv: records that are written are read back.
use tablex.Common.{
  [], ℕ, Bool, true, false, ◌||◌, List, ◌∷◌, ◌++◌, Option, none, some, if◌then◌else◌, ◌==◌, ◌≡◌, ◌≢◌,
  ◌⊎◌, inl, inr, refl, sym, ◌∙◌, ap, arith, Str, Bool-cases, All, map, append_assoc, append-nil,
}
use tablex.Csv.Records.{
  is_special, has_special, field_needs_quotes, write_field, write_fields, write_csv, normal_lines,
  at_record, at_field, in_plain, in_quoted, behind_quote, Out, ended, fields, to_records, add_char, next_field, end_record, scan, read_csv,
}
use tablex.Text.{Tables, double}
use tablex.Text.Split.{Free, Free-append}

-- A field of plain bytes.
abbrev pub IsPlain : Str → Type 0
IsPlain [] = Unit {0}
IsPlain (c ∷ s) = (c == b',' ≡ false) × (c == b'"' ≡ false) × (c == 10 ≡ false) × IsPlain s

plain_of : (s : Str) → has_special s ≡ false → IsPlain s
plain_of [] h = tt
plain_of (c ∷ s) h = (ground arith, ground arith, ground arith, plain_of s (ground arith))

unquoted-IsPlain : (t : Tables) (s : Str) → field_needs_quotes t s ≡ false → IsPlain s
unfolding field_needs_quotes
unquoted-IsPlain t [] h = tt
unquoted-IsPlain t (c ∷ s) h = plain_of (c ∷ s) (ground arith)

-- What ends a field.
pub data Ending : Type 0 where
  comma newline : Ending

abbrev pub ending : Ending → Str → Str
ending comma s = b',' ∷ s
ending newline s = 10 ∷ s

abbrev pub behind : Ending → Str → Out
behind comma s = next_field (scan at_field s)
behind newline s = end_record (scan at_record s)

abbrev add_all : Str → Out → Out
add_all [] o = o
add_all (c ∷ w) o = add_char c (add_all w o)

add_all-fields :
    (w f : Str) (fs : List Str) (more : List (Option (List Str)))
    → add_all w (fields f fs more) ≡ fields (w ++ f) fs more
add_all-fields [] f fs more = refl
add_all-fields (c ∷ w) f fs more = ap (add_char c) (add_all-fields w f fs more)

plain_end : (e : Ending) (s : Str) → scan in_plain (ending e s) ≡ behind e s
unfolding scan
plain_end comma s = refl
plain_end newline s = refl

quoted_end : (e : Ending) (s : Str) → scan behind_quote (ending e s) ≡ behind e s
unfolding scan
quoted_end comma s = refl
quoted_end newline s = refl

plain_run :
    (w tail : Str)
    → IsPlain w
    → scan in_plain (w ++ tail) ≡ add_all w (scan in_plain tail)
unfolding scan
plain_run [] tail h = refl
plain_run (c ∷ w) tail (no_comma, no_quote, no_line, h) =
    rw (scan, no_line, no_comma, no_quote) (ap (add_char c) (plain_run w tail h))

quoted_run :
    (f tail : Str)
    → scan in_quoted (double b'"' f ++ (b'"' ∷ tail)) ≡ add_all f (scan behind_quote tail)
unfolding scan double
quoted_run [] tail = refl
quoted_run (c ∷ f) tail = elim (Bool-cases (c == b'"')) [
  | inl e ↦
      let same : c ≡ b'"' = ground arith in
      rw same (ap (add_char b'"') (quoted_run f tail))
  | inr e ↦ rw (double, e) (rw (scan, e) (ap (add_char c) (quoted_run f tail)))
]

-- What may stand in front of what ends a record's first field: only a comma ends an empty one.
abbrev Starts : Ending → Str → Type 0
Starts comma f = Unit
Starts newline [] = ⊥
Starts newline (c ∷ f) = Unit

plain_first :
    (c : ℕ) (w s : Str) (e : Ending)
    → IsPlain (c ∷ w)
    → (scan at_field (c ∷ (w ++ ending e s)) ≡ add_all (c ∷ w) (behind e s))
      × (scan at_record (c ∷ (w ++ ending e s)) ≡ add_all (c ∷ w) (behind e s))
unfolding scan
plain_first c w s e (no_comma, no_quote, no_line, h) =
    let go : scan in_plain (w ++ ending e s) ≡ add_all w (behind e s) =
      plain_run w (ending e s) h ∙ ap (add_all w) (plain_end e s) in
    (
      rw (scan, no_line, no_quote, no_comma) (ap (add_char c) go),
      rw (scan, no_line, no_quote, no_comma) (ap (add_char c) go),
    )

quoted_field :
    (f s : Str) (e : Ending)
    → scan in_quoted ((double b'"' f ++ b'"' ∷ []) ++ ending e s) ≡ add_all f (behind e s)
quoted_field f s e = rw (append_assoc (double b'"' f) (b'"' ∷ []) (ending e s))
    (quoted_run f (ending e s) ∙ ap (add_all f) (quoted_end e s))

normal_lines-Free : (s : Str) → Free 13 s → normal_lines s ≡ s
unfolding normal_lines
normal_lines-Free [] h = refl
normal_lines-Free (c ∷ []) (n, h) = rw n refl
normal_lines-Free (c ∷ d ∷ s) (n, h) = rw n (ap (◌∷◌ c) (normal_lines-Free (d ∷ s) h))

double-Free : (f : Str) → Free 13 f → Free 13 (double b'"' f)
unfolding double
double-Free [] h = tt
double-Free (c ∷ f) (n, h) = elim (Bool-cases (c == b'"')) [
  | inl q ↦ rw (double, q) (refl, (refl, double-Free f h))
  | inr q ↦ rw (double, q) (n, double-Free f h)
]

-- A record that is not written as a blank line, which would be skipped.
abbrev pub IsWritten : List Str → Type 0
IsWritten [] = ⊥
IsWritten ([] ∷ []) = ⊥
IsWritten ((c ∷ f) ∷ []) = Unit
IsWritten (f ∷ g ∷ fs) = Unit

module _ (t : Tables) where
  field_read :
      (f s : Str) (e : Ending)
      → (scan at_field (write_field t f ++ ending e s) ≡ add_all f (behind e s))
        × (Starts e f → scan at_record (write_field t f ++ ending e s) ≡ add_all f (behind e s))
  unfolding write_field scan
  field_read f s e = elim (Bool-cases (field_needs_quotes t f)) [
    | inl q ↦ rw (write_field, q) (quoted_field f s e, λ h. quoted_field f s e)
    | inr p ↦ rw (write_field, p) (bare f e (unquoted-IsPlain t f p))
  ]
    where
      bare :
          (w : Str) (e : Ending)
          → IsPlain w
          → (scan at_field (w ++ ending e s) ≡ add_all w (behind e s))
            × (Starts e w → scan at_record (w ++ ending e s) ≡ add_all w (behind e s))
      bare [] comma h = (refl, λ k. refl)
      bare [] newline h = (refl, λ k. absurd k)
      bare (c ∷ w) e h = let (a, b) = plain_first c w s e h in (a, λ k. b)

  fields_read :
      (f : Str) (fs : List Str) (s : Str)
      → scan at_field (write_fields t (f ∷ fs) ++ 10 ∷ s)
        ≡ fields f fs (to_records (scan at_record s))
  unfolding write_fields
  fields_read f [] s =
      (field_read f s newline).0
      ∙ add_all-fields f [] [] (to_records (scan at_record s))
      ∙ ap (λ (w : Str). fields w [] (to_records (scan at_record s))) (append-nil f)
  fields_read f (g ∷ fs) s =
      let more = to_records (scan at_record s) in
      rw (append_assoc (write_field t f) (b',' ∷ write_fields t (g ∷ fs)) (10 ∷ s)) (
          (field_read f (write_fields t (g ∷ fs) ++ 10 ∷ s) comma).0
          ∙ ap (λ (o : Out). add_all f (next_field o)) (fields_read g fs s)
          ∙ add_all-fields f [] (g ∷ fs) more
          ∙ ap (λ (w : Str). fields w (g ∷ fs) more) (append-nil f))

  record_read :
      (r : List Str) (s : Str)
      → IsWritten r
      → to_records (scan at_record (write_fields t r ++ 10 ∷ s))
        ≡ some r ∷ to_records (scan at_record s)
  unfolding write_fields
  record_read [] s h = absurd h
  record_read ([] ∷ []) s h = absurd h
  record_read ((c ∷ f) ∷ []) s h =
      let more = to_records (scan at_record s) in
      ap to_records ((field_read (c ∷ f) s newline).1 tt ∙ add_all-fields (c ∷ f) [] [] more)
      ∙ ap (λ (w : Str). some (w ∷ []) ∷ more) (append-nil (c ∷ f))
  record_read (f ∷ g ∷ fs) s h =
      let more = to_records (scan at_record s) in
      rw (append_assoc (write_field t f) (b',' ∷ write_fields t (g ∷ fs)) (10 ∷ s)) (
          ap to_records
            ((field_read f (write_fields t (g ∷ fs) ++ 10 ∷ s) comma).1 tt
              ∙ ap (λ (o : Out). add_all f (next_field o)) (fields_read g fs s)
              ∙ add_all-fields f [] (g ∷ fs) more)
          ∙ ap (λ (w : Str). some (w ∷ g ∷ fs) ∷ more) (append-nil f))

  records_read :
      (rs : List (List Str))
      → All IsWritten rs
      → to_records (scan at_record (write_csv t rs)) ≡ map some rs
  unfolding write_csv scan
  records_read [] h = refl
  records_read (r ∷ rs) (h, hs) =
      record_read r (write_csv t rs) h ∙ ap (◌∷◌ (some r)) (records_read rs hs)

  write_field-Free : (f : Str) → Free 13 f → Free 13 (write_field t f)
  unfolding write_field
  write_field-Free f h = elim (Bool-cases (field_needs_quotes t f)) [
    | inl q ↦
        rw (write_field, q) (refl, Free-append 13 (double b'"' f) (b'"' ∷ []) (double-Free f h)
          (refl, tt))
    | inr p ↦ rw (write_field, p) h
  ]

  write_fields-Free : (r : List Str) → All (Free 13) r → Free 13 (write_fields t r)
  unfolding write_fields
  write_fields-Free [] h = tt
  write_fields-Free (f ∷ []) (h, _) = write_field-Free f h
  write_fields-Free (f ∷ g ∷ fs) (h, hs) =
      Free-append 13 (write_field t f) (b',' ∷ write_fields t (g ∷ fs)) (write_field-Free f h)
        (refl, write_fields-Free (g ∷ fs) hs)

  write_csv-Free : (rs : List (List Str)) → All (All (Free 13)) rs → Free 13 (write_csv t rs)
  unfolding write_csv
  write_csv-Free [] h = tt
  write_csv-Free (r ∷ rs) (h, hs) =
      Free-append 13 (write_fields t r) (10 ∷ write_csv t rs) (write_fields-Free r h)
        (refl, write_csv-Free rs hs)

  pub read_csv-write_csv :
      (rs : List (List Str))
      → All IsWritten rs
      → All (All (Free 13)) rs
      → read_csv (write_csv t rs) ≡ map some rs
  unfolding read_csv
  read_csv-write_csv rs w h =
      ap (λ (s : Str). to_records (scan at_record s))
        (normal_lines-Free (write_csv t rs) (write_csv-Free rs h))
      ∙ records_read rs w
