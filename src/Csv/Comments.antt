-- ===== src/Csv/Comments.antt =====
-- internal/dump/csv.go: the comment lines in front of a table (WriteCSV),
-- internal/driver/comment.go: CommentSafe; internal/server/handlers/importer.go:
-- skipLeadingCSVComments. The loop has fuel, of which a round that goes on needs one; each drops a
-- newline, so the length of the text is enough.
use tablex.Common.{
  [], ℕ, zero, suc, ◌≤◌, ◌<◌, Bool, true, false, ◌||◌, ◌∷◌, ◌++◌, List, Option, none, some, ◌≡◌,
  refl, ◌∙◌, arith, Str, bytes, if◌then◌else◌, ltb, ◌==◌, length, length-append, map, Bool-cases,
  append_assoc, Option-cases, inl, inr,
}
use tablex.Text.{Tables, all_ascii, space_byte, trim_left, trim_right, trim_space, within}
use tablex.Text.Runes.{encode_rune, encode, runes}
use tablex.Text.Split.{Free, Free-append, Free-no_byte}

-- `strings.Map` over the runes.
abbrev pub safe_rune : ℕ → ℕ
safe_rune r = if ltb r 0x20 || r == 0x7f then 0x20 else r

unfoldable pub comment_safe : Str → Str
unfolding runes encode
comment_safe s = encode (map safe_rune (runes s))

pub record TableRef : Type 0 where
  pub schema : Str
  pub table : Str

-- The label of a file's first table.
unfoldable pub labels : TableRef → Str
unfolding comment_safe
labels s = elim s.schema [
  | [] ↦ bytes "# " ++ (comment_safe s.table ++ (10 ∷ []))
  | c ∷ cs ↦
      bytes "# schema: "
      ++ (comment_safe (c ∷ cs)
          ++ (10 ∷ (bytes "# table: " ++ (comment_safe s.table ++ (10 ∷ [])))))
]

-- `strings.Cut(content, "\n")`: none where there is no newline.
abbrev pub with_byte : ℕ → Str × Option Str → Str × Option Str
with_byte c (line, rest) = (c ∷ line, rest)

unfoldable pub cut_line : Str → Str × Option Str
cut_line [] = ([], none)
cut_line (c ∷ s) = let more = cut_line s in if c == 10 then ([], some s) else with_byte c more

abbrev pub has_hash : Str → Bool
has_hash [] = false
has_hash (c ∷ s) = c == b'#'

module _ (t : Tables) where
  unfoldable pub skip_comments : ℕ → Str → Str
  unfolding cut_line trim_space
  skip_comments zero content = content
  skip_comments (suc fuel) content =
      let (line, rest) = cut_line content in
      elim rest [
        | none ↦ if has_hash (trim_space t line) then [] else content
        | some more ↦
            let skipped = skip_comments fuel more in
            if has_hash (trim_space t line) then skipped else content
      ]

  unfoldable pub skip_leading_csv_comments : Str → Str
  unfolding skip_comments
  skip_leading_csv_comments content = skip_comments (suc (length content)) content

cut_line-Free : (w s : Str) → Free 10 w → cut_line (w ++ (10 ∷ s)) ≡ (w, some s)
unfolding cut_line
cut_line-Free [] s f = refl
cut_line-Free (c ∷ w) s (n, f) = rw (n, cut_line-Free w s f) refl

not_newline : (n : ℕ) → 11 ≤ n → n == 10 ≡ false
not_newline n h = ground arith

cut_line_shorter : (s more : Str) → (cut_line s).1 ≡ some more → suc (length more) ≤ length s
unfolding cut_line
cut_line_shorter [] more e = cc
cut_line_shorter (c ∷ s) more e = elim (Bool-cases (c == 10)) [
  | inl n ↦ let e' : some s ≡ some more = rw n at e in ground arith
  | inr n ↦
      let e' : (cut_line s).1 ≡ some more = rw n at e in
      let ih = cut_line_shorter s more e' in omega arith
]

encode_rune-Free : (r : ℕ) → 0x20 ≤ r → Free 10 (encode_rune r)
unfolding encode_rune
encode_rune-Free r h =
    let at : (n : ℕ) → 11 ≤ n → n == 10 ≡ false = not_newline in
    elim (Bool-cases (ltb r 0x80)) [
      | inl a ↦ rw a (at r (omega arith), tt)
      | inr a ↦ elim (Bool-cases (ltb r 0x800)) [
        | inl b ↦ rw (a, b) (at _ (omega arith), (at _ (omega arith), tt))
        | inr b ↦ elim (Bool-cases (within 0xd800 0xdfff r || ltb 0x10ffff r)) [
          | inl c ↦ rw (a, b, c) (refl, (refl, (refl, tt)))
          | inr c ↦ elim (Bool-cases (ltb r 0x10000)) [
            | inl d ↦
                rw (a, b, c, d) (at _ (omega arith), (at _ (omega arith), (at _ (omega arith), tt)))
            | inr d ↦
                rw (a, b, c, d)
                  (
                    at _ (omega arith),
                    (at _ (omega arith), (at _ (omega arith), (at _ (omega arith), tt))),
                  )
          ]
        ]
      ]
    ]

comment_safe-Free : (s : Str) → Free 10 (comment_safe s)
unfolding comment_safe
comment_safe-Free s = all (runes s)
  where
    all : (rs : List ℕ) → Free 10 (encode (map safe_rune rs))
    all [] = tt
    all (r ∷ rs) =
        Free-append 10 (encode_rune (safe_rune r)) _ (encode_rune-Free (safe_rune r) (ground arith))
          (all rs)

-- What `strings.TrimSpace` does not take away: a mark at the front that is no blank.
pub record KeepsHash (t : Tables) : Type 0 where
  pub keeps : (s : Str) → all_ascii s ≡ false → has_hash (t.trim_text (b'#' ∷ s)) ≡ true

trim_right_hash : (s : Str) → has_hash (trim_right (b'#' ∷ s)) ≡ true
unfolding trim_right space_byte
trim_right_hash s = go (trim_right s)
  where
    go :
        (r : Str)
        → has_hash
            (elim r [ [] ↦ if space_byte b'#' then [] else b'#' ∷ [] | d ∷ ds ↦ b'#' ∷ d ∷ ds ])
          ≡ true
    go [] = refl
    go (d ∷ ds) = refl

trim_hash : (t : Tables) (s : Str) → KeepsHash t → has_hash (trim_space t (b'#' ∷ s)) ≡ true
unfolding trim_space trim_left space_byte all_ascii
trim_hash t s k = elim (Bool-cases (all_ascii s)) [
  | inl a ↦ rw a (trim_right_hash s)
  | inr a ↦ rw a (k.keeps s a)
]

module _ (t : Tables) where
  -- Any fuel from the length on gives the same.
  skip_enough :
      (n m : ℕ) (s : Str) → length s < n → length s < m → skip_comments t n s ≡ skip_comments t m s
  unfolding skip_comments
  skip_enough zero m s h k = absurd (omega arith)
  skip_enough (suc n) zero s h k = absurd (omega arith)
  skip_enough (suc n) (suc m) s h k = elim (Option-cases (cut_line s).1) [
    | inl e ↦ rw (skip_comments, e) refl
    | inr (more, e) ↦
        let less = cut_line_shorter s more e in
        rw (skip_comments, e, skip_enough n m more (omega arith) (omega arith)) refl
  ]

  skip_round :
      (content line more : Str) (hash : Bool)
      → cut_line content ≡ (line, some more)
      → has_hash (trim_space t line) ≡ hash
      → skip_leading_csv_comments t content
        ≡ (if hash then skip_comments t (length content) more else content)
  unfolding skip_leading_csv_comments skip_comments
  skip_round content line more hash e h =
      rw (skip_leading_csv_comments, skip_comments, e, e, h) refl

  -- One comment line goes.
  skip_line :
      (line rest : Str)
      → KeepsHash t
      → Free 10 line
      → skip_leading_csv_comments t (b'#' ∷ (line ++ (10 ∷ rest)))
        ≡ skip_leading_csv_comments t rest
  unfolding skip_leading_csv_comments skip_comments
  skip_line line rest k f =
      let cut = cut_line-Free (b'#' ∷ line) rest (refl, f) in
      let more = length-append line (10 ∷ rest) in
      skip_round (b'#' ∷ (line ++ (10 ∷ rest))) (b'#' ∷ line) rest true cut (trim_hash t line k)
      ∙ skip_enough (suc (length (line ++ (10 ∷ rest)))) (suc (length rest)) rest (omega arith)
          (omega arith)

  -- The text behind a line that is no comment.
  skip_done :
      (line rest : Str)
      → Free 10 line
      → has_hash (trim_space t line) ≡ false
      → skip_leading_csv_comments t (line ++ (10 ∷ rest)) ≡ line ++ (10 ∷ rest)
  unfolding skip_leading_csv_comments skip_comments
  skip_done line rest f h =
      skip_round (line ++ (10 ∷ rest)) line rest false (cut_line-Free line rest f) h

  label_skipped :
      (word name rest : Str)
      → KeepsHash t
      → Free 10 word
      → skip_leading_csv_comments t (b'#' ∷ (word ++ (comment_safe name ++ (10 ∷ rest))))
        ≡ skip_leading_csv_comments t rest
  label_skipped word name rest k f = rw (← append_assoc word (comment_safe name) (10 ∷ rest)) (
      skip_line (word ++ comment_safe name) rest k
        (Free-append 10 word (comment_safe name) f (comment_safe-Free name)))

  labels_skipped :
      (scope : TableRef) (text : Str)
      → KeepsHash t
      → skip_leading_csv_comments t (labels scope ++ text) ≡ skip_leading_csv_comments t text
  unfolding labels
  labels_skipped scope text k = go scope.schema scope.table
    where
      go :
          (schema table : Str)
          → skip_leading_csv_comments t (labels (record { schema = schema; table = table }) ++ text)
            ≡ skip_leading_csv_comments t text
      go [] table =
          rw (labels, append_assoc (comment_safe table) (10 ∷ []) text)
            (label_skipped (b' ' ∷ []) table text k (refl, tt))
      go (c ∷ cs) table =
          let rest = bytes "# table: " ++ (comment_safe table ++ (10 ∷ [])) in
          rw
            (
              labels,
              append_assoc (comment_safe (c ∷ cs)) (10 ∷ rest) text,
              append_assoc (comment_safe table) (10 ∷ []) text,
            )
            (label_skipped (bytes " schema: ") (c ∷ cs)
                (bytes "# table: " ++ (comment_safe table ++ (10 ∷ text))) k
                (Free-no_byte 10 (bytes " schema: ") refl)
              ∙ label_skipped (bytes " table: ") table text k
                  (Free-no_byte 10 (bytes " table: ") refl))

  -- Where `strings.TrimSpace` keeps a mark at the front, and whatever the names of the schema and
  -- the table: behind the labels of an export, an import reads on from a first line that is no
  -- comment itself; and a first line that begins with a hash, as a header does whose first column
  -- has such a name, is dropped with them.
  pub skip_leading_csv_comments-labels :
      (scope : TableRef) (line rest : Str)
      → KeepsHash t
      → Free 10 line
      → (has_hash (trim_space t line) ≡ false
          → skip_leading_csv_comments t (labels scope ++ (line ++ (10 ∷ rest)))
            ≡ line ++ (10 ∷ rest))
        × (skip_leading_csv_comments t (labels scope ++ ((b'#' ∷ line) ++ (10 ∷ rest)))
            ≡ skip_leading_csv_comments t rest)
  skip_leading_csv_comments-labels scope line rest k f = (
    λ h. labels_skipped scope (line ++ (10 ∷ rest)) k ∙ skip_done line rest f h,
    labels_skipped scope ((b'#' ∷ line) ++ (10 ∷ rest)) k ∙ skip_line line rest k f,
  )
