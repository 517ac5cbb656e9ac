-- ===== src/Script/Total.antt =====
-- internal/sqlscript/sqlscript.go: the classification of a statement returns.
use tablex.Common.{
  [], ℕ, zero, suc, ◌+◌, ◌-◌, ◌≤◌, ◌<◌, Bool, true, false, not, ◌&&◌, ◌||◌, ◌∷◌, ◌++◌, Option, none,
  some, ◌==◌, ◌≡◌, inl, inr, refl, arith, Str, length, Bool-cases, Option-cases,
}
use tablex.Text.{
  Tables, trim_space, trim_left, trim_right, all_ascii, cut_prefix, upto, to_upper, decode_rune,
}
use tablex.Script.{
  LexerProfile, skip_string_literal, skip_block_comment, dollar_tag, behind_tag, skip_dollar_quoted,
  to_newline, behind_newline, is_letter, is_digit,
}
use tablex.Script.Query.{
  dollar_step, pair_step, skeleton_step, skeleton_loop, stmt_skeleton, front_pair, front_comment,
  strip_comments, strip_leading_comments, classify, classify_stmt, is_query, backslash_in,
  back_from,
}

pub to_newline_le : (s : Str) → length (to_newline s) ≤ length s
unfolding to_newline
to_newline_le [] = omega arith
to_newline_le (c ∷ s) = ground (arith, to_newline_le s)

pub behind_newline_le : (s : Str) → length (behind_newline s) ≤ length s
unfolding behind_newline
behind_newline_le [] = omega arith
behind_newline_le (c ∷ s) = ground (arith, behind_newline_le s)

pub skip_string_literal_le :
    (q : ℕ) (b : Bool) (s : Str) → length (skip_string_literal q b s) ≤ length s
unfolding skip_string_literal
skip_string_literal_le q b [] = omega arith
skip_string_literal_le q b (c ∷ []) = omega arith
skip_string_literal_le q b (c ∷ d ∷ s) =
    ground (arith, skip_string_literal_le q b s, skip_string_literal_le q b (d ∷ s))

pub skip_block_comment_le :
    (nested : Bool) (depth : ℕ) (s : Str) → length (skip_block_comment nested depth s) ≤ length s
unfolding skip_block_comment
skip_block_comment_le nested depth [] = omega arith
skip_block_comment_le nested depth (c ∷ []) = omega arith
skip_block_comment_le nested zero (c ∷ d ∷ s) =
    ground (arith, skip_block_comment_le nested 1 s, skip_block_comment_le nested 0 (d ∷ s))
skip_block_comment_le nested (suc depth) (c ∷ d ∷ s) = ground (
  arith,
  skip_block_comment_le nested (suc (suc depth)) s,
  skip_block_comment_le nested depth s,
  skip_block_comment_le nested (suc depth) (d ∷ s),
)

pub cut_prefix_le : (p s rest : Str) → cut_prefix p s ≡ some rest → length rest ≤ length s
unfolding cut_prefix
cut_prefix_le [] s rest e = ground arith
cut_prefix_le (a ∷ p) [] rest e = cc
cut_prefix_le (a ∷ p) (c ∷ s) rest e = ground (arith, cut_prefix_le p s rest)

behind_tag_le : (tag s : Str) → length (behind_tag tag s) ≤ length s
unfolding behind_tag
behind_tag_le tag [] = omega arith
behind_tag_le tag (c ∷ s) = elim (Option-cases (cut_prefix tag (c ∷ s))) [
  | inl e ↦ rw (e, behind_tag) (omega (arith, behind_tag_le tag s))
  | inr (rest, e) ↦ rw (e, behind_tag) (cut_prefix_le tag (c ∷ s) rest e)
]

dollar_tag_le :
    (t : Tables) (skip : ℕ) (first : Bool) (s rest : Str)
    → dollar_tag t skip first s ≡ some rest
    → length rest ≤ length s
unfolding dollar_tag
dollar_tag_le t skip first [] rest e = cc
dollar_tag_le t (suc skip) first (c ∷ s) rest e = omega (arith, dollar_tag_le t skip first s rest e)
dollar_tag_le t zero first (c ∷ s) rest e =
    let r = (decode_rune (c ∷ s)).0 in
    let k = (decode_rune (c ∷ s)).1 - 1 in
    elim (Bool-cases (r == b'$')) [
      | inl f ↦ let g : some s ≡ some rest = rw (f, dollar_tag) at e in ground arith
      | inr f ↦ elim (Bool-cases (r == b'_' || is_letter t r || (not first && is_digit t r))) [
        | inl w ↦
            let g : dollar_tag t k false s ≡ some rest = rw (f, w, dollar_tag) at e in
            omega (arith, dollar_tag_le t k false s rest g)
        | inr w ↦ absurd (let g : none ≡ some rest = rw (f, w, dollar_tag) at e in cc)
      ]
    ]

pub skip_dollar_quoted_le :
    (t : Tables) (s rest : Str) → skip_dollar_quoted t s ≡ some rest → length rest ≤ length s
unfolding skip_dollar_quoted
skip_dollar_quoted_le t s rest e = elim (Option-cases (dollar_tag t 0 true s)) [
  | inl f ↦ absurd (let g : none ≡ some rest = rw (f, skip_dollar_quoted) at e in cc)
  | inr (behind, f) ↦
      let tag = dollar_tag_le t 0 true s behind f in
      let found = behind_tag_le (b'$' ∷ upto s behind) behind in
      let g : some (behind_tag (b'$' ∷ upto s behind) behind) ≡ some rest =
        rw (f, skip_dollar_quoted) at e in
      ground arith
]

module _ (t : Tables) (p : LexerProfile) where
  dollar_step_le :
      (s : Str) (o : Option Str)
      → ((rest : Str) → o ≡ some rest → length rest ≤ length s)
      → length (dollar_step t p s o).1 ≤ length s
  unfolding dollar_step
  dollar_step_le s none h = omega arith
  dollar_step_le s (some rest) h = h rest refl

  pair_step_le : (c : ℕ) (s : Str) → length (pair_step t p c s).1 ≤ length s
  unfolding pair_step
  pair_step_le c [] = omega arith
  pair_step_le c (d ∷ s) =
      ground (arith, to_newline_le (d ∷ s), skip_block_comment_le p.nested_block_comments 0 s)

  skeleton_step_le :
      (before : Str) (c : ℕ) (s : Str) → length (skeleton_step t p before c s).1 ≤ length s
  unfolding skeleton_step
  skeleton_step_le before c s =
      let a = skip_string_literal_le c (backslash_in t p before c) s in
      let b = dollar_step_le s (skip_dollar_quoted t s) (skip_dollar_quoted_le t s) in
      let d = to_newline_le s in let e = pair_step_le c s in ground arith

  skeleton_total :
      (fuel : ℕ) (before s : Str)
      → length s ≤ fuel
      → (out : Str) × (skeleton_loop t p fuel before s ≡ some out)
  unfolding skeleton_loop
  skeleton_total fuel before [] h = ([], refl)
  skeleton_total zero before (c ∷ s) h = absurd (omega arith)
  skeleton_total (suc fuel) before (c ∷ s) h =
      let shorter = skeleton_step_le before c s in
      let (out, e) =
        skeleton_total fuel (back_from (c ∷ before) s (skeleton_step t p before c s).1)
          (skeleton_step t p before c s).1 (omega arith) in
      ((skeleton_step t p before c s).0 ++ out, rw (e, skeleton_loop) refl)

  front_pair_lt : (c : ℕ) (s rest : Str) → front_pair t p c s ≡ some rest → length rest ≤ length s
  unfolding front_pair
  front_pair_lt c [] rest e = cc
  front_pair_lt c (d ∷ s) rest e =
      ground (arith, behind_newline_le s, skip_block_comment_le p.nested_block_comments 0 s)

  front_comment_lt : (s rest : Str) → front_comment t p s ≡ some rest → length rest < length s
  unfolding front_comment
  front_comment_lt [] rest e = cc
  front_comment_lt (c ∷ s) rest e = ground (arith, behind_newline_le s, front_pair_lt c s rest)

trim_left_le : (s : Str) → length (trim_left s) ≤ length s
unfolding trim_left
trim_left_le [] = omega arith
trim_left_le (c ∷ s) = ground (arith, trim_left_le s)

trim_right_le : (s : Str) → length (trim_right s) ≤ length s
unfolding trim_right
trim_right_le [] = omega arith
trim_right_le (c ∷ s) = ground (arith, trim_right_le s)

-- `strings.TrimSpace` takes bytes away: the documented behaviour of Go's answer outside ASCII.
abbrev pub Trims : Tables → Type 0
Trims t = (s : Str) → length (t.trim_text s) ≤ length s

trim_space_le : (t : Tables) → Trims t → (s : Str) → length (trim_space t s) ≤ length s
unfolding trim_space
trim_space_le t trims s = elim (Bool-cases (all_ascii s)) [
  | inl e ↦ rw e (omega (arith, trim_right_le (trim_left s), trim_left_le s))
  | inr e ↦ rw e (trims s)
]

module _ (t : Tables) (trims : Trims t) (p : LexerProfile) where
  pub strip_total :
      (fuel : ℕ) (s : Str) → length s < fuel → (out : Str) × (strip_comments t p fuel s ≡ some out)
  unfolding strip_comments
  strip_total zero s h = absurd (omega arith)
  strip_total (suc fuel) s h = elim (Option-cases (front_comment t p s)) [
    | inl e ↦ (s, rw (e, strip_comments) refl)
    | inr (rest, e) ↦
        let shorter = front_comment_lt t p s rest e in
        let trimmed = trim_space_le t trims rest in
        rw (e, strip_comments) (strip_total fuel (trim_space t rest) (omega arith))
  ]

  classify_total : (s : Str) → (b : Bool) × (classify_stmt t p s ≡ some b)
  unfolding classify_stmt stmt_skeleton
  classify_total [] = (false, refl)
  classify_total (c ∷ s) =
      let (out, e) = skeleton_total t p (length (c ∷ s)) [] (c ∷ s) (omega arith) in
      (classify t p (to_upper t out), rw (e, classify_stmt) refl)

  -- IsQuery returns an answer for every statement under every profile: neither the loop over the
  -- leading comments nor that of the skeleton runs on. Of Go's TrimSpace outside ASCII this takes
  -- that it adds no bytes.
  pub is_query_total : (stmt : Str) → (b : Bool) × (is_query t p stmt ≡ some b)
  unfolding is_query strip_leading_comments
  is_query_total stmt =
      let start = trim_space t stmt in
      let (rest, e) = strip_total (length start + 1) start (omega arith) in
      let (b, f) = classify_total rest in (b, rw (e, is_query) f)
