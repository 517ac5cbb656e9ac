-- ===== src/Script/Scan/Returns.antt =====
-- internal/sqlscript/sqlscript.go: every round of scanCapped returns, and goes on.
use tablex.Common.{
  [], ◌+◌, Bool, true, false, List, ◌∷◌, Option, none, some, if◌then◌else◌, ◌≡◌, inl, inr, refl,
  arith, Str, bytes, str_eq, ite, length, Option-cases,
}
use tablex.Text.{Tables, trim_space, upto, to_upper}
use tablex.Script.{LexerProfile}
use tablex.Script.Query.{strip_leading_comments}
use tablex.Script.Total.{Trims, strip_total}
use tablex.Script.Scan.{
  Event, stmt, Block, Scanner, ◌>>=◌, open_block, keyword, token, word_token, end_word, flush_text,
  flush, end_statement, deeper, shallower,
}

-- A computation that returns.
abbrev pub Returns : {A : Type 0} → Option A → Type 0
Returns {A} o = (a : A) × (o ≡ some a)

pub Returns-bind :
    {A B : Type 0} (m : Option A) (f : A → Option B)
    → Returns m
    → ((a : A) → Returns (f a))
    → Returns (m >>= f)
Returns-bind m f (a, e) h = rw e (h a)

Returns-if :
    {A : Type 0} (b : Bool) (x y : Option A) → Returns x → Returns y → Returns (if b then x else y)
Returns-if true x y h k = h
Returns-if false x y h k = k

module _ (t : Tables) (trims : Trims t) (p : LexerProfile) where
  strip_leading-Returns : (s : Str) → Returns (strip_leading_comments t p s)
  unfolding strip_leading_comments
  strip_leading-Returns s = strip_total t trims p (length s + 1) s (omega arith)

  module _ (re : Str → Bool) (up start end : Str) where
    open_block-Returns : (b : Block) → Returns (open_block t p re start end b)
    unfolding open_block
    open_block-Returns b =
        Returns-if b.routine_known _ _ (deeper b, refl)
          (Returns-bind (strip_leading_comments t p (trim_space t (upto start end))) _
            (strip_leading-Returns (trim_space t (upto start end))) (λ s. (_, refl)))

    keyword-Returns : (b : Block) → Returns (keyword t p re up start end b)
    unfolding keyword
    keyword-Returns b = Returns-if _ _ _ (open_block-Returns b) (_, refl)

    token-Returns : (b : Block) → Returns (token t p re up start end b)
    unfolding token
    token-Returns b =
        let c = record b { pending_end = false } in
        Returns-if b.pending_end _ _
          (Returns-if _ _ _ (_, refl)
            (elim (str_eq up (bytes "CASE"))
              as (λ d.
                Returns (ite d (some (shallower c)) (keyword t p re up start end (shallower c)))) [
                  | yes _ ↦ (_, refl)
                  | no _ ↦ keyword-Returns (shallower c)
                ]))
          (keyword-Returns b)

  word_token-Returns : (w start end : Str) (b : Block) → Returns (word_token t p w start end b)
  unfolding word_token
  word_token-Returns [] start end b = (b, refl)
  word_token-Returns (c ∷ w) start end b = elim (Option-cases p.routine_body) [
    | inl e ↦ rw (e, word_token) (b, refl)
    | inr (re, e) ↦ rw (e, word_token) (token-Returns re (to_upper t (c ∷ w)) start end b)
  ]

  pub end_word-Returns :
      (w : Option Str) (start end : Str) (b : Block) → Returns (end_word t p w start end b)
  unfolding end_word
  end_word-Returns none start end b = (b, refl)
  end_word-Returns (some from) start end b = word_token-Returns (upto from end) start end b

  flush_text-Returns : (s : Str) → Returns (flush_text t p s)
  unfolding flush_text
  flush_text-Returns [] = ([], refl)
  flush_text-Returns (c ∷ s) =
      let (r, e) = strip_leading-Returns (c ∷ s) in rw (e, flush_text) (by_rest r)
    where
      by_rest :
          (r : Str)
          → Returns (elim r as (λ _. Option (List Event)) [
            | [] ↦ some []
            | d ∷ rest ↦ some (stmt (c ∷ s) ∷ [])
          ])
      by_rest [] = (_, refl)
      by_rest (d ∷ r) = (_, refl)

  pub flush-Returns : (start end : Str) → Returns (flush t p start end)
  unfolding flush
  flush-Returns start end = flush_text-Returns (trim_space t (upto start end))

  pub end_statement-Returns : (k : Scanner) → Returns (end_statement t p k)
  unfolding end_statement
  end_statement-Returns k =
      Returns-bind (end_word t p k.word_start k.start k.at k.block) _
        (end_word-Returns k.word_start k.start k.at k.block) (λ b. flush-Returns k.start k.at)
