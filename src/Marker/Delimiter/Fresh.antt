-- ===== src/Marker/Delimiter/Fresh.antt =====
-- internal/driver/marker.go: the delimiter that ChooseFrameDelimiter gives is valid and not in the
-- body.
use tablex.Common.{
  [], ℕ, zero, suc, ◌+◌, ◌≤◌, ◌<◌, true, false, ◌&&◌, List, ◌∷◌, ◌++◌, Option, none, some, leb,
  ◌==◌, ◌≡◌, inl, inr, refl, sym, ap, ◌∙◌, arith, Str, bytes, str_eq, str_mem, length,
  length-append, append_assoc, Bool-cases, Option-cases,
}
use mathlib.Core.Logic.{if_pos, if_neg}
use tablex.Text.Split.{cut_prefix-eq}
use tablex.Text.{contains, cut_prefix}
use tablex.Marker.{valid_frame_delimiter, all_frame, frame_byte}
use tablex.Marker.Delimiter.{
  itoa, digit_run, add_digit, number_at, closed_number, add_number, occupied, pick, first_absent,
  candidates, choose_frame_delimiter,
}
use tablex.Marker.Delimiter.Number.{AreDigits, itoa_digits, pow10}
use tablex.Marker.Delimiter.Search.{pick_lem}

digit_run-digits :
    (n : ℕ) (ds rest : Str)
    → AreDigits ds
    → length ds ≤ n
    → digit_run n (ds ++ (b'$' ∷ rest)) ≡ (ds, b'$' ∷ rest)
unfolding digit_run
digit_run-digits zero [] rest h le = refl
digit_run-digits (suc n) [] rest h le = refl
digit_run-digits zero (d ∷ ds) rest h le = absurd (omega (arith, le))
digit_run-digits (suc n) (d ∷ ds) rest (e, h) le =
    rw (e, digit_run) (ap (add_digit d) (digit_run-digits n ds rest h (omega arith)))

number_at-digits :
    (d : ℕ) (ds rest : Str)
    → AreDigits (d ∷ ds)
    → length (d ∷ ds) ≤ 15
    → number_at ((d ∷ ds) ++ (b'$' ∷ b'$' ∷ rest)) ≡ some (d ∷ ds)
unfolding number_at
number_at-digits d ds rest h le = ap closed_number (digit_run-digits 15 (d ∷ ds) (b'$' ∷ rest) h le)

add_number-mem :
    (n : Str) (o : Option Str) (ns : List Str)
    → str_mem n ns ≡ true
    → str_mem n (add_number o ns) ≡ true
unfolding str_mem
add_number-mem n none ns h = h
add_number-mem n (some m) ns h = elim (str_eq m n) [
  | yes e ↦ rw (if_pos _ e) refl
  | no ne ↦ rw (if_neg _ ne) h
]

occupied_cons :
    (c : ℕ) (n s : Str) → str_mem n (occupied s) ≡ true → str_mem n (occupied (c ∷ s)) ≡ true
unfolding occupied
occupied_cons c n [] h = h
occupied_cons c n (x ∷ []) h = h
occupied_cons c n (x ∷ y ∷ []) h = h
occupied_cons c n (x ∷ y ∷ z ∷ s) h = elim (Bool-cases (c == b'$' && x == b'$')) [
  | inl e ↦ rw e (add_number-mem n (number_at (y ∷ z ∷ s)) (occupied (x ∷ y ∷ z ∷ s)) h)
  | inr e ↦ rw e h
]

-- At a token itself.
occupied_token :
    (c : ℕ) (s n : Str)
    → 0 < length s
    → number_at (c ∷ s) ≡ some n
    → str_mem n (occupied (b'$' ∷ b'$' ∷ c ∷ s)) ≡ true
unfolding occupied str_mem
occupied_token c [] n h e = absurd (omega (arith, h))
occupied_token c (d ∷ s) n h e = rw (e, occupied) (rw (if_pos _ refl) refl)

abbrev token_of : Str → Str
token_of n = bytes "$$" ++ (n ++ bytes "$$")

occupied-contains :
    (d : ℕ) (ds body : Str)
    → AreDigits (d ∷ ds)
    → length (d ∷ ds) ≤ 15
    → contains body (token_of (d ∷ ds)) ≡ true
    → str_mem (d ∷ ds) (occupied body) ≡ true
unfolding contains
occupied-contains d ds [] h le e = let f : false ≡ true = e in cc
occupied-contains d ds (c ∷ s) h le e =
    elim (Option-cases (cut_prefix (token_of (d ∷ ds)) (c ∷ s))) [
      | inl f ↦ occupied_cons c (d ∷ ds) s (occupied-contains d ds s h le (rw (f, contains) at e))
      | inr (rest, f) ↦
          let at_token : c ∷ s ≡ token_of (d ∷ ds) ++ rest =
            cut_prefix-eq (token_of (d ∷ ds)) (c ∷ s) rest f in
          let more : 0 < length (ds ++ (b'$' ∷ b'$' ∷ rest)) =
            omega (arith, length-append ds (b'$' ∷ b'$' ∷ rest)) in
          rw (at_token ∙ ap (λ (x : Str). b'$' ∷ b'$' ∷ d ∷ x) (append_assoc ds (bytes "$$") rest))
            (occupied_token d (ds ++ (b'$' ∷ b'$' ∷ rest)) (d ∷ ds) more
              (number_at-digits d ds rest h le))
    ]

length-occupied : (body : Str) → length (occupied body) ≤ length body
unfolding occupied
length-occupied [] = omega arith
length-occupied (a ∷ []) = omega arith
length-occupied (a ∷ b ∷ []) = omega arith
length-occupied (a ∷ b ∷ c ∷ []) = omega arith
length-occupied (a ∷ b ∷ c ∷ d ∷ s) =
    let ih = length-occupied (b ∷ c ∷ d ∷ s) in
    elim (Bool-cases (a == b'$' && b == b'$')) [
      | inl e ↦ rw e (by_number (number_at (c ∷ d ∷ s)) (occupied (b ∷ c ∷ d ∷ s)) ih)
      | inr e ↦ rw e (omega arith)
    ]
  where
    by_number :
        (o : Option Str) (ns : List Str)
        → length ns ≤ length (b ∷ c ∷ d ∷ s)
        → length (add_number o ns) ≤ length (a ∷ b ∷ c ∷ d ∷ s)
    by_number none ns h = omega arith
    by_number (some n) ns h = omega arith

digits_frame : (ds : Str) → AreDigits ds → all_frame (ds ++ bytes "$$") ≡ true
unfolding all_frame
digits_frame [] h = refl
digits_frame (d ∷ ds) (e, h) =
    let f : frame_byte d ≡ true = ground arith in rw (f, all_frame) (digits_frame ds h)

token_valid :
    (ds : Str) → AreDigits ds → length ds ≤ 12 → valid_frame_delimiter (token_of ds) ≡ true
unfolding valid_frame_delimiter all_frame
token_valid ds h le =
    let l = length-append ds (bytes "$$") in
    let short : leb (length (token_of ds)) 16 ≡ true = ground (arith, l) in
    let some_byte : length (token_of ds) == 0 ≡ false = ground arith in
    rw (some_byte, short, digits_frame ds h) refl

-- What the property says of an answer.
abbrev pub IsFresh : Str → Str → Type 0
IsFresh body tok = (valid_frame_delimiter tok ≡ true) × (contains body tok ≡ false)

pick-IsFresh :
    (body : Str)
    → length body + 1 < pow10 12
    → (tok : Str) × (pick (length (occupied body) + 1) (occupied body) 1 ≡ some tok)
      × IsFresh body tok
pick-IsFresh body h =
    let (n, le, free, e) = pick_lem (occupied body) in
    let (digits, pos, short) = itoa_digits n 11 (omega (arith, length-occupied body, le)) in
    (
      token_of (itoa n),
      e,
      (token_valid (itoa n) digits short, absent (itoa n) digits pos short free),
    )
  where
    absent :
        (ds : Str)
        → AreDigits ds
        → 0 < length ds
        → length ds ≤ 12
        → str_mem ds (occupied body) ≡ false
        → contains body (token_of ds) ≡ false
    absent [] h pos le free = absurd (omega (arith, pos))
    absent (d ∷ ds) h pos le free = elim (Bool-cases (contains body (token_of (d ∷ ds)))) [
      | inr e ↦ e
      | inl e ↦
          let taken = occupied-contains d ds body h (omega arith) e in
          absurd (let f : true ≡ false = sym taken ∙ free in cc)
    ]

abbrev AllValid : List Str → Type 0
AllValid [] = Unit {0}
AllValid (c ∷ cs) = (valid_frame_delimiter c ≡ true) × AllValid cs

first_absent-IsFresh :
    (cands : List Str) (body : Str) (other : Option Str)
    → AllValid cands
    → ((tok : Str) × (other ≡ some tok) × IsFresh body tok)
    → (tok : Str) × (first_absent cands body other ≡ some tok) × IsFresh body tok
unfolding first_absent
first_absent-IsFresh [] body other v h = h
first_absent-IsFresh (cand ∷ cands) body other (c, v) h = elim (Bool-cases (contains body cand)) [
  | inl e ↦ rw (e, first_absent) (first_absent-IsFresh cands body other v h)
  | inr e ↦ rw (e, first_absent) (cand, refl, (c, e))
]

-- ChooseFrameDelimiter returns for every body of fewer than 10^12 - 1 bytes, and its answer is a
-- valid frame delimiter that occurs nowhere in the body, whatever tokens of the form $$<digits>$$
-- the body holds.
pub choose_frame_delimiter-IsFresh :
    (body : Str)
    → length body + 1 < pow10 12
    → (tok : Str) × (choose_frame_delimiter body ≡ some tok) × IsFresh body tok
unfolding choose_frame_delimiter valid_frame_delimiter all_frame
choose_frame_delimiter-IsFresh body h =
    first_absent-IsFresh candidates body (pick (length (occupied body) + 1) (occupied body) 1)
      (refl, (refl, (refl, (refl, tt)))) (pick-IsFresh body h)
