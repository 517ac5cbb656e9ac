-- ===== src/Marker/Delimiter/Number.antt =====
-- internal/driver/marker.go: the numbers of the delimiters that ChooseFrameDelimiter makes.
use tablex.Common.{
  [], ℕ, zero, suc, ◌+◌, ◌-◌, ◌*◌, ◌/◌, ◌%◌, ◌≤◌, ◌<◌, true, false, ◌∷◌, ◌++◌, ◌≡◌, inl, inr, refl,
  sym, ap, ◌∙◌, arith, Str, ltb, length, length-append, Bool-cases,
}
use tablex.Marker.Delimiter.{decimal, itoa, digit_byte}

-- The number that digits spell.
value_from : ℕ → Str → ℕ
value_from acc [] = acc
value_from acc (c ∷ s) = value_from (acc * 10 + (c - b'0')) s

value_from-append :
    (acc : ℕ) (s : Str) (c : ℕ) → value_from acc (s ++ c ∷ []) ≡ value_from acc s * 10 + (c - b'0')
unfolding value_from
value_from-append acc [] c = refl
value_from-append acc (d ∷ s) c = value_from-append (acc * 10 + (d - b'0')) s c

decimal_small : (fuel n : ℕ) → n < 10 → decimal (suc fuel) n ≡ (b'0' + n) ∷ []
unfolding decimal
decimal_small fuel n h = let e : ltb n 10 ≡ true = ground arith in rw (e, decimal) refl

decimal_large :
    (fuel n : ℕ) → 10 ≤ n → decimal (suc fuel) n ≡ decimal fuel (n / 10) ++ (b'0' + n % 10) ∷ []
unfolding decimal
decimal_large fuel n h = let e : ltb n 10 ≡ false = ground arith in rw (e, decimal) refl

value-decimal : (fuel n : ℕ) → n < fuel → value_from 0 (decimal fuel n) ≡ n
value-decimal zero n h = absurd (omega (arith, h))
value-decimal (suc fuel) n h = elim (Bool-cases (ltb n 10)) [
  | inl small ↦
      let lt : n < 10 = ground arith in
      rw (decimal_small fuel n lt) (unfold value_from in omega arith)
  | inr large ↦
      let le : 10 ≤ n = ground arith in
      rw (decimal_large fuel n le) (
        value_from-append 0 (decimal fuel (n / 10)) (b'0' + n % 10)
        ∙ omega (arith, value-decimal fuel (n / 10) (omega arith)))
]

-- Different numbers are spelled differently.
pub itoa_inj : (m n : ℕ) → itoa m ≡ itoa n → m ≡ n
unfolding itoa
itoa_inj m n e =
    sym (value-decimal (m + 1) m (omega arith))
    ∙ ap (value_from 0) e
    ∙ value-decimal (n + 1) n (omega arith)

abbrev pub AreDigits : Str → Type 0
AreDigits [] = Unit {0}
AreDigits (c ∷ s) = (digit_byte c ≡ true) × AreDigits s

AreDigits-append : (s : Str) (c : ℕ) → AreDigits s → digit_byte c ≡ true → AreDigits (s ++ c ∷ [])
AreDigits-append [] c h e = (e, tt)
AreDigits-append (d ∷ s) c (f, h) e = (f, AreDigits-append s c h e)

digit_lem : (d : ℕ) → d < 10 → digit_byte (b'0' + d) ≡ true
digit_lem d h = ground arith

decimal-AreDigits : (fuel n : ℕ) → AreDigits (decimal fuel n)
decimal-AreDigits zero n = unfold decimal in tt
decimal-AreDigits (suc fuel) n = elim (Bool-cases (ltb n 10)) [
  | inl small ↦ let lt : n < 10 = ground arith in rw (decimal_small fuel n lt) (digit_lem n lt, tt)
  | inr large ↦
      let le : 10 ≤ n = ground arith in
      rw (decimal_large fuel n le) (
        AreDigits-append (decimal fuel (n / 10)) (b'0' + n % 10) (decimal-AreDigits fuel (n / 10))
          (digit_lem (n % 10) (omega arith)))
]

abbrev pub pow10 : ℕ → ℕ
pow10 zero = 1
pow10 (suc k) = 10 * pow10 k

-- A number below ten to the k has at most k digits, and at least one.
length-decimal :
    (fuel n k : ℕ)
    → n < fuel
    → n < pow10 (suc k)
    → (0 < length (decimal fuel n)) × (length (decimal fuel n) ≤ suc k)
length-decimal zero n k h b = absurd (omega (arith, h))
length-decimal (suc fuel) n k h b = elim (Bool-cases (ltb n 10)) [
  | inl small ↦
      let lt : n < 10 = ground arith in rw (decimal_small fuel n lt) (omega arith, omega arith)
  | inr large ↦
      let le : 10 ≤ n = ground arith in
      rw (decimal_large fuel n le)
        (longer (λ j c. length-decimal fuel (n / 10) j (omega arith) c) k b le)
]
  where
    longer :
        ((j : ℕ)
          → n / 10 < pow10 (suc j)
          → (0 < length (decimal fuel (n / 10))) × (length (decimal fuel (n / 10)) ≤ suc j))
        → (k : ℕ) → n < pow10 (suc k)
        → 10 ≤ n
        → (0 < length (decimal fuel (n / 10) ++ (b'0' + n % 10) ∷ []))
          × (length (decimal fuel (n / 10) ++ (b'0' + n % 10) ∷ []) ≤ suc k)
    longer ih zero b le = absurd (omega (arith, b))
    longer ih (suc k) b le =
        let (pos, short) = ih k (omega arith) in
        let l = length-append (decimal fuel (n / 10)) ((b'0' + n % 10) ∷ []) in
        (omega arith, omega arith)

pub itoa_digits :
    (n k : ℕ)
    → n < pow10 (suc k)
    → AreDigits (itoa n) × (0 < length (itoa n)) × (length (itoa n) ≤ suc k)
unfolding itoa
itoa_digits n k b =
    let (pos, le) = length-decimal (n + 1) n k (omega arith) b in
    (decimal-AreDigits (n + 1) n, pos, le)
