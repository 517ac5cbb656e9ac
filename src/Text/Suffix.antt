-- ===== src/Text/Suffix.antt =====
-- Suffixes, which stand for the indexes into a text.
use tablex.Common.{
  ℕ, ◌-◌, ◌≤◌, ◌∷◌, ◌++◌, ◌≡◌, ap, arith, Str, length, length-append, take-length-append,
}
use tablex.Text.{upto}

-- The text in front of a suffix.
abbrev pub IsSuffix : Str → Str → Type 0
IsSuffix rest s = (w : Str) × (s ≡ w ++ rest)

pub upto-append : (s rest : Str) → IsSuffix rest s → upto s rest ++ rest ≡ s
unfolding upto
upto-append s rest (w, e) =
    let n : length s - length rest ≡ length w = omega (arith, ap length e, length-append w rest) in
    rw (n, e) (ap (λ (x : Str). x ++ rest) (take-length-append w rest))

pub suffix-le : (s rest : Str) → IsSuffix rest s → length rest ≤ length s
suffix-le s rest (w, e) = omega (arith, ap length e, length-append w rest)

pub suffix-cons : (c : ℕ) (s rest : Str) → IsSuffix rest s → IsSuffix rest (c ∷ s)
suffix-cons c s rest (w, e) = (c ∷ w, ap (◌∷◌ c) e)
