-- ===== src/Marker/Delimiter/Search.antt =====
-- internal/driver/marker.go: the last loop of ChooseFrameDelimiter finds a number that is not
-- taken.
use tablex.Common.{
  [], ℕ, zero, suc, ◌+◌, ◌≤◌, ◌<◌, true, false, List, ◌∷◌, ◌++◌, some, ◌≡◌, ◌≢◌, inl, inr, refl,
  sym, ◌∙◌, arith, Str, bytes, str_eq, str_mem, ite, length, Bool-cases,
}
use mathlib.Core.Logic.{if_pos, if_neg}
use tablex.Marker.Delimiter.{itoa, pick}
use tablex.Marker.Delimiter.Number.{itoa_inj}

-- A list without one occurrence of a text.
remove : Str → List Str → List Str
unfolding str_eq
remove n [] = []
remove n (x ∷ xs) = ite (str_eq x n) xs (x ∷ remove n xs)

length-remove :
    (n : Str) (xs : List Str) → str_mem n xs ≡ true → length (remove n xs) + 1 ≡ length xs
unfolding remove str_mem
length-remove n [] h = cc
length-remove n (x ∷ xs) h = elim (str_eq x n) [
  | yes e ↦ rw (if_pos _ e) (omega arith)
  | no ne ↦
      let h' : str_mem n xs ≡ true = rw (if_neg _ ne) at h in
      rw (if_neg _ ne) (omega (arith, length-remove n xs h'))
]

mem-remove :
    (n m : Str) (xs : List Str) → m ≢ n → str_mem m xs ≡ true → str_mem m (remove n xs) ≡ true
unfolding remove str_mem
mem-remove n m [] ne h = h
mem-remove n m (x ∷ xs) ne h = elim (str_eq x n) [
  | yes e ↦
      let other : x ≢ m = λ f. ne (sym f ∙ e) in
      let h' : str_mem m xs ≡ true = rw (if_neg _ other) at h in rw (if_pos _ e) h'
  | no nx ↦ rw (if_neg _ nx) (elim (str_eq x m) [
    | yes f ↦ rw (if_pos _ f) refl
    | no nf ↦
        let h' : str_mem m xs ≡ true = rw (if_neg _ nf) at h in
        rw (if_neg _ nf) (mem-remove n m xs ne h')
  ])
]

-- If the taken numbers from i on are fewer than the rounds, one of the rounds finds a free one.
pick_finds :
    (fuel : ℕ) (ns left : List Str) (i : ℕ)
    → ((j : ℕ) → i ≤ j → str_mem (itoa j) ns ≡ true → str_mem (itoa j) left ≡ true)
    → length left < fuel
    → (n : ℕ) × (n < i + fuel)
      × (i ≤ n)
      × (str_mem (itoa n) ns ≡ false)
      × (pick fuel ns i ≡ some (bytes "$$" ++ (itoa n ++ bytes "$$")))
unfolding pick
pick_finds zero ns left i h l = absurd (omega (arith, l))
pick_finds (suc fuel) ns left i h l = elim (Bool-cases (str_mem (itoa i) ns)) [
  | inr free ↦ (i, omega arith, omega arith, free, rw (free, pick) refl)
  | inl taken ↦
      let there = h i (omega arith) taken in
      let (n, below, above, free, e) =
        pick_finds fuel ns (remove (itoa i) left) (suc i)
          (λ j le m.
            mem-remove (itoa i) (itoa j) left (λ f. absurd (omega (arith, itoa_inj j i f, le)))
              (h j (omega (arith, le)) m))
          (omega (arith, length-remove (itoa i) left there)) in
      (n, omega arith, omega arith, free, rw (taken, pick) e)
]

pub pick_lem :
    (ns : List Str)
    → (n : ℕ) × (n ≤ length ns + 1)
      × (str_mem (itoa n) ns ≡ false)
      × (pick (length ns + 1) ns 1 ≡ some (bytes "$$" ++ (itoa n ++ bytes "$$")))
pick_lem ns =
    let (n, below, above, free, e) =
      pick_finds (length ns + 1) ns ns 1 (λ j le h. h) (omega arith) in
    (n, omega arith, free, e)
