-- ===== src/Marker/Delimiter.antt =====
-- internal/driver/marker.go: ChooseFrameDelimiter.
pub mod Number
pub mod Search
pub mod Fresh
use tablex.Common.{
  [], ℕ, zero, suc, ◌+◌, ◌/◌, ◌%◌, Bool, true, false, List, ◌∷◌, ◌++◌, Option, none, some,
  if◌then◌else◌, ltb, ◌==◌, ◌&&◌, Str, bytes, str_mem, length,
}
use tablex.Text.{within, contains}

-- `strconv.Itoa` on fuel.
pub decimal : ℕ → ℕ → Str
decimal zero n = []
decimal (suc fuel) n = elim (ltb n 10) [
  | true ↦ (b'0' + n) ∷ []
  | false ↦ decimal fuel (n / 10) ++ (b'0' + n % 10) ∷ []
]

pub itoa : ℕ → Str
unfolding decimal
itoa n = decimal (n + 1) n

abbrev pub digit_byte : ℕ → Bool
digit_byte c = within b'0' b'9' c

-- The digits at the front, no more than n of them, and the text behind.
abbrev pub add_digit : ℕ → Str × Str → Str × Str
add_digit c (ds, rest) = (c ∷ ds, rest)

pub digit_run : ℕ → Str → Str × Str
digit_run zero s = ([], s)
digit_run (suc n) [] = ([], [])
digit_run (suc n) (c ∷ s) = elim (digit_byte c) [
  | true ↦ add_digit c (digit_run n s)
  | false ↦ ([], c ∷ s)
]

abbrev pub closed_number : Str × Str → Option Str
closed_number (d ∷ ds, a ∷ b ∷ rest) = if a == b'$' && b == b'$' then some (d ∷ ds) else none
closed_number _ = none

-- The number of a $$<digits>$$ token, behind its first two bytes: j - i is at most 16, so there are
-- no more than 15 digits.
pub number_at : Str → Option Str
unfolding digit_run
number_at s = closed_number (digit_run 15 s)

abbrev pub add_number : Option Str → List Str → List Str
add_number none ns = ns
add_number (some n) ns = n ∷ ns

-- The numbers of the tokens in the body: the scan stops with less than four bytes.
pub occupied : Str → List Str
unfolding number_at
occupied (a ∷ b ∷ c ∷ d ∷ s) =
    let ns = occupied (b ∷ c ∷ d ∷ s) in
    if a == b'$' && b == b'$' then add_number (number_at (c ∷ d ∷ s)) ns else ns
occupied _ = []

-- The last loop, on fuel.
pub pick : ℕ → List Str → ℕ → Option Str
unfolding itoa str_mem
pick zero ns i = none
pick (suc fuel) ns i = elim (str_mem (itoa i) ns) [
  | true ↦ pick fuel ns (suc i)
  | false ↦ some (bytes "$$" ++ (itoa i ++ bytes "$$"))
]

-- The first loop, with what follows it.
pub first_absent : List Str → Str → Option Str → Option Str
unfolding contains
first_absent [] body other = other
first_absent (cand ∷ cands) body other = elim (contains body cand) [
  | true ↦ first_absent cands body other
  | false ↦ some cand
]

abbrev pub candidates : List Str
candidates = bytes "$$" ∷ bytes ";;" ∷ bytes "@@" ∷ bytes "//" ∷ []

-- none stands for fuel that ran out.
pub choose_frame_delimiter : Str → Option Str
unfolding occupied pick first_absent
choose_frame_delimiter body =
    first_absent candidates body (pick (length (occupied body) + 1) (occupied body) 1)
