-- ===== src/Script/Frame.antt =====
-- internal/sqlscript/sqlscript.go: opaque frames (consumeFrame). The outer none stands for fuel
-- that ran out, the inner one for ok = false.
pub mod Verbatim
pub mod Total
use tablex.Common.{
  [], ℕ, zero, suc, ◌+◌, ◌-◌, ◌∷◌, ◌++◌, Option, none, some, ◌≡◌, ◌⊎◌, inl, inr, refl, Str, bytes,
  str_eq, ite, length, take,
}
use tablex.Script.{script_line}

-- The body between the start of the frame and the line that begins at `at`, without the newline in
-- front of that line.
abbrev pub body_before : Str → Str → Str
body_before start at = take (length start - length at - 1) start

abbrev pub behind_line : Str → Str
behind_line [] = []
behind_line (c ∷ s) = s

-- One round, at the line that begins at `at`, with its text and the text from its newline on: the
-- start of the following line, or the answer.
pub frame_turn : Str → Str → Str → Str × Str → Str ⊎ (Str × Str)
unfolding str_eq
frame_turn tok start at (line, eol) =
    ite (str_eq line tok) (inr (body_before start at, behind_line eol))
      (elim eol [ [] ↦ inr (start, []) | c ∷ following ↦ inl following ])

-- The loop over the lines from `at` on.
pub frame_loop : ℕ → Str → Str → Str → Option (Str × Str)
unfolding script_line frame_turn
frame_loop zero tok start at = none
frame_loop (suc fuel) tok start at = elim (frame_turn tok start at (script_line at)) [
  | inl following ↦ frame_loop fuel tok start following
  | inr r ↦ some r
]

-- Behind the DELIMITER line.
pub frame_body : Str → Str → Option (Option (Str × Str))
unfolding frame_loop
frame_body tok [] = some (some ([], []))
frame_body tok (c ∷ start) = elim (frame_loop (length start + 1) tok start start) [
  | none ↦ none
  | some r ↦ some (some r)
]

-- Behind the marker line.
pub delimiter_line : Str → Str × Str → Option (Option (Str × Str))
unfolding str_eq frame_body
delimiter_line tok (line, eol) =
    ite (str_eq line (bytes "DELIMITER " ++ tok)) (frame_body tok eol) (some none)

-- The frame whose marker line ends where the text begins.
unfoldable pub consume_frame : Str → Str → Option (Option (Str × Str))
unfolding script_line delimiter_line
consume_frame tok [] = some none
consume_frame tok (c ∷ s) = delimiter_line tok (script_line s)

abbrev pub then_frame : ℕ → Str → Str → Str ⊎ (Str × Str) → Option (Str × Str)
then_frame fuel tok start (inl following) = frame_loop fuel tok start following
then_frame fuel tok start (inr r) = some r

pub frame_cons :
    (fuel : ℕ) (tok start at : Str)
    → frame_loop (suc fuel) tok start at
      ≡ then_frame fuel tok start (frame_turn tok start at (script_line at))
unfolding frame_loop
frame_cons fuel tok start at = by_turn (frame_turn tok start at (script_line at))
  where
    by_turn :
        (o : Str ⊎ (Str × Str))
        → elim o [ inl following ↦ frame_loop fuel tok start following | inr r ↦ some r ]
          ≡ then_frame fuel tok start o
    by_turn (inl following) = refl
    by_turn (inr r) = refl
