-- ===== src/Script/Frame/Total.antt =====
-- internal/sqlscript/sqlscript.go: the loop of consumeFrame returns.
use tablex.Common.{
  [], ℕ, zero, suc, ◌+◌, ◌≤◌, ◌<◌, ◌∷◌, ◌++◌, Option, none, some, ◌≡◌, ◌⊎◌, inl, inr, refl, ◌∙◌,
  arith, Str, bytes, str_eq, ite, length,
}
use tablex.Script.{script_line, to_newline}
use tablex.Script.Frame.{
  body_before, frame_turn, frame_loop, frame_body, delimiter_line, consume_frame, then_frame,
  frame_cons,
}

to_newline_le : (s : Str) → length (to_newline s) ≤ length s
unfolding to_newline
to_newline_le [] = omega arith
to_newline_le (c ∷ s) = ground (arith, to_newline_le s)

pub script_line_le : (s : Str) → length (script_line s).1 ≤ length s
unfolding script_line
script_line_le s = to_newline_le s

-- The loop goes on at a shorter text, or the answer's text is no longer.
Shrinks : ℕ → Str ⊎ (Str × Str) → Type 0
Shrinks n (inl following) = length following < n
Shrinks n (inr r) = length r.1 ≤ n

turn-Shrinks :
    (tok start at line eol : Str) (n : ℕ)
    → length eol ≤ n
    → Shrinks n (frame_turn tok start at (line, eol))
unfolding frame_turn Shrinks
turn-Shrinks tok start at line [] n h =
    elim (str_eq line tok)
      as (λ d. Shrinks n (ite d (inr (body_before start at, [])) (inr (start, [])))) [
        | yes _ ↦ omega arith
        | no _ ↦ omega arith
      ]
turn-Shrinks tok start at line (c ∷ eol) n h =
    elim (str_eq line tok) as (λ d. Shrinks n (ite d (inr (body_before start at, eol)) (inl eol))) [
      | yes _ ↦ omega arith
      | no _ ↦ omega arith
    ]

-- A value, whose text is no longer than n.
abbrev Ends : ℕ → Option (Str × Str) → Type 0
Ends n o = (r : Str × Str) × (o ≡ some r) × (length r.1 ≤ n)

loop_total :
    (fuel : ℕ) (tok start at : Str)
    → length at < fuel
    → Ends (length at) (frame_loop fuel tok start at)
loop_total zero tok start at h = absurd (omega arith)
loop_total (suc fuel) tok start at h =
    let (r, e, le) =
      turn_total (λ s k. loop_total fuel tok start s (omega arith))
        (frame_turn tok start at (script_line at))
        (turn-Shrinks tok start at (script_line at).0 (script_line at).1 (length at)
          (script_line_le at)) in
    (r, frame_cons fuel tok start at ∙ e, le)
  where
    turn_total :
        ((s : Str) → length s < length at → Ends (length s) (frame_loop fuel tok start s))
        → (o : Str ⊎ (Str × Str)) → Shrinks (length at) o
        → Ends (length at) (then_frame fuel tok start o)
    turn_total ih (inl s) k =
        let (r, e, le) = ih s (unfold Shrinks in k) in
        let lt : length s < length at = unfold Shrinks in k in (r, e, omega arith)
    turn_total ih (inr r) k = (r, refl, unfold Shrinks in k)

-- The text behind a frame is shorter than what is behind its marker line.
abbrev pub EndsFrame : ℕ → Option (Str × Str) → Type 0
EndsFrame n none = Unit {0}
EndsFrame n (some r) = length r.1 < n

abbrev pub FrameAnswer : ℕ → Option (Option (Str × Str)) → Type 0
FrameAnswer n a = (o : Option (Str × Str)) × (a ≡ some o) × EndsFrame n o

body_total : (tok eol : Str) (n : ℕ) → length eol < n → FrameAnswer n (frame_body tok eol)
unfolding frame_body
body_total tok [] n h = (some ([], []), refl, h)
body_total tok (c ∷ start) n h =
    let (r, e, le) = loop_total (length start + 1) tok start start (omega arith) in
    (some r, rw (e, frame_body) refl, omega arith)

pub consume_frame-FrameAnswer : (tok s : Str) → FrameAnswer (length s) (consume_frame tok s)
unfolding consume_frame delimiter_line
consume_frame-FrameAnswer tok [] = (none, refl, tt)
consume_frame-FrameAnswer tok (c ∷ s) =
    elim (str_eq (script_line s).0 (bytes "DELIMITER " ++ tok))
      as (λ d.
        FrameAnswer (length (c ∷ s)) (ite d (frame_body tok (script_line s).1) (some none))) [
          | yes _ ↦ body_total tok (script_line s).1 _ (omega (arith, script_line_le s))
          | no _ ↦ (none, refl, tt)
        ]

-- consumeFrame returns for every text, one whose frame is cut off included.
pub consume_frame_total : (tok s : Str) → (o : Option (Str × Str)) × (consume_frame tok s ≡ some o)
consume_frame_total tok s = let (o, e, _) = consume_frame-FrameAnswer tok s in (o, e)
