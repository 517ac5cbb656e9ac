-- ===== src/Script/Frame/Verbatim.antt =====
-- internal/sqlscript/sqlscript.go: a frame with its terminator, in consumeFrame.
use tablex.Common.{
  [], ℕ, zero, suc, ◌+◌, ◌-◌, ◌≤◌, ◌<◌, true, List, ◌∷◌, ◌++◌, none, some, ◌≡◌, ◌≢◌, inl, inr, refl,
  sym, ◌∙◌, ap, arith, Str, bytes, str_eq, length, length-append, append_assoc, take-length-append,
}
use mathlib.Core.Logic.{if_pos, if_neg}
use tablex.Text.{upto}
use tablex.Text.Split.{Free, Free-append, Free-no_byte}
use tablex.Marker.{valid_frame_delimiter}
use tablex.Marker.Collation.{valid-Free}
use tablex.Script.{script_line, drop_cr, to_newline}
use tablex.Script.Frame.{
  body_before, frame_turn, frame_loop, frame_body, delimiter_line, consume_frame, then_frame,
  frame_cons,
}

pub to_newline-Free : (l rest : Str) → Free 10 l → to_newline (l ++ (10 ∷ rest)) ≡ 10 ∷ rest
unfolding to_newline
to_newline-Free [] rest h = refl
to_newline-Free (c ∷ l) rest (n, h) = rw (n, to_newline) (to_newline-Free l rest h)

pub upto-line : (l rest : Str) → upto (l ++ rest) rest ≡ l
unfolding upto
upto-line l rest =
    let n : length (l ++ rest) - length rest ≡ length l = omega (arith, length-append l rest) in
    rw n (take-length-append l rest)

pub script_line-Free :
    (l rest : Str) → Free 10 l → script_line (l ++ (10 ∷ rest)) ≡ (drop_cr l, 10 ∷ rest)
unfolding script_line
script_line-Free l rest h =
    rw (to_newline-Free l rest h, script_line) (rw (upto-line l (10 ∷ rest)) refl)

-- A line of the body: it is not the terminator.
abbrev pub IsBodyLine : Str → Str → Type 0
IsBodyLine tok l = Free 10 l × (drop_cr l ≢ tok)

abbrev pub AreBodyLines : Str → List Str → Type 0
AreBodyLines tok [] = Unit {0}
AreBodyLines tok (l ∷ ls) = IsBodyLine tok l × AreBodyLines tok ls

-- Lines, each with its newline.
abbrev pub lines_text : List Str → Str → Str
lines_text [] rest = rest
lines_text (l ∷ ls) rest = l ++ (10 ∷ lines_text ls rest)

loop_line :
    (fuel : ℕ) (tok start l rest : Str)
    → IsBodyLine tok l
    → frame_loop (suc fuel) tok start (l ++ (10 ∷ rest)) ≡ frame_loop fuel tok start rest
unfolding frame_turn
loop_line fuel tok start l rest (h, ne) =
    frame_cons fuel tok start (l ++ (10 ∷ rest))
    ∙ ap (λ (x : Str × Str). then_frame fuel tok start (frame_turn tok start (l ++ (10 ∷ rest)) x))
        (script_line-Free l rest h)
    ∙ ap (then_frame fuel tok start) (
        if_neg (str_eq (drop_cr l) tok) ne (inr (body_before start (l ++ (10 ∷ rest)), rest))
          (inl rest))

loop_end :
    (fuel : ℕ) (tok start rest : Str)
    → Free 10 tok
    → drop_cr tok ≡ tok
    → frame_loop (suc fuel) tok start (tok ++ (10 ∷ rest))
      ≡ some (body_before start (tok ++ (10 ∷ rest)), rest)
unfolding frame_turn
loop_end fuel tok start rest h e =
    let at = tok ++ (10 ∷ rest) in
    frame_cons fuel tok start at
    ∙ ap (λ (x : Str × Str). then_frame fuel tok start (frame_turn tok start at x))
        (script_line-Free tok rest h)
    ∙ ap (then_frame fuel tok start)
        (if_pos (str_eq (drop_cr tok) tok) e (inr (body_before start at, rest)) (inl rest))

-- The loop reaches the terminator behind the lines of the body.
loop_lines :
    (fuel : ℕ) (tok start : Str) (ls : List Str) (rest : Str)
    → Free 10 tok
    → drop_cr tok ≡ tok
    → AreBodyLines tok ls
    → length ls < fuel
    → frame_loop fuel tok start (lines_text ls (tok ++ (10 ∷ rest)))
      ≡ some (body_before start (tok ++ (10 ∷ rest)), rest)
loop_lines zero tok start ls rest h e b enough = absurd (omega arith)
loop_lines (suc fuel) tok start [] rest h e b enough = loop_end fuel tok start rest h e
loop_lines (suc fuel) tok start (l ∷ ls) rest h e (b, bs) enough =
    loop_line fuel tok start l (lines_text ls (tok ++ (10 ∷ rest))) b
    ∙ loop_lines fuel tok start ls rest h e bs (omega arith)

-- The text of the body: its lines without the last newline.
abbrev pub body_text : Str → List Str → Str
body_text l [] = l
body_text l (m ∷ ls) = l ++ (10 ∷ body_text m ls)

lines-body :
    (l : Str) (ls : List Str) (rest : Str)
    → lines_text (l ∷ ls) rest ≡ body_text l ls ++ (10 ∷ rest)
lines-body l [] rest = refl
lines-body l (m ∷ ls) rest =
    ap (λ (x : Str). l ++ (10 ∷ x)) (lines-body m ls rest)
    ∙ sym (append_assoc l (10 ∷ body_text m ls) (10 ∷ rest))

body_before-append : (body at : Str) → body_before (body ++ (10 ∷ at)) at ≡ body
body_before-append body at =
    let n : length (body ++ (10 ∷ at)) - length at - 1 ≡ length body =
      omega (arith, length-append body (10 ∷ at)) in
    rw n (take-length-append body (10 ∷ at))

length-lines : (ls : List Str) (rest : Str) → length ls ≤ length (lines_text ls rest)
length-lines [] rest = omega arith
length-lines (l ∷ ls) rest =
    omega (arith, length-append l (10 ∷ lines_text ls rest), length-lines ls rest)

pub drop_cr-Free : (s : Str) → Free 13 s → drop_cr s ≡ s
unfolding drop_cr
drop_cr-Free [] h = refl
drop_cr-Free (c ∷ []) (n, _) = rw n refl
drop_cr-Free (c ∷ d ∷ s) (_, h) = ap (◌∷◌ c) (drop_cr-Free (d ∷ s) h)

frame_body-loop :
    (tok start : Str) (r : Str × Str)
    → frame_loop (length start + 1) tok start start ≡ some r
    → frame_body tok (10 ∷ start) ≡ some (some r)
unfolding frame_body
frame_body-loop tok start r e = rw (e, frame_body) refl

-- The text of a frame as a dump writes it, behind its marker line: the DELIMITER line, the body,
-- the delimiter on a line of its own, and what is behind it.
abbrev pub frame_text : Str → Str → Str → Str
frame_text tok body rest =
    10 ∷ ((bytes "DELIMITER " ++ tok) ++ (10 ∷ (body ++ (10 ∷ (tok ++ (10 ∷ rest))))))

-- consumeFrame gives back the body of a frame byte for byte and goes on right behind the line of
-- its delimiter, for every valid delimiter and every body, written as its lines l and ls, of which
-- none is the delimiter or the delimiter and a carriage return.
pub consume_frame_verbatim :
    (tok l : Str) (ls : List Str) (rest : Str)
    → valid_frame_delimiter tok ≡ true
    → AreBodyLines tok (l ∷ ls)
    → consume_frame tok (frame_text tok (body_text l ls) rest) ≡ some (some (body_text l ls, rest))
unfolding consume_frame delimiter_line
consume_frame_verbatim tok l ls rest valid b =
    let no_lf : Free 10 tok = valid-Free 10 tok (omega arith) valid in
    let no_cr : Free 13 tok = valid-Free 13 tok (omega arith) valid in
    let word = bytes "DELIMITER " ++ tok in
    let end = tok ++ (10 ∷ rest) in
    let start = body_text l ls ++ (10 ∷ end) in
    let lines : lines_text (l ∷ ls) end ≡ start = lines-body l ls end in
    let enough : length (l ∷ ls) < length start + 1 =
      omega (arith, length-lines (l ∷ ls) end, ap length lines) in
    let reached =
      loop_lines (length start + 1) tok start (l ∷ ls) rest no_lf (drop_cr-Free tok no_cr) b
        enough in
    let found : frame_loop (length start + 1) tok start start ≡ some (body_text l ls, rest) =
      ap (frame_loop (length start + 1) tok start) (sym lines)
      ∙ reached
      ∙ ap (λ (x : Str). some (x, rest)) (body_before-append (body_text l ls) end) in
    ap (delimiter_line tok) (
      script_line-Free word (start)
        (Free-append 10 (bytes "DELIMITER ") tok (Free-no_byte 10 (bytes "DELIMITER ") refl) no_lf))
    ∙ if_pos (str_eq (drop_cr word) word)
        (drop_cr-Free word (
          Free-append 13 (bytes "DELIMITER ") tok (Free-no_byte 13 (bytes "DELIMITER ") refl)
            no_cr))
        (frame_body tok (10 ∷ start)) (some none)
    ∙ frame_body-loop tok start (body_text l ls, rest) found
