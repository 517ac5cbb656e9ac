-- ===== src/Script/Scan/Dumped.antt =====
-- internal/dump/sql.go: the opaque frame that writeDumpScript writes, and what scanCapped makes of
-- it.
use tablex.Common.{
  [], ℕ, true, false, List, ◌∷◌, ◌++◌, Option, some, ◌==◌, ◌≡◌, ◌≢◌, inl, inr, refl, sym, ap, ◌∙◌,
  arith, Str, bytes, append_assoc, append-nil, Bool-cases, Option-cases,
}
use tablex.Text.{contains, cut_prefix}
use tablex.Text.Split.{Free}
use tablex.Marker.{format_frame_marker}
use tablex.Marker.Hex.{cut_prefix-append}
use tablex.Marker.Delimiter.{choose_frame_delimiter}
use tablex.Script.{drop_cr}
use tablex.Script.Frame.Verbatim.{AreBodyLines, body_text, frame_text}
use tablex.Script.Scan.{◌>>=◌}

-- The case OpaqueFrame.
unfoldable pub frame_lines : Str → Str → Str
frame_lines delim body =
    format_frame_marker delim
    ++ (bytes "\nDELIMITER "
        ++ (delim ++ (10 ∷ (body ++ (10 ∷ (delim ++ bytes "\nDELIMITER ;\n"))))))

unfoldable pub opaque_frame : Str → Option Str
opaque_frame body = choose_frame_delimiter body >>= λ delim. some (frame_lines delim body)

abbrev pub AllFree : List Str → Type 0
AllFree [] = Unit {0}
AllFree (l ∷ ls) = Free 10 l × AllFree ls

-- The lines of a text: its first one, and the others.
abbrev pub LinesOf : Str → Type 0
LinesOf body = (l : Str) × (ls : List Str) × (body_text l ls ≡ body) × AllFree (l ∷ ls)

pub lines_of : (body : Str) → LinesOf body
lines_of [] = ([], [], refl, (tt, tt))
lines_of (c ∷ s) =
    let (l, ls, e, (f, fs)) = lines_of s in
    elim (Bool-cases (c == 10)) [
      | inl newline ↦ ([], l ∷ ls, ground (arith, ap (◌∷◌ 10) e), (tt, (f, fs)))
      | inr other ↦ (c ∷ l, ls, longer c l ls ∙ ap (◌∷◌ c) e, ((other, f), fs))
    ]
  where
    longer : (c : ℕ) (l : Str) (ls : List Str) → body_text (c ∷ l) ls ≡ c ∷ body_text l ls
    longer c l [] = refl
    longer c l (m ∷ ls) = refl

-- A text at the front of a line occurs in the body.
contains_front : (c : ℕ) (w rest : Str) → contains ((c ∷ w) ++ rest) (c ∷ w) ≡ true
unfolding contains
contains_front c w rest = rw (cut_prefix-append (c ∷ w) rest, contains) refl

contains_behind : (before s w : Str) → contains s w ≡ true → contains (before ++ s) w ≡ true
unfolding contains
contains_behind [] s w h = h
contains_behind (c ∷ before) s w h = elim (Option-cases (cut_prefix w (c ∷ before ++ s))) [
  | inl e ↦ rw (e, contains) (contains_behind before s w h)
  | inr (rest, e) ↦ rw (e, contains) refl
]

drop_cr_front : (s : Str) → (rest : Str) × (s ≡ drop_cr s ++ rest)
unfolding drop_cr
drop_cr_front [] = ([], refl)
drop_cr_front (c ∷ []) = elim (Bool-cases (c == 13)) [
  | inl e ↦ (13 ∷ [], ground arith)
  | inr e ↦ ([], ground arith)
]
drop_cr_front (c ∷ d ∷ s) = let (rest, e) = drop_cr_front (d ∷ s) in (rest, ap (◌∷◌ c) e)

at_line : (c : ℕ) (tok l more : Str) → contains (l ++ more) (c ∷ tok) ≡ false → drop_cr l ≢ c ∷ tok
at_line c tok l more h e =
    let (rest, f) = drop_cr_front l in
    let g : l ++ more ≡ (c ∷ tok) ++ (rest ++ more) =
      ap (λ (x : Str). x ++ more) (f ∙ ap (λ (x : Str). x ++ rest) e)
      ∙ append_assoc (c ∷ tok) rest more in
    let there : contains (l ++ more) (c ∷ tok) ≡ true =
      rw g (contains_front c tok (rest ++ more)) in
    let k : true ≡ false = sym there ∙ h in cc

behind :
    (c : ℕ) (tok before s : Str)
    → contains (before ++ s) (c ∷ tok) ≡ false
    → contains s (c ∷ tok) ≡ false
behind c tok before s h = elim (Bool-cases (contains s (c ∷ tok))) [
  | inr e ↦ e
  | inl e ↦ absurd (let k : true ≡ false = sym (contains_behind before s (c ∷ tok) e) ∙ h in cc)
]

-- Where the delimiter occurs nowhere in the body, no line of the body is the delimiter.
pub lines_apart :
    (c : ℕ) (tok l : Str) (ls : List Str)
    → AllFree (l ∷ ls)
    → contains (body_text l ls) (c ∷ tok) ≡ false
    → AreBodyLines (c ∷ tok) (l ∷ ls)
lines_apart c tok l [] (f, fs) h = ((f, at_line c tok l [] (rw (append-nil l) h)), tt)
lines_apart c tok l (m ∷ ls) (f, fs) h = (
  (f, at_line c tok l (10 ∷ body_text m ls) h),
  lines_apart c tok m ls fs (
      behind c tok (l ++ 10 ∷ []) (body_text m ls)
        (rw (append_assoc l (10 ∷ []) (body_text m ls)) h)),
)

-- What a frame holds behind its marker line.
pub frame_lines-eq :
    (delim body rest : Str)
    → frame_lines delim body ++ rest
      ≡ format_frame_marker delim ++ frame_text delim body (bytes "DELIMITER ;\n" ++ rest)
unfolding frame_lines
frame_lines-eq delim body rest = simp append_assoc
