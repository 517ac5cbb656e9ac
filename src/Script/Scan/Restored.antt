-- ===== src/Script/Scan/Restored.antt =====
-- internal/dump/sql.go and internal/sqlscript/sqlscript.go: a dumped opaque frame, scanned again.
use tablex.Common.{
  [], ℕ, zero, suc, ◌+◌, ◌<◌, true, false, List, ◌∷◌, ◌++◌, Option, none, some, ◌≡◌, inl, inr, refl,
  sym, ap, ◌∙◌, arith, Str, bytes, length, length-append, append_assoc, Bool-cases,
}
use mathlib.Core.Path.{subst}
use tablex.Text.{Tables, contains, upto}
use tablex.Marker.{format_frame_marker, valid_frame_delimiter}
use tablex.Marker.Delimiter.Number.{pow10}
use tablex.Marker.Delimiter.Fresh.{choose_frame_delimiter-IsFresh}
use tablex.Script.{LexerProfile}
use tablex.Script.Query.{read_back, back_from}
use tablex.Script.Total.{Trims}
use tablex.Script.Frame.Verbatim.{AreBodyLines, body_text, frame_text, upto-line}
use tablex.Script.Scan.{
  Event, Scanner, ◌>>=◌, restart, round, end_statement, line_start, body_event,
}
use tablex.Script.Scan.Returns.{end_statement-Returns}
use tablex.Script.Scan.Progress.{round-Goes}
use tablex.Script.Scan.Loop.{is_over, scan_loop, scan_capped, scan_limit, scan}
use tablex.Script.Scan.Cap.{collected, emit_all-none, loop_end, loop_next, is_over_pos}
use tablex.Script.Scan.Dumped.{
  opaque_frame, frame_lines, frame_lines-eq, lines_of, lines_apart, AllFree,
}
use tablex.Script.Scan.Frames.{round-framed, round-reset}

is_over-collected : (s : Str) (u v : List Event) → is_over s (collected u) ≡ is_over s (collected v)
is_over-collected [] u v = refl
is_over-collected (c ∷ s) u v = refl

read_back-append : (b x y : Str) → read_back b (x ++ y) ≡ read_back (read_back b x) y
unfolding read_back
read_back-append b [] y = refl
read_back-append b (c ∷ x) y = read_back-append (c ∷ b) x y

back_from-append : (b x y : Str) → back_from b (x ++ y) y ≡ read_back b x
unfolding read_back upto
back_from-append b x y = ap (read_back b) (upto-line x y)

module _ (t : Tables) (trims : Trims t) (p : LexerProfile) where
  -- The events that the loop adds from a scanner on, whatever fuel and output it has.
  abbrev pub Runs : Scanner → List Event → Type 0
  Runs k evs =
      (fuel : ℕ) (u : List Event)
      → length k.at < fuel
      → scan_loop t p fuel none k (collected u) ≡ some (collected (u ++ evs))

  Runs-end :
      (k : Scanner) (evs : List Event)
      → is_over k.at (collected []) ≡ true
      → end_statement t p k ≡ some evs
      → Runs k evs
  Runs-end k evs over e zero u h = absurd (omega (arith, h))
  Runs-end k evs over e (suc fuel) u h =
      loop_end t trims p fuel none k (collected u) evs (is_over-collected k.at u [] ∙ over) e
      ∙ ap some (emit_all-none evs u)

  Runs-next :
      (k : Scanner) (r : Scanner × List Event) (evs : List Event)
      → is_over k.at (collected []) ≡ false
      → round t p k ≡ some r
      → length r.0.at < length k.at
      → Runs r.0 evs
      → Runs k (r.1 ++ evs)
  Runs-next k r evs more e lt runs zero u h = absurd (omega (arith, h))
  Runs-next k r evs more e lt runs (suc fuel) u h =
      loop_next t trims p fuel none k (collected u) r (is_over-collected k.at u [] ∙ more) e
      ∙ ap (scan_loop t p fuel none r.0) (emit_all-none r.1 u)
      ∙ runs fuel (u ++ r.1) (omega (arith, lt, h))
      ∙ ap (λ (x : List Event). some (collected x)) (append_assoc u r.1 evs)

  Runs-events :
      (n : ℕ) (k : Scanner) → length k.at < n → 0 < length k.delim → (evs : List Event) × Runs k evs
  Runs-events zero k h d = absurd (omega (arith, h))
  Runs-events (suc n) k h d = elim (Bool-cases (is_over k.at (collected []))) [
    | inr more ↦
        let (r, e, (lt, d')) = round-Goes t trims p k (is_over_pos k.at (collected []) more) d in
        let (evs, runs) = Runs-events n r.0 (omega arith) d' in
        (r.1 ++ evs, λ fuel u g. Runs-next k r evs more e lt runs fuel u g)
    | inl over ↦
        let (evs, e) = end_statement-Returns t trims p k in
        (evs, λ fuel u g. Runs-end k evs over e fuel u g)
  ]

  -- The events of a scan that begins at `at`, with the text `before` behind it.
  abbrev pub scan_from : Str → Str → Option (List Event)
  scan_from before at =
      scan_loop t p (length at + 1) none (restart (bytes ";") before at) (collected []) >>= λ o.
      some o.out

  Runs-scan_from :
      (before at : Str) (evs : List Event)
      → Runs (restart (bytes ";") before at) evs
      → scan_from before at ≡ some evs
  Runs-scan_from before at evs runs = rw (runs (length at + 1) [] (omega arith)) refl

  -- From the start of the script that is Scan.
  scan-scan_from : (script : Str) → scan t p script ≡ scan_from [] script
  unfolding scan scan_limit scan_capped
  scan-scan_from script =
      let (evs, runs) =
        Runs-events (length script + 1) (restart (bytes ";") [] script) (omega arith)
          (omega arith) in
      rw (runs (length script + 1) [] (omega arith)) refl

  module _ (directives : p.delimiter_directives ≡ true) (one_batch : p.batch_separator ≡ []) where
    abbrev tail : Str → Str
    tail rest = bytes "DELIMITER ;\n" ++ rest

    abbrev frame_front : Str → Str → Str
    frame_front tok body = format_frame_marker tok ++ frame_text tok body []

    front_append :
        (tok body rest : Str)
        → format_frame_marker tok ++ frame_text tok body rest ≡ frame_front tok body ++ rest
    front_append tok body rest = simp append_assoc

    front_end :
        (tok body : Str) → frame_lines tok body ≡ frame_front tok body ++ bytes "DELIMITER ;\n"
    unfolding frame_lines
    front_end tok body = simp append_assoc

    shorter :
        (tok body rest : Str)
        → length rest < length (format_frame_marker tok ++ frame_text tok body rest)
    shorter tok body rest =
        let same = ap (length {A = ℕ}) (front_append tok body rest) in
        omega (arith, same, length-append (frame_front tok body) rest)

    frame-Runs :
        (tok l : Str) (ls : List Str) (before rest : Str) (evs : List Event)
        → valid_frame_delimiter tok ≡ true
        → AreBodyLines tok (l ∷ ls)
        → line_start before ≡ true
        → Runs (restart (bytes ";") (read_back before (frame_lines tok (body_text l ls))) rest) evs
        → scan_from before (frame_lines tok (body_text l ls) ++ rest)
          ≡ some (body_event (body_text l ls) ++ evs)
    frame-Runs tok l ls before rest evs valid lines start runs =
        let body = body_text l ls in
        let framed = format_frame_marker tok ++ frame_text tok body (tail rest) in
        let b1 = back_from before framed (tail rest) in
        let b2 = back_from b1 (tail rest) rest in
        let at_b1 : b1 ≡ read_back before (frame_front tok body) =
          ap (λ (x : Str). back_from before x (tail rest)) (front_append tok body (tail rest))
          ∙ back_from-append before (frame_front tok body) (tail rest) in
        let at_b2 : b2 ≡ read_back before (frame_lines tok body) =
          back_from-append b1 (bytes "DELIMITER ;\n") rest
          ∙ ap (λ (x : Str). read_back x (bytes "DELIMITER ;\n")) at_b1
          ∙ sym (read_back-append before (frame_front tok body) (bytes "DELIMITER ;\n"))
          ∙ ap (read_back before) (sym (front_end tok body)) in
        let behind : Runs (restart (bytes ";") b2 rest) evs =
          subst (λ (x : Str). Runs (restart (bytes ";") x rest) evs) (sym at_b2) runs in
        let at_reset : Runs (restart (bytes ";") b1 (tail rest)) evs =
          Runs-next (restart (bytes ";") b1 (tail rest)) (restart (bytes ";") b2 rest, []) evs refl
            (round-reset t p b1 rest directives one_batch) (omega arith) behind in
        let at_frame : Runs (restart (bytes ";") before framed) (body_event body ++ evs) =
          Runs-next (restart (bytes ";") before framed)
            (restart (bytes ";") b1 (tail rest), body_event body) evs refl
            (round-framed t p directives one_batch tok l ls (tail rest) valid lines before start)
            (shorter tok body (tail rest)) at_reset in
        ap (scan_from before) (frame_lines-eq tok body rest)
        ∙ Runs-scan_from before framed (body_event body ++ evs) at_frame

    frame_scan :
        (tok l : Str) (ls : List Str) (body before rest : Str) (evs : List Event)
        → body_text l ls ≡ body
        → valid_frame_delimiter tok ≡ true
        → AreBodyLines tok (l ∷ ls)
        → line_start before ≡ true
        → Runs (restart (bytes ";") (read_back before (frame_lines tok body)) rest) evs
        → scan_from before (frame_lines tok body ++ rest) ≡ some (body_event body ++ evs)
    frame_scan tok l ls body before rest evs b valid lines start =
        subst
          (λ (x : Str).
            Runs (restart (bytes ";") (read_back before (frame_lines tok x)) rest) evs
            → scan_from before (frame_lines tok x ++ rest) ≡ some (body_event x ++ evs))
          b (frame-Runs tok l ls before rest evs valid lines start)

    apart :
        (tok l : Str) (ls : List Str) (body : Str)
        → valid_frame_delimiter tok ≡ true
        → AllFree (l ∷ ls)
        → body_text l ls ≡ body
        → contains body tok ≡ false
        → AreBodyLines tok (l ∷ ls)
    unfolding valid_frame_delimiter
    apart [] l ls body valid free b absent = absurd (let f : false ≡ true = valid in cc)
    apart (c ∷ tok) l ls body valid free b absent =
        lines_apart c tok l ls free (ap (λ (x : Str). contains x (c ∷ tok)) b ∙ absent)

    -- An opaque frame, as a dump writes it, is scanned back: whatever bytes its body holds, the
    -- scan emits the body as one statement, byte for byte (none for an empty body), and goes on
    -- with the text behind the frame as at the start of a statement. The frame stands at the start
    -- of a line; the profile has DELIMITER lines and no batch separator, as that of MySQL; the body
    -- has fewer than 10^12 - 1 bytes. The delimiter is found and the scan returns.
    pub scan-opaque_frame :
        (before body rest : Str)
        → line_start before ≡ true
        → length body + 1 < pow10 12
        → (frame : Str) × (opaque_frame body ≡ some frame)
          × ((evs : List Event) × (scan_from (read_back before frame) rest ≡ some evs)
              × (scan_from before (frame ++ rest) ≡ some (body_event body ++ evs)))
    unfolding opaque_frame
    scan-opaque_frame before body rest start small =
        let (tok, e, (valid, absent)) = choose_frame_delimiter-IsFresh body small in
        let (l, ls, b, free) = lines_of body in
        let frame = frame_lines tok body in
        let (evs, runs) =
          Runs-events (length rest + 1) (restart (bytes ";") (read_back before frame) rest)
            (omega arith) (omega arith) in
        (
          frame,
          rw e refl,
          (
            evs,
            Runs-scan_from (read_back before frame) rest evs runs,
            frame_scan tok l ls body before rest evs b valid
                (apart tok l ls body valid free b absent) start runs,
          ),
        )
