-- ===== src/Script/Scan/Frames.antt =====
-- internal/sqlscript/sqlscript.go: scanCapped at an opaque frame.
use tablex.Common.{
  [], ℕ, ◌-◌, Bool, true, false, List, ◌∷◌, ◌++◌, none, some, ◌≡◌, refl, ap, ◌∙◌, arith, Str, bytes,
  length, take, str_eq,
}
use mathlib.Core.Logic.{if_pos}
use tablex.Text.{Tables, decode_rune, trim_space, upto}
use tablex.Text.Split.{Free, Free-append, Free-no_byte, no_byte}
use tablex.Marker.{format_frame_marker, parse_frame_marker, valid_frame_delimiter}
use tablex.Marker.Collation.{valid-Free, parse_frame_marker-format}
use tablex.Script.{
  LexerProfile, script_line, dash_is_comment, is_word_rune, has_word, behind_newline,
}
use tablex.Script.Query.{back_from}
use tablex.Script.Frame.{consume_frame}
use tablex.Script.Frame.Verbatim.{
  AreBodyLines, body_text, frame_text, consume_frame_verbatim, script_line-Free, drop_cr-Free,
}
use tablex.Script.Scan.{
  Scanner, restart, frame_at, flush, flush_text, marker_line, dash_round, other_round, rune_round,
  round, custom_delimiter, batch_line, line_start, body_event, end_word, word_round, directive,
  delimiter_token, skip_blanks,
}

take_zero : (s : Str) → take 0 s ≡ []
take_zero [] = refl
take_zero (c ∷ s) = refl

upto_self : (s : Str) → upto s s ≡ []
unfolding upto
upto_self s = let e : length s - length s ≡ 0 = omega arith in rw e (take_zero s)

marker_Free :
    (q : ℕ) (tok : Str)
    → no_byte q (bytes "-- tablex:v1 frame delimiter=") ≡ true
    → Free q tok
    → Free q (format_frame_marker tok)
marker_Free q tok h f =
    Free-append q (bytes "-- tablex:v1 frame delimiter=") tok
      (Free-no_byte q (bytes "-- tablex:v1 frame delimiter=") h) f

module _ (t : Tables) (p : LexerProfile) where
  flush_none : (s : Str) → flush t p s s ≡ some []
  unfolding flush flush_text trim_space
  flush_none s = rw (upto_self s) refl

  custom_none : (before at : Str) → custom_delimiter t p (restart (bytes ";") before at) ≡ none
  unfolding custom_delimiter
  custom_none before at = rw (if_pos _ refl)

  batch_none : (k : Scanner) → p.batch_separator ≡ [] → batch_line t p k ≡ none
  unfolding batch_line
  batch_none k e = rw (if_pos (str_eq p.batch_separator []) e)

  dash_word : (b : Bool) → is_word_rune t b'-' b ≡ false
  dash_word true = refl
  dash_word false = refl

  dash_comment : (s : Str) → dash_is_comment p (b' ' ∷ s) ≡ true
  unfolding dash_is_comment
  dash_comment s = ground arith

  frame_at-some :
      (line eol tok : Str)
      → p.delimiter_directives ≡ true
      → parse_frame_marker line ≡ some tok
      → frame_at t p (line, eol) ≡ consume_frame tok eol
  unfolding frame_at
  frame_at-some line eol tok d e = rw (d, e, frame_at) refl

  round_rune :
      (k : Scanner)
      → custom_delimiter t p k ≡ none
      → batch_line t p k ≡ none
      → round t p k ≡ rune_round t p k
  unfolding round
  round_rune k e f = rw (e, f, round) refl

  rune_dash :
      (delim before s : Str)
      → rune_round t p (restart delim before (b'-' ∷ s))
        ≡ dash_round t p (restart delim before (b'-' ∷ s)) 1 s
  unfolding rune_round end_word other_round decode_rune
  rune_dash delim before s = rw (dash_word p.dollar_in_words) refl

  dash_marker :
      (before at s : Str)
      → line_start before ≡ true
      → dash_round t p (restart (bytes ";") before at) 1 (b'-' ∷ b' ' ∷ s)
        ≡ marker_line t p (restart (bytes ";") before at)
  unfolding dash_round
  dash_marker before at s start = rw (dash_comment s, start) refl

  word_first : (b : Bool) → is_word_rune t b'D' b ≡ true
  word_first true = refl
  word_first false = refl

  abbrev reset_line : Str → Str
  reset_line rest = bytes "DELIMITER ;\n" ++ rest

  rune_reset :
      (before rest : Str)
      → p.delimiter_directives ≡ true
      → rune_round t p (restart (bytes ";") before (reset_line rest))
        ≡ some (restart (bytes ";") (back_from before (reset_line rest) rest) rest, [])
  unfolding rune_round word_round directive decode_rune has_word delimiter_token behind_newline
      skip_blanks
  rune_reset before rest d = rw (word_first p.dollar_in_words, d) refl

  -- The round at the line that sets the delimiter back.
  pub round-reset :
      (before rest : Str)
      → p.delimiter_directives ≡ true
      → p.batch_separator ≡ []
      → round t p (restart (bytes ";") before (reset_line rest))
        ≡ some (restart (bytes ";") (back_from before (reset_line rest) rest) rest, [])
  round-reset before rest d b =
      round_rune (restart (bytes ";") before (reset_line rest))
        (custom_none before (reset_line rest))
        (batch_none (restart (bytes ";") before (reset_line rest)) b)
      ∙ rune_reset before rest d

  module _ (directives : p.delimiter_directives ≡ true) (one_batch : p.batch_separator ≡ [])
      (tok l : Str) (ls : List Str) (rest : Str) (valid : valid_frame_delimiter tok ≡ true)
      (lines : AreBodyLines tok (l ∷ ls)) where
    abbrev body : Str
    body = body_text l ls

    abbrev framed : Str
    framed = format_frame_marker tok ++ frame_text tok body rest

    framed_line : script_line framed ≡ (format_frame_marker tok, frame_text tok body rest)
    framed_line =
        script_line-Free (format_frame_marker tok) _
          (marker_Free 10 tok refl (valid-Free 10 tok (omega arith) valid))
        ∙ ap (λ (x : Str). (x, frame_text tok body rest))
            (drop_cr-Free (format_frame_marker tok)
              (marker_Free 13 tok refl (valid-Free 13 tok (omega arith) valid)))

    framed_at : frame_at t p (script_line framed) ≡ some (some (body, rest))
    framed_at =
        ap (frame_at t p) framed_line
        ∙ frame_at-some (format_frame_marker tok) (frame_text tok body rest) tok directives
            (parse_frame_marker-format false tok valid)
        ∙ consume_frame_verbatim tok l ls rest valid lines

    abbrev behind_frame : Str → Scanner
    behind_frame before = restart (bytes ";") (back_from before framed rest) rest

    marker_line-framed :
        (before : Str)
        → marker_line t p (restart (bytes ";") before framed)
          ≡ some (behind_frame before, body_event body)
    unfolding marker_line
    marker_line-framed before = rw (framed_at, flush_none framed, marker_line) refl

    -- The round at the marker line emits the body as it stands, and goes on behind the terminator.
    pub round-framed :
        (before : Str)
        → line_start before ≡ true
        → round t p (restart (bytes ";") before framed)
          ≡ some (behind_frame before, body_event body)
    round-framed before start =
        round_rune (restart (bytes ";") before framed) (custom_none before framed)
          (batch_none (restart (bytes ";") before framed) one_batch)
        ∙ rune_dash (bytes ";") before _
        ∙ dash_marker before framed _ start
        ∙ marker_line-framed before
