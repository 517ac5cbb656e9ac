-- ===== src/Script/Scan/Progress.antt =====
-- internal/sqlscript/sqlscript.go: every round of scanCapped takes bytes away, so its loop ends.
use tablex.Common.{
  [], ℕ, ◌≤◌, ◌<◌, ◌||◌, List, ◌∷◌, ◌++◌, Option, none, some, if◌then◌else◌, ltb, ◌==◌, ◌≡◌, inl,
  inr, refl, arith, Str, bytes, str_eq, ite, length, drop, length-drop, Bool-cases, Option-cases,
}
use tablex.Text.{Tables, decode_rune}
use tablex.Marker.{parse_frame_marker, parse_collation_marker}
use tablex.Script.{
  LexerProfile, skip_string_literal, skip_bracket_ident, skip_dollar_quoted, behind_newline,
  script_line,
}
use tablex.Script.Query.{backslash_in, back_from}
use tablex.Script.Frame.Total.{consume_frame-FrameAnswer, FrameAnswer, script_line_le}
use tablex.Script.Total.{
  Trims, behind_newline_le, skip_string_literal_le, skip_block_comment_le, skip_dollar_quoted_le,
}
use tablex.Script.Scan.{
  Event, Scanner, ◌>>=◌, restart, move, content, end_word, flush, end_statement, custom_delimiter,
  batch_line, delimiter_token, directive, word_round, frame_at, marker_line, dash_round,
  slash_round, semicolon_round, other_round, rune_round, round, skip_blanks, is_space, body_event,
  marker_event, skipped, behind_byte, end_pending,
}
use tablex.Script.Scan.Returns.{end_word-Returns, flush-Returns, end_statement-Returns}
use tablex.Script.Scan.Moves.{
  Moves, Goes, Goes-bind, Goes-if, Moves-if, move-Moves, content-Moves, skip_bracket_ident_le,
  decode_rune_pos, skip_blanks_le, behind_newline_lt, or_delim_pos, skipped-Moves,
  custom_delimiter_lt, batch_line_lt,
}

module _ (t : Tables) (trims : Trims t) (p : LexerProfile) where
  module _ (k : Scanner) (a : 0 < length k.at) (d : 0 < length k.delim) where
    directive-Moves : Moves (length k.at) (directive t p k)
    unfolding directive
    directive-Moves =
        let line = skip_blanks (drop 9 k.at) in
        (
          omega (arith, behind_newline_le line, skip_blanks_le (drop 9 k.at), length-drop 9 k.at),
          or_delim_pos (delimiter_token t p line) k.delim d,
        )

    module _ (size : ℕ) (pos : 0 < size) where
      content_on : Moves (length k.at) (content k size)
      content_on = content-Moves k size (length k.at) pos a (omega arith) d

      word_round-Moves : Moves (length k.at) (word_round t p k size)
      unfolding word_round
      word_round-Moves = elim (Option-cases k.word_start) [
        | inl e ↦
            rw (e, word_round)
              (Moves-if _ _ _ _ directive-Moves (
                content-Moves (record k { word_start = some k.at }) size (length k.at) pos a
                  (omega arith) d))
        | inr (w, e) ↦ rw (e, word_round) content_on
      ]

      slash_round-Moves :
          (s : Str) → length s < length k.at → Moves (length k.at) (slash_round t p k size s)
      unfolding slash_round
      slash_round-Moves [] h = content_on
      slash_round-Moves (c ∷ s) h =
          Moves-if _ _ _ _
            (move-Moves k _ (length k.at)
              (omega (arith, skip_block_comment_le p.nested_block_comments 0 s)) d)
            content_on

    frame_at-FrameAnswer :
        (line eol : Str)
        → length eol ≤ length k.at
        → FrameAnswer (length k.at) (frame_at t p (line, eol))
    unfolding frame_at
    frame_at-FrameAnswer line eol h = elim (Bool-cases p.delimiter_directives) [
      | inr e ↦ rw (e, frame_at) (none, refl, tt)
      | inl e ↦ elim (Option-cases (parse_frame_marker line)) [
        | inl f ↦ rw (e, f, frame_at) (none, refl, tt)
        | inr (tok, f) ↦ rw (e, f, frame_at) (answer (consume_frame-FrameAnswer tok eol))
      ]
    ]
      where
        answer :
            {o : Option (Option (Str × Str))}
            → FrameAnswer (length eol) o
            → FrameAnswer (length k.at) o
        answer (none, f, _) = (none, f, tt)
        answer (some r, f, lt) = (some r, f, omega arith)

    comment_on : Moves (length k.at) (move k (behind_newline k.at))
    comment_on = move-Moves k (behind_newline k.at) (length k.at) (behind_newline_lt k.at a) d

    marker_line-Goes : Goes (length k.at) (marker_line t p k)
    unfolding marker_line
    marker_line-Goes =
        by_answer (frame_at t p (script_line k.at))
          (frame_at-FrameAnswer (script_line k.at).0 (script_line k.at).1 (script_line_le k.at))
      where
        by_answer :
            (f : Option (Option (Str × Str)))
            → FrameAnswer (length k.at) f
            → Goes (length k.at) (
                f >>= λ o. elim o as (λ _. Option (Scanner × List Event)) [
                  | some (body, next) ↦ flush t p k.start k.at >>= λ evs.
                      some (
                        restart k.delim (back_from k.before k.at next) next,
                        evs ++ body_event body,
                      )
                  | none ↦ some (
                    move k (behind_newline k.at),
                    marker_event (parse_collation_marker (script_line k.at).0),
                  )
                ])
        by_answer f (none, e, _) = rw e (_, refl, comment_on)
        by_answer f (some (body, next), e, lt) = rw e (
            Goes-bind _ (flush t p k.start k.at) _ (flush-Returns t trims p k.start k.at)
              (λ evs. (_, refl, (lt, d))))

    module _ (size : ℕ) (pos : 0 < size) where
      dash_round-Goes : (s : Str) → Goes (length k.at) (dash_round t p k size s)
      unfolding dash_round
      dash_round-Goes [] = (_, refl, content_on size pos)
      dash_round-Goes (c ∷ s) =
          Goes-if _ _ _ _ (Goes-if _ _ _ _ marker_line-Goes (_, refl, comment_on))
            (_, refl, content_on size pos)

      semicolon_round-Goes : Goes (length k.at) (semicolon_round t p k size)
      unfolding semicolon_round
      semicolon_round-Goes =
          elim (str_eq k.delim (bytes ";"))
            as (λ b. Goes (length k.at) (
              ite b
                (if ltb 0 (end_pending k.block).depth
                  then some (content (record k { block = end_pending k.block }) size, [])
                  else (flush t p k.start k.at >>= λ evs. some (
                    restart k.delim (back_from k.before k.at (drop size k.at)) (drop size k.at),
                    evs,
                  )))
                (some (content k size, [])))) [
                  | yes _ ↦
                      Goes-if _ _ _ _
                        (
                          _,
                          refl,
                          content-Moves (record k { block = end_pending k.block }) size
                              (length k.at) pos a (omega arith) d,
                        )
                        (Goes-bind _ (flush t p k.start k.at) _
                          (flush-Returns t trims p k.start k.at)
                          (λ evs. (_, refl, (omega (arith, length-drop size k.at), d))))
                  | no _ ↦ (_, refl, content_on size pos)
                ]

  module _ (k : Scanner) (a : 0 < length k.at) (d : 0 < length k.delim) where
    module _ (c size : ℕ) (s : Str) (pos : 0 < size) (h : length s < length k.at) where
      skip_on :
          (o : Option Str)
          → ((rest : Str) → o ≡ some rest → length rest < length k.at)
          → Goes (length k.at) (some (skipped k size o, []))
      skip_on o lt = (_, refl, skipped-Moves k size (length k.at) o pos a (omega arith) d lt)

      content_end : Moves (length k.at) (content k size)
      content_end = content-Moves k size (length k.at) pos a (omega arith) d

      literal_lt :
          (rest : Str)
          → some (skip_string_literal c (backslash_in t p k.before c) s) ≡ some rest
          → length rest < length k.at
      literal_lt rest e =
          let le = skip_string_literal_le c (backslash_in t p k.before c) s in ground arith

      dollar_lt :
          (rest : Str)
          → (if p.dollar_quotes then skip_dollar_quoted t s else none) ≡ some rest
          → length rest < length k.at
      dollar_lt rest e = ground (arith, skip_dollar_quoted_le t s rest)

      bracket_lt :
          (rest : Str)
          → (if p.bracket_identifiers then skip_bracket_ident s else none) ≡ some rest
          → length rest < length k.at
      bracket_lt rest e = ground (arith, skip_bracket_ident_le s rest)

      other_round-Goes : Goes (length k.at) (other_round t p k c size s)
      unfolding other_round
      other_round-Goes =
          Goes-if _ (c == b'\'' || c == b'"' || c == b'`') _ _ (skip_on _ literal_lt) (
            Goes-if _ (c == b'-') _ _ (dash_round-Goes k a d size pos s) (
              Goes-if _ (c == b'$') _ _ (skip_on _ dollar_lt) (
                Goes-if _ (c == b'[') _ _ (skip_on _ bracket_lt) (
                  Goes-if _ (c == b'#') _ _
                    (
                      _,
                      refl,
                      Moves-if _ p.hash_comments (move k (behind_newline k.at)) (content k size)
                          (comment_on k a d) content_end,
                    )
                    (Goes-if _ (c == b'/') _ _
                      ((slash_round t p k size s, []), refl, slash_round-Moves k a d size pos s h)
                      (Goes-if _ (c == b';') _ _ (semicolon_round-Goes k a d size pos) (
                        _,
                        refl,
                        Moves-if _ (is_space t c) (move k (drop size k.at)) (content k size)
                            (move-Moves k (drop size k.at) (length k.at)
                              (omega (arith, length-drop size k.at)) d)
                            content_end,
                      )))))))

  behind_byte_lt : (s : Str) → 0 < length s → length (behind_byte s) < length s
  behind_byte_lt [] h = absurd (omega (arith, h))
  behind_byte_lt (c ∷ s) h = omega arith

  width_pos : (s : Str) → 0 < length s → 0 < (decode_rune s).1
  width_pos [] h = absurd (omega (arith, h))
  width_pos (c ∷ s) h = decode_rune_pos c s

  module _ (k : Scanner) (a : 0 < length k.at) (d : 0 < length k.delim) where
    rune_round-Goes : Goes (length k.at) (rune_round t p k)
    unfolding rune_round
    rune_round-Goes =
        let size = (decode_rune k.at).1 in
        Goes-if _ _ _ _ (_, refl, word_round-Moves k a d size (width_pos k.at a))
          (Goes-bind _ (end_word t p k.word_start k.start k.at k.block) _
            (end_word-Returns t trims p k.word_start k.start k.at k.block)
            (λ b.
              other_round-Goes (record k { block = b; word_start = none }) a d (decode_rune k.at).0
                size (behind_byte k.at) (width_pos k.at a) (behind_byte_lt k.at a)))

    end_on :
        (rest : Str)
        → length rest < length k.at
        → Goes (length k.at) (
            end_statement t p k >>= λ evs.
            some (restart k.delim (back_from k.before k.at rest) rest, evs))
    end_on rest h =
        Goes-bind _ (end_statement t p k) _ (end_statement-Returns t trims p k)
          (λ evs. (_, refl, (h, d)))

    -- A round returns, takes at least one byte, and leaves a delimiter that is not empty.
    pub round-Goes : Goes (length k.at) (round t p k)
    unfolding round
    round-Goes = elim (Option-cases (custom_delimiter t p k)) [
      | inr (rest, e) ↦ rw (e, round) (end_on rest (custom_delimiter_lt t p k rest d e))
      | inl e ↦ elim (Option-cases (batch_line t p k)) [
        | inr (rest, f) ↦ rw (e, f, round) (end_on rest (batch_line_lt t p k rest a f))
        | inl f ↦ rw (e, f, round) rune_round-Goes
      ]
    ]
