-- ===== src/Script/Tests.antt =====
-- internal/sqlscript/sqlscript.go: concrete literals, comments and statements.
use tablex.Common.{
  [], ap, length, ◌++◌, List, if◌then◌else◌, ◌||◌, ◌==◌, leb, some, true, false, ◌∷◌, ◌≡◌, refl,
  arith, bytes, Str, length,
}
use tablex.Text.{Tables, trim_left, trim_right, space_byte}
use tablex.Text.Runes.{encode, encode_rune}
use tablex.Script.Restore.{Sections, split_restore_sections, section_loop}
use tablex.Script.Restore.Header.{database_section_header, unaddressable_database}
use tablex.Script.Restore.Names.{TrimsEnds, trim_right_ends}
use tablex.Script.Restore.Switch.{at_line, switched, section_loop-header}
use tablex.Script.Restore.Preflight.{RunsWhole, run_restore_script, run_restore_script-RunsWhole}
use tablex.Script.{LexerProfile, default_lexer_profile, skip_string_literal, skip_block_comment}
use tablex.Script.Skips.{Spell, skip_string_literal_lem, Bit, skip_block_comment_nested}
use tablex.Script.Total.{Trims}
use tablex.Script.Query.{read_back}
use tablex.Script.Scan.{Event, body_event}
use tablex.Script.Scan.Loop.{scan, split, scan_limit, split_limit, statements, ok, too_many}
use tablex.Script.Scan.Limits.{scan_limit_lem}
use tablex.Script.Scan.Dumped.{opaque_frame}
use tablex.Script.Scan.Restored.{scan_from, scan-opaque_frame}

-- Tables that know ASCII alone.
abbrev ascii : Tables
ascii = record {
  lower_text = λ s. s;
  upper_text = λ s. s;
  trim_text = λ s. s;
  fields_text = λ s. s ∷ [];
  equal_text = λ _ _. false;
  letter = λ _. false;
  digit = λ _. false;
  space = λ _. false;
}

-- a\'''b' and what is behind it.
skip_string_literal_lem_example :
    skip_string_literal b'\'' true (b'a' ∷ b'\\' ∷ b'\'' ∷ b'\'' ∷ b'\'' ∷ b'b' ∷ b'\'' ∷ bytes ";")
    ≡ bytes ";"
skip_string_literal_lem_example =
    skip_string_literal_lem b'\'' true
      (Spell.plain b'a' ∷ Spell.escaped b'\'' ∷ Spell.doubled ∷ Spell.plain b'b' ∷ []) (bytes ";")
      refl (refl, refl, (refl, (refl, refl, tt))) (λ e. absurd (omega (arith, e)))

skip_block_comment_nested_example :
    skip_block_comment true 0 (bytes " /* a */ */ SELECT") ≡ bytes " SELECT"
skip_block_comment_nested_example =
    skip_block_comment_nested
      (Bit.text b' '
        ∷ Bit.opens
        ∷ Bit.text b' '
        ∷ Bit.text b'a'
        ∷ Bit.text b' '
        ∷ Bit.closes
        ∷ Bit.text b' '
        ∷ [])
      (bytes " SELECT")
      ((refl, refl), ((refl, refl), ((refl, refl), ((refl, refl), ((refl, refl), tt)))))

-- Nothing to trim outside ASCII.
trims : Trims ascii
trims s = omega arith

-- A profile with DELIMITER lines, as MySQL's.
abbrev directives : LexerProfile
directives = record default_lexer_profile { delimiter_directives = true; dollar_quotes = false }

scan_limit_lem_example :
    (evs : List Event) × (scan ascii default_lexer_profile (bytes "a; 'b;'") ≡ some evs)
    × (split ascii default_lexer_profile (bytes "a; 'b;'") ≡ some (statements evs))
    × (scan_limit ascii default_lexer_profile (bytes "a; 'b;'") 1
        ≡ some (if 1 == 0 || leb (length evs) 1 then ok evs else too_many))
    × (split_limit ascii default_lexer_profile (bytes "a; 'b;'") 1
        ≡ some (if 1 == 0 || leb (length evs) 1 then ok (statements evs) else too_many))
scan_limit_lem_example = scan_limit_lem ascii trims default_lexer_profile (bytes "a; 'b;'") 1

scan-opaque_frame_example :
    (frame : Str) × (opaque_frame (bytes "a;\n$$ b") ≡ some frame)
    × ((evs : List Event) × (scan_from ascii trims directives (read_back [] frame) (bytes "c;")
          ≡ some evs)
        × (scan_from ascii trims directives [] (frame ++ bytes "c;")
            ≡ some (body_event (bytes "a;\n$$ b") ++ evs)))
scan-opaque_frame_example =
    scan-opaque_frame ascii trims directives refl refl [] (bytes "a;\n$$ b") (bytes "c;") refl
      (omega arith)

run_restore_script-RunsWhole_example :
    (r : Sections) × (split_restore_sections ascii 2 (bytes "a;\n\\c \"b\"\nc; d") true ≡ some r)
    × RunsWhole ascii trims default_lexer_profile 2 r
        (run_restore_script ascii default_lexer_profile (bytes "a;\n\\c \"b\"\nc; d") true 2)
run_restore_script-RunsWhole_example =
    run_restore_script-RunsWhole ascii trims default_lexer_profile (bytes "a;\n\\c \"b\"\nc; d")
      true 2

-- Tables that trim ASCII spaces from every text.
abbrev trimming : Tables
unfolding trim_left trim_right
trimming = record ascii { trim_text = λ s. trim_right (trim_left s) }

trimming-TrimsEnds : TrimsEnds trimming
unfolding trimming trim_left trim_right space_byte
trimming-TrimsEnds = record {
  drops = λ s. refl;
  keeps = λ a z s h k i j. rw i (trim_right_ends (a ∷ s) z j);
}

-- The database ".
section_loop-header_example :
    section_loop trimming 0 3 (
      at_line trimming trimming-TrimsEnds 0 [] [] [] []
        (database_section_header (encode (b'"' ∷ [])) ++ bytes "x"))
    ≡ section_loop trimming 0 2 (
        switched trimming trimming-TrimsEnds 0 (encode (b'"' ∷ [])) (bytes "x") (
          at_line trimming trimming-TrimsEnds 0 [] [] [] []
            (database_section_header (encode (b'"' ∷ [])) ++ bytes "x")))
unfolding unaddressable_database encode encode_rune
section_loop-header_example =
    section_loop-header trimming trimming-TrimsEnds 0 (b'"' ∷ []) 2 [] [] [] [] (bytes "x")
      ((omega arith, refl), tt) (λ e. absurd (omega (arith, ap length e))) refl
