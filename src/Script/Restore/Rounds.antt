-- ===== src/Script/Restore/Rounds.antt =====
-- internal/sqlscript/restore.go: SplitRestoreSections returns.
use tablex.Common.{
  [], ℕ, zero, suc, ◌+◌, ◌≤◌, ◌<◌, Bool, true, false, ◌&&◌, ◌||◌, ◌∷◌, Option, none, some,
  if◌then◌else◌, ◌==◌, ◌≡◌, inl, inr, refl, ap, arith, Str, length, Bool-cases,
}
use tablex.Text.{Tables, upto}
use tablex.Script.{is_esc_string_quote, skip_block_comment, skip_dollar_quoted, to_newline}
use tablex.Script.Total.{
  to_newline_le, skip_string_literal_le, skip_block_comment_le, skip_dollar_quoted_le,
}
use tablex.Script.Restore.{
  Splitter, Sections, bad_connect, go_on, or_here, pair_case, Connect, content, to, unterminated,
  at_connect, section_round, section_loop, round_at, sections_of, flush_section, parse_connect_line,
  split_restore_sections,
}

-- A round that has no error leaves less than n bytes.
abbrev Falls : ℕ → Splitter × Option Str → Type 0
Falls n (k, some line) = Unit {0}
Falls n (k, none) = length k.at < n

Falls-if :
    (n : ℕ) (b : Bool) (x y : Splitter × Option Str)
    → Falls n x
    → Falls n y
    → Falls n (if b then x else y)
Falls-if n true x y h k = h
Falls-if n false x y h k = k

at_if :
    (n : ℕ) (b : Bool) (x y : Splitter)
    → length x.at < n
    → length y.at < n
    → length (if b then x else y).at < n
at_if n true x y h k = h
at_if n false x y h k = k

go_on_at : (start : Bool) (rest : Str) (k : Splitter) → (go_on start rest k).at ≡ rest
unfolding go_on
go_on_at start rest k = refl

go_on_lt :
    (n : ℕ) (start : Bool) (rest : Str) (k : Splitter)
    → length rest < n
    → length (go_on start rest k).at < n
unfolding go_on
go_on_lt n start rest k h = h

to_newline_lt : (c : ℕ) (s : Str) → c == 10 ≡ false → length (to_newline (c ∷ s)) < length (c ∷ s)
unfolding to_newline
to_newline_lt c s e = rw (e, to_newline) (omega (arith, to_newline_le s))

or_here_le :
    (s : Str) (o : Option Str)
    → ((rest : Str) → o ≡ some rest → length rest ≤ length s)
    → length (or_here s o) ≤ length s
or_here_le s none h = omega arith
or_here_le s (some rest) h = h rest refl

module _ (t : Tables) (max : ℕ) where
  pair_case_lt :
      (c : ℕ) (s : Str) (k : Splitter) → length (pair_case t max c s k).at < length (c ∷ s)
  unfolding pair_case
  pair_case_lt c [] k = go_on_lt _ false [] k (omega arith)
  pair_case_lt c (d ∷ s) k = elim (Bool-cases (c == b'-' && d == b'-')) [
    | inl e ↦
        let other : c == 10 ≡ false = ground arith in
        rw (e, pair_case)
          (go_on_lt (length (c ∷ d ∷ s)) k.line_start (to_newline (c ∷ d ∷ s)) k
            (to_newline_lt c (d ∷ s) other))
    | inr e ↦
        rw (e, pair_case)
          (at_if (length (c ∷ d ∷ s)) (c == b'/' && d == b'*')
            (go_on false (skip_block_comment true 0 s) k) (go_on false (d ∷ s) k)
            (go_on_lt (length (c ∷ d ∷ s)) false (skip_block_comment true 0 s) k
              (omega (arith, skip_block_comment_le true 0 s)))
            (go_on_lt (length (c ∷ d ∷ s)) false (d ∷ s) k (omega arith)))
  ]

  at_connect-Falls :
      (c : ℕ) (s : Str) (k : Splitter) (r : Connect)
      → k.at ≡ c ∷ s
      → c == 10 ≡ false
      → Falls (length (c ∷ s)) (at_connect t max s k r)
  at_connect-Falls c s k content e other = go_on_lt _ false s k (omega arith)
  at_connect-Falls c s k (unterminated line) e other = tt
  at_connect-Falls c s k (to db) e other =
      go_on_lt _ k.line_start (to_newline k.at)
        (record (flush_section t max k.at k) { cur = db; seg = to_newline k.at })
        (let lt = to_newline_lt c s other in
          let same : length (to_newline k.at) ≡ length (to_newline (c ∷ s)) =
            ap (λ (x : Str). length (to_newline x)) e in
          omega (arith, same, lt))

  section_round-Falls :
      (c : ℕ) (s : Str) (k : Splitter)
      → k.at ≡ c ∷ s
      → Falls (length (c ∷ s)) (section_round t max c s k)
  unfolding section_round
  section_round-Falls c s k e = Falls-if _ (c == 10) _ _ (go_on_lt _ true s k (omega arith)) (
      Falls-if _ (c == b' ' || c == 9 || c == 13) _ _ (go_on_lt _ k.line_start s k (omega arith)) (
        Falls-if _ (c == b'\'' || c == b'"') _ _
          (go_on_lt _ false _ k (
            omega
              (arith, skip_string_literal_le c (c == b'\'' && is_esc_string_quote t k.before) s)))
          (Falls-if _ (c == b'$') _ _
            (go_on_lt _ false (or_here s (skip_dollar_quoted t s)) k
              (omega (arith, or_here_le s (skip_dollar_quoted t s) (skip_dollar_quoted_le t s))))
            (elim (Bool-cases (c == b'\\' && k.line_start)) [
              | inl f ↦
                  let other : c == 10 ≡ false = ground arith in
                  rw f (
                    at_connect-Falls c s k (parse_connect_line t (upto k.at (to_newline k.at))) e
                      other)
              | inr f ↦ rw f (pair_case_lt c s k)
            ]))))

  abbrev FallsAt : ℕ → Option (Splitter × Option Str) → Type 0
  FallsAt n none = Unit {0}
  FallsAt n (some r) = Falls n r

  round_at-Falls : (s : Str) (k : Splitter) → k.at ≡ s → FallsAt (length s) (round_at t max s k)
  unfolding round_at
  round_at-Falls [] k e = tt
  round_at-Falls (c ∷ s) k e = elim (Bool-cases k.overflow) [
    | inl f ↦ rw f tt
    | inr f ↦ by_overflow k.overflow f (section_round-Falls c s k e)
  ]
    where
      by_overflow :
          (b : Bool)
          → b ≡ false
          → Falls (length (c ∷ s)) (section_round t max c s k)
          → FallsAt (length (c ∷ s)) (if b then none else some (section_round t max c s k))
      by_overflow b f h = rw f h

  section_loop_total :
      (fuel : ℕ) (k : Splitter)
      → length k.at < fuel
      → (r : Sections) × (section_loop t max fuel k ≡ some r)
  unfolding section_loop
  section_loop_total zero k h = absurd (omega (arith, h))
  section_loop_total (suc fuel) k h =
      by_round (λ k' lt. section_loop_total fuel k' (omega arith)) (round_at t max k.at k) refl
        (round_at-Falls k.at k refl)
    where
      by_round :
          ((k' : Splitter)
            → length k'.at < length k.at
            → (r : Sections) × (section_loop t max fuel k' ≡ some r))
          → (o : Option (Splitter × Option Str)) → round_at t max k.at k ≡ o
          → FallsAt (length k.at) o
          → (r : Sections) × (section_loop t max (suc fuel) k ≡ some r)
      by_round ih none e f =
          (sections_of t max (flush_section t max [] k), rw (e, section_loop) refl)
      by_round ih (some (k', some line)) e f = (bad_connect line, rw (e, section_loop) refl)
      by_round ih (some (k', none)) e f = let (r, g) = ih k' f in (r, rw (e, section_loop) g)

  -- SplitRestoreSections returns for every script.
  pub split_restore_sections_total :
      (script : Str) (allow_connect : Bool)
      → (r : Sections) × (split_restore_sections t max script allow_connect ≡ some r)
  unfolding split_restore_sections
  split_restore_sections_total script true =
      section_loop_total (length script + 1)
        (record {
          sections = [];
          cur = [];
          seg = script;
          overflow = false;
          line_start = true;
          before = [];
          at = script;
        })
        (omega arith)
  split_restore_sections_total script false = (_, refl)
