-- ===== src/Script/Scan/Cap.antt =====
-- internal/sqlscript/sqlscript.go: the cap of scanCapped against the scan that has none.
use tablex.Common.{
  [], ℕ, zero, suc, ◌≤◌, ◌<◌, true, false, List, ◌∷◌, ◌++◌, Option, none, some, if◌then◌else◌, leb,
  ◌≡◌, ◌⊎◌, inl, inr, refl, sym, ◌∙◌, ap, arith, Str, length, length-append, append_assoc,
  append-nil, Bool-cases,
}
use tablex.Text.{Tables}
use tablex.Script.{LexerProfile}
use tablex.Script.Total.{Trims}
use tablex.Script.Scan.{Event, Scanner, round, end_statement}
use tablex.Script.Scan.Returns.{end_statement-Returns}
use tablex.Script.Scan.Progress.{round-Goes}
use tablex.Script.Scan.Loop.{
  Result, ok, too_many, Output, is_full, emit, emit_all, is_over, finish, scan_loop, answer,
}

abbrev pub collected : List Event → Output
collected u = record { out = u; overflow = false }

pub emit_all-none : (evs u : List Event) → emit_all none evs (collected u) ≡ collected (u ++ evs)
unfolding emit_all emit
emit_all-none [] u = ap collected (sym (append-nil u))
emit_all-none (ev ∷ evs) u =
    emit_all-none evs (u ++ ev ∷ []) ∙ ap collected (append_assoc u (ev ∷ []) evs)

-- The capped output o, against the events u of the scan with no cap.
abbrev pub Tracks : ℕ → List Event → Output → Type 0
Tracks m u o = ((o ≡ collected u) × (length u ≤ m)) ⊎ ((o.overflow ≡ true) × (m < length u))

emit-Tracks :
    (m : ℕ) (ev : Event) (u : List Event) (o : Output)
    → Tracks m u o
    → Tracks m (u ++ ev ∷ []) (emit (some m) ev o)
unfolding emit
emit-Tracks m ev u o (inr (over, more)) =
    inr (ground arith, omega (arith, length-append u (ev ∷ [])))
emit-Tracks m ev u o (inl (e, le)) = elim (Bool-cases (leb m (length u))) [
  | inl full ↦ inr (
    rw (e, full) refl,
    let n : m ≤ length u = ground arith in omega (arith, length-append u (ev ∷ [])),
  )
  | inr room ↦ inl (
    rw (e, room) refl,
    let n : length u < m = ground arith in omega (arith, length-append u (ev ∷ [])),
  )
]

emit_all-Tracks :
    (m : ℕ) (evs u : List Event) (o : Output)
    → Tracks m u o
    → Tracks m (u ++ evs) (emit_all (some m) evs o)
unfolding emit_all
emit_all-Tracks m [] u o h = rw (append-nil u) h
emit_all-Tracks m (ev ∷ evs) u o h =
    rw (← append_assoc u (ev ∷ []) evs)
      (emit_all-Tracks m evs (u ++ ev ∷ []) (emit (some m) ev o) (emit-Tracks m ev u o h))

pub is_over_pos : (s : Str) (o : Output) → is_over s o ≡ false → 0 < length s
is_over_pos [] o e = absurd (let f : true ≡ false = e in cc)
is_over_pos (c ∷ s) o e = omega arith

emit_all-overflow :
    (cap : Option ℕ) (evs : List Event) (o : Output)
    → o.overflow ≡ true
    → (emit_all cap evs o).overflow ≡ true
unfolding emit_all emit
emit_all-overflow cap [] o e = e
emit_all-overflow cap (ev ∷ evs) o e =
    emit_all-overflow cap evs (emit cap ev o)
      (elim (Bool-cases (is_full cap o.out)) [ inl f ↦ rw (f, emit) refl | inr f ↦ rw (f, emit) e ])

is_over-overflow : (s : Str) (o : Output) → o.overflow ≡ true → is_over s o ≡ true
is_over-overflow [] o e = refl
is_over-overflow (c ∷ s) o e = e

module _ (t : Tables) (trims : Trims t) (p : LexerProfile) where
  finish-some :
      (cap : Option ℕ) (k : Scanner) (o : Output) (evs : List Event)
      → end_statement t p k ≡ some evs
      → finish t p cap k o ≡ some (emit_all cap evs o)
  unfolding finish
  finish-some cap k o evs e = rw (e, finish) refl

  pub loop_end :
      (fuel : ℕ) (cap : Option ℕ) (k : Scanner) (o : Output) (evs : List Event)
      → is_over k.at o ≡ true
      → end_statement t p k ≡ some evs
      → scan_loop t p (suc fuel) cap k o ≡ some (emit_all cap evs o)
  unfolding scan_loop
  loop_end fuel cap k o evs over e = rw (over, scan_loop) (finish-some cap k o evs e)

  pub loop_next :
      (fuel : ℕ) (cap : Option ℕ) (k : Scanner) (o : Output) (r : Scanner × List Event)
      → is_over k.at o ≡ false
      → round t p k ≡ some r
      → scan_loop t p (suc fuel) cap k o ≡ scan_loop t p fuel cap r.0 (emit_all cap r.1 o)
  unfolding scan_loop
  loop_next fuel cap k o r more e = rw (more, e, scan_loop) refl

  -- The scan without a cap, from the output u.
  abbrev pub Full : ℕ → Scanner → List Event → List Event → Type 0
  Full fuel k u w =
      (scan_loop t p fuel none k (collected u) ≡ some (collected w)) × (length u ≤ length w)

  Full-end :
      (fuel : ℕ) (k : Scanner) (u evs : List Event)
      → is_over k.at (collected u) ≡ true
      → end_statement t p k ≡ some evs
      → Full (suc fuel) k u (u ++ evs)
  Full-end fuel k u evs over e = (
    loop_end fuel none k (collected u) evs over e ∙ ap some (emit_all-none evs u),
    omega (arith, length-append u evs),
  )

  Full-next :
      (fuel : ℕ) (k : Scanner) (u w : List Event) (r : Scanner × List Event)
      → is_over k.at (collected u) ≡ false
      → round t p k ≡ some r
      → Full fuel r.0 (u ++ r.1) w
      → Full (suc fuel) k u w
  Full-next fuel k u w r more e (f, le) = (
    loop_next fuel none k (collected u) r more e
        ∙ ap (scan_loop t p fuel none r.0) (emit_all-none r.1 u)
        ∙ f,
    omega (arith, length-append u r.1),
  )

  pub loop-Full :
      (fuel : ℕ) (k : Scanner) (u : List Event)
      → length k.at < fuel
      → 0 < length k.delim
      → (w : List Event) × Full fuel k u w
  loop-Full zero k u h d = absurd (omega (arith, h))
  loop-Full (suc fuel) k u h d = elim (Bool-cases (is_over k.at (collected u))) [
    | inl over ↦
        let (evs, e) = end_statement-Returns t trims p k in (u ++ evs, Full-end fuel k u evs over e)
    | inr more ↦
        let (r, e, (lt, d')) = round-Goes t trims p k (is_over_pos k.at (collected u) more) d in
        let (w, full) = loop-Full fuel r.0 (u ++ r.1) (omega arith) d' in
        (w, Full-next fuel k u w r more e full)
  ]

  -- The capped scan returns, and its output tracks that of the scan without a cap.
  abbrev pub CapTracks : ℕ → ℕ → Scanner → List Event → Output → Type 0
  CapTracks fuel m k w o =
      (o' : Output) × (scan_loop t p fuel (some m) k o ≡ some o') × Tracks m w o'

  pub loop-Tracks :
      (fuel m : ℕ) (k : Scanner) (u : List Event) (o : Output)
      → length k.at < fuel
      → 0 < length k.delim
      → Tracks m u o
      → (w : List Event) × Full fuel k u w × CapTracks fuel m k w o
  loop-Tracks zero m k u o h d tr = absurd (omega (arith, h))
  loop-Tracks (suc fuel) m k u o h d (inr (over, many)) =
      let (w, full) = loop-Full (suc fuel) k u h d in
      let (evs, e) = end_statement-Returns t trims p k in
      (
        w,
        full,
        (
          emit_all (some m) evs o,
          loop_end fuel (some m) k o evs (is_over-overflow k.at o over) e,
          inr (emit_all-overflow (some m) evs o over, omega (arith, full.1)),
        ),
      )
  loop-Tracks (suc fuel) m k u o h d (inl (at_u, le)) =
      rw at_u (elim (Bool-cases (is_over k.at (collected u))) [
        | inl over ↦
            let (evs, e) = end_statement-Returns t trims p k in
            (
              u ++ evs,
              Full-end fuel k u evs over e,
              (
                emit_all (some m) evs (collected u),
                loop_end fuel (some m) k (collected u) evs over e,
                emit_all-Tracks m evs u (collected u) (inl (refl, le)),
              ),
            )
        | inr more ↦
            let (r, e, (lt, d')) = round-Goes t trims p k (is_over_pos k.at (collected u) more) d in
            let (w, full, (o', f, tr)) =
              loop-Tracks fuel m r.0 (u ++ r.1) (emit_all (some m) r.1 (collected u)) (omega arith)
                d' (emit_all-Tracks m r.1 u (collected u) (inl (refl, le))) in
            (
              w,
              Full-next fuel k u w r more e full,
              (o', loop_next fuel (some m) k (collected u) r more e ∙ f, tr),
            )
      ])

abbrev pub capped_answer : ℕ → List Event → Result (List Event)
capped_answer m evs = if leb (length evs) m then ok evs else too_many

pub Tracks-answer :
    (m : ℕ) (w : List Event) (o : Output) → Tracks m w o → answer o ≡ capped_answer m w
Tracks-answer m w o (inl (e, le)) = rw e (ground arith)
Tracks-answer m w o (inr (over, many)) = rw over (ground arith)
