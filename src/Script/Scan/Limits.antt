-- ===== src/Script/Scan/Limits.antt =====
-- internal/sqlscript/sqlscript.go: what ScanLimit, SplitLimit and EventBudget make of a cap.
use tablex.Common.{
  [], ℕ, zero, suc, ◌+◌, ◌-◌, Bool, true, false, ◌||◌, List, Option, none, some, if◌then◌else◌, leb,
  ◌==◌, ◌≡◌, inl, refl, ◌∙◌, ap, arith, Str, bytes, length,
}
use tablex.Text.{Tables}
use tablex.Script.{LexerProfile}
use tablex.Script.Total.{Trims}
use tablex.Script.Scan.{Event, ◌>>=◌, restart}
use tablex.Script.Scan.Loop.{
  Output, Result, ok, too_many, cap_of, scan_loop, scan_capped, scan_limit, scan, statements,
  split_limit, split, EventBudget, consume, spend_events, answer, map_result,
}
use tablex.Script.Scan.Cap.{collected, loop-Tracks, loop-Full, capped_answer, Tracks-answer}

abbrev answer_at : Option ℕ → List Event → Result (List Event)
answer_at none evs = ok evs
answer_at (some m) evs = capped_answer m evs

cap_of_pos : (m : ℕ) → cap_of (suc m) false ≡ some (suc m)
cap_of_pos m = ground arith

cap_of_strict : (m : ℕ) → cap_of m true ≡ some m
cap_of_strict zero = refl
cap_of_strict (suc m) = ground arith

if_true : {A : Type 0} (b : Bool) (x y : A) → b ≡ true → (if b then x else y) ≡ x
if_true b x y e = rw e refl

module _ (t : Tables) (trims : Trims t) (p : LexerProfile) where
  abbrev loop_at : Option ℕ → Str → Option Output
  loop_at cap script =
      scan_loop t p (length script + 1) cap (restart (bytes ";") [] script) (collected [])

  loop_answer :
      (cap : Option ℕ) (script : Str)
      → (evs : List Event) × (loop_at none script ≡ some (collected evs))
        × ((loop_at cap script >>= λ o. some (answer o)) ≡ some (answer_at cap evs))
  loop_answer none script =
      let (evs, (e, _)) =
        loop-Full t trims p (length script + 1) (restart (bytes ";") [] script) [] (omega arith)
          (omega arith) in
      (evs, e, rw e refl)
  loop_answer (some m) script =
      let (evs, (e, _), (o, f, tr)) =
        loop-Tracks t trims p (length script + 1) m (restart (bytes ";") [] script) []
          (collected []) (omega arith) (omega arith) (inl (refl, omega arith)) in
      (evs, e, rw f (ap some (Tracks-answer m evs o tr)))

  -- scanCapped, against the scan without a cap.
  pub scan_capped_lem :
      (script : Str) (max : ℕ) (strict : Bool)
      → (evs : List Event) × (scan t p script ≡ some evs)
        × (scan_capped t p script max strict ≡ some (answer_at (cap_of max strict) evs))
  unfolding scan_capped scan scan_limit
  scan_capped_lem script max strict =
      let (evs, e, f) = loop_answer (cap_of max strict) script in (evs, rw e refl, f)

  -- ScanLimit and SplitLimit with the cap `max`, where 0 is no cap: on a script that Scan takes to
  -- no more than `max` events they give just what Scan and Split give; on any other script they
  -- give ErrTooManyStatements and no part of it. All four return for every script and profile. Of
  -- Go's TrimSpace outside ASCII this takes that it adds no bytes.
  pub scan_limit_lem :
      (script : Str) (max : ℕ)
      → (evs : List Event) × (scan t p script ≡ some evs)
        × (split t p script ≡ some (statements evs))
        × (scan_limit t p script max
            ≡ some (if max == 0 || leb (length evs) max then ok evs else too_many))
        × (split_limit t p script max
            ≡ some (if max == 0 || leb (length evs) max then ok (statements evs) else too_many))
  unfolding scan split scan_limit split_limit
  scan_limit_lem script zero =
      let (evs, e, f) = scan_capped_lem script 0 false in (evs, e, rw f refl, f, rw f refl)
  scan_limit_lem script (suc m) =
      let (evs, e, f) = scan_capped_lem script (suc m) false in
      let (evs', e', f') = scan_capped_lem script 0 false in
      let same : evs' ≡ evs = ground (arith, e, e') in
      let g : scan_capped t p script (suc m) false ≡ some (capped_answer (suc m) evs) =
        f ∙ ap (λ (c : Option ℕ). some (answer_at c evs)) (cap_of_pos m) in
      (
        evs,
        e,
        rw f' (ap (λ (x : List Event). some (statements x)) same),
        g ∙ by_answer evs,
        rw g (by_size evs),
      )
    where
      by_answer :
          (evs : List Event)
          → some (capped_answer (suc m) evs)
            ≡ some (if suc m == 0 || leb (length evs) (suc m) then ok evs else too_many)
      by_answer evs = ground arith

      by_size :
          (evs : List Event)
          → some (map_result (capped_answer (suc m) evs))
            ≡ some
                (if suc m == 0 || leb (length evs) (suc m) then ok (statements evs) else too_many)
      by_size evs = ground arith

  -- Consume on a budget with a cap: the events of the script are taken off, or, where they are more
  -- than what is left, nothing is taken and there is an error.
  pub consume_lem :
      (b : EventBudget) (script : Str)
      → b.capped ≡ true
      → (evs : List Event) × (scan t p script ≡ some evs)
        × (consume t p b script
            ≡ some (
                if leb (length evs) b.remaining
                then (record b { remaining = b.remaining - length evs }, true)
                else (b, false)))
  unfolding consume
  consume_lem b script c =
      let (evs, e, f) = scan_capped_lem script b.remaining true in
      let g : scan_capped t p script b.remaining true ≡ some (capped_answer b.remaining evs) =
        f ∙ ap (λ (c : Option ℕ). some (answer_at c evs)) (cap_of_strict b.remaining) in
      (evs, e, if_true b.capped _ _ c ∙ rw g (by_size evs))
    where
      by_size :
          (evs : List Event)
          → some (spend_events b (capped_answer b.remaining evs))
            ≡ some (
                if leb (length evs) b.remaining
                then (record b { remaining = b.remaining - length evs }, true)
                else (b, false))
      by_size evs = ground arith
