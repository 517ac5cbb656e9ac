-- ===== src/Script/Restore/Preflight.antt =====
-- internal/server/handlers/importer.go: what runRestoreScript checks before it runs a section.
use tablex.Common.{
  [], ℕ, ◌+◌, ◌-◌, Bool, true, false, List, ◌∷◌, Option, none, some, if◌then◌else◌, ltb, leb, ◌==◌,
  ◌||◌, zero, suc, ◌≡◌, inl, inr, refl, ap, ◌∙◌, arith, Str, length, Bool-cases,
}
use tablex.Text.{Tables}
use tablex.Script.{LexerProfile}
use tablex.Script.Total.{Trims}
use tablex.Script.Scan.{Event, ◌>>=◌}
use tablex.Script.Scan.Loop.{scan, EventBudget, new_event_budget, consume}
use tablex.Script.Scan.Limits.{consume_lem}
use tablex.Script.Restore.Rounds.{split_restore_sections_total}
use tablex.Script.Restore.{Section, Sections, ok, too_many, bad_connect, split_restore_sections}

module _ (t : Tables) (p : LexerProfile) where
  -- The loop over the sections: whether no Consume has an error.
  pub consume_sections : EventBudget → List Section → Option Bool
  unfolding consume
  consume_sections b [] = some true
  consume_sections b (sec ∷ secs) = elim (consume t p b sec.script) [
    | none ↦ none
    | some (b', false) ↦ some false
    | some (b', true) ↦ consume_sections b' secs
  ]

  pub check_budget : ℕ → List Section → Option Bool
  unfolding consume_sections
  check_budget max secs =
      if ltb 0 max then consume_sections (new_event_budget max) secs else some true

  -- The sections that are run, one by one; none if the script is refused before the first.
  pub admitted : ℕ → Sections → Option (Option (List Section))
  unfolding check_budget
  admitted max (ok secs) = check_budget max secs >>= λ b. some (if b then some secs else none)
  admitted max too_many = some none
  admitted max (bad_connect line) = some none

  pub run_restore_script : Str → Bool → ℕ → Option (Option (List Section))
  unfolding split_restore_sections admitted
  run_restore_script script allow_connect max =
      split_restore_sections t max script allow_connect >>= admitted max

module _ (t : Tables) (trims : Trims t) (p : LexerProfile) where
  -- The events of all sections are n.
  abbrev pub Counts : List Section → ℕ → Type 0
  Counts [] n = n ≡ 0
  Counts (sec ∷ secs) n =
      (evs : List Event) × (m : ℕ) × (scan t p sec.script ≡ some evs)
      × Counts secs m
      × (n ≡ length evs + m)

  consume_sections_lem :
      (b : EventBudget) (secs : List Section)
      → b.capped ≡ true
      → (n : ℕ) × Counts secs n × (consume_sections t p b secs ≡ some (leb n b.remaining))
  unfolding consume_sections
  consume_sections_lem b [] c = (0, refl, ap some (zero_le b.remaining))
    where
      zero_le : (k : ℕ) → true ≡ leb 0 k
      zero_le k = ground arith
  consume_sections_lem b (sec ∷ secs) c =
      let (evs, e, f) = consume_lem t trims p b sec.script c in
      let b' = record b { remaining = b.remaining - length evs } in
      let (m, counts, g) = consume_sections_lem b' secs c in
      (length evs + m, (evs, m, e, counts, refl), by_room evs m f g)
    where
      by_room :
          (evs : List Event) (m : ℕ)
          → consume t p b sec.script
            ≡ some (
                if leb (length evs) b.remaining
                then (record b { remaining = b.remaining - length evs }, true)
                else (b, false))
          → consume_sections t p (record b { remaining = b.remaining - length evs }) secs
            ≡ some (leb m (b.remaining - length evs))
          → consume_sections t p b (sec ∷ secs) ≡ some (leb (length evs + m) b.remaining)
      by_room evs m f g = elim (Bool-cases (leb (length evs) b.remaining)) [
        | inl e ↦
            let f' : consume t p b sec.script
                ≡ some (record b { remaining = b.remaining - length evs }, true) =
              rw e at f in
            rw (f', consume_sections) (g ∙ ap some (ground arith))
        | inr e ↦
            let f' : consume t p b sec.script ≡ some (b, false) = rw e at f in
            rw (f', consume_sections) (ap some (ground arith))
      ]

  check_budget_lem :
      (max : ℕ) (secs : List Section)
      → (n : ℕ) × Counts secs n × (check_budget t p max secs ≡ some (max == 0 || leb n max))
  unfolding check_budget
  check_budget_lem zero secs =
      let (n, counts, g) =
        consume_sections_lem (record { remaining = 0; capped = true }) secs refl in
      (n, counts, refl)
  check_budget_lem (suc m) secs =
      let on : ltb 0 (suc m) ≡ true = ground arith in
      let (n, counts, g) =
        consume_sections_lem (record { remaining = suc m; capped = true }) secs refl in
      (n, counts, rw on (g ∙ ap some (ground arith)))

  -- What is run of the answer of SplitRestoreSections.
  abbrev pub RunsWhole : ℕ → Sections → Option (Option (List Section)) → Type 0
  RunsWhole max (ok secs) o =
      (n : ℕ) × Counts secs n × (o ≡ some (if max == 0 || leb n max then some secs else none))
  RunsWhole max too_many o = o ≡ some none
  RunsWhole max (bad_connect line) o = o ≡ some none

  admitted-RunsWhole : (max : ℕ) (r : Sections) → RunsWhole max r (admitted t p max r)
  unfolding admitted
  admitted-RunsWhole max (ok secs) =
      let (n, counts, e) = check_budget_lem max secs in (n, counts, rw (e, admitted) refl)
  admitted-RunsWhole max too_many = refl
  admitted-RunsWhole max (bad_connect line) = refl

  -- runRestoreScript, up to the first connection: SplitRestoreSections gives an answer for every
  -- script, and the sections that are run are all of its sections or none. With the cap `max`,
  -- where 0 is no cap, they are run exactly when all their events together, markers included, are
  -- no more than `max`; a script with too many sections or a bad \connect line runs nothing. Of
  -- Go's TrimSpace outside ASCII this takes that it adds no bytes.
  pub run_restore_script-RunsWhole :
      (script : Str) (allow_connect : Bool) (max : ℕ)
      → (r : Sections) × (split_restore_sections t max script allow_connect ≡ some r)
        × RunsWhole max r (run_restore_script t p script allow_connect max)
  unfolding run_restore_script
  run_restore_script-RunsWhole script allow_connect max =
      let (r, e) = split_restore_sections_total t max script allow_connect in
      (r, e, rw e (admitted-RunsWhole max r))
