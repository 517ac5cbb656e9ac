-- ===== src/Script/Scan/Loop.antt =====
-- internal/sqlscript/sqlscript.go: the loop of scanCapped, ScanLimit, Scan, SplitLimit, Split and
-- EventBudget. The outer none stands for fuel that ran out.
use tablex.Common.{
  [], ℕ, zero, suc, ◌+◌, ◌-◌, Bool, true, false, ◌&&◌, ◌||◌, List, ◌∷◌, ◌++◌, Option, none, some,
  if◌then◌else◌, ltb, leb, ◌==◌, Str, bytes, length,
}
use tablex.Text.{Tables}
use tablex.Script.{LexerProfile}
use tablex.Script.Scan.{Event, stmt, marker, Scanner, ◌>>=◌, restart, round, end_statement}

-- The result of a scan: its value, or ErrTooManyStatements.
pub data Result (A : Type 0) : Type 0 where
  ok : A → Result A
  too_many : Result A

-- `max > 0 || (strict && max == 0)` says whether there is a cap. A negative `max` is as 0 where it
-- is not strict, and a budget is never negative.
abbrev pub cap_of : ℕ → Bool → Option ℕ
cap_of max strict = if ltb 0 max || (strict && max == 0) then some max else none

pub record Output : Type 0 where
  pub out : List Event
  pub overflow : Bool

abbrev pub is_full : Option ℕ → List Event → Bool
is_full none out = false
is_full (some max) out = leb max (length out)

unfoldable pub emit : Option ℕ → Event → Output → Output
emit cap ev o =
    if is_full cap o.out then record o { overflow = true } else record o { out = o.out ++ ev ∷ [] }

unfoldable pub emit_all : Option ℕ → List Event → Output → Output
unfolding emit
emit_all cap [] o = o
emit_all cap (ev ∷ evs) o = emit_all cap evs (emit cap ev o)

abbrev pub is_over : Str → Output → Bool
is_over [] o = true
is_over (c ∷ s) o = o.overflow

abbrev pub answer : Output → Result (List Event)
answer o = if o.overflow then too_many else ok o.out

-- Scan and Split drop the error.
abbrev pub or_nil : {A : Type 0} → Result (List A) → List A
or_nil (ok out) = out
or_nil too_many = []

pub statements : List Event → List Str
statements [] = []
statements (stmt s ∷ evs) = s ∷ statements evs
statements (marker m ∷ evs) = statements evs

abbrev pub map_result : Result (List Event) → Result (List Str)
map_result (ok evs) = ok (statements evs)
map_result too_many = too_many

module _ (t : Tables) (p : LexerProfile) where
  -- Behind the loop: `endWord(n); flush(n)`.
  unfoldable pub finish : Option ℕ → Scanner → Output → Option Output
  unfolding end_statement emit_all
  finish cap k o = end_statement t p k >>= λ evs. some (emit_all cap evs o)

  unfoldable pub scan_loop : ℕ → Option ℕ → Scanner → Output → Option Output
  unfolding finish round emit_all
  scan_loop zero cap k o = none
  scan_loop (suc fuel) cap k o = elim (is_over k.at o) [
    | true ↦ finish cap k o
    | false ↦ elim (round t p k) [
      | none ↦ none
      | some (k', evs) ↦ scan_loop fuel cap k' (emit_all cap evs o)
    ]
  ]

  unfoldable pub scan_capped : Str → ℕ → Bool → Option (Result (List Event))
  unfolding scan_loop
  scan_capped script max strict =
      scan_loop (length script + 1) (cap_of max strict) (restart (bytes ";") [] script)
        (record { out = []; overflow = false })
      >>= λ o. some (answer o)

  unfoldable pub scan_limit : Str → ℕ → Option (Result (List Event))
  unfolding scan_capped
  scan_limit script max = scan_capped script max false

  unfoldable pub scan : Str → Option (List Event)
  unfolding scan_limit
  scan script = scan_limit script 0 >>= λ r. some (or_nil r)

  unfoldable pub split_limit : Str → ℕ → Option (Result (List Str))
  unfolding scan_limit statements
  split_limit script max = scan_limit script max >>= λ r. some (map_result r)

  unfoldable pub split : Str → Option (List Str)
  unfolding split_limit
  split script = split_limit script 0 >>= λ r. some (or_nil r)

pub record EventBudget : Type 0 where
  pub remaining : ℕ
  pub capped : Bool

abbrev pub new_event_budget : ℕ → EventBudget
new_event_budget max = record { remaining = max; capped = ltb 0 max }

abbrev pub spend_events : EventBudget → Result (List Event) → EventBudget × Bool
spend_events b (ok evs) = (record b { remaining = b.remaining - length evs }, true)
spend_events b too_many = (b, false)

module _ (t : Tables) (p : LexerProfile) where
  -- Consume: the budget behind it, and whether there was no error.
  unfoldable pub consume : EventBudget → Str → Option (EventBudget × Bool)
  unfolding scan_capped
  consume b script =
      if b.capped
      then (scan_capped t p script b.remaining true >>= λ r. some (spend_events b r))
      else some (b, true)
