-- ===== src/Limiter.antt =====
-- internal/auth/ratelimit.go: the sliding-window limiter (RateLimiter, RetryAfterSeconds).
-- Times and windows are nanoseconds. `clock i` is the i-th reading of `rl.now()` and `reads` counts
-- the readings. A key is absent from the map `hits` exactly when it has no timestamp: `prune`
-- deletes a key that it leaves with none.
pub mod Cap
pub mod Exact
mod Tests
use tablex.Common.{
  [], ℕ, suc, ◌+◌, ◌/◌, Bool, true, false, List, ◌∷◌, ◌++◌, ite, if◌then◌else◌, ltb, leb, Str,
  str_eq, length,
}

pub record RateLimiter : Type 0 where
  pub window : ℕ
  pub max : ℕ
  pub hits : Str → List ℕ
  pub reads : ℕ

pub retry_after_seconds : ℕ → ℕ
retry_after_seconds window =
    let secs = (window + 999_999_999) / 1_000_000_000 in if ltb secs 1 then 1 else secs

abbrev pub set_hits : (Str → List ℕ) → Str → List ℕ → Str → List ℕ
set_hits hits key ts k = ite (str_eq key k) ts (hits k)

-- `t.After(now - window)` for each timestamp, written without a negative cutoff.
pub live : ℕ → ℕ → List ℕ → List ℕ
live now window [] = []
live now window (t ∷ ts) =
    let kept = live now window ts in if ltb now (t + window) then t ∷ kept else kept

-- The second loop of Reserve.
pub record_keys : ℕ → (Str → List ℕ) → List Str → Str → List ℕ
record_keys now hits [] = hits
record_keys now hits (k ∷ ks) = record_keys now (set_hits hits k (hits k ++ now ∷ [])) ks

module _ (clock : ℕ → ℕ) where
  -- Its result in Go is the new `hits key`.
  pub prune : RateLimiter → Str → RateLimiter
  unfolding live
  prune rl key = record rl {
    hits = set_hits rl.hits key (live (clock rl.reads) rl.window (rl.hits key));
    reads = suc rl.reads;
  }

  -- The first loop of Reserve: the limiter so far, and whether every key has room.
  pub check_keys : RateLimiter → List Str → RateLimiter × Bool
  unfolding prune
  check_keys rl [] = (rl, true)
  check_keys rl (k ∷ ks) =
      let pruned = prune rl k in
      let rest = check_keys pruned ks in
      if leb rl.max (length (pruned.hits k)) then (pruned, false) else rest

  pub charge : RateLimiter × Bool → List Str → RateLimiter × Bool
  unfolding record_keys
  charge (rl, true) keys =
      (record rl { hits = record_keys (clock rl.reads) rl.hits keys; reads = suc rl.reads }, true)
  charge (rl, false) keys = (rl, false)

  pub reserve : RateLimiter → List Str → RateLimiter × Bool
  unfolding check_keys charge
  reserve rl keys = if leb rl.max 0 then (rl, true) else charge (check_keys rl keys) keys

pub reset : RateLimiter → Str → RateLimiter
reset rl key = record rl { hits = set_hits rl.hits key [] }

-- `Sweep` prunes every key of the map, in any order: `keys` are the keys that it has.
pub sweep : (ℕ → ℕ) → RateLimiter → List Str → RateLimiter
unfolding prune
sweep clock rl [] = rl
sweep clock rl (k ∷ ks) = sweep clock (prune clock rl k) ks
