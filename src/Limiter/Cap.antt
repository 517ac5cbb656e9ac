-- ===== src/Limiter/Cap.antt =====
-- internal/auth/ratelimit.go: the cap of the limiter.
use tablex.Common.{
  [], ℕ, suc, ◌+◌, ◌≤◌, ◌<◌, Bool, true, false, List, ◌∷◌, ◌++◌, ◌≡◌, ◌≢◌, refl, ◌∙◌, arith, Str,
  str_eq, length, length-append, Elem, All, Bool-cases, ap, ◌⊎◌, inl, inr, leb,
}
use mathlib.Core.Logic.{if_pos, if_neg}
use tablex.Limiter.{RateLimiter, set_hits, live, prune, check_keys, record_keys, charge, reserve}

-- No key has more timestamps than the cap allows.
abbrev pub IsCapped : RateLimiter → Type 0
IsCapped rl = (k : Str) → length (rl.hits k) ≤ rl.max

abbrev pub Distinct : List Str → Type 0
Distinct [] = Unit {0}
Distinct (k ∷ ks) = (¬ Elem k ks) × Distinct ks

length-live : (now window : ℕ) (ts : List ℕ) → length (live now window ts) ≤ length ts
unfolding live
length-live now window [] = omega arith
length-live now window (t ∷ ts) = ground (arith, length-live now window ts)

-- A full window after the latest timestamp nothing is left.
pub live_empty :
    (now window : ℕ) (ts : List ℕ) → All (λ t. t + window ≤ now) ts → live now window ts ≡ []
unfolding live
live_empty now window [] h = refl
live_empty now window (t ∷ ts) h = ground (arith, live_empty now window ts h.1)

Elem-cases : (k : Str) (ks : List Str) → Elem k ks ⊎ (¬ Elem k ks)
Elem-cases k [] = inr (λ e. e)
Elem-cases k (j ∷ js) = elim (str_eq j k) [
  | yes e ↦ inl (inl e)
  | no ne ↦ elim (Elem-cases k js) [
    | inl m ↦ inl (inr m)
    | inr n ↦ inr (elim [ inl e ↦ ne e | inr m ↦ n m ])
  ]
]

module _ (clock : ℕ → ℕ) where
  prune-IsCapped : (rl : RateLimiter) (key : Str) → IsCapped rl → IsCapped (prune clock rl key)
  unfolding prune
  prune-IsCapped rl key c k =
      ground (arith, c k, c key, length-live (clock rl.reads) rl.window (rl.hits key))

  record Checked (rl : RateLimiter) (keys : List Str) (s : RateLimiter) (ok : Bool) : Type 0 where
    capped : IsCapped s
    same_max : s.max ≡ rl.max
    same_window : s.window ≡ rl.window
    shrinks : (k : Str) → length (s.hits k) ≤ length (rl.hits k)
    room : ok ≡ true → (k : Str) → Elem k keys → length (s.hits k) < rl.max

  prune_shrinks :
      (rl : RateLimiter) (key k : Str) → length ((prune clock rl key).hits k) ≤ length (rl.hits k)
  unfolding prune
  prune_shrinks rl key k =
      ground (arith, length-live (clock rl.reads) rl.window (rl.hits key), ap rl.hits)

  prune_config :
      (rl : RateLimiter) (key : Str)
      → ((prune clock rl key).max ≡ rl.max) × ((prune clock rl key).window ≡ rl.window)
  unfolding prune
  prune_config rl key = (refl, refl)

  check_keys-Checked :
      (rl : RateLimiter) (keys : List Str)
      → IsCapped rl
      → Checked rl keys (check_keys clock rl keys).0 (check_keys clock rl keys).1
  unfolding check_keys
  check_keys-Checked rl [] c = record {
    capped = c;
    same_max = refl;
    same_window = refl;
    shrinks = λ k. omega arith;
    room = λ _ k e. absurd e;
  }
  check_keys-Checked rl (k ∷ ks) c =
      elim (Bool-cases (leb rl.max (length ((prune clock rl k).hits k)))) [
        | inl full ↦ rw full (record {
          capped = prune-IsCapped rl k c;
          same_max = (prune_config rl k).0;
          same_window = (prune_config rl k).1;
          shrinks = prune_shrinks rl k;
          room = λ e. cc;
        })
        | inr free ↦
            let r = check_keys-Checked (prune clock rl k) ks (prune-IsCapped rl k c) in
            let same = (prune_config rl k).0 in
            rw free (record {
              capped = r.capped;
              same_max = r.same_max ∙ same;
              same_window = r.same_window ∙ (prune_config rl k).1;
              shrinks = λ j. omega (arith, r.shrinks j, prune_shrinks rl k j);
              room = λ e j. elim [
                | inl x ↦ rw (← x) (let less = r.shrinks k in ground arith)
                | inr m ↦ omega (arith, r.room e j m)
              ];
            })
      ]

pub set_hits_self : (h : Str → List ℕ) (k : Str) (ts : List ℕ) → set_hits h k ts k ≡ ts
set_hits_self h k ts = rw (if_pos _ refl)

pub set_hits_other : (h : Str → List ℕ) (j k : Str) (ts : List ℕ) → j ≢ k → set_hits h j ts k ≡ h k
set_hits_other h j k ts ne = rw (if_neg _ ne)

pub record_keys_other :
    (now : ℕ) (hits : Str → List ℕ) (keys : List Str) (k : Str)
    → ¬ Elem k keys
    → record_keys now hits keys k ≡ hits k
unfolding record_keys
record_keys_other now hits [] k ne = refl
record_keys_other now hits (j ∷ js) k ne =
    let ih = record_keys_other now (set_hits hits j (hits j ++ now ∷ [])) js k (λ e. ne (inr e)) in
    ih ∙ set_hits_other hits j k (hits j ++ now ∷ []) (λ e. ne (inl e))

length-record_keys :
    (now : ℕ) (hits : Str → List ℕ) (keys : List Str) (k : Str)
    → Distinct keys
    → Elem k keys
    → length (record_keys now hits keys k) ≡ suc (length (hits k))
unfolding record_keys
length-record_keys now hits [] k d e = absurd e
length-record_keys now hits (j ∷ js) k d (inl e) =
    rw (record_keys_other now (set_hits hits j (hits j ++ now ∷ [])) js k (λ m. d.0 (rw e m))) (
      rw (if_pos _ e)
        (omega (arith, length-append (hits j) (now ∷ []), ap (λ x. length (hits x)) e)))
length-record_keys now hits (j ∷ js) k d (inr m) =
    length-record_keys now (set_hits hits j (hits j ++ now ∷ [])) js k d.1 m
    ∙ ap suc (ap length (set_hits_other hits j k (hits j ++ now ∷ []) (λ e. d.0 (rw e m))))

length-record_keys-le :
    (now : ℕ) (hits : Str → List ℕ) (keys : List Str) (k : Str) (max : ℕ)
    → Distinct keys
    → ((j : Str) → length (hits j) ≤ max)
    → ((j : Str) → Elem j keys → length (hits j) < max)
    → length (record_keys now hits keys k) ≤ max
length-record_keys-le now hits keys k max d capped room = elim (Elem-cases k keys) [
  | inl m ↦ omega (arith, length-record_keys now hits keys k d m, room k m)
  | inr n ↦ omega (arith, ap length (record_keys_other now hits keys k n), capped k)
]

charge-le :
    (clock : ℕ → ℕ) (rl s : RateLimiter) (b : Bool) (keys : List Str) (k : Str)
    → Distinct keys
    → Checked clock rl keys s b
    → length ((charge clock (s, b) keys).0.hits k) ≤ (charge clock (s, b) keys).0.max
unfolding charge
charge-le clock rl s true keys k d h =
    length-record_keys-le (clock s.reads) s.hits keys k s.max d h.capped
      (λ j m. omega (arith, h.room refl j m, h.same_max))
charge-le clock rl s false keys k d h = h.capped k

-- Reserve keeps every key within the cap, whatever the clock reads, if no key is listed twice.
pub reserve-IsCapped :
    (clock : ℕ → ℕ) (rl : RateLimiter) (keys : List Str)
    → Distinct keys
    → IsCapped rl
    → IsCapped (reserve clock rl keys).0
unfolding reserve
reserve-IsCapped clock rl keys d c k = elim (Bool-cases (leb rl.max 0)) [
  | inl off ↦ rw off (c k)
  | inr on ↦ rw on (
      charge-le clock rl (check_keys clock rl keys).0 (check_keys clock rl keys).1 keys k d
        (check_keys-Checked clock rl keys c))
]
