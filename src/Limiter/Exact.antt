-- ===== src/Limiter/Exact.antt =====
-- internal/auth/ratelimit.go: what one call of Reserve decides and records.
use tablex.Common.{
  [], ℕ, ◌+◌, ◌*◌, ◌≤◌, ◌<◌, Bool, true, false, List, ◌∷◌, ◌++◌, ◌≡◌, refl, sym, ◌∙◌, arith, Str,
  length, Elem, All, Bool-cases, ap, ◌↔◌, inl, inr, leb, ◌⊎◌, str_eq,
}
use tablex.Limiter.{
  RateLimiter, retry_after_seconds, set_hits, live, prune, check_keys, record_keys, charge, reserve,
}
use tablex.Limiter.Cap.{Distinct, live_empty, record_keys_other, set_hits_self, set_hits_other}

-- All readings of the clock during the call are `now`.
abbrev pub at : ℕ → ℕ → ℕ
at now _ = now

abbrev pub HasRoom : ℕ → RateLimiter → Str → Type 0
HasRoom now rl k = length (live now rl.window (rl.hits k)) < rl.max

module _ (now : ℕ) where
  All-prune :
      (rl : RateLimiter) (key : Str) (ks : List Str)
      → ¬ Elem key ks
      → All (HasRoom now (prune (at now) rl key)) ks ↔ All (HasRoom now rl) ks
  unfolding prune
  All-prune rl key [] n = (λ h. h, λ h. h)
  All-prune rl key (k ∷ ks) n =
      let ih = All-prune rl key ks (λ e. n (inr e)) in
      let same =
        set_hits_other rl.hits key k (live now rl.window (rl.hits key)) (λ e. n (inl (sym e))) in
      (λ h. (rw same at h.0, ih.0 h.1), λ h. (rw same h.0, ih.1 h.1))

  check_keys_iff :
      (rl : RateLimiter) (keys : List Str)
      → Distinct keys
      → ((check_keys (at now) rl keys).1 ≡ true) ↔ All (HasRoom now rl) keys
  unfolding check_keys
  check_keys_iff rl [] d = (λ _. tt, λ _. refl)
  check_keys_iff rl (k ∷ ks) d =
      let ih = check_keys_iff (prune (at now) rl k) ks d.1 in
      let carried = All-prune rl k ks d.0 in
      let pruned : (prune (at now) rl k).hits k ≡ live now rl.window (rl.hits k) =
        unfold prune in set_hits_self rl.hits k _ in
      elim (Bool-cases (leb rl.max (length ((prune (at now) rl k).hits k)))) [
        | inl full ↦
            rw full (λ e. cc, λ h. absurd (let room = h.0 in ground (arith, ap length pruned)))
        | inr free ↦
            rw free (
              λ e. (ground (arith, ap length pruned), carried.0 (ih.0 e)),
              λ h. ih.1 (carried.1 h.1),
            )
      ]

  check_keys_other :
      (rl : RateLimiter) (keys : List Str) (k : Str)
      → ¬ Elem k keys
      → (check_keys (at now) rl keys).0.hits k ≡ rl.hits k
  unfolding check_keys
  check_keys_other rl [] k n = refl
  check_keys_other rl (j ∷ js) k n =
      let ih = check_keys_other (prune (at now) rl j) js k (λ e. n (inr e)) in
      let same : (prune (at now) rl j).hits k ≡ rl.hits k =
        unfold prune in set_hits_other rl.hits j k _ (λ e. n (inl e)) in
      ground arith

  check_keys-live :
      (rl : RateLimiter) (keys : List Str) (k : Str)
      → Distinct keys
      → Elem k keys
      → (check_keys (at now) rl keys).1 ≡ true
      → (check_keys (at now) rl keys).0.hits k ≡ live now rl.window (rl.hits k)
  unfolding check_keys
  check_keys-live rl [] k d e ok = absurd e
  check_keys-live rl (j ∷ js) k d (inl e) ok =
      let pruned : (prune (at now) rl j).hits j ≡ live now rl.window (rl.hits j) =
        unfold prune in set_hits_self rl.hits j _ in
      rw (← e) (let rest = check_keys_other (prune (at now) rl j) js j d.0 in ground arith)
  check_keys-live rl (j ∷ js) k d (inr m) ok =
      let same : (prune (at now) rl j).hits k ≡ rl.hits k =
        unfold prune in set_hits_other rl.hits j k _ (λ e. d.0 (rw e m)) in
      let window : (prune (at now) rl j).window ≡ rl.window = unfold prune in refl in
      ground (arith, check_keys-live (prune (at now) rl j) js k d.1 m, ap (live now rl.window) same)

  check_keys-pruned :
      (rl : RateLimiter) (keys : List Str)
      → Distinct keys
      → (k : Str)
      → ((check_keys (at now) rl keys).0.hits k ≡ rl.hits k)
        ⊎ ((check_keys (at now) rl keys).0.hits k ≡ live now rl.window (rl.hits k))
  unfolding check_keys
  check_keys-pruned rl [] d k = inl refl
  check_keys-pruned rl (j ∷ js) d k = elim (str_eq j k) [
    | yes e ↦
        let mine : (prune (at now) rl j).hits j ≡ live now rl.window (rl.hits j) =
          unfold prune in set_hits_self rl.hits j _ in
        let rest = check_keys_other (prune (at now) rl j) js j d.0 in
        inr (rw (← e) (elim (Bool-cases (leb rl.max (length ((prune (at now) rl j).hits j)))) [
          | inl full ↦ rw full mine
          | inr free ↦ rw free (rest ∙ mine)
        ]))
    | no ne ↦
        let same : (prune (at now) rl j).hits k ≡ rl.hits k =
          unfold prune in set_hits_other rl.hits j k _ ne in
        let ih = check_keys-pruned (prune (at now) rl j) js d.1 k in
        let window : (prune (at now) rl j).window ≡ rl.window = unfold prune in refl in
        elim (Bool-cases (leb rl.max (length ((prune (at now) rl j).hits j)))) [
          | inl full ↦ rw full (inl same)
          | inr free ↦ rw free (elim ih [
            | inl u ↦ inl (u ∙ same)
            | inr u ↦ inr (u ∙ ap (live now rl.window) same)
          ])
        ]
  ]

record_keys_live :
    (now : ℕ) (hits : Str → List ℕ) (keys : List Str) (k : Str)
    → Distinct keys
    → Elem k keys
    → record_keys now hits keys k ≡ hits k ++ now ∷ []
unfolding record_keys
record_keys_live now hits [] k d e = absurd e
record_keys_live now hits (j ∷ js) k d (inl e) =
    record_keys_other now (set_hits hits j (hits j ++ now ∷ [])) js k (λ m. d.0 (rw e m))
    ∙ rw e (set_hits_self hits k (hits k ++ now ∷ []))
record_keys_live now hits (j ∷ js) k d (inr m) =
    record_keys_live now (set_hits hits j (hits j ++ now ∷ [])) js k d.1 m
    ∙ ap (λ (ts : List ℕ). ts ++ now ∷ [])
        (set_hits_other hits j k (hits j ++ now ∷ []) (λ e. d.0 (rw e m)))

-- What a call at the instant `now` must do, with the limiter on and no key listed twice: it grants
-- exactly when every key has fewer live timestamps than the cap; granted, each listed key holds
-- its live timestamps and `now`; refused, it holds what it held, or its live timestamps alone; and
-- every other key holds what it held.
pub record ReservesAt (now : ℕ) (rl : RateLimiter) (keys : List Str) (after : RateLimiter)
    (granted : Bool) : Type 0 where
  pub decides : (granted ≡ true) ↔ All (HasRoom now rl) keys
  pub charges :
      (k : Str)
      → granted ≡ true
      → Elem k keys
      → after.hits k ≡ live now rl.window (rl.hits k) ++ now ∷ []
  pub refuses :
      (k : Str)
      → granted ≡ false
      → Elem k keys
      → (after.hits k ≡ rl.hits k) ⊎ (after.hits k ≡ live now rl.window (rl.hits k))
  pub keeps : (k : Str) → ¬ Elem k keys → after.hits k ≡ rl.hits k

charge-ReservesAt :
    (now : ℕ) (rl s : RateLimiter) (b : Bool) (keys : List Str)
    → Distinct keys
    → (b ≡ true) ↔ All (HasRoom now rl) keys
    → ((k : Str) → Elem k keys → b ≡ true → s.hits k ≡ live now rl.window (rl.hits k))
    → ((k : Str) → (s.hits k ≡ rl.hits k) ⊎ (s.hits k ≡ live now rl.window (rl.hits k)))
    → ((k : Str) → ¬ Elem k keys → s.hits k ≡ rl.hits k)
    → ReservesAt now rl keys (charge (at now) (s, b) keys).0 (charge (at now) (s, b) keys).1
unfolding charge
charge-ReservesAt now rl s true keys d iff lives pruned others = record {
  decides = iff;
  charges = λ k _ e.
      record_keys_live now s.hits keys k d e
      ∙ ap (λ (ts : List ℕ). ts ++ now ∷ []) (lives k e refl);
  refuses = λ k e. absurd (cc);
  keeps = λ k n. record_keys_other now s.hits keys k n ∙ others k n;
}
charge-ReservesAt now rl s false keys d iff lives pruned others = record {
  decides = iff;
  charges = λ k e. absurd (cc);
  refuses = λ k _ _. pruned k;
  keeps = others;
}

-- Reserve, called at one instant with the limiter on and distinct keys, grants exactly when every
-- key has fewer live timestamps than the cap; granted, each listed key holds its live timestamps
-- and the instant; refused, a listed key holds what it held, or those of its timestamps that are
-- live, and nothing is recorded; and every other key holds what it held.
pub reserve-ReservesAt :
    (now : ℕ) (rl : RateLimiter) (keys : List Str)
    → Distinct keys
    → 0 < rl.max
    → ReservesAt now rl keys (reserve (at now) rl keys).0 (reserve (at now) rl keys).1
unfolding reserve
reserve-ReservesAt now rl keys d h =
    let on : leb rl.max 0 ≡ false = ground arith in
    rw on (
      charge-ReservesAt now rl (check_keys (at now) rl keys).0 (check_keys (at now) rl keys).1 keys
        d (check_keys_iff now rl keys d) (λ k. check_keys-live now rl keys k d)
        (check_keys-pruned now rl keys d) (check_keys_other now rl keys))

-- After the wait that RetryAfterSeconds announces, counted from `since`, a key whose timestamps
-- are no later than `since` is granted again, if the cap is not 0.
pub retry_after_seconds_enough :
    (since now : ℕ) (rl : RateLimiter) (k : Str)
    → 0 < rl.max
    → All (λ t. t ≤ since) (rl.hits k)
    → since + retry_after_seconds rl.window * 1_000_000_000 ≤ now
    → (reserve (at now) rl (k ∷ [])).1 ≡ true
unfolding retry_after_seconds
retry_after_seconds_enough since now rl k h past waited =
    let r = reserve-ReservesAt now rl (k ∷ []) ((λ e. e), tt) h in
    r.decides.1 (rw (live_empty now rl.window (rl.hits k) (All-map (rl.hits k) past)) h, tt)
  where
    All-map : (ts : List ℕ) → All (λ t. t ≤ since) ts → All (λ t. t + rl.window ≤ now) ts
    All-map [] a = tt
    All-map (t ∷ ts) a = (ground arith, All-map ts a.1)
