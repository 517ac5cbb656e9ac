-- ===== src/Session/Store/Swept.antt =====
-- internal/session/store.go: Reap on the table that memStore stands for.
use tablex.Common.{
  [], ℕ, ◌+◌, Bool, List, ◌∷◌, some, ◌≡◌, inl, inr, refl, arith, Elem, Str, Option-cases,
  Bool-cases, length,
}
use tablex.Common.Maps.{
  lookup, lookup-delete, lookup-Elem, IsThin, IsThin-IsMap, length-delete_found,
}
use tablex.Session.{Session}
use tablex.Session.Store.{MemStore, delete_session, reap_each, reap}
use tablex.Session.Store.Contract.{view, live, sweep, Promise, reap_sweeps, reaps, reaped}
use tablex.Session.Store.Reap.{Reaped, reap-Reaped}
use tablex.Session.Store.Kept.{IsConsistent, delete_session-IsConsistent, delete_session_sessions}
use tablex.Session.Store.Views.{Table-ext}

module _ (heap : ℕ → Session) (expired : ℕ → Bool) where
  -- The pairs still to visit are in the store.
  abbrev AreStored : List (Str × ℕ) → MemStore → Type 0
  AreStored l m = (i : Str) (p : ℕ) → Elem (i, p) l → lookup i m.sessions ≡ some p

  record Swept (m : MemStore) (t : MemStore) (dead : List ℕ) : Type 0 where
    sound : IsConsistent heap t
    counts : length t.sessions + length dead ≡ length m.sessions

  visited_count :
      (m : MemStore) (id : Str) (p : ℕ)
      → IsConsistent heap m
      → lookup id m.sessions ≡ some p
      → length (delete_session m id).sessions + 1 ≡ length m.sessions
  visited_count m id p v h =
      rw (delete_session_sessions heap m id)
        (let n = length-delete_found id p m.sessions v.thin h in omega arith)

  still_stored :
      (id : Str) (p : ℕ) (l : List (Str × ℕ)) (m : MemStore)
      → IsThin ((id, p) ∷ l)
      → AreStored ((id, p) ∷ l) m
      → AreStored l (delete_session m id)
  still_stored id p l m thin st i q e = rw (delete_session_sessions heap m id) (
      let a = lookup-delete i id m.sessions in
      let b = st i q (inr e) in
      let c = IsThin-IsMap l thin.1 i q e in let d = thin.0 in ground arith)

  reap_each-Swept :
      (l : List (Str × ℕ)) (m : MemStore)
      → IsThin l
      → IsConsistent heap m
      → AreStored l m
      → Swept m (reap_each expired l m).0 (reap_each expired l m).1
  unfolding reap_each
  reap_each-Swept [] m thin v st = record { sound = v; counts = omega arith }
  reap_each-Swept ((id, p) ∷ l) m thin v st = elim (Bool-cases (expired p)) [
    | inl e ↦
        let r =
          reap_each-Swept l (delete_session m id) thin.1 (delete_session-IsConsistent heap m id v)
            (still_stored id p l m thin st) in
        let n = visited_count m id p v (st id p (inl refl)) in
        rw e (record { sound = r.sound; counts = let c = r.counts in omega arith })
    | inr e ↦
        let r = reap_each-Swept l m thin.1 v (λ i q x. st i q (inr x)) in
        rw e (record { sound = r.sound; counts = r.counts })
  ]

  -- What is found after Reap.
  live_at :
      (m t : MemStore) (dead : List ℕ) (i : Str)
      → Reaped heap expired m.sessions m t dead
      → lookup i t.sessions ≡ live expired (lookup i m.sessions)
  live_at m t dead i r = elim (Option-cases (lookup i m.sessions)) [
    | inl e ↦ elim (Option-cases (lookup i t.sessions)) [
      | inl f ↦ rw (e, f) refl
      | inr (q, f) ↦ absurd (let w = (r.left i q f).0 in cc)
    ]
    | inr (q, e) ↦ elim (Bool-cases (expired q)) [
      | inr x ↦ rw (e, x, r.stays i q e x) refl
      | inl x ↦ elim (Option-cases (lookup i t.sessions)) [
        | inl f ↦ rw (e, x, f) refl
        | inr (u, f) ↦
            let w = r.left i u f in
            absurd (let y = w.1 (lookup-Elem i u m.sessions w.0) in let z = w.0 in ground arith)
      ]
    ]
  ]

  unfoldable pub Removed : MemStore → MemStore × List ℕ → Type 0
  unfolding view
  Removed m (t, dead) =
      IsConsistent heap t
      × ((cap : ℕ) (hook : Bool)
          → Promise heap cap hook (view m) (view t) (reaps expired) (reaped dead))

  removed :
      (m t : MemStore) (dead : List ℕ)
      → IsConsistent heap m
      → Reaped heap expired m.sessions m t dead
      → Swept m t dead
      → Removed m (t, dead)
  unfolding Removed view sweep
  removed m t dead v r s = (
    s.sound,
    λ cap hook.
        reap_sweeps expired dead
          (λ q. (
            λ d. let (i, e, x) = (r.closes q).0 d in (i, v.inv.single i q e, x),
            λ w. (r.closes q).1 (w.0, lookup-Elem w.0 q m.sessions w.1, w.2),
          ))
          (Table-ext (view t) (sweep expired (length dead) (view m)) (λ i. live_at m t dead i r)
            (let c = s.counts in omega arith)),
  )

  pub reap-Removed : (m : MemStore) → IsConsistent heap m → Removed m (reap expired m)
  unfolding reap
  reap-Removed m v =
      removed m (reap expired m).0 (reap expired m).1 v (reap-Reaped heap expired m v.inv)
        (reap_each-Swept m.sessions m v.thin v (v.inv.single))
