-- ===== src/Session/Store/Reap.antt =====
-- internal/session/store.go: Reap removes exactly the expired sessions.
use tablex.Common.{
  [], ℕ, Bool, true, false, List, ◌∷◌, some, ◌≡◌, ◌≢◌, ◌↔◌, inl, inr, ap, arith, Elem, Str,
  Bool-cases, if◌then◌else◌,
}
use tablex.Common.Maps.{lookup}
use tablex.Session.{Session}
use tablex.Session.Store.{MemStore, delete_session, reap_each, reap}
use tablex.Session.Store.Invariant.{Inv}
use tablex.Session.Store.Steps.{delete_session_lem}

module _ (heap : ℕ → Session) (expired : ℕ → Bool) where
  -- The store after Reap over the pairs `l`, of the map or of the part of it still to visit.
  pub record Reaped (l : List (Str × ℕ)) (m t : MemStore) (dead : List ℕ) : Type 0 where
    pub inv : Inv heap t
    pub left :
        (i : Str) (q : ℕ)
        → lookup i t.sessions ≡ some q
        → (lookup i m.sessions ≡ some q) × (Elem (i, q) l → expired q ≡ false)
    pub stays :
        (i : Str) (q : ℕ)
        → lookup i m.sessions ≡ some q
        → expired q ≡ false
        → lookup i t.sessions ≡ some q
    pub closes : (q : ℕ) → Elem q dead ↔ ((i : Str) × Elem (i, q) l × (expired q ≡ true))

  -- Each pair still to visit is the one that the map has for its key, if it has any.
  abbrev IsCurrent : List (Str × ℕ) → MemStore → Type 0
  IsCurrent l m = (i : Str) (p q : ℕ) → Elem (i, p) l → lookup i m.sessions ≡ some q → p ≡ q

  abbrev visited_store : MemStore → Str → ℕ → MemStore
  visited_store m id p = if expired p then delete_session m id else m

  record Visited (m : MemStore) (id : Str) (p : ℕ) (t : MemStore) : Type 0 where
    inv : Inv heap t
    sub :
        (i : Str) (q : ℕ)
        → lookup i t.sessions ≡ some q
        → (lookup i m.sessions ≡ some q) × (expired p ≡ true → id ≢ i)
    keeps :
        (i : Str) (q : ℕ)
        → lookup i m.sessions ≡ some q
        → (expired p ≡ true → id ≢ i)
        → lookup i t.sessions ≡ some q

  visited_store-Visited :
      (m : MemStore) (id : Str) (p : ℕ) → Inv heap m → Visited m id p (visited_store m id p)
  visited_store-Visited m id p v = elim (Bool-cases (expired p)) [
    | inl e ↦
        let (inv, at) = delete_session_lem heap m id v in
        rw e (record {
          inv = inv;
          sub = λ i q h. let a = at i in (ground arith, λ _. ground arith);
          keeps = λ i q h ne. let a = at i in let ne' = ne e in ground arith;
        })
    | inr e ↦ rw e (record { inv = v; sub = λ i q h. (h, λ x. cc); keeps = λ i q h _. h })
  ]

  closes_step :
      (id : Str) (p q : ℕ) (l : List (Str × ℕ)) (dead : List ℕ)
      → Elem q dead ↔ ((i : Str) × Elem (i, q) l × (expired q ≡ true))
      → Elem q (if expired p then p ∷ dead else dead)
        ↔ ((i : Str) × Elem (i, q) ((id, p) ∷ l) × (expired q ≡ true))
  closes_step id p q l dead ih = elim (Bool-cases (expired p)) [
    | inl e ↦ rw e (
      elim [
        | inl same ↦ (id, inl (ap (λ (z : ℕ). let y : Str × ℕ = (id, z) in y) same), rw same at e)
        | inr d ↦ let (i, x, y) = ih.0 d in (i, inr x, y)
      ],
      λ w. elim w.1 [
        | inl same ↦ inl (ap (λ (z : Str × ℕ). z.1) same)
        | inr x ↦ inr (ih.1 (w.0, x, w.2))
      ],
    )
    | inr e ↦ rw e (
      λ d. let (i, x, y) = ih.0 d in (i, inr x, y),
      λ w. elim w.1 [
        | inl same ↦ absurd (
            let z : p ≡ q = ap (λ (z : Str × ℕ). z.1) same in
            let z' : expired q ≡ false = rw z at e in let y = w.2 in cc)
        | inr x ↦ ih.1 (w.0, x, w.2)
      ],
    )
  ]

  reap_each-Reaped :
      (l : List (Str × ℕ)) (m : MemStore)
      → Inv heap m
      → IsCurrent l m
      → Reaped l m (reap_each expired l m).0 (reap_each expired l m).1
  unfolding reap_each
  reap_each-Reaped [] m v c = record {
    inv = v;
    left = λ i q h. (h, λ e. absurd e);
    stays = λ i q h _. h;
    closes = λ q. (λ e. absurd e, λ x. x.1);
  }
  reap_each-Reaped ((id, p) ∷ l) m v c =
      let s = visited_store-Visited m id p v in
      let r =
        reap_each-Reaped l (visited_store m id p) s.inv
          (λ i a b e h. c i a b (inr e) (s.sub i b h).0) in
      record {
        inv = r.inv;
        left = λ i q h.
            let (was, ih) = r.left i q h in
            let (there, ne) = s.sub i q was in
            (
              there,
              elim [
                | inl same ↦ elim (Bool-cases (expired q)) [
                  | inl x ↦
                      absurd (
                        ne (rw (ap (λ (z : Str × ℕ). z.1) same) x) (ap (λ (z : Str × ℕ). z.0) same))
                  | inr x ↦ x
                ]
                | inr e ↦ ih e
              ],
            );
        stays = λ i q h live.
            r.stays i q
              (s.keeps i q h (λ x same.
                let pq : p ≡ q =
                  c i p q (inl (ap (λ (z : Str). let y : Str × ℕ = (z, p) in y) same)) h in
                let x' : expired q ≡ true = rw (← pq) x in cc))
              live;
        closes =
            λ q. closes_step id p q l (reap_each expired l (visited_store m id p)).1 (r.closes q);
      }

  -- Reap on a store that keeps the invariant, in the order of the map's pairs, whatever it is,
  -- keeps the invariant, leaves every session that is not expired where it was, leaves no expired
  -- one, and returns exactly the expired ones.
  pub reap-Reaped :
      (m : MemStore) → Inv heap m → Reaped m.sessions m (reap expired m).0 (reap expired m).1
  unfolding reap
  reap-Reaped m v =
      reap_each-Reaped m.sessions m v (λ i p q e h. let found = v.single i p e in ground arith)
