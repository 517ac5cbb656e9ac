-- ===== src/Session/Store/Room.antt =====
-- internal/session/store.go: the room that Save makes: an evicted or replaced session.
use tablex.Common.{
  [], ℕ, ◌≤◌, ◌<◌, List, ◌∷◌, none, some, ◌≡◌, ◌≢◌, ◌⊎◌, inl, inr, refl, ap, arith, Elem, Str,
  Option-cases, Bool-cases, length, leb,
}
use tablex.Common.Maps.{lookup, delete, lookup-delete, length-delete-lt}
use tablex.Session.{Session}
use tablex.Session.Store.{
  Node, Bucket, pre_auth, auth, ListEntry, MemStore, bucket, detach, push, evict_node, evict_oldest,
  make_room,
}
use tablex.Session.Store.Invariant.{
  Inv, forget, forget-Inv, IsAbsent, forget-IsAbsent, detach_sessions, push-forget,
}

module _ (heap : ℕ → Session) where
  -- What `room`, the store that Save writes to, stands for.
  pub record Room (cap : ℕ) (m : MemStore) (id : Str) (room : MemStore) : Type 0 where
    pub base : MemStore
    pub inv : Inv heap base
    pub absent : IsAbsent heap base id
    pub same : (p : ℕ) (b : Bucket) → push room id p b ≡ push base id p b
    pub fits : length m.sessions ≤ cap → 0 < cap → length base.sessions < cap
    pub sub : (i : Str) (q : ℕ) → lookup i base.sessions ≡ some q → lookup i m.sessions ≡ some q
    pub keeps_auth :
        m.pre_auth ≢ []
        → (i : Str) (q : ℕ) (e : ListEntry) → lookup i m.sessions ≡ some q
        → lookup i m.entries ≡ some e
        → e.l ≡ auth
        → i ≢ id
        → lookup i base.sessions ≡ some q

  lookup_forget :
      (m : MemStore) (i id : Str) (q : ℕ)
      → i ≢ id
      → lookup i m.sessions ≡ some q
      → lookup i (delete id m.sessions) ≡ some q
  lookup_forget m i id q ne h = let l = lookup-delete i id m.sessions in ground arith

  lookup_forgot :
      (m : MemStore) (i id : Str) (q : ℕ)
      → lookup i (delete id m.sessions) ≡ some q
      → lookup i m.sessions ≡ some q
  lookup_forgot m i id q h = let l = lookup-delete i id m.sessions in ground arith

  -- The id is in the store: its old element goes.
  Room-known :
      (cap : ℕ) (m : MemStore) (id : Str) (q : ℕ)
      → Inv heap m
      → lookup id m.sessions ≡ some q
      → Room cap m id (detach m id)
  Room-known cap m id q v h = record {
    base = forget heap m id;
    inv = forget-Inv heap m id v;
    absent = forget-IsAbsent heap m id v;
    same = λ p b. push-forget heap m id p b;
    fits = λ f _. omega (arith, length-delete-lt id q m.sessions h);
    sub = λ i r. lookup_forgot m i id r;
    keeps_auth = λ _ i r e ls _ _ ne. lookup_forget m i id r ne ls;
  }

  IsAbsent-of_none :
      (m : MemStore) (id : Str) → Inv heap m → lookup id m.sessions ≡ none → IsAbsent heap m id
  IsAbsent-of_none m id v h = record {
    no_session = h;
    no_entry = elim (Option-cases (lookup id m.entries)) [
      | inl e ↦ e
      | inr (e, le) ↦ absurd (let (p, lp) = v.owned id e le in cc)
    ];
  }

  -- The store is below the cap.
  Room-free :
      (cap : ℕ) (m : MemStore) (id : Str)
      → Inv heap m
      → lookup id m.sessions ≡ none
      → length m.sessions < cap
      → Room cap m id m
  Room-free cap m id v h less = record {
    base = m;
    inv = v;
    absent = IsAbsent-of_none m id v h;
    same = λ p b. refl;
    fits = λ _ _. less;
    sub = λ i q l. l;
    keeps_auth = λ _ i q e ls _ _ _. ls;
  }

  pub evict_node-forget :
      (m : MemStore) (n : Node) → evict_node heap m n ≡ forget heap m (heap n.ptr).id
  unfolding evict_node
  evict_node-forget m n = rw (detach_sessions heap m (heap n.ptr).id)

  -- A victim of the list `b`.
  Room-evicted :
      (cap : ℕ) (m : MemStore) (id : Str) (b : Bucket) (n : Node)
      → Inv heap m
      → lookup id m.sessions ≡ none
      → Elem n (bucket m b)
      → (m.pre_auth ≢ [] → b ≡ pre_auth)
      → Room cap m id (evict_node heap m n)
  Room-evicted cap m id b n v h listed pre = record {
    base = forget heap m vid;
    inv = forget-Inv heap m vid v;
    absent = IsAbsent-of_none (forget heap m vid) id (forget-Inv heap m vid v) gone;
    same = λ p c. ap (λ (t : MemStore). push t id p c) (evict_node-forget m n);
    fits = λ f _. omega (arith, length-delete-lt vid n.ptr m.sessions (v.listed b n listed).0);
    sub = λ i q. lookup_forgot m i vid q;
    keeps_auth = λ some_pre i q e ls le in_auth ne.
        lookup_forget m i vid q (λ same. other (pre some_pre) e (rw same at le) in_auth) ls;
  }
    where
      vid : Str
      vid = (heap n.ptr).id

      gone : lookup id (delete vid m.sessions) ≡ none
      gone = let l = lookup-delete id vid m.sessions in ground arith

      other : b ≡ pre_auth → (e : ListEntry) → lookup vid m.entries ≡ some e → e.l ≡ auth → ⊥
      other eb e le in_auth = let l = (v.listed b n listed).1 in ground arith

  pub List-cases : {A : Type 0} (xs : List A) → (xs ≡ []) ⊎ ((x : A) × (r : List A) × (xs ≡ x ∷ r))
  List-cases [] = inl refl
  List-cases (x ∷ r) = inr (x, r, refl)

  head_found :
      (m : MemStore) (i : Str) (q : ℕ) (r : List (Str × ℕ))
      → m.sessions ≡ (i, q) ∷ r
      → lookup i m.sessions ≡ some q
  unfolding lookup
  head_found m i q r e = ground arith

  pub sessions_empty : (m : MemStore) → Inv heap m → m.pre_auth ≡ [] → m.auth ≡ [] → m.sessions ≡ []
  sessions_empty m v p a = elim (List-cases m.sessions) [
    | inl e ↦ e
    | inr ((i, q), r, e) ↦
        absurd (let (f, le, el) = v.entered i q (head_found m i q r e) in nowhere f.l _ el)
  ]
    where
      nowhere : (b : Bucket) (n : Node) → Elem n (bucket m b) → ⊥
      nowhere pre_auth n h = rw p at h
      nowhere auth n h = rw a at h

  pub evict_pre :
      (m : MemStore) (n : Node) (r : List Node)
      → m.pre_auth ≡ n ∷ r
      → evict_oldest heap m ≡ (evict_node heap m n, some n.ptr)
  unfolding evict_oldest
  evict_pre m n r e = ground arith

  pub evict_auth :
      (m : MemStore) (n : Node) (r : List Node)
      → m.pre_auth ≡ []
      → m.auth ≡ n ∷ r
      → evict_oldest heap m ≡ (evict_node heap m n, some n.ptr)
  unfolding evict_oldest
  evict_auth m n r e f = ground arith

  evict_none : (m : MemStore) → m.pre_auth ≡ [] → m.auth ≡ [] → evict_oldest heap m ≡ (m, none)
  unfolding evict_oldest
  evict_none m e f = ground arith

  evict_oldest-Room :
      (cap : ℕ) (m : MemStore) (id : Str)
      → Inv heap m
      → lookup id m.sessions ≡ none
      → Room cap m id (evict_oldest heap m).0
  evict_oldest-Room cap m id v h = elim (List-cases m.pre_auth) [
    | inr (n, r, e) ↦
        rw (evict_pre m n r e)
          (Room-evicted cap m id pre_auth n v h (simp e (inl refl)) (λ _. refl))
    | inl e ↦ elim (List-cases m.auth) [
      | inr (n, r, f) ↦
          rw (evict_auth m n r e f)
            (Room-evicted cap m id auth n v h (simp f (inl refl)) (λ ne. absurd (ne e)))
      | inl f ↦ rw (evict_none m e f) (record {
        base = m;
        inv = v;
        absent = IsAbsent-of_none m id v h;
        same = λ p b. refl;
        fits = λ _ pos. omega (arith, ap length (sessions_empty m v e f));
        sub = λ i q l. l;
        keeps_auth = λ _ i q e ls _ _ _. ls;
      })
    ]
  ]

  pub make_room-Room :
      (cap : ℕ) (m : MemStore) (id : Str) → Inv heap m → Room cap m id (make_room heap cap m id).0
  unfolding make_room
  make_room-Room cap m id v = elim (Option-cases (lookup id m.sessions)) [
    | inr (q, e) ↦ rw (e, make_room) (Room-known cap m id q v e)
    | inl e ↦
        rw (e, make_room)
          (elim (Bool-cases (leb cap (length m.sessions))) [
            | inl full ↦ rw full (evict_oldest-Room cap m id v e)
            | inr free ↦ rw free (Room-free cap m id v e (ground arith))
          ])
  ]
