-- ===== src/Session/Store/Kept.antt =====
-- internal/session/store.go: Save, Replace and Delete on the table that memStore stands for.
use tablex.Common.{
  ℕ, ◌≤◌, ◌<◌, Bool, true, false, Option, none, some, ◌≡◌, ◌≢◌, ◌⊎◌, inl, inr, refl, ◌∙◌, ap, arith,
  Elem, Str, Option-cases, length, leb, dec_lt, ℕ_discrete,
}
use tablex.Common.Maps.{lookup, delete, IsThin, delete-IsThin, insert-IsThin}
use tablex.Session.{Session}
use tablex.Session.Store.{
  noticed, Node, Bucket, pre_auth, auth, MemStore, bucket, bucket_of, detach, push, delete_session,
  evict_node, evict_oldest, make_room, save, replace_member, replace,
}
use tablex.Session.Store.Contract.{
  saves, replaces, replace_swaps, replace_refuses, swapped, Table, view, drop, put, Promise,
  save_again, save_new, save_evicts, evicted,
}
use tablex.Session.Store.Invariant.{Inv, forget, detach_sessions}
use tablex.Session.Store.Room.{evict_node-forget, List-cases, sessions_empty, evict_pre, evict_auth}
use tablex.Session.Store.Steps.{
  push_store, replace_hit, replace_miss, replace_member-Replaced, delete_session_lem,
}
use tablex.Session.Store.Views.{view_of, view-deleted, view-inserted}

module _ (heap : ℕ → Session) where
  pub record IsConsistent (m : MemStore) : Type 0 where
    pub inv : Inv heap m
    pub thin : IsThin m.sessions

  -- The oldest session of a store that is not empty.
  record Eviction (m : MemStore) : Type 0 where
    victim : ℕ
    stored : lookup (heap victim).id m.sessions ≡ some victim
    evicts : evict_oldest heap m ≡ (forget heap m (heap victim).id, some victim)

  listed_evicts :
      (m : MemStore) (b : Bucket) (n : Node)
      → Inv heap m
      → Elem n (bucket m b)
      → evict_oldest heap m ≡ (evict_node heap m n, some n.ptr)
      → Eviction m
  listed_evicts m b n v h e = record {
    victim = n.ptr;
    stored = (v.listed b n h).0;
    evicts = e ∙ ap (λ (t : MemStore). (t, some n.ptr)) (evict_node-forget heap m n);
  }

  next_evicted : (m : MemStore) → Inv heap m → 0 < length m.sessions → Eviction m
  next_evicted m v pos = elim (List-cases heap m.pre_auth) [
    | inr (n, r, e) ↦ listed_evicts m pre_auth n v (simp e (inl refl)) (evict_pre heap m n r e)
    | inl e ↦ elim (List-cases heap m.auth) [
      | inr (n, r, f) ↦ listed_evicts m auth n v (simp f (inl refl)) (evict_auth heap m n r e f)
      | inl f ↦ absurd (omega (arith, ap length (sessions_empty heap m v e f)))
    ]
  ]

  module _ (cap : ℕ) (m : MemStore) (p : ℕ) where
    save_known :
        (q : ℕ)
        → lookup (heap p).id m.sessions ≡ some q
        → save heap cap m p
          ≡ (push (detach m (heap p).id) (heap p).id p (bucket_of (heap p).app), none)
    unfolding save make_room
    save_known q e = rw (e, make_room) refl

    save_free :
        lookup (heap p).id m.sessions ≡ none
        → length m.sessions < cap
        → save heap cap m p ≡ (push m (heap p).id p (bucket_of (heap p).app), none)
    unfolding save make_room
    save_free e less =
        let b : leb cap (length m.sessions) ≡ false = ground arith in rw (e, make_room, b) refl

    save_full :
        (o : Eviction m)
        → lookup (heap p).id m.sessions ≡ none
        → cap ≤ length m.sessions
        → save heap cap m p ≡ (
          push (forget heap m (heap o.victim).id) (heap p).id p (bucket_of (heap p).app),
          some o.victim,
        )
    unfolding save make_room
    save_full o e full =
        let b : leb cap (length m.sessions) ≡ true = ground arith in
        rw (e, make_room, b, o.evicts) refl

  pushed :
      (s : Table) (t : MemStore) (id : Str) (p : ℕ) (b : Bucket)
      → IsThin t.sessions
      → view t ≡ s
      → view (push t id p b) ≡ put id p s
  pushed s t id p b thin e =
      view-inserted id p t (push t id p b) thin (push_store heap t id p b) ∙ ap (put id p) e

  pushed-IsThin :
      (t : MemStore) (id : Str) (p : ℕ) (b : Bucket)
      → IsThin t.sessions
      → IsThin (push t id p b).sessions
  pushed-IsThin t id p b thin = rw (push_store heap t id p b) (insert-IsThin id p t.sessions thin)

  unfoldable pub Promised : ℕ → Bool → MemStore → ℕ → MemStore × Option ℕ → Type 0
  unfolding view
  Promised cap hook m p (t, v) =
      IsThin t.sessions
      × Promise heap cap hook (view m) (view t) (saves p) (evicted v (noticed heap hook v))

  pub save-Promised :
      (cap : ℕ) (hook : Bool) (m : MemStore) (p : ℕ)
      → 0 < cap
      → IsConsistent m
      → Promised cap hook m p (save heap cap m p)
  unfolding Promised view
  save-Promised cap hook m p pos v =
      let id = (heap p).id in
      let b = bucket_of (heap p).app in
      elim (Option-cases (lookup id m.sessions)) [
        | inr (q, e) ↦
            let same = detach_sessions heap m id in
            let thin : IsThin (detach m id).sessions = rw same v.thin in
            rw (save_known cap m p q e) (
              pushed-IsThin (detach m id) id p b thin,
              save_again p q e
                  (pushed (view m) (detach m id) id p b thin (view_of (detach m id) m same)),
            )
        | inl e ↦ elim (dec_lt (length m.sessions) cap) [
          | yes less ↦ rw (save_free cap m p e less) (
            pushed-IsThin m id p b v.thin,
            save_new p e less (pushed (view m) m id p b v.thin refl),
          )
          | no full ↦
              let o = next_evicted m v.inv (omega arith) in
              let vid = (heap o.victim).id in
              let thin = delete-IsThin vid m.sessions v.thin in
              let gone = view-deleted vid m (forget heap m vid) v.thin refl in
              rw (save_full cap m p o e (omega arith)) (
                pushed-IsThin (forget heap m vid) id p b thin,
                save_evicts p o.victim e (omega arith) o.stored
                    (pushed (drop vid (view m)) (forget heap m vid) id p b thin gone),
              )
        ]
      ]

  pub delete_session_sessions :
      (m : MemStore) (id : Str) → (delete_session m id).sessions ≡ delete id m.sessions
  unfolding delete_session
  delete_session_sessions m id =
      detach_sessions heap (record m { sessions = delete id m.sessions }) id

  pub delete_session-IsConsistent :
      (m : MemStore) (id : Str) → IsConsistent m → IsConsistent (delete_session m id)
  delete_session-IsConsistent m id v = record {
    inv = (delete_session_lem heap m id v.inv).0;
    thin = rw (delete_session_sessions m id) (delete-IsThin id m.sessions v.thin);
  }

  unfoldable pub Swapped : ℕ → Bool → MemStore → ℕ → ℕ → MemStore × Bool → Type 0
  unfolding view
  Swapped cap hook m old new (t, ok) =
      IsConsistent t × Promise heap cap hook (view m) (view t) (replaces old new) (swapped ok)

  is_member : (o : Option ℕ) (old : ℕ) → (o ≡ some old) ⊎ (o ≢ some old)
  is_member none old = inr (λ e. cc)
  is_member (some q) old = elim (ℕ_discrete q old) [
    | yes e ↦ inl (ap some e)
    | no ne ↦ inr (λ e. ne (ground arith))
  ]

  -- The base that a successful Replace pushes onto.
  swap_base : MemStore → ℕ → ℕ → MemStore
  swap_base m old new =
      detach (detach (record m { sessions = delete (heap old).id m.sessions }) (heap old).id)
        (heap new).id

  swap_base_sessions :
      (m : MemStore) (old new : ℕ)
      → (swap_base m old new).sessions ≡ delete (heap old).id m.sessions
  unfolding swap_base
  swap_base_sessions m old new =
      let gone = record m { sessions = delete (heap old).id m.sessions } in
      detach_sessions heap (detach gone (heap old).id) (heap new).id
      ∙ detach_sessions heap gone (heap old).id

  replace_member-base :
      (m : MemStore) (old new : ℕ)
      → replace_member heap m old new ≡ push (swap_base m old new) (heap new).id new auth
  unfolding replace_member swap_base
  replace_member-base m old new = refl

  pub replace-Swapped :
      (cap : ℕ) (hook : Bool) (m : MemStore) (old new : ℕ)
      → IsConsistent m
      → Swapped cap hook m old new (replace heap m old new)
  unfolding Swapped view
  replace-Swapped cap hook m old new v = elim (is_member (lookup (heap old).id m.sessions) old) [
    | inr ne ↦ rw (replace_miss heap m old new ne) (v, replace_refuses old new ne refl)
    | inl e ↦
        let base = swap_base m old new in
        let same = swap_base_sessions m old new in
        let thin : IsThin base.sessions = rw same (delete-IsThin (heap old).id m.sessions v.thin) in
        let gone = view-deleted (heap old).id m base v.thin same in
        rw (replace_hit heap m old new e) (
          record {
            inv = (replace_member-Replaced heap m old new v.inv e).inv;
            thin =
                rw (replace_member-base m old new) (pushed-IsThin base (heap new).id new auth thin);
          },
          replace_swaps old new e (
              rw (replace_member-base m old new)
                (pushed (drop (heap old).id (view m)) base (heap new).id new auth thin gone)),
        )
  ]
