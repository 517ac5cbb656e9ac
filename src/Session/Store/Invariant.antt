-- ===== src/Session/Store/Invariant.antt =====
-- internal/session/store.go: the map, the entries and the two lists of memStore agree.
use tablex.Common.{
  ℕ, ◌<◌, List, none, some, ◌≡◌, ◌≢◌, ◌⊎◌, inl, inr, refl, sym, ◌∙◌, ap, arith, Elem, Str,
  Option-cases,
}
use tablex.Common.Maps.{
  lookup, delete, lookup-delete, delete_absent, insert-delete, IsMap, delete-IsMap,
}
use mathlib.Core.Logic.{if_pos, if_neg}
use tablex.Session.{Session}
use tablex.Session.Store.{
  Node, Bucket, pre_auth, auth, ListEntry, MemStore, bucket, remove_from, detach, push,
}
use tablex.Session.Store.Lists.{Elem-remove_from, Elem-remove_from_ne, remove_from_keeps}

-- Every session of the map has an entry, and its entry an element in the list that it names; every
-- element of either list is that of a session of the map; an entry has a session, and no two
-- entries share an element; and what stands in the pre-auth list carries no payload.
pub record Inv (heap : ℕ → Session) (m : MemStore) : Type 0 where
  pub single : IsMap m.sessions
  pub named : (i : Str) (p : ℕ) → lookup i m.sessions ≡ some p → (heap p).id ≡ i
  pub entered :
      (i : Str) (p : ℕ)
      → lookup i m.sessions ≡ some p
      → (e : ListEntry) × (lookup i m.entries ≡ some e)
        × Elem (record { node = e.el; ptr = p }) (bucket m e.l)
  pub listed :
      (b : Bucket) (n : Node)
      → Elem n (bucket m b)
      → (lookup (heap n.ptr).id m.sessions ≡ some n.ptr)
        × (lookup (heap n.ptr).id m.entries ≡ some (record { el = n.node; l = b }))
  pub owned :
      (i : Str) (e : ListEntry)
      → lookup i m.entries ≡ some e
      → (p : ℕ) × (lookup i m.sessions ≡ some p)
  pub apart :
      (i j : Str) (e f : ListEntry)
      → lookup i m.entries ≡ some e
      → lookup j m.entries ≡ some f
      → e.el ≡ f.el
      → i ≡ j
  pub below : (i : Str) (e : ListEntry) → lookup i m.entries ≡ some e → e.el < m.next_node
  pub bare : (n : Node) → Elem n m.pre_auth → (heap n.ptr).app ≡ none

module _ (heap : ℕ → Session) where
  -- What `forget` leaves, by lookups: the session `id` is gone from the map, the entries and the
  -- lists.
  pub record Forgot (m : MemStore) (id : Str) (t : MemStore) : Type 0 where
    pub sessions : t.sessions ≡ delete id m.sessions
    pub entries : t.entries ≡ delete id m.entries
    pub lists_sub :
        (b : Bucket) (n : Node) → Elem n (bucket t b) → Elem n (bucket m b) × ((heap n.ptr).id ≢ id)
    pub lists_keep :
        (b : Bucket) (n : Node) → Elem n (bucket m b) → (heap n.ptr).id ≢ id → Elem n (bucket t b)
    pub next : t.next_node ≡ m.next_node

  pub Forgot-Inv :
      (m : MemStore) (id : Str) (t : MemStore) → Inv heap m → Forgot m id t → Inv heap t
  Forgot-Inv m id t v f = record {
    single = rw f.sessions (delete-IsMap id m.sessions v.single);
    named = λ i p h. v.named i p (old i p h).1;
    entered = λ i p h.
        let (ne, was) = old i p h in
        let (e, le, el) = v.entered i p was in
        (
          e,
          rw (f.entries) (lookup-delete i id m.entries ∙ rw (if_neg _ ne) le),
          f.lists_keep e.l _ el (λ x. ne (sym x ∙ v.named i p was)),
        );
    listed = λ b n h.
        let (was, ne) = f.lists_sub b n h in
        let (ls, le) = v.listed b n was in
        let ne' : id ≢ (heap n.ptr).id = λ x. ne (sym x) in
        (
          rw f.sessions (lookup-delete _ id m.sessions ∙ rw (if_neg _ ne') ls),
          rw f.entries (lookup-delete _ id m.entries ∙ rw (if_neg _ ne') le),
        );
    owned = λ i e h.
        let (ne, was) = old_entry i e h in
        let (p, lp) = v.owned i e was in
        (p, rw f.sessions (lookup-delete i id m.sessions ∙ rw (if_neg _ ne) lp));
    apart = λ i j e g hi hj. v.apart i j e g (old_entry i e hi).1 (old_entry j g hj).1;
    below = λ i e h. omega (arith, v.below i e (old_entry i e h).1, f.next);
    bare = λ n h. v.bare n (f.lists_sub pre_auth n h).0;
  }
    where
      old :
          (i : Str) (p : ℕ)
          → lookup i t.sessions ≡ some p
          → (id ≢ i) × (lookup i m.sessions ≡ some p)
      old i p h =
          let e = lookup-delete i id m.sessions in
          let h' : lookup i (delete id m.sessions) ≡ some p = rw (← f.sessions) h in ground arith

      old_entry :
          (i : Str) (e : ListEntry)
          → lookup i t.entries ≡ some e
          → (id ≢ i) × (lookup i m.entries ≡ some e)
      old_entry i e h =
          let l = lookup-delete i id m.entries in
          let h' : lookup i (delete id m.entries) ≡ some e = rw (← f.entries) h in ground arith

  -- The state between the two writes of a removal, once the map has lost the session too.
  abbrev pub forget : MemStore → Str → MemStore
  forget m id = record (detach m id) { sessions = delete id m.sessions }

  detach-none : (m : MemStore) (id : Str) → lookup id m.entries ≡ none → detach m id ≡ m
  unfolding detach
  detach-none m id e = rw (e, detach)

  detach-some :
      (m : MemStore) (id : Str) (e : ListEntry)
      → lookup id m.entries ≡ some e
      → detach m id ≡ record (remove_from m e) { entries = delete id m.entries }
  unfolding detach
  detach-some m id e h = rw (h, detach)

  Forgot-none :
      (m : MemStore) (id : Str)
      → Inv heap m
      → lookup id m.entries ≡ none
      → Forgot m id (forget m id)
  Forgot-none m id v e = rw (detach-none m id e) (record {
    sessions = refl;
    entries = sym (delete_absent id m.entries e);
    lists_sub = λ b n h. (
      h,
      λ x.
          let l = (v.listed b n h).1 in
          let l' : lookup id m.entries ≡ some (record { el = n.node; l = b }) = rw x at l in cc,
    );
    lists_keep = λ b n h _. h;
    next = refl;
  })

  Forgot-some :
      (m : MemStore) (id : Str) (e : ListEntry)
      → Inv heap m
      → lookup id m.entries ≡ some e
      → Forgot m id (record (remove_from m e) {
        sessions = delete id m.sessions;
        entries = delete id m.entries;
      })
  Forgot-some m id e v h = record {
    sessions = refl;
    entries = refl;
    lists_sub = λ b n x.
        let (was, out) = Elem-remove_from m e b n x in (was, λ same. gone b n was same out);
    lists_keep = λ b n x ne.
        Elem-remove_from_ne m e b n x (λ el. ne (v.apart _ id _ e (v.listed b n x).1 h el));
    next = (remove_from_keeps m e).2;
  }
    where
      gone :
          (b : Bucket) (n : Node)
          → Elem n (bucket m b)
          → (heap n.ptr).id ≡ id
          → (b ≢ e.l) ⊎ (n.node ≢ e.el)
          → ⊥
      gone b n was same out =
          let l : lookup id m.entries ≡ some (record { el = n.node; l = b }) =
            rw same at (v.listed b n was).1 in
          ground arith

  pub forget-Forgot : (m : MemStore) (id : Str) → Inv heap m → Forgot m id (forget m id)
  forget-Forgot m id v = elim (Option-cases (lookup id m.entries)) [
    | inl e ↦ Forgot-none m id v e
    | inr (e, h) ↦ rw (detach-some m id e h) (Forgot-some m id e v h)
  ]

  pub forget-Inv : (m : MemStore) (id : Str) → Inv heap m → Inv heap (forget m id)
  forget-Inv m id v = Forgot-Inv m id (forget m id) v (forget-Forgot m id v)

  -- A session that is not in the store.
  pub record IsAbsent (m : MemStore) (id : Str) : Type 0 where
    pub no_session : lookup id m.sessions ≡ none
    pub no_entry : lookup id m.entries ≡ none

  pub forget-IsAbsent : (m : MemStore) (id : Str) → Inv heap m → IsAbsent (forget m id) id
  forget-IsAbsent m id v =
      let f = forget-Forgot m id v in
      record {
        no_session = lookup-delete id id m.sessions ∙ rw (if_pos _ refl);
        no_entry = rw f.entries (lookup-delete id id m.entries ∙ rw (if_pos _ refl));
      }

  pub detach_sessions : (m : MemStore) (id : Str) → (detach m id).sessions ≡ m.sessions
  detach_sessions m id = elim (Option-cases (lookup id m.entries)) [
    | inl e ↦ rw (detach-none m id e)
    | inr (e, h) ↦ rw (detach-some m id e h) (remove_from_keeps m e).0
  ]

  push_delete :
      (t : MemStore) (id : Str) (p : ℕ) (b : Bucket)
      → push (record t { sessions = delete id t.sessions }) id p b ≡ push t id p b
  unfolding push
  push_delete t id p pre_auth = rw (insert-delete id p t.sessions)
  push_delete t id p auth = rw (insert-delete id p t.sessions)

  pub push-forget :
      (m : MemStore) (id : Str) (p : ℕ) (b : Bucket)
      → push (detach m id) id p b ≡ push (forget m id) id p b
  push-forget m id p b =
      sym (push_delete (detach m id) id p b)
      ∙ ap (λ (x : List (Str × ℕ)). push (record (detach m id) { sessions = delete id x }) id p b)
          (detach_sessions m id)
