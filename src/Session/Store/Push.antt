-- ===== src/Session/Store/Push.antt =====
-- internal/session/store.go: an insertion into memStore, in the map and in a list.
use tablex.Common.{
  ℕ, suc, none, some, ◌≡◌, ◌⊎◌, inl, inr, refl, sym, arith, Elem, Elem-append_left,
  Elem-append_right, Elem-concat, Str, str_eq, ite,
}
use tablex.Common.Maps.{lookup, insert, lookup-insert, insert-IsMap}
use mathlib.Core.Logic.{if_pos}
use tablex.Session.{Session}
use tablex.Session.Store.{Node, Bucket, pre_auth, auth, MemStore, bucket, push}
use tablex.Session.Store.Invariant.{Inv, IsAbsent}

module _ (heap : ℕ → Session) where
  -- An insertion, seen by lookups and lists.
  pub record Pushed (t : MemStore) (id : Str) (p : ℕ) (b : Bucket) (u : MemStore) : Type 0 where
    pub sessions : u.sessions ≡ insert id p t.sessions
    pub entries : u.entries ≡ insert id (record { el = t.next_node; l = b }) t.entries
    pub lists_sub :
        (c : Bucket) (n : Node)
        → Elem n (bucket u c)
        → Elem n (bucket t c) ⊎ ((c ≡ b) × (record { node = t.next_node; ptr = p } ≡ n))
    pub lists_keep : (c : Bucket) (n : Node) → Elem n (bucket t c) → Elem n (bucket u c)
    pub lists_new : Elem (record { node = t.next_node; ptr = p }) (bucket u b)
    pub next : u.next_node ≡ suc t.next_node

  pub push-Pushed : (t : MemStore) (id : Str) (p : ℕ) (b : Bucket) → Pushed t id p b (push t id p b)
  unfolding push
  push-Pushed t id p pre_auth = record {
    sessions = refl;
    entries = refl;
    lists_sub = λ c n. sub c n;
    lists_keep = λ c n. keep c n;
    lists_new = Elem-append_right _ t.pre_auth _ (inl refl);
    next = refl;
  }
    where
      sub :
          (c : Bucket) (n : Node)
          → Elem n (bucket (push t id p pre_auth) c)
          → Elem n (bucket t c) ⊎ ((c ≡ pre_auth) × (record { node = t.next_node; ptr = p } ≡ n))
      sub pre_auth n h = elim (Elem-concat n _ t.pre_auth h) [
        | inl x ↦ inl x
        | inr x ↦ inr (refl, x)
      ]
      sub auth n h = inl h

      keep :
          (c : Bucket) (n : Node) → Elem n (bucket t c) → Elem n (bucket (push t id p pre_auth) c)
      keep pre_auth n h = Elem-append_left n t.pre_auth _ h
      keep auth n h = h
  push-Pushed t id p auth = record {
    sessions = refl;
    entries = refl;
    lists_sub = λ c n. sub c n;
    lists_keep = λ c n. keep c n;
    lists_new = Elem-append_right _ t.auth _ (inl refl);
    next = refl;
  }
    where
      sub :
          (c : Bucket) (n : Node)
          → Elem n (bucket (push t id p auth) c)
          → Elem n (bucket t c) ⊎ ((c ≡ auth) × (record { node = t.next_node; ptr = p } ≡ n))
      sub auth n h = elim (Elem-concat n _ t.auth h) [ inl x ↦ inl x | inr x ↦ inr (refl, x) ]
      sub pre_auth n h = inl h

      keep : (c : Bucket) (n : Node) → Elem n (bucket t c) → Elem n (bucket (push t id p auth) c)
      keep auth n h = Elem-append_left n t.auth _ h
      keep pre_auth n h = h

  pub Pushed-Inv :
      (t : MemStore) (id : Str) (p : ℕ) (b : Bucket) (u : MemStore)
      → Inv heap t
      → IsAbsent heap t id
      → (heap p).id ≡ id
      → (b ≡ pre_auth → (heap p).app ≡ none)
      → Pushed t id p b u
      → Inv heap u
  Pushed-Inv t id p b u v a own bare f = record {
    single = rw f.sessions (insert-IsMap id p t.sessions v.single);
    named = λ i q h. ground (arith, s_at i, v.named i q, own);
    entered = λ i q h. elim (str_eq id i) [
      | yes e ↦
          let same : p ≡ q = ground (arith, s_at i) in
          (record { el = t.next_node; l = b }, ground (arith, e_at i), rw (← same) f.lists_new)
      | no ne ↦
          let was : lookup i t.sessions ≡ some q = ground (arith, s_at i) in
          let (e, le, el) = v.entered i q was in (e, ground (arith, e_at i), f.lists_keep e.l _ el)
    ];
    listed = λ c n h. elim (f.lists_sub c n h) [
      | inl was ↦
          let (ls, le) = v.listed c n was in
          let j = (heap n.ptr).id in
          (ground (arith, s_at j, a.no_session), ground (arith, e_at j, a.no_entry))
      | inr (ec, en) ↦
          rw (← en, ec, own) (rw (s_at id) (rw (if_pos _ refl)), rw (e_at id) (rw (if_pos _ refl)))
    ];
    owned = λ i e h. elim (str_eq id i) [
      | yes same ↦ (p, ground (arith, s_at i))
      | no ne ↦ let (q, lq) = v.owned i e (ground (arith, e_at i)) in (q, ground (arith, s_at i))
    ];
    apart = λ i j e g hi hj same.
        ground (arith, e_at i, e_at j, v.apart i j e g, v.below i e, v.below j g);
    below = λ i e h. ground (arith, e_at i, v.below i e, f.next);
    bare = λ n h. elim (f.lists_sub pre_auth n h) [
      | inl was ↦ v.bare n was
      | inr (ec, en) ↦ rw (← en) (bare (sym ec))
    ];
  }
    where
      s_at : (i : Str) → lookup i u.sessions ≡ ite (str_eq id i) (some p) (lookup i t.sessions)
      s_at i = rw f.sessions (lookup-insert i id p t.sessions)

      e_at :
          (i : Str)
          → lookup i u.entries
            ≡ ite (str_eq id i) (some (record { el = t.next_node; l = b })) (lookup i t.entries)
      e_at i = rw f.entries (lookup-insert i id _ t.entries)
