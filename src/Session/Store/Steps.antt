-- ===== src/Session/Store/Steps.antt =====
-- internal/session/store.go: what Save, Replace, Delete and Reap promise.
use tablex.Common.{
  [], ℕ, ◌≤◌, ◌<◌, true, false, List, Option, none, some, ◌≡◌, ◌≢◌, ◌⊎◌, inl, inr, refl, ◌∙◌, ap,
  arith, Elem, Str, str_eq, Option-cases, length, ℕ_discrete, ite,
}
use tablex.Common.Maps.{
  lookup, delete, insert, lookup-delete, lookup-insert, length-insert, length-delete-le,
  length-delete-lt,
}
use mathlib.Core.Logic.{if_pos}
use tablex.Session.{Session}
use tablex.Session.Store.{
  Bucket, pre_auth, auth, ListEntry, MemStore, bucket, bucket_of, remove_from, detach, push, delete_session,
  make_room, save, replace_member, replace,
}
use tablex.Session.Store.Invariant.{
  Inv, forget, forget-Forgot, forget-Inv, forget-IsAbsent, push-forget,
}
use tablex.Session.Store.Push.{push-Pushed, Pushed-Inv}
use tablex.Session.Store.Room.{Room, make_room-Room}

module _ (heap : ℕ → Session) where
  save_store :
      (cap : ℕ) (m : MemStore) (p : ℕ)
      (r : Room heap cap m (heap p).id (make_room heap cap m (heap p).id).0)
      → (save heap cap m p).0 ≡ push r.base (heap p).id p (bucket_of (heap p).app)
  unfolding save
  save_store cap m p r = r.same p (bucket_of (heap p).app)

  pub push_store :
      (t : MemStore) (id : Str) (p : ℕ) (b : Bucket)
      → (push t id p b).sessions ≡ insert id p t.sessions
  push_store t id p b = (push-Pushed heap t id p b).sessions

  bare_of : (o : Option ℕ) → bucket_of o ≡ pre_auth → o ≡ none
  bare_of none e = refl
  bare_of (some a) e = cc

  -- The list that a saved session enters, behind all that is in it: the pre-auth list without a
  -- payload, the authenticated list with one.
  pub record Filed (m : MemStore) (p : ℕ) (t : MemStore) : Type 0 where
    pub entry : ListEntry
    pub entered : lookup (heap p).id t.entries ≡ some entry
    pub without_payload :
        (heap p).app ≡ none
        → (entry.l ≡ pre_auth) × Elem (record { node = entry.el; ptr = p }) t.pre_auth
    pub with_payload :
        (a : ℕ)
        → (heap p).app ≡ some a
        → (entry.l ≡ auth) × Elem (record { node = entry.el; ptr = p }) t.auth

  filed :
      (m t : MemStore) (p : ℕ) (o : Option ℕ)
      → (heap p).app ≡ o
      → Filed m p (push t (heap p).id p (bucket_of o))
  filed m t p none e =
      let d = push-Pushed heap t (heap p).id p pre_auth in
      record {
        entry = record { el = t.next_node; l = pre_auth };
        entered = rw d.entries (lookup-insert (heap p).id (heap p).id _ t.entries ∙ rw (if_pos _ refl));
        without_payload = λ _. (refl, d.lists_new);
        with_payload = λ a h. absurd (let z = e in cc);
      }
  filed m t p (some q) e =
      let d = push-Pushed heap t (heap p).id p auth in
      record {
        entry = record { el = t.next_node; l = auth };
        entered = rw d.entries (lookup-insert (heap p).id (heap p).id _ t.entries ∙ rw (if_pos _ refl));
        without_payload = λ h. absurd (let z = e in cc);
        with_payload = λ a h. (refl, d.lists_new);
      }

  -- A session with a payload is not in the pre-auth list.
  has_payload-auth :
      (m : MemStore) (i : Str) (q : ℕ)
      → Inv heap m
      → lookup i m.sessions ≡ some q
      → (heap q).app ≢ none
      → (e : ListEntry) × (lookup i m.entries ≡ some e) × (e.l ≡ auth)
  has_payload-auth m i q v h paid =
      let (e, le, el) = v.entered i q h in (e, le, in_auth e.l _ el)
    where
      in_auth : (b : Bucket) (el : ℕ) → Elem (record { node = el; ptr = q }) (bucket m b) → b ≡ auth
      in_auth pre_auth el x = absurd (paid (v.bare _ x))
      in_auth auth el x = refl

  -- What Save leaves: the invariant; the saved session found under its id, and in the list of its
  -- kind; at most `cap` sessions; nothing under another id that was not there; and while a pre-auth
  -- session is in the store, every session under another id that has a payload, or stands in the
  -- authenticated list, is still found.
  pub record Saved (cap : ℕ) (m : MemStore) (p : ℕ) (t : MemStore) : Type 0 where
    pub inv : Inv heap t
    pub found : lookup (heap p).id t.sessions ≡ some p
    pub bounded : length m.sessions ≤ cap → 0 < cap → length t.sessions ≤ cap
    pub files : Filed m p t
    pub others :
        (i : Str) (q : ℕ)
        → i ≢ (heap p).id
        → lookup i t.sessions ≡ some q
        → lookup i m.sessions ≡ some q
    pub keeps_auth :
        m.pre_auth ≢ []
        → (i : Str) (q : ℕ) (e : ListEntry) → lookup i m.sessions ≡ some q
        → lookup i m.entries ≡ some e
        → e.l ≡ auth
        → i ≢ (heap p).id
        → lookup i t.sessions ≡ some q
    pub keeps_payload :
        m.pre_auth ≢ []
        → (i : Str) (q : ℕ) → lookup i m.sessions ≡ some q
        → (heap q).app ≢ none
        → i ≢ (heap p).id
        → lookup i t.sessions ≡ some q

  push_found :
      (t : MemStore) (id : Str) (p : ℕ) (b : Bucket) (i : Str)
      → lookup i (push t id p b).sessions ≡ ite (str_eq id i) (some p) (lookup i t.sessions)
  push_found t id p b i = rw (push_store t id p b) (lookup-insert i id p t.sessions)

  -- Save on a store that keeps the invariant, with any cap, leaves what `Saved` says: the invariant;
  -- the session found under its id and in the pre-auth list if it has no payload, else in the
  -- authenticated one; at most `cap` sessions if there were no more and the cap is not 0; no other
  -- session than before; and, while the pre-auth list is not empty, every session of another id that
  -- has a payload or is in the authenticated list.
  pub save-Saved :
      (cap : ℕ) (m : MemStore) (p : ℕ) → Inv heap m → Saved cap m p (save heap cap m p).0
  save-Saved cap m p v =
      let r = make_room-Room heap cap m (heap p).id v in
      let id = (heap p).id in
      let b = bucket_of (heap p).app in
      let at = push_found r.base id p b in
      rw (save_store cap m p r) (record {
        inv =
            Pushed-Inv heap r.base id p b (push r.base id p b) r.inv r.absent refl
              (bare_of (heap p).app) (push-Pushed heap r.base id p b);
        found = at id ∙ rw (if_pos _ refl);
        bounded = λ f pos. omega (
          arith,
          ap length (push_store r.base id p b),
          length-insert id p r.base.sessions,
          r.fits f pos,
        );
        files = filed m r.base p (heap p).app refl;
        others = λ i q ne h. r.sub i q (let a = at i in ground arith);
        keeps_payload = λ some_pre i q ls paid ne.
            let (e, le, in_auth) = has_payload-auth m i q v ls paid in
            let kept = r.keeps_auth some_pre i q e ls le in_auth ne in let a = at i in ground arith;
        keeps_auth = λ some_pre i q e ls le in_auth ne.
            let kept = r.keeps_auth some_pre i q e ls le in_auth ne in let a = at i in ground arith;
      })

  detach_set_sessions :
      (m : MemStore) (id : Str) (ss : List (Str × ℕ))
      → detach (record m { sessions = ss }) id ≡ record (detach m id) { sessions = ss }
  unfolding detach
  detach_set_sessions m id ss = elim (Option-cases (lookup id m.entries)) [
    | inl e ↦ rw (e, detach)
    | inr (e, h) ↦ rw (h, detach) (at_bucket e.el e.l)
  ]
    where
      at_bucket :
          (el : ℕ) (l : Bucket)
          → record (remove_from (record m { sessions = ss }) (record { el = el; l = l })) {
            entries = delete id m.entries;
          }
            ≡ record (record (remove_from m (record { el = el; l = l })) {
              entries = delete id m.entries;
            }) { sessions = ss }
      at_bucket el pre_auth = refl
      at_bucket el auth = refl

  pub delete_session-forget : (m : MemStore) (id : Str) → delete_session m id ≡ forget heap m id
  unfolding delete_session
  delete_session-forget m id = detach_set_sessions m id (delete id m.sessions)

  -- What a successful Replace leaves: the new session, and neither the old one nor anything else
  -- new.
  pub record Replaced (m : MemStore) (old new : ℕ) (t : MemStore) : Type 0 where
    pub inv : Inv heap t
    pub found : lookup (heap new).id t.sessions ≡ some new
    pub entered : lookup (heap new).id t.entries ≡ some (record { el = m.next_node; l = auth })
    pub gone : (heap old).id ≢ (heap new).id → lookup (heap old).id t.sessions ≡ none
    pub others :
        (i : Str)
        → i ≢ (heap old).id
        → i ≢ (heap new).id
        → lookup i t.sessions ≡ lookup i m.sessions
    pub bounded : length t.sessions ≤ length m.sessions

  pub forget-lookup :
      (m : MemStore) (id i : Str)
      → lookup i (forget heap m id).sessions ≡ ite (str_eq id i) none (lookup i m.sessions)
  forget-lookup m id i = lookup-delete i id m.sessions

  replace_member-push :
      (m : MemStore) (old new : ℕ)
      → replace_member heap m old new
        ≡ push (forget heap (forget heap m (heap old).id) (heap new).id) (heap new).id new auth
  unfolding replace_member
  replace_member-push m old new =
      rw (detach_set_sessions m (heap old).id (delete (heap old).id m.sessions))
        (push-forget heap (forget heap m (heap old).id) (heap new).id new auth)

  forget_bound :
      (m : MemStore) (id : Str) (q : ℕ)
      → lookup id m.sessions ≡ some q
      → length (forget heap m id).sessions < length m.sessions
  forget_bound m id q h = length-delete-lt id q m.sessions h

  pub replace_member-Replaced :
      (m : MemStore) (old new : ℕ)
      → Inv heap m
      → lookup (heap old).id m.sessions ≡ some old
      → Replaced m old new (replace_member heap m old new)
  replace_member-Replaced m old new v h =
      let oid = (heap old).id in
      let nid = (heap new).id in
      let one = forget heap m oid in
      let one-Inv = forget-Inv heap m oid v in
      let two = forget heap one nid in
      let pushed = push-Pushed heap two nid new auth in
      let at = push_found two nid new auth in
      let next = (forget-Forgot heap one nid one-Inv).next ∙ (forget-Forgot heap m oid v).next in
      rw (replace_member-push m old new) (record {
        inv =
            Pushed-Inv heap two nid new auth (push two nid new auth)
              (forget-Inv heap one nid one-Inv) (forget-IsAbsent heap one nid one-Inv) refl
              (λ e. cc) pushed;
        found = at nid ∙ rw (if_pos _ refl);
        entered = rw pushed.entries (
            lookup-insert nid nid _ two.entries
            ∙ rw (if_pos _ refl) (ap (λ (n : ℕ). some (record { el = n; l = auth })) next));
        gone = λ ne.
            let a = at oid in
            let b = forget-lookup one nid oid in let c = forget-lookup m oid oid in ground arith;
        others = λ i no nn.
            let a = at i in
            let b = forget-lookup one nid i in let c = forget-lookup m oid i in ground arith;
        bounded = omega (
          arith,
          ap length (push_store two nid new auth),
          length-insert nid new two.sessions,
          length-delete-le nid one.sessions,
          forget_bound m oid old h,
        );
      })

  pub replace_hit :
      (m : MemStore) (old new : ℕ)
      → lookup (heap old).id m.sessions ≡ some old
      → replace heap m old new ≡ (replace_member heap m old new, true)
  unfolding replace
  replace_hit m old new e = ground arith

  pub replace_miss :
      (m : MemStore) (old new : ℕ)
      → lookup (heap old).id m.sessions ≢ some old
      → replace heap m old new ≡ (m, false)
  unfolding replace
  replace_miss m old new ne = elim (Option-cases (lookup (heap old).id m.sessions)) [
    | inl e ↦ rw (e, replace)
    | inr (cur, e) ↦ ground arith
  ]

  -- Replace on a store that keeps the invariant succeeds exactly when the very session `old` is
  -- still stored under its id. Then the store is as `Replaced` says; otherwise it is unchanged.
  pub replace_cases :
      (m : MemStore) (old new : ℕ)
      → Inv heap m
      → ((lookup (heap old).id m.sessions ≡ some old)
          × ((replace heap m old new).1 ≡ true)
          × Replaced m old new (replace heap m old new).0)
        ⊎ ((lookup (heap old).id m.sessions ≢ some old) × (replace heap m old new ≡ (m, false)))
  replace_cases m old new v = elim (is_member (lookup (heap old).id m.sessions)) [
    | inl e ↦ inl (
      e,
      rw (replace_hit m old new e) refl,
      rw (replace_hit m old new e) (replace_member-Replaced m old new v e),
    )
    | inr ne ↦ inr (ne, replace_miss m old new ne)
  ]
    where
      is_member : (o : Option ℕ) → (o ≡ some old) ⊎ (o ≢ some old)
      is_member none = inr (λ e. cc)
      is_member (some q) = elim (ℕ_discrete q old) [
        | yes e ↦ inl (ap some e)
        | no ne ↦ inr (λ e. ne (ground arith))
      ]

  -- Delete forgets the session of the id and no other, and keeps the invariant.
  pub delete_session_lem :
      (m : MemStore) (id : Str)
      → Inv heap m
      → Inv heap (delete_session m id)
        × ((i : Str)
            → lookup i (delete_session m id).sessions
              ≡ ite (str_eq id i) none (lookup i m.sessions))
  delete_session_lem m id v =
      rw (delete_session-forget m id) (forget-Inv heap m id v, forget-lookup m id)
