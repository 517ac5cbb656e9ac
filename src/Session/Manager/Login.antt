-- ===== src/Session/Manager/Login.antt =====
-- internal/session/session.go: login over the in-memory store.
use tablex.Common.{
  [], ℕ, suc, ◌<◌, true, false, Option, none, some, ◌≡◌, ◌≢◌, ◌⊎◌, inl, inr, refl, sym, ◌∙◌, ap, arith,
  Str, str_eq, Bool-cases, ◌==◌,
}
use tablex.Common.Maps.{lookup}
use mathlib.Core.Logic.{if_pos, if_neg}
use tablex.Session.{Sso, no_sso, Session, verified, close}
use tablex.Session.Store.{MemStore, pre_auth, replace}
use tablex.Session.Store.Invariant.{Inv}
use tablex.Session.Store.Steps.{Replaced, replace_cases}
use tablex.Session.Manager.{
  World, no_cookie, set_cookie, update, close_session, carried, logged_in, authenticate,
}

-- The store agrees with the heap, and every session that it holds was allocated.
pub record IsSound (w : World) : Type 0 where
  pub inv : Inv w.heap w.store
  pub allocated : (i : Str) (p : ℕ) → lookup i w.store.sessions ≡ some p → p < w.next_ptr

-- The invariant survives a change of the heap that keeps ids and adds no payload.
pub Inv-heap :
    (heap heap' : ℕ → Session) (m : MemStore)
    → Inv heap m
    → ((i : Str) (p : ℕ)
        → lookup i m.sessions ≡ some p
        → ((heap' p).id ≡ (heap p).id) × ((heap p).app ≡ none → (heap' p).app ≡ none))
    → Inv heap' m
Inv-heap heap heap' m v same = record {
  single = v.single;
  named = λ i p h. (same i p h).0 ∙ v.named i p h;
  entered = v.entered;
  listed = λ b n h. let l = v.listed b n h in rw ((same _ n.ptr l.0).0) l;
  owned = v.owned;
  apart = v.apart;
  below = v.below;
  bare = λ n h. (same _ n.ptr (v.listed pre_auth n h).0).1 (v.bare n h);
}

close_keeps : (s : Session) → ((close s).0.id ≡ s.id) × (s.app ≡ none → (close s).0.app ≡ none)
unfolding close
close_keeps s = ground arith

-- Closing a session object keeps the store and every id.
pub close_session-IsSound : (w : World) (p : ℕ) → IsSound w → IsSound (close_session w p)
unfolding close_session
close_session-IsSound w p s = record {
  inv = Inv-heap w.heap (update w.heap p (close (w.heap p)).0) w.store s.inv (λ i q h. keeps q);
  allocated = s.allocated;
}
  where
    keeps :
        (q : ℕ)
        → ((update w.heap p (close (w.heap p)).0 q).id ≡ (w.heap q).id)
          × ((w.heap q).app ≡ none → (update w.heap p (close (w.heap p)).0 q).app ≡ none)
    keeps q =
        let k = close_keeps (w.heap p) in
        elim (Bool-cases (p == q)) [
          | inl e ↦ let same : p ≡ q = ground arith in rw e (rw (← same) k)
          | inr e ↦ rw e (refl, λ x. x)
        ]

pub update_self : (h : ℕ → Session) (p : ℕ) (s : Session) → update h p s p ≡ s
update_self h p s = ground arith

update_ne : (h : ℕ → Session) (p q : ℕ) (s : Session) → p ≢ q → update h p s q ≡ h q
update_ne h p q s ne = ground arith

-- A fresh object changes no session of the store.
fresh-Inv : (w : World) (s : Session) → IsSound w → Inv (update w.heap w.next_ptr s) w.store
fresh-Inv w s v = Inv-heap w.heap (update w.heap w.next_ptr s) w.store v.inv (λ i p h.
    rw (update_ne w.heap w.next_ptr p s (λ e. absurd (omega (arith, v.allocated i p h))))
      (refl, λ x. x))

pub close_session_store :
    (w : World) (p : ℕ)
    → ((close_session w p).store ≡ w.store) × ((close_session w p).next_ptr ≡ w.next_ptr)
unfolding close_session
close_session_store w p = (refl, refl)

close_session_other : (w : World) (p q : ℕ) → p ≢ q → (close_session w p).heap q ≡ w.heap q
unfolding close_session
close_session_other w p q ne = update_ne w.heap p q _ ne

-- The object of a session that has just logged in: open, with nothing of the handshake, and with
-- the identity of `old` if that has a subject, which is what a finished sign-in sets, and else none.
pub record IsLogin (now : ℕ) (id csrf : Str) (app close_fn : Option ℕ) (old : Sso) (s : Session) :
    Type 0 where
  pub named : (s.id ≡ id) × (s.csrf ≡ csrf)
  pub times : (s.created ≡ now) × (s.last_seen ≡ now)
  pub payload : (s.app ≡ app) × (s.close_fn ≡ close_fn) × (s.closed ≡ false)
  pub no_handshake : (s.sso.state ≡ []) × (s.sso.nonce ≡ []) × (s.sso.verifier ≡ [])
  pub identified :
      old.subject ≢ []
      → (s.sso.subject ≡ old.subject) × (s.sso.email ≡ old.email) × (s.sso.name ≡ old.name)
  pub anonymous :
      old.subject ≡ [] → (s.sso.subject ≡ []) × (s.sso.email ≡ []) × (s.sso.name ≡ [])

logged_in-IsLogin :
    (now : ℕ) (id csrf : Str) (app close_fn : Option ℕ) (old : Sso)
    → IsLogin now id csrf app close_fn old (logged_in now id csrf app close_fn (carried old))
unfolding carried verified
logged_in-IsLogin now id csrf app close_fn old = elim (str_eq old.subject []) [
  | yes e ↦
      let none_carried : carried old ≡ no_sso = unfold carried in rw (if_pos _ e) refl in
      rw none_carried (record {
        named = (refl, refl);
        times = (refl, refl);
        payload = (refl, refl, refl);
        no_handshake = (refl, refl, refl);
        identified = λ ne. absurd (ne e);
        anonymous = λ _. (refl, refl, refl);
      })
  | no ne ↦
      let some_carried :
        carried old ≡ record no_sso { subject = old.subject; email = old.email; name = old.name } =
        unfold carried in rw (if_neg _ ne) refl in
      rw some_carried (record {
        named = (refl, refl);
        times = (refl, refl);
        payload = (refl, refl, refl);
        no_handshake = (refl, refl, refl);
        identified = λ _. (refl, refl, refl);
        anonymous = λ e. absurd (ne e);
      })
]

-- What a login that succeeds leaves: the new session under the new id, with the payload, its CSRF
-- token and only the verified identity of the old one; the old id unknown; every other session
-- where it was; and the new id sent as the cookie.
pub record LoggedIn (now : ℕ) (id csrf : Str) (app close_fn : Option ℕ) (w : World) (pre : ℕ)
    (t : World) : Type 0 where
  pub sound : IsSound t
  pub found : lookup id t.store.sessions ≡ some w.next_ptr
  pub object : t.heap w.next_ptr ≡ logged_in now id csrf app close_fn (carried (w.heap pre).sso)
  pub login : IsLogin now id csrf app close_fn (w.heap pre).sso (t.heap w.next_ptr)
  pub rotated : (w.heap pre).id ≢ id → lookup (w.heap pre).id t.store.sessions ≡ none
  pub others :
      (i : Str)
      → i ≢ (w.heap pre).id
      → i ≢ id
      → lookup i t.store.sessions ≡ lookup i w.store.sessions

abbrev pub AuthenticateOutcome : ℕ → Str → Str → Option ℕ → Option ℕ → World → ℕ → Type 0
AuthenticateOutcome now id csrf app close_fn w pre =
    let r = authenticate now id csrf app close_fn w (some pre) in
    ((lookup (w.heap pre).id w.store.sessions ≡ some pre)
      × (r.1 ≡ some w.next_ptr)
      × (r.2 ≡ set_cookie id)
      × LoggedIn now id csrf app close_fn w pre r.0)
    ⊎ ((lookup (w.heap pre).id w.store.sessions ≢ some pre)
        × (r.1 ≡ none)
        × (r.2 ≡ no_cookie)
        × (r.0.store ≡ w.store)
        × (r.0.ran ≡ w.ran))

module _ (now : ℕ) (id csrf : Str) (app close_fn : Option ℕ) (w : World) (pre : ℕ) (v : IsSound w)
    (older : pre < w.next_ptr) where
  abbrev new_object : Session
  new_object = logged_in now id csrf app close_fn (carried (w.heap pre).sso)

  abbrev new_world : World
  new_world = record w { heap = update w.heap w.next_ptr new_object; next_ptr = suc w.next_ptr }

  new_heap_at : update w.heap w.next_ptr new_object w.next_ptr ≡ new_object
  new_heap_at = update_self w.heap w.next_ptr new_object

  new_heap_pre : update w.heap w.next_ptr new_object pre ≡ w.heap pre
  new_heap_pre = update_ne w.heap w.next_ptr pre new_object (λ e. absurd (omega arith))

  authenticate_swapped :
      (t : MemStore)
      → replace new_world.heap w.store pre w.next_ptr ≡ (t, true)
      → authenticate now id csrf app close_fn w (some pre)
        ≡ (close_session (record new_world { store = t }) pre, some w.next_ptr, set_cookie id)
  unfolding authenticate
  authenticate_swapped t e = rw e

  authenticate_refused :
      replace new_world.heap w.store pre w.next_ptr ≡ (w.store, false)
      → authenticate now id csrf app close_fn w (some pre) ≡ (new_world, none, no_cookie)
  unfolding authenticate
  authenticate_refused e = rw e

  swapped-IsSound :
      (t : MemStore)
      → Replaced new_world.heap w.store pre w.next_ptr t
      → IsSound (record new_world { store = t })
  swapped-IsSound t r = record {
    inv = r.inv;
    allocated = λ i p h. elim (str_eq i (new_world.heap w.next_ptr).id) [
      | yes e ↦ let f = r.found in let h' = rw e at h in ground arith
      | no nn ↦ elim (str_eq i (new_world.heap pre).id) [
        | yes e ↦ absurd (let g = r.gone (λ x. nn (e ∙ x)) in let h' = rw e at h in cc)
        | no no_old ↦ let o = v.allocated i p (sym (r.others i no_old nn) ∙ h) in omega arith
      ]
    ];
  }

  swapped-LoggedIn :
      (t : MemStore)
      → Replaced new_world.heap w.store pre w.next_ptr t
      → LoggedIn now id csrf app close_fn w pre (close_session (record new_world { store = t }) pre)
  swapped-LoggedIn t r =
      let u : World = record new_world { store = t } in
      let st = (close_session_store u pre).0 in
      let at = new_heap_at in
      record {
        sound = close_session-IsSound u pre (swapped-IsSound t r);
        found = rw st (rw (ap (λ (x : Session). x.id) at) at r.found);
        object = close_session_other u pre w.next_ptr (λ e. absurd (omega arith)) ∙ at;
        login =
            rw (close_session_other u pre w.next_ptr (λ e. absurd (omega arith)) ∙ at)
              (logged_in-IsLogin now id csrf app close_fn (w.heap pre).sso);
        rotated = λ ne. rw st (
            rw (ap (λ (x : Session). x.id) new_heap_pre) at (
              r.gone (λ e. ne (
                ap (λ (x : Session). x.id) (sym new_heap_pre)
                ∙ e
                ∙ ap (λ (x : Session). x.id) at))));
        others = λ i no_old nn. rw st (
            r.others i (λ e. no_old (e ∙ ap (λ (x : Session). x.id) new_heap_pre))
              (λ e. nn (e ∙ ap (λ (x : Session). x.id) at)));
      }

  -- Authenticate on an allocated pre-auth session of a sound world: if the store still holds that
  -- very object under its id, it logs in as `LoggedIn` says, with a new object that carries nothing
  -- of the handshake and the subject, email and name if the subject is not empty, returns the new
  -- session and sends the new id; if not (evicted, reaped, destroyed, or another object under the same id), it returns no
  -- session, sends no cookie, runs no close hook and leaves the store as it was.
  pub authenticate_cases : AuthenticateOutcome now id csrf app close_fn w pre
  authenticate_cases =
      elim (replace_cases new_world.heap w.store pre w.next_ptr (fresh-Inv w new_object v)) [
        | inl (member, ok, r) ↦
            let t = (replace new_world.heap w.store pre w.next_ptr).0 in
            let e : replace new_world.heap w.store pre w.next_ptr ≡ (t, true) = λ i. (t, ok i) in
            inl (
              rw (ap (λ (x : Session). x.id) new_heap_pre) at member,
              rw (authenticate_swapped t e) refl,
              rw (authenticate_swapped t e) refl,
              rw (authenticate_swapped t e) (swapped-LoggedIn t r),
            )
        | inr (ne, e) ↦ inr (
          λ x. ne (rw (ap (λ (y : Session). y.id) new_heap_pre) x),
          rw (authenticate_refused e) refl,
          rw (authenticate_refused e) refl,
          rw (authenticate_refused e) refl,
          rw (authenticate_refused e) refl,
        )
      ]
