-- ===== src/Session/Manager/Load.antt =====
-- internal/session/session.go: load and logout over the in-memory store.
use tablex.Common.{
  ℕ, true, false, none, some, ◌≡◌, ◌≢◌, ◌≤◌, ◌+◌, ◌⊎◌, inl, inr, refl, sym, ◌∙◌, ap, arith, Str, Option-cases,
  Bool-cases, ◌==◌,
}
use tablex.Common.Maps.{lookup}
use mathlib.Core.Logic.{if_pos, if_neg}
use tablex.Session.{Session}
use tablex.Session.Store.{delete_session}
use tablex.Session.Store.Steps.{delete_session_lem}
use tablex.Session.Manager.{
  Config, World, clear_cookie, update, close_session, expired, load_ptr, load, destroy,
}
use tablex.Session.Manager.Login.{
  IsSound, Inv-heap, close_session-IsSound, update_self, close_session_store,
}

load_expired :
    (c : Config) (now : ℕ) (w : World) (p : ℕ)
    → expired c now (w.heap p) ≡ true
    → load_ptr c now w p
      ≡ (close_session (record w { store = delete_session w.store (w.heap p).id }) p, none)
unfolding load_ptr
load_expired c now w p e = rw e

load_live :
    (c : Config) (now : ℕ) (w : World) (p : ℕ)
    → expired c now (w.heap p) ≡ false
    → load_ptr c now w p
      ≡ (record w { heap = update w.heap p (record (w.heap p) { last_seen = now }) }, some p)
unfolding load_ptr
load_live c now w p e = rw e

load_found :
    (c : Config) (now : ℕ) (w : World) (value : Str) (p : ℕ)
    → lookup value w.store.sessions ≡ some p
    → load c now w (some value) ≡ load_ptr c now w p
unfolding load
load_found c now w value p e = rw (e, load)

load_missing :
    (c : Config) (now : ℕ) (w : World) (value : Str)
    → lookup value w.store.sessions ≡ none
    → load c now w (some value) ≡ (w, none)
unfolding load
load_missing c now w value e = rw (e, load)

-- Removing a session and closing its object.
removed-IsSound :
    (w : World) (p : ℕ)
    → IsSound w
    → IsSound (close_session (record w { store = delete_session w.store (w.heap p).id }) p)
removed-IsSound w p v =
    let (inv, at) = delete_session_lem w.heap w.store (w.heap p).id v.inv in
    close_session-IsSound _ p
      (record { inv = inv; allocated = λ i q h. let a = at i in v.allocated i q (ground arith) })

removed_gone :
    (w : World) (p : ℕ) (value : Str)
    → IsSound w
    → (w.heap p).id ≡ value
    → lookup value
        (close_session (record w { store = delete_session w.store (w.heap p).id }) p).store.sessions
      ≡ none
removed_gone w p value v e =
    let u : World = record w { store = delete_session w.store (w.heap p).id } in
    rw ((close_session_store u p).0)
      ((delete_session_lem w.heap w.store (w.heap p).id v.inv).1 value ∙ rw (if_pos _ e))

touched-IsSound :
    (w : World) (p now : ℕ)
    → IsSound w
    → IsSound (record w { heap = update w.heap p (record (w.heap p) { last_seen = now }) })
touched-IsSound w p now v = record {
  inv =
      Inv-heap w.heap (update w.heap p (record (w.heap p) { last_seen = now })) w.store v.inv
        (λ i q h. keeps q);
  allocated = v.allocated;
}
  where
    keeps :
        (q : ℕ)
        → ((update w.heap p (record (w.heap p) { last_seen = now }) q).id ≡ (w.heap q).id)
          × ((w.heap q).app ≡ none
              → (update w.heap p (record (w.heap p) { last_seen = now }) q).app ≡ none)
    keeps q = elim (Bool-cases (p == q)) [
      | inl e ↦ let same : p ≡ q = ground arith in rw e (rw (← same) (refl, λ x. x))
      | inr e ↦ rw e (refl, λ x. x)
    ]

-- Neither timeout has passed: seen within the idle one, created within the absolute one.
abbrev pub IsLive : Config → ℕ → Session → Type 0
IsLive c now s = (now ≤ s.last_seen + c.idle_timeout) × (now ≤ s.created + c.absolute_timeout)

expired-IsLive : (c : Config) (now : ℕ) (s : Session) → expired c now s ≡ false → IsLive c now s
unfolding expired
expired-IsLive c now s e = (ground arith, ground arith)

expired-not_live : (c : Config) (now : ℕ) (s : Session) → expired c now s ≡ true → ¬ IsLive c now s
unfolding expired
expired-not_live c now s e (idle, absolute) = ground arith

removed_others :
    (w : World) (p : ℕ) (i : Str)
    → IsSound w
    → i ≢ (w.heap p).id
    → lookup i
        (close_session (record w { store = delete_session w.store (w.heap p).id }) p).store.sessions
      ≡ lookup i w.store.sessions
removed_others w p i v ne =
    let u : World = record w { store = delete_session w.store (w.heap p).id } in
    rw ((close_session_store u p).0)
      ((delete_session_lem w.heap w.store (w.heap p).id v.inv).1 i ∙ rw (if_neg _ (λ e. ne (sym e))))

abbrev pub LoadOutcome : Config → ℕ → World → Str → Type 0
LoadOutcome c now w value =
    let r = load c now w (some value) in
    IsSound r.0
    × ((i : Str) → i ≢ value → lookup i r.0.store.sessions ≡ lookup i w.store.sessions)
    × (((p : ℕ) × (lookup value w.store.sessions ≡ some p)
          × IsLive c now (w.heap p)
          × (r.1 ≡ some p)
          × ((r.0.heap p).last_seen ≡ now)
          × (r.0.store ≡ w.store))
        ⊎ (((p : ℕ) → lookup value w.store.sessions ≡ some p → ¬ IsLive c now (w.heap p))
            × (r.1 ≡ none)
            × (lookup value r.0.store.sessions ≡ none)))

-- Load on a cookie's value in a sound world keeps it sound and every session under another id where
-- it was. If the session stored under the value was seen within the idle timeout and created within
-- the absolute one, Load returns it, now last seen at `now`, with the store as it was; otherwise, if
-- there is none or a timeout has passed, it returns none, and none is stored under the value any more.
pub load_cases :
    (c : Config) (now : ℕ) (w : World) (value : Str) → IsSound w → LoadOutcome c now w value
load_cases c now w value v = elim (Option-cases (lookup value w.store.sessions)) [
  | inl e ↦ rw (load_missing c now w value e) (
    v,
    λ _ _. refl,
    inr (λ p h. absurd (let z = e in cc), refl, e),
  )
  | inr (p, e) ↦ rw (load_found c now w value p e) (elim (Bool-cases (expired c now (w.heap p))) [
    | inl x ↦
        rw (load_expired c now w p x)
          (
            removed-IsSound w p v,
            λ i ne. removed_others w p i v (λ same. ne (same ∙ v.inv.named value p e)),
            inr (
              λ q h. let same : p ≡ q = ground arith in
                rw (← same) (expired-not_live c now (w.heap p) x),
              refl,
              removed_gone w p value v (v.inv.named value p e),
            ),
          )
    | inr x ↦ rw (load_live c now w p x) (
      touched-IsSound w p now v,
      λ _ _. refl,
      inl (p, e, expired-IsLive c now (w.heap p) x, refl, ap (λ (s : Session). s.last_seen) (update_self w.heap p _), refl),
    )
  ])
]

-- Destroy in a sound world keeps it sound, makes the store forget the session, and clears the
-- cookie whether there is a session or not.
pub destroy_lem :
    (w : World) (p : ℕ)
    → IsSound w
    → IsSound (destroy w (some p)).0
      × (lookup (w.heap p).id (destroy w (some p)).0.store.sessions ≡ none)
      × ((destroy w (some p)).1 ≡ clear_cookie)
      × ((destroy w none).1 ≡ clear_cookie)
unfolding destroy
destroy_lem w p v = (removed-IsSound w p v, removed_gone w p (w.heap p).id v refl, refl, refl)
