-- ===== src/Session/Manager.antt =====
-- internal/session/session.go: Manager. The heap holds the session objects, `ran` the close hooks
-- run so far, oldest first. A call takes the clock's reading `now` and the two random strings of a
-- new session as arguments. Times are nanoseconds; a truncated difference exceeds a timeout exactly
-- when the signed one does.
pub mod Login
pub mod Load
use tablex.Common.{
  [], ℕ, suc, ◌-◌, Bool, true, false, ◌||◌, List, ◌∷◌, ◌++◌, Option, none, some, if◌then◌else◌, ltb,
  ◌==◌, Str, bytes,
}
use tablex.Common.Maps.{lookup}
use tablex.Session.{Sso, no_sso, Session, verified, close}
use tablex.Session.Store.{MemStore, save, replace, delete_session, reap, max_sessions}

pub record Config : Type 0 where
  pub cookie_name : Str
  pub idle_timeout : ℕ
  pub absolute_timeout : ℕ
  pub secure : Bool

pub record World : Type 0 where
  pub heap : ℕ → Session
  pub next_ptr : ℕ
  pub store : MemStore
  pub ran : List ℕ

-- What the response does to the browser's cookie.
pub data CookieChange : Type 0 where
  no_cookie : CookieChange
  set_cookie : Str → CookieChange
  clear_cookie : CookieChange

abbrev pub update : (ℕ → Session) → ℕ → Session → ℕ → Session
update h p s q = if p == q then s else h q

-- The defaults of NewManager.
pub with_defaults : Config → Config
with_defaults c = record {
  cookie_name = elim c.cookie_name [ [] ↦ bytes "tablex_session" | x ∷ xs ↦ x ∷ xs ];
  idle_timeout = if c.idle_timeout == 0 then 1_800_000_000_000 else c.idle_timeout;
  absolute_timeout = if c.absolute_timeout == 0 then 28_800_000_000_000 else c.absolute_timeout;
  secure = c.secure;
}

pub cookie_name : Config → Str
cookie_name c = if c.secure then bytes "__Host-" ++ c.cookie_name else c.cookie_name

abbrev pub new_session : ℕ → Str → Str → Session
new_session now id csrf = record {
  id = id;
  csrf = csrf;
  created = now;
  last_seen = now;
  app = none;
  close_fn = none;
  closed = false;
  sso = no_sso;
}

abbrev pub ran_with : List ℕ → Option ℕ → List ℕ
ran_with ran none = ran
ran_with ran (some fn) = ran ++ fn ∷ []

pub close_session : World → ℕ → World
unfolding close
close_session w p =
    let (s, hook) = close (w.heap p) in
    record w { heap = update w.heap p s; ran = ran_with w.ran hook }

abbrev pub close_victim : World → Option ℕ → World
close_victim w none = w
close_victim w (some p) = close_session w p

unfoldable pub expired : Config → ℕ → Session → Bool
expired c now s = ltb c.idle_timeout (now - s.last_seen) || ltb c.absolute_timeout (now - s.created)

-- `Load` on the session that the cookie's value names.
pub load_ptr : Config → ℕ → World → ℕ → World × Option ℕ
unfolding expired close_session
load_ptr c now w p =
    if expired c now (w.heap p)
    then (close_session (record w { store = delete_session w.store (w.heap p).id }) p, none)
    else (record w { heap = update w.heap p (record (w.heap p) { last_seen = now }) }, some p)

-- The cookie is `none` where the request has none of that name.
pub load : Config → ℕ → World → Option Str → World × Option ℕ
unfolding load_ptr lookup
load c now w none = (w, none)
load c now w (some value) = elim (lookup value w.store.sessions) [
  | none ↦ (w, none)
  | some p ↦ load_ptr c now w p
]

-- Save at the cap, and the close of the victim behind it.
pub save_session : World → ℕ → World
unfolding close_session
save_session w p =
    let (m, victim) = save w.heap max_sessions w.store p in
    close_victim (record w { store = m }) victim

-- The part of Start behind the admission.
pub create : ℕ → Str → Str → World → World × Option ℕ × CookieChange
unfolding save_session
create now id csrf w =
    let p = w.next_ptr in
    (
      save_session (record w { heap = update w.heap p (new_session now id csrf); next_ptr = suc p })
          p,
      some p,
      set_cookie id,
    )

-- `admit` is the answer of `Config.Admit`, true where there is none.
pub start : Config → ℕ → Bool → Str → Str → World → Option Str → World × Option ℕ × CookieChange
unfolding load create
start c now admit id csrf w cookie =
    let (w', loaded) = load c now w cookie in
    elim loaded [
      | some p ↦ (w', some p, no_cookie)
      | none ↦ if admit then create now id csrf w' else (w', none, no_cookie)
    ]

-- The verified half of the pre-auth session's identity.
pub carried : Sso → Sso
unfolding verified
carried v =
    if verified v
    then record no_sso { subject = v.subject; email = v.email; name = v.name }
    else no_sso

abbrev pub logged_in : ℕ → Str → Str → Option ℕ → Option ℕ → Sso → Session
logged_in now id csrf app close_fn v = record (new_session now id csrf) {
  app = app;
  close_fn = close_fn;
  sso = v;
}

-- `Authenticate` on a non-nil pre-auth session.
pub authenticate_from :
    ℕ → Str → Str → Option ℕ → Option ℕ → World → ℕ → World × Option ℕ × CookieChange
unfolding close_session carried
authenticate_from now id csrf app close_fn w pre =
    let p = w.next_ptr in
    let s = logged_in now id csrf app close_fn (carried (w.heap pre).sso) in
    let w' = record w { heap = update w.heap p s; next_ptr = suc p } in
    let (m, swapped) = replace w'.heap w'.store pre p in
    if swapped
    then (close_session (record w' { store = m }) pre, some p, set_cookie id)
    else (w', none, no_cookie)

pub authenticate :
    ℕ → Str → Str → Option ℕ → Option ℕ → World → Option ℕ → World × Option ℕ × CookieChange
unfolding authenticate_from
authenticate now id csrf app close_fn w none = (w, none, no_cookie)
authenticate now id csrf app close_fn w (some pre) =
    authenticate_from now id csrf app close_fn w pre

pub destroy : World → Option ℕ → World × CookieChange
unfolding close_session
destroy w none = (w, clear_cookie)
destroy w (some p) =
    (close_session (record w { store = delete_session w.store (w.heap p).id }) p, clear_cookie)

pub close_all : World → List ℕ → World
unfolding close_session
close_all w [] = w
close_all w (p ∷ ps) = close_all (close_session w p) ps

-- One tick of the reaper.
pub reap_expired : Config → ℕ → World → World
unfolding close_all expired
reap_expired c now w =
    let (m, dead) = reap (λ p. expired c now (w.heap p)) w.store in
    close_all (record w { store = m }) dead

-- Shutdown over a store without Detach; `stopped` is the state of `stopOnce`.
pub shutdown : World → Bool → World × Bool
unfolding close_all
shutdown w true = (w, true)
shutdown w false =
    let (m, dead) = reap (λ _. true) w.store in (close_all (record w { store = m }) dead, true)
