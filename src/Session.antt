-- ===== src/Session.antt =====
-- internal/session/session.go: a session object and its methods. Each method holds the session's
-- lock for its whole body, so it is one step. A payload and a close hook are opaque numbers; times
-- are nanoseconds.
pub mod Store
pub mod Handshake
pub mod Manager
mod Tests
use tablex.Common.{[], ℕ, Bool, true, false, Option, none, some, if◌then◌else◌, Str, str_eq, ite}

pub record Sso : Type 0 where
  pub state : Str
  pub nonce : Str
  pub verifier : Str
  pub subject : Str
  pub email : Str
  pub name : Str

abbrev pub no_sso : Sso
no_sso = record { state = []; nonce = []; verifier = []; subject = []; email = []; name = [] }

pub record Session : Type 0 where
  pub id : Str
  pub csrf : Str
  pub created : ℕ
  pub last_seen : ℕ
  pub app : Option ℕ
  pub close_fn : Option ℕ
  pub closed : Bool
  pub sso : Sso

-- `x.Subject != ""`
unfoldable pub verified : Sso → Bool
verified x = ite (str_eq x.subject []) false true

pub set_sso : Session → Sso → Session
set_sso s x = record s { sso = x }

-- The fields that `ConsumeSSOHandshake` returns with ok = true.
pub record Spent : Type 0 where
  pub state : Str
  pub nonce : Str
  pub verifier : Str

pub spend : Session → Session × Option Spent
spend s = (
  record s { sso = record (s.sso) { state = []; nonce = []; verifier = [] } },
  some (record { state = s.sso.state; nonce = s.sso.nonce; verifier = s.sso.verifier }),
)

pub consume_sso_handshake : (Str → Bool) → Session → Session × Option Spent
unfolding spend
consume_sso_handshake match s =
    ite (str_eq s.sso.state []) (s, none) (if match s.sso.state then spend s else (s, none))

-- `close`: the session after it, and the hook that it runs.
pub close_with : Session → Option ℕ → Session × Option ℕ
close_with s none = (s, none)
close_with s (some fn) =
    if s.closed
    then (s, none)
    else (record s { closed = true; app = none; close_fn = none }, some fn)

unfoldable pub close : Session → Session × Option ℕ
unfolding close_with
close s = close_with s s.close_fn

pub record Envelope : Type 0 where
  pub id : Str
  pub csrf : Str
  pub created : ℕ
  pub last_seen : ℕ

pub envelope : Session → Envelope
envelope s = record { id = s.id; csrf = s.csrf; created = s.created; last_seen = s.last_seen }

pub adopt : Envelope → Session
adopt e = record {
  id = e.id;
  csrf = e.csrf;
  created = e.created;
  last_seen = e.last_seen;
  app = none;
  close_fn = none;
  closed = false;
  sso = no_sso;
}
