-- ===== src/Session/Handshake.antt =====
-- internal/session/session.go: single use of the handshake and of the close hook; what a durable
-- store can rebuild.
use tablex.Common.{[], ℕ, Bool, true, false, none, some, ◌≡◌, ◌≢◌, ◌⊎◌, inl, inr, refl, arith, Str}
use mathlib.Core.Logic.{if_pos, if_neg}
use tablex.Session.{Session, spend, consume_sso_handshake, close}

consume_hit :
    (s : Session) (match : Str → Bool)
    → s.sso.state ≢ []
    → match s.sso.state ≡ true
    → consume_sso_handshake match s ≡ spend s
unfolding consume_sso_handshake
consume_hit s match pending hit = rw (if_neg _ pending) (rw hit)

consume_spent :
    (later : Str → Bool) (s : Session)
    → consume_sso_handshake later (spend s).0 ≡ ((spend s).0, none)
unfolding consume_sso_handshake
consume_spent later s = rw (if_pos _ refl)

-- A handshake is taken once: the caller whose test matches the pending state gets the three
-- stored fields; the three are empty then and all else is as it was, the verified subject, email
-- and name included; and every later call gets nothing and changes nothing.
pub consume_sso_handshake_once :
    (s : Session) (match : Str → Bool)
    → s.sso.state ≢ []
    → match s.sso.state ≡ true
    → ((consume_sso_handshake match s).1
        ≡ some (record { state = s.sso.state; nonce = s.sso.nonce; verifier = s.sso.verifier }))
      × ((consume_sso_handshake match s).0
        ≡ record s {
          sso = record {
            state = [];
            nonce = [];
            verifier = [];
            subject = s.sso.subject;
            email = s.sso.email;
            name = s.sso.name;
          };
        })
      × ((later : Str → Bool)
          → consume_sso_handshake later (consume_sso_handshake match s).0
            ≡ ((consume_sso_handshake match s).0, none))
unfolding spend
consume_sso_handshake_once s match pending hit =
    rw (consume_hit s match pending hit) (refl, refl, λ later. consume_spent later s)

-- A refused call, with no pending state or a test that fails, leaves the session as it was.
pub consume_sso_handshake_refused :
    (s : Session) (match : Str → Bool)
    → (s.sso.state ≡ []) ⊎ (match s.sso.state ≡ false)
    → consume_sso_handshake match s ≡ (s, none)
unfolding consume_sso_handshake
consume_sso_handshake_refused s match (inl e) = rw (if_pos _ e)
consume_sso_handshake_refused s match (inr e) = rw e (ground arith)

-- A session with a close hook that is not closed: closing it runs that hook, drops the payload and
-- keeps the id, and closing it again changes nothing and runs nothing.
pub close_once :
    (s : Session) (fn : ℕ)
    → s.close_fn ≡ some fn
    → s.closed ≡ false
    → ((close s).1 ≡ some fn)
      × ((close s).0.app ≡ none)
      × ((close s).0.id ≡ s.id)
      × (close (close s).0 ≡ ((close s).0, none))
unfolding close
close_once s fn e f = ground arith
