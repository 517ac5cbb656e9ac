-- ===== src/Session/Tests.antt =====
-- internal/session: the theorems at concrete sessions and stores.
use tablex.Common.{
  [], ◌∷◌, List, ℕ, ◌<◌, Bool, true, false, Elem, ◌⊎◌, none, some, ◌≡◌, ◌≢◌, refl, sym, ◌∙◌, arith,
  Str, bytes, str_eq, if◌then◌else◌, ◌==◌,
}
use tablex.Common.Maps.{lookup}
use tablex.Session.{Session, no_sso, consume_sso_handshake, close}
use tablex.Session.Store.{
  Bucket, Node, MemStore, empty_store, save, replace, bucket, pre_auth, auth,
}
use tablex.Session.Store.Invariant.{Inv}
use tablex.Session.Store.Steps.{Saved, save-Saved, Replaced, replace_cases}
use tablex.Session.Store.Contract.{
  Call, saves, gets, replaces, reaps, lens, deletes, evicted, found, swapped, reaped, counted,
  deleted, answers,
}
use tablex.Session.Store.Refines.{Refines, answers-Refines}
use tablex.Session.Store.Kept.{IsConsistent}
use tablex.Session.Handshake.{consume_sso_handshake_once, close_once}
use tablex.Session.Manager.{Config, World, clear_cookie, destroy}
use tablex.Session.Manager.Load.{LoadOutcome, load_cases, destroy_lem}
use tablex.Session.Manager.Login.{IsSound, AuthenticateOutcome, authenticate_cases}

-- A handshake that waits for its callback, and a login with a payload and a close hook.
abbrev waiting : Session
waiting = record {
  id = bytes "a";
  csrf = bytes "c";
  created = 1;
  last_seen = 1;
  app = none;
  close_fn = none;
  closed = false;
  sso = record no_sso { state = bytes "st"; nonce = bytes "n"; subject = bytes "me" };
}

abbrev working : Session
working = record waiting { id = bytes "b"; app = some 7; close_fn = some 9; last_seen = 4 }

abbrev heap : ℕ → Session
heap p = if p == 0 then waiting else working

no_node : (b : Bucket) (n : Node) → ¬ Elem n (bucket empty_store b)
no_node pre_auth n h = h
no_node auth n h = h

empty-Inv : Inv heap empty_store
unfolding lookup
empty-Inv = record {
  single = λ i p e. absurd e;
  named = λ i p h. absurd (let z : none ≡ some p = h in cc);
  entered = λ i p h. absurd (let z : none ≡ some p = h in cc);
  listed = λ b n h. absurd (no_node b n h);
  owned = λ i e h. absurd (let z : none ≡ some e = h in cc);
  apart = λ i j e f h. absurd (let z : none ≡ some e = h in cc);
  below = λ i e h. absurd (let z : none ≡ some e = h in cc);
  bare = λ n h. absurd h;
}

-- The store with one session, and with both.
abbrev one : MemStore
one = (save heap 2 empty_store 0).0

one-Saved : Saved heap 2 empty_store 0 one
one-Saved = save-Saved heap 2 empty_store 0 empty-Inv

abbrev both : MemStore
both = (save heap 2 one 1).0

save-Saved_example : Saved heap 2 one 1 (save heap 2 one 1).0
save-Saved_example = save-Saved heap 2 one 1 one-Saved.inv

both-Saved : Saved heap 2 one 1 both
both-Saved = save-Saved heap 2 one 1 one-Saved.inv

replace_cases_example :
    ((lookup (bytes "a") one.sessions ≡ some 0)
      × ((replace heap one 0 1).1 ≡ true)
      × Replaced heap one 0 1 (replace heap one 0 1).0)
    ⊎ ((lookup (bytes "a") one.sessions ≢ some 0) × (replace heap one 0 1 ≡ (one, false)))
replace_cases_example = replace_cases heap one 0 1 one-Saved.inv

empty-IsConsistent : IsConsistent heap empty_store
empty-IsConsistent = record { inv = empty-Inv; thin = tt }

-- A session, one that evicts it, what is found then, a Replace of the one that is gone, and Reap.
abbrev calls : List Call
calls =
    saves 0
    ∷ saves 1
    ∷ gets (bytes "a")
    ∷ replaces 0 1
    ∷ replaces 1 0
    ∷ reaps (λ p. p == 0)
    ∷ lens
    ∷ deletes (bytes "b")
    ∷ []

answers-Refines_example :
    Refines heap 1 true empty_store calls (answers heap 1 true empty_store calls)
answers-Refines_example =
    answers-Refines heap 1 true empty_store calls (omega arith) empty-IsConsistent

calls_replies :
    (answers heap 1 true empty_store calls).1
    ≡ evicted none []
      ∷ evicted (some 0) (bytes "a" ∷ [])
      ∷ found none
      ∷ swapped false
      ∷ swapped true
      ∷ reaped (0 ∷ [])
      ∷ counted 0
      ∷ deleted
      ∷ []
unfolding answers
calls_replies = refl

one-allocated : (i : Str) (p : ℕ) → lookup i one.sessions ≡ some p → p < 1
unfolding lookup
one-allocated i p h = elim (str_eq (bytes "a") i) [
  | yes e ↦ let z : some 0 ≡ some p = sym one-Saved.found ∙ (rw (← e) at h) in ground arith
  | no ne ↦ absurd (let z : none ≡ some p = one-Saved.others i p (λ e. ne (sym e)) h in cc)
]

-- The world before a login: the pre-auth session is stored.
abbrev world : World
world = record { heap = heap; next_ptr = 1; store = one; ran = [] }

world-IsSound : IsSound world
world-IsSound = record { inv = one-Saved.inv; allocated = one-allocated }

authenticate_cases_example :
    AuthenticateOutcome 5 (bytes "new") (bytes "t") (some 3) (some 4) world 0
authenticate_cases_example =
    authenticate_cases 5 (bytes "new") (bytes "t") (some 3) (some 4) world 0 world-IsSound
      (omega arith)

abbrev config : Config
config = record {
  cookie_name = bytes "sid";
  idle_timeout = 10;
  absolute_timeout = 100;
  secure = true;
}

load_cases_example : LoadOutcome config 5 world (bytes "a")
load_cases_example = load_cases config 5 world (bytes "a") world-IsSound

destroy_lem_example :
    IsSound (destroy world (some 0)).0
    × (lookup (bytes "a") (destroy world (some 0)).0.store.sessions ≡ none)
    × ((destroy world (some 0)).1 ≡ clear_cookie)
    × ((destroy world none).1 ≡ clear_cookie)
destroy_lem_example = destroy_lem world 0 world-IsSound

abbrev matches : Str → Bool
matches w = true

consume_sso_handshake_once_example :
    ((consume_sso_handshake matches waiting).1
      ≡ some (record { state = bytes "st"; nonce = bytes "n"; verifier = [] }))
    × ((consume_sso_handshake matches waiting).0
      ≡ record waiting {
        sso = record no_sso { subject = bytes "me" };
      })
    × ((later : Str → Bool)
        → consume_sso_handshake later (consume_sso_handshake matches waiting).0
          ≡ ((consume_sso_handshake matches waiting).0, none))
consume_sso_handshake_once_example = consume_sso_handshake_once waiting matches (λ e. cc) refl

close_once_example :
    ((close working).1 ≡ some 9)
    × ((close working).0.app ≡ none)
    × ((close working).0.id ≡ bytes "b")
    × (close (close working).0 ≡ ((close working).0, none))
close_once_example = close_once working 9 refl refl
