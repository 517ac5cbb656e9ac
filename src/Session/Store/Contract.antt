-- ===== src/Session/Store/Contract.antt =====
-- internal/session/store.go: the interface Store as calls and replies, memStore's answers to a
-- sequence of calls, and the table that the interface stands for. The table has no lists, nodes or
-- entries: it is what is found under an id, and how many sessions there are. Ids do not change
-- while a session is stored, so one heap serves a sequence of calls.
use tablex.Common.{
  [], ℕ, suc, ◌-◌, ◌≤◌, ◌<◌, Bool, true, false, List, ◌∷◌, Option, none, some, ◌≡◌, ◌≢◌, ◌↔◌, Elem,
  Str, str_eq, length, ite, if◌then◌else◌,
}
use tablex.Common.Maps.{lookup}
use tablex.Session.{Session}
use tablex.Session.Store.{MemStore, noticed, get, len, save, replace, delete_session, reap}

pub data Call : Type 0 where
  gets : Str → Call
  saves : ℕ → Call
  deletes : Str → Call
  replaces : ℕ → ℕ → Call
  reaps : (ℕ → Bool) → Call
  lens : Call

-- `evicted`: what Save has closed, and the ids that onEvict was called with.
pub data Reply : Type 0 where
  found : Option ℕ → Reply
  evicted : Option ℕ → List Str → Reply
  deleted : Reply
  swapped : Bool → Reply
  reaped : List ℕ → Reply
  counted : ℕ → Reply

module _ (heap : ℕ → Session) (cap : ℕ) (hook : Bool) where
  unfoldable pub answer : MemStore → Call → MemStore × Reply
  unfolding get len save replace delete_session reap
  answer m (gets id) = (m, found (get m id))
  answer m (saves p) =
      let (t, victim) = save heap cap m p in (t, evicted victim (noticed heap hook victim))
  answer m (deletes id) = (delete_session m id, deleted)
  answer m (replaces old new) = let (t, ok) = replace heap m old new in (t, swapped ok)
  answer m (reaps expired) = let (t, dead) = reap expired m in (t, reaped dead)
  answer m lens = (m, counted (len m))

  unfoldable pub answers : MemStore → List Call → MemStore × List Reply
  unfolding answer
  answers m [] = (m, [])
  answers m (c ∷ cs) = let (t, r) = answer m c in let (u, rs) = answers t cs in (u, r ∷ rs)

pub record Table : Type 0 where
  pub at : Str → Option ℕ
  pub count : ℕ

unfoldable pub view : MemStore → Table
unfolding lookup
view m = record { at = λ i. lookup i m.sessions; count = length m.sessions }

abbrev pub held : Option ℕ → ℕ
held none = 0
held (some _) = 1

abbrev pub live : (ℕ → Bool) → Option ℕ → Option ℕ
live expired none = none
live expired (some q) = if expired q then none else some q

unfoldable pub drop : Str → Table → Table
unfolding str_eq
drop id s = record { at = λ i. ite (str_eq id i) none (s.at i); count = s.count - held (s.at id) }

unfoldable pub put : Str → ℕ → Table → Table
unfolding str_eq
put id p s = record {
  at = λ i. ite (str_eq id i) (some p) (s.at i);
  count = suc (s.count - held (s.at id));
}

unfoldable pub sweep : (ℕ → Bool) → ℕ → Table → Table
sweep expired n s = record { at = λ i. live expired (s.at i); count = s.count - n }

-- What the interface promises of one call: the table before it, its reply, and the table after it.
module _ (heap : ℕ → Session) (cap : ℕ) (hook : Bool) where
  pub data Promise (s t : Table) : Call → Reply → Type 0 where
    get_found : (id : Str) → t ≡ s → Promise s t (gets id) (found (s.at id))
    len_counted : t ≡ s → Promise s t lens (counted s.count)
    delete_drops : (id : Str) → t ≡ drop id s → Promise s t (deletes id) deleted
    save_again :
        (p q : ℕ)
        → s.at (heap p).id ≡ some q
        → t ≡ put (heap p).id p s
        → Promise s t (saves p) (evicted none [])
    save_new :
        (p : ℕ)
        → s.at (heap p).id ≡ none
        → s.count < cap
        → t ≡ put (heap p).id p s
        → Promise s t (saves p) (evicted none [])
    save_evicts :
        (p q : ℕ)
        → s.at (heap p).id ≡ none
        → cap ≤ s.count
        → s.at (heap q).id ≡ some q
        → t ≡ put (heap p).id p (drop (heap q).id s)
        → Promise s t (saves p) (evicted (some q) (if hook then (heap q).id ∷ [] else []))
    replace_swaps :
        (old new : ℕ)
        → s.at (heap old).id ≡ some old
        → t ≡ put (heap new).id new (drop (heap old).id s)
        → Promise s t (replaces old new) (swapped true)
    replace_refuses :
        (old new : ℕ)
        → s.at (heap old).id ≢ some old
        → t ≡ s
        → Promise s t (replaces old new) (swapped false)
    reap_sweeps :
        (expired : ℕ → Bool) (dead : List ℕ)
        → ((q : ℕ) → Elem q dead ↔ ((i : Str) × (s.at i ≡ some q) × (expired q ≡ true)))
        → t ≡ sweep expired (length dead) s
        → Promise s t (reaps expired) (reaped dead)

  -- A sequence of calls, each as the interface promises.
  pub data Promises (t : Table) : Table → List Call → List Reply → Type 0 where
    done : (s : Table) → t ≡ s → Promises t s [] []
    call :
        (s u : Table) (c : Call) (r : Reply) (cs : List Call) (rs : List Reply)
        → Promise s u c r
        → Promises t u cs rs
        → Promises t s (c ∷ cs) (r ∷ rs)
