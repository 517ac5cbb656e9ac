-- ===== src/Session/Store.antt =====
-- internal/session/store.go: memStore. A pointer to a session is a number into the heap; an
-- element of the two FIFO lists is a node with an identity of its own. Every operation holds the
-- store's lock throughout, so it is one step. `cap` is maxSessions.
pub mod Lists
pub mod Invariant
pub mod Push
pub mod Room
pub mod Steps
pub mod Reap
pub mod Contract
pub mod Views
pub mod Kept
pub mod Swept
pub mod Refines
use tablex.Common.{
  [], ℕ, suc, Bool, true, false, List, ◌∷◌, ◌++◌, Option, none, some, if◌then◌else◌, leb, Str,
  length, ite, ℕ_discrete,
}
use tablex.Common.Maps.{lookup, delete, insert}
use tablex.Session.{Session}

abbrev pub max_sessions : ℕ
max_sessions = 10_000

pub record Node : Type 0 where
  pub node : ℕ
  pub ptr : ℕ

pub data Bucket : Type 0 where
  pre_auth auth : Bucket

-- `listEntry`: the element and the list that it stands in.
pub record ListEntry : Type 0 where
  pub el : ℕ
  pub l : Bucket

pub record MemStore : Type 0 where
  pub sessions : List (Str × ℕ)
  pub entries : List (Str × ListEntry)
  pub pre_auth : List Node
  pub auth : List Node
  pub next_node : ℕ

abbrev pub empty_store : MemStore
empty_store = record { sessions = []; entries = []; pre_auth = []; auth = []; next_node = 0 }

-- Get and Len, under the read lock.
unfoldable pub get : MemStore → Str → Option ℕ
unfolding lookup
get m id = lookup id m.sessions

unfoldable pub len : MemStore → ℕ
len m = length m.sessions

abbrev pub bucket : MemStore → Bucket → List Node
bucket m pre_auth = m.pre_auth
bucket m auth = m.auth

-- `list.Remove`: an element stands in its list once.
unfoldable pub remove : ℕ → List Node → List Node
unfolding ℕ_discrete
remove el [] = []
remove el (n ∷ ns) = ite (ℕ_discrete n.node el) (remove el ns) (n ∷ remove el ns)

abbrev pub remove_from : MemStore → ListEntry → MemStore
remove_from m e = elim e.l [
  | pre_auth ↦ record m { pre_auth = remove e.el m.pre_auth }
  | auth ↦ record m { auth = remove e.el m.auth }
]

pub detach : MemStore → Str → MemStore
unfolding lookup delete remove
detach m id = elim (lookup id m.entries) [
  | none ↦ m
  | some e ↦ record (remove_from m e) { entries = delete id m.entries }
]

-- `l.PushBack(s)` and the writes of both maps, at the end of Save and of Replace.
pub push : MemStore → Str → ℕ → Bucket → MemStore
unfolding insert
push m id p pre_auth = record m {
  sessions = insert id p m.sessions;
  entries = insert id (record { el = m.next_node; l = Bucket.pre_auth }) m.entries;
  pre_auth = m.pre_auth ++ (record { node = m.next_node; ptr = p } ∷ []);
  next_node = suc m.next_node;
}
push m id p auth = record m {
  sessions = insert id p m.sessions;
  entries = insert id (record { el = m.next_node; l = Bucket.auth }) m.entries;
  auth = m.auth ++ (record { node = m.next_node; ptr = p } ∷ []);
  next_node = suc m.next_node;
}

unfoldable pub delete_session : MemStore → Str → MemStore
unfolding detach
delete_session m id = detach (record m { sessions = delete id m.sessions }) id

abbrev pub bucket_of : Option ℕ → Bucket
bucket_of none = pre_auth
bucket_of (some _) = auth

module _ (heap : ℕ → Session) where
  -- `evictOldestLocked` on the first node of a list.
  pub evict_node : MemStore → Node → MemStore
  unfolding detach
  evict_node m n =
      let id = (heap n.ptr).id in
      let d = detach m id in record d { sessions = delete id d.sessions }

  pub evict_oldest : MemStore → MemStore × Option ℕ
  unfolding evict_node
  evict_oldest m = elim m.pre_auth [
    | n ∷ _ ↦ (evict_node m n, some n.ptr)
    | [] ↦ elim m.auth [ n ∷ _ ↦ (evict_node m n, some n.ptr) | [] ↦ (m, none) ]
  ]

  -- Room for a session with this id: the store and the victim.
  pub make_room : ℕ → MemStore → Str → MemStore × Option ℕ
  unfolding lookup detach evict_oldest
  make_room cap m id = elim (lookup id m.sessions) [
    | some _ ↦ (detach m id, none)
    | none ↦ if leb cap (length m.sessions) then evict_oldest m else (m, none)
  ]

  -- The victim is closed by the caller, once the lock is released.
  unfoldable pub save : ℕ → MemStore → ℕ → MemStore × Option ℕ
  unfolding make_room push
  save cap m p =
      let (room, victim) = make_room cap m (heap p).id in
      (push room (heap p).id p (bucket_of (heap p).app), victim)

  -- The calls of onEvict, if it is set, during a Save: under the lock, with the victim's id.
  abbrev pub noticed : Bool → Option ℕ → List Str
  noticed hook none = []
  noticed hook (some p) = if hook then (heap p).id ∷ [] else []

  pub replace_member : MemStore → ℕ → ℕ → MemStore
  unfolding detach push
  replace_member m old new =
      let gone = record m { sessions = delete (heap old).id m.sessions } in
      push (detach (detach gone (heap old).id) (heap new).id) (heap new).id new auth

  unfoldable pub replace : MemStore → ℕ → ℕ → MemStore × Bool
  unfolding replace_member lookup
  replace m old new = elim (lookup (heap old).id m.sessions) [
    | none ↦ (m, false)
    | some cur ↦ ite (ℕ_discrete cur old) (replace_member m old new, true) (m, false)
  ]

-- `Reap` over the pairs of the map, in any order: the store and the removed sessions.
pub reap_each : (ℕ → Bool) → List (Str × ℕ) → MemStore → MemStore × List ℕ
unfolding delete_session
reap_each expired [] m = (m, [])
reap_each expired ((id, p) ∷ rest) m =
    let (m', dead) = reap_each expired rest (if expired p then delete_session m id else m) in
    (m', if expired p then p ∷ dead else dead)

unfoldable pub reap : (ℕ → Bool) → MemStore → MemStore × List ℕ
unfolding reap_each
reap expired m = reap_each expired m.sessions m
