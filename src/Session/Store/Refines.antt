-- ===== src/Session/Store/Refines.antt =====
-- internal/session/store.go: memStore answers every sequence of calls as the interface promises.
use tablex.Common.{[], Bool, ℕ, ◌<◌, List, ◌∷◌, refl}
use tablex.Session.{Session}
use tablex.Session.Store.{MemStore, get, len, delete_session}
use tablex.Session.Store.Contract.{
  Call, Reply, gets, saves, deletes, replaces, reaps, lens, answer, answers, view, Promise,
  Promises, done, call, get_found, len_counted, delete_drops,
}
use tablex.Session.Store.Kept.{
  IsConsistent, Promised, save-Promised, Swapped, replace-Swapped, delete_session-IsConsistent,
  delete_session_sessions,
}
use tablex.Session.Store.Steps.{save-Saved}
use tablex.Session.Store.Swept.{Removed, reap-Removed}
use tablex.Session.Store.Views.{view-deleted}

module _ (heap : ℕ → Session) (cap : ℕ) (hook : Bool) where
  Kept : MemStore → Call → MemStore × Reply → Type 0
  unfolding view
  Kept m c (t, r) = IsConsistent heap t × Promise heap cap hook (view m) (view t) c r

  answer-Kept :
      (m : MemStore) (c : Call)
      → 0 < cap
      → IsConsistent heap m
      → Kept m c (answer heap cap hook m c)
  unfolding Kept answer view get len Promised Swapped Removed
  answer-Kept m (gets id) pos v = (v, get_found id refl)
  answer-Kept m lens pos v = (v, len_counted refl)
  answer-Kept m (deletes id) pos v = (
    delete_session-IsConsistent heap m id v,
    delete_drops id
        (view-deleted id m (delete_session m id) v.thin (delete_session_sessions heap m id)),
  )
  answer-Kept m (saves p) pos v =
      let s = save-Promised heap cap hook m p pos v in
      (record { inv = (save-Saved heap cap m p v.inv).inv; thin = s.0 }, s.1)
  answer-Kept m (replaces old new) pos v = replace-Swapped heap cap hook m old new v
  answer-Kept m (reaps expired) pos v = let r = reap-Removed heap expired m v in (r.0, r.1 cap hook)

  unfoldable pub Refines : MemStore → List Call → MemStore × List Reply → Type 0
  unfolding view
  Refines m cs (t, rs) = IsConsistent heap t × Promises heap cap hook (view t) (view m) cs rs

  -- From a store whose parts agree, and with a cap above 0, memStore answers every sequence of
  -- calls with replies that the interface promises for the table, and ends in a store whose parts
  -- agree and whose table is the one promised.
  pub answers-Refines :
      (m : MemStore) (cs : List Call)
      → 0 < cap
      → IsConsistent heap m
      → Refines m cs (answers heap cap hook m cs)
  unfolding answers Refines Kept view
  answers-Refines m [] pos v = (v, done (view m) refl)
  answers-Refines m (c ∷ cs) pos v =
      let (t, r) = answer heap cap hook m c in
      let k = answer-Kept m c pos v in
      let rest = answers-Refines t cs pos k.0 in
      (rest.0, call (view m) (view t) c r cs (answers heap cap hook t cs).1 k.1 rest.1)
