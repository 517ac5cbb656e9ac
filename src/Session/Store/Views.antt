-- ===== src/Session/Store/Views.antt =====
-- internal/session/store.go: the table that memStore stands for, after a removal and an insertion.
use tablex.Common.{ℕ, suc, ◌-◌, List, ◌≡◌, inl, inr, ap, arith, Str, Option-cases, length}
use tablex.Common.Maps.{
  lookup, delete, insert, lookup-delete, lookup-insert, delete_absent, IsThin, length-delete_found,
}
use tablex.Session.Store.{MemStore}
use tablex.Session.Store.Contract.{Table, view, held, drop, put}

pub Table-ext : (a b : Table) → ((id : Str) → a.at id ≡ b.at id) → a.count ≡ b.count → a ≡ b
Table-ext a b h c = λ i. record { at = λ id. h id i; count = c i }

length-delete_held :
    (id : Str) (m : List (Str × ℕ))
    → IsThin m
    → length (delete id m) ≡ length m - held (lookup id m)
length-delete_held id m thin = elim (Option-cases (lookup id m)) [
  | inl e ↦ rw (e, delete_absent id m e) (omega arith)
  | inr (q, e) ↦ let n = length-delete_found id q m thin e in rw e (omega arith)
]

pub view_of : (m t : MemStore) → m.sessions ≡ t.sessions → view m ≡ view t
unfolding view
view_of m t e = Table-ext (view m) (view t) (λ i. ap (lookup i) e) (ap length e)

pub view-deleted :
    (id : Str) (m t : MemStore)
    → IsThin m.sessions
    → t.sessions ≡ delete id m.sessions
    → view t ≡ drop id (view m)
unfolding view drop
view-deleted id m t thin e =
    Table-ext (view t) (drop id (view m)) (λ i. rw e (lookup-delete i id m.sessions))
      (rw e (length-delete_held id m.sessions thin))

pub view-inserted :
    (id : Str) (p : ℕ) (m t : MemStore)
    → IsThin m.sessions
    → t.sessions ≡ insert id p m.sessions
    → view t ≡ put id p (view m)
unfolding view put insert
view-inserted id p m t thin e =
    Table-ext (view t) (put id p (view m)) (λ i. rw e (lookup-insert i id p m.sessions))
      (rw e (ap suc (length-delete_held id m.sessions thin)))
