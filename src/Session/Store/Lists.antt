-- ===== src/Session/Store/Lists.antt =====
-- internal/session/store.go: the two FIFO lists of memStore.
use tablex.Common.{[], ℕ, List, ◌∷◌, ◌≡◌, ◌≢◌, ◌⊎◌, inl, inr, refl, Elem, ℕ_discrete, ite}
use mathlib.Core.Logic.{if_neg}
use tablex.Session.Store.{
  Node, Bucket, pre_auth, auth, ListEntry, MemStore, bucket, remove, remove_from,
}

pub Elem-remove :
    (n : Node) (el : ℕ) (ns : List Node) → Elem n (remove el ns) → Elem n ns × (n.node ≢ el)
unfolding remove
Elem-remove n el [] = λ e. absurd e
Elem-remove n el (x ∷ ns) =
    elim (ℕ_discrete x.node el)
      as (λ d. Elem n (ite d (remove el ns) (x ∷ remove el ns)) → Elem n (x ∷ ns) × (n.node ≢ el)) [
        | yes _ ↦ λ e. let ih = Elem-remove n el ns e in (inr ih.0, ih.1)
        | no ne ↦ elim [
          | inl same ↦ (inl same, rw (← same) ne)
          | inr e ↦ let ih = Elem-remove n el ns e in (inr ih.0, ih.1)
        ]
      ]

pub Elem-remove_ne :
    (n : Node) (el : ℕ) (ns : List Node) → Elem n ns → n.node ≢ el → Elem n (remove el ns)
unfolding remove
Elem-remove_ne n el [] e ne = absurd e
Elem-remove_ne n el (x ∷ ns) (inl same) ne =
    let ne' : x.node ≢ el = rw same ne in rw (if_neg _ ne') (inl same)
Elem-remove_ne n el (x ∷ ns) (inr e) ne =
    let ih = Elem-remove_ne n el ns e ne in
    elim (ℕ_discrete x.node el) as (λ d. Elem n (ite d (remove el ns) (x ∷ remove el ns))) [
      | yes _ ↦ ih
      | no _ ↦ inr ih
    ]

-- What `remove_from` leaves in either list.
pub Elem-remove_from :
    (m : MemStore) (e : ListEntry) (b : Bucket) (n : Node)
    → Elem n (bucket (remove_from m e) b)
    → Elem n (bucket m b) × ((b ≢ e.l) ⊎ (n.node ≢ e.el))
Elem-remove_from m e = go e.l
  where
    go :
        (l b : Bucket) (n : Node)
        → Elem n (bucket (remove_from m (record { el = e.el; l = l })) b)
        → Elem n (bucket m b) × ((b ≢ l) ⊎ (n.node ≢ e.el))
    go pre_auth pre_auth n h = let r = Elem-remove n e.el m.pre_auth h in (r.0, inr r.1)
    go pre_auth auth n h = (h, inl (λ x. cc))
    go auth pre_auth n h = (h, inl (λ x. cc))
    go auth auth n h = let r = Elem-remove n e.el m.auth h in (r.0, inr r.1)

pub Elem-remove_from_ne :
    (m : MemStore) (e : ListEntry) (b : Bucket) (n : Node)
    → Elem n (bucket m b)
    → n.node ≢ e.el
    → Elem n (bucket (remove_from m e) b)
Elem-remove_from_ne m e = go e.l
  where
    go :
        (l b : Bucket) (n : Node)
        → Elem n (bucket m b)
        → n.node ≢ e.el
        → Elem n (bucket (remove_from m (record { el = e.el; l = l })) b)
    go pre_auth pre_auth n h ne = Elem-remove_ne n e.el m.pre_auth h ne
    go pre_auth auth n h ne = h
    go auth pre_auth n h ne = h
    go auth auth n h ne = Elem-remove_ne n e.el m.auth h ne

pub remove_from_keeps :
    (m : MemStore) (e : ListEntry)
    → ((remove_from m e).sessions ≡ m.sessions)
      × ((remove_from m e).entries ≡ m.entries)
      × ((remove_from m e).next_node ≡ m.next_node)
remove_from_keeps m e = go e.l
  where
    go :
        (l : Bucket)
        → let r = remove_from m (record { el = e.el; l = l }) in
          (r.sessions ≡ m.sessions) × (r.entries ≡ m.entries) × (r.next_node ≡ m.next_node)
    go pre_auth = (refl, refl, refl)
    go auth = (refl, refl, refl)
