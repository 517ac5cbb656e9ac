-- ===== src/Common/Maps.antt =====
-- A Go map with string keys as an association list with at most one pair for a key.
use Prim.Native.Nat.{suc, ◌+◌, ◌≤◌, ◌<◌}
use mathlib.Core.List.{[], List, ◌∷◌}
use mathlib.Core.Logic.{ite, ◌≢◌, inl, inr}
use mathlib.Core.Option.{Option, none, some}
use mathlib.Core.Path.{◌≡◌, refl, ap, ap₂, sym, ◌∙◌}
use native.Mathlib.Omega.{arith}
use tablex.Common.Lists.{length, Elem}
use tablex.Common.Strs.{Str, str_eq}

module _ {V : Type 0} where
  unfoldable pub lookup : Str → List (Str × V) → Option V
  unfolding str_eq
  lookup k [] = none
  lookup k ((j, v) ∷ m) = ite (str_eq j k) (some v) (lookup k m)

  unfoldable pub delete : Str → List (Str × V) → List (Str × V)
  unfolding str_eq
  delete k [] = []
  delete k ((j, v) ∷ m) = ite (str_eq j k) (delete k m) ((j, v) ∷ delete k m)

  unfoldable pub insert : Str → V → List (Str × V) → List (Str × V)
  unfolding delete
  insert k v m = (k, v) ∷ delete k m

  pub lookup-delete :
      (j k : Str) (m : List (Str × V)) → lookup j (delete k m) ≡ ite (str_eq k j) none (lookup j m)
  unfolding lookup delete
  lookup-delete j k [] = ground arith
  lookup-delete j k ((i, v) ∷ m) = ground (arith, lookup-delete j k m)

  pub lookup-insert :
      (j k : Str) (v : V) (m : List (Str × V))
      → lookup j (insert k v m) ≡ ite (str_eq k j) (some v) (lookup j m)
  unfolding lookup insert
  lookup-insert j k v m = ground (arith, lookup-delete j k m)

  pub length-delete-le : (k : Str) (m : List (Str × V)) → length (delete k m) ≤ length m
  unfolding delete
  length-delete-le k [] = omega arith
  length-delete-le k ((i, v) ∷ m) = ground (arith, length-delete-le k m)

  pub length-delete-lt :
      (k : Str) (v : V) (m : List (Str × V)) → lookup k m ≡ some v → length (delete k m) < length m
  unfolding lookup delete
  length-delete-lt k v [] h = cc
  length-delete-lt k v ((i, w) ∷ m) h = ground (arith, length-delete-lt k v m, length-delete-le k m)

  pub delete-delete : (k : Str) (m : List (Str × V)) → delete k (delete k m) ≡ delete k m
  unfolding delete
  delete-delete k [] = refl
  delete-delete k ((i, w) ∷ m) = ground (arith, delete-delete k m)

  pub length-insert : (k : Str) (v : V) (m : List (Str × V)) → length (insert k v m) ≤ length m + 1
  unfolding insert
  length-insert k v m = omega (arith, length-delete-le k m)

  pub delete_absent : (k : Str) (m : List (Str × V)) → lookup k m ≡ none → delete k m ≡ m
  unfolding lookup delete
  delete_absent k [] h = refl
  delete_absent k ((i, w) ∷ m) h = ground (arith, delete_absent k m)

  pub insert-delete :
      (k : Str) (v : V) (m : List (Str × V)) → insert k v (delete k m) ≡ insert k v m
  unfolding insert
  insert-delete k v m = ap (◌∷◌ (k, v)) (delete-delete k m)

  -- The pairs of the list are those that a lookup finds: one for a key.
  abbrev pub IsMap : List (Str × V) → Type 0
  IsMap m = (i : Str) (v : V) → Elem (i, v) m → lookup i m ≡ some v

  pub Elem-delete :
      (i k : Str) (v : V) (m : List (Str × V)) → Elem (i, v) (delete k m) → Elem (i, v) m × (k ≢ i)
  unfolding delete
  Elem-delete i k v [] = λ e. absurd e
  Elem-delete i k v ((j, w) ∷ m) =
      elim (str_eq j k)
        as (λ d.
          Elem (i, v) (ite d (delete k m) ((j, w) ∷ delete k m))
          → Elem (i, v) ((j, w) ∷ m) × (k ≢ i)) [
            | yes _ ↦ λ e. let ih = Elem-delete i k v m e in (inr ih.0, ih.1)
            | no ne ↦ elim [
              | inl same ↦ (inl same, λ x. ne (ap (λ p. p.0) same ∙ sym x))
              | inr e ↦ let ih = Elem-delete i k v m e in (inr ih.0, ih.1)
            ]
          ]

  pub delete-IsMap : (k : Str) (m : List (Str × V)) → IsMap m → IsMap (delete k m)
  delete-IsMap k m h i v e =
      let (was, ne) = Elem-delete i k v m e in
      let found = h i v was in let l = lookup-delete i k m in ground arith

  pub insert-IsMap : (k : Str) (w : V) (m : List (Str × V)) → IsMap m → IsMap (insert k w m)
  unfolding insert
  insert-IsMap k w m h i v (inl same) =
      let l = lookup-insert i k w m in
      let ek : k ≡ i = ap (λ p. p.0) same in let ew : w ≡ v = ap (λ p. p.1) same in ground arith
  insert-IsMap k w m h i v (inr e) =
      let (was, ne) = Elem-delete i k v m e in
      let found = h i v was in let l = lookup-insert i k w m in ground arith

  -- No key twice: then a deletion takes one pair.
  abbrev pub IsThin : List (Str × V) → Type 0
  IsThin [] = Unit
  IsThin ((k, v) ∷ m) = (lookup k m ≡ none) × IsThin m

  pub delete-IsThin : (k : Str) (m : List (Str × V)) → IsThin m → IsThin (delete k m)
  unfolding delete
  delete-IsThin k [] h = h
  delete-IsThin k ((i, w) ∷ m) h = elim (str_eq i k) [
    | yes e ↦ ground (arith, delete-IsThin k m h.1)
    | no ne ↦
        let l = lookup-delete i k m in
        let r = delete-IsThin k m h.1 in
        let n : lookup i (delete k m) ≡ none = let a = h.0 in ground arith in ground arith
  ]

  pub insert-IsThin : (k : Str) (v : V) (m : List (Str × V)) → IsThin m → IsThin (insert k v m)
  unfolding insert
  insert-IsThin k v m h =
      let l = lookup-delete k k m in
      let n : lookup k (delete k m) ≡ none = ground arith in (n, delete-IsThin k m h)

  pub length-delete_found :
      (k : Str) (v : V) (m : List (Str × V))
      → IsThin m
      → lookup k m ≡ some v
      → suc (length (delete k m)) ≡ length m
  unfolding lookup delete
  length-delete_found k v [] h e = cc
  length-delete_found k v ((i, w) ∷ m) h e = elim (str_eq i k) [
    | yes same ↦
        let a : lookup k m ≡ none = rw same at h.0 in let d = delete_absent k m a in ground arith
    | no ne ↦
        let e' : lookup k m ≡ some v = ground arith in
        let r = length-delete_found k v m h.1 e' in ground arith
  ]

  pub lookup-Elem : (k : Str) (v : V) (m : List (Str × V)) → lookup k m ≡ some v → Elem (k, v) m
  unfolding lookup
  lookup-Elem k v [] e = cc
  lookup-Elem k v ((i, w) ∷ m) e = elim (str_eq i k) [
    | yes same ↦
        let ew : w ≡ v = ground arith in
        inl (ap₂ (λ (a : Str) (b : V). let y : Str × V = (a, b) in y) same ew)
    | no ne ↦ inr (lookup-Elem k v m (ground arith))
  ]

  pub IsThin-IsMap : (m : List (Str × V)) → IsThin m → IsMap m
  unfolding lookup
  IsThin-IsMap [] h i v e = absurd e
  IsThin-IsMap ((k, w) ∷ m) h i v (inl same) =
      let ek : k ≡ i = ap (λ p. p.0) same in let ew : w ≡ v = ap (λ p. p.1) same in ground arith
  IsThin-IsMap ((k, w) ∷ m) h i v (inr e) =
      let ih = IsThin-IsMap m h.1 i v e in let n = h.0 in ground arith
