-- ===== src/Base/Unordered.antt =====
-- What a Go map holds, whatever the order of its range: association lists without
-- repeated keys, up to the order of their entries.
use mathlib.Core.Path.{◌≡◌, refl, sym, ◌∙◌, subst}
use mathlib.Core.List.{List, [], ◌∷◌, Perm}
use mathlib.Core.List.Perm
use mathlib.Core.Bool.{true, false}
use mathlib.Core.Logic.{inl, inr}
use mathlib.Core.Option.{none, some}
use native.Mathlib.Omega.{arith}
use torua.Base.Tests.{Bool-cases}
use torua.Base.Eq.{Comparable, ◌==◌}
use torua.Base.Assoc.{Map, get, remove, get-remove, remove-IsMap, IsMap}

same-Perm {ℓ} : {A : Type ℓ} {l n : List A} → l ≡ n → Perm l n
same-Perm {l = l} e = subst (Perm l) e (Perm.refl l)

module _ {ℓ κ} {K : Type ℓ} {V : Type κ} ⦃e : Comparable K⦄ where
  get-[] : (m : Map K V) → ((k : K) → get m k ≡ none) → m ≡ []
  unfolding get
  get-[] [] h = refl
  get-[] ((k, v) ∷ m) h = ground (arith, h k, e.same_iff k k)

  remove_fresh : (m : Map K V) (k : K) → get m k ≡ none → remove m k ≡ m
  unfolding get remove
  remove_fresh [] k h = refl
  remove_fresh ((j, w) ∷ m) k h = ground (arith, remove_fresh m k)

  remove_here :
      (m : Map K V) (j k : K) (w v : V)
      → get m j ≡ none
      → get ((j, w) ∷ m) k ≡ some v
      → (j == k) ≡ true
      → (j, w) ∷ m ≡ (k, v) ∷ remove ((j, w) ∷ m) k
  unfolding get remove
  remove_here m j k w v f h t = ground (arith, e.same_iff j k, remove_fresh m k)

  get_there : (m : Map K V) (j k : K) (w : V) → (j == k) ≡ false → get ((j, w) ∷ m) k ≡ get m k
  unfolding get
  get_there m j k w t = ground arith

  remove_there :
      (m : Map K V) (j k : K) (w : V)
      → (j == k) ≡ false
      → remove ((j, w) ∷ m) k ≡ (j, w) ∷ remove m k
  unfolding remove
  remove_there m j k w t = ground arith

  -- The entry of a key, taken out and put first.
  remove-Perm :
      (m : Map K V) (k : K) (v : V) → IsMap m → get m k ≡ some v → Perm m ((k, v) ∷ remove m k)
  unfolding get
  remove-Perm [] k v u h = cc
  remove-Perm ((j, w) ∷ m) k v u h = elim (Bool-cases (j == k)) [
    | inl t ↦ same-Perm (remove_here m j k w v u.0 h t)
    | inr t ↦ rw (remove_there m j k w t) (
        Perm.trans (Perm.cons (j, w) (remove-Perm m k v u.1 (sym (get_there m j k w t) ∙ h)))
          (Perm.swap (k, v) (j, w) (remove m k)))
  ]

  -- The rest of the entries, where the first is taken out of the other list.
  get_rest :
      (m n : Map K V) (k : K) (v : V)
      → get m k ≡ none
      → ((j : K) → get ((k, v) ∷ m) j ≡ get n j)
      → (j : K) → get m j ≡ get (remove n k) j
  unfolding get
  get_rest m n k v f h j = ground (arith, get-remove n k j, h j, e.same_iff k j)

  get_first :
      (m n : Map K V) (k : K) (v : V) → ((j : K) → get ((k, v) ∷ m) j ≡ get n j) → get n k ≡ some v
  unfolding get
  get_first m n k v h = ground (arith, h k, e.same_iff k k)

  pub same_entries-Perm :
      (m n : Map K V) → IsMap m → IsMap n → ((k : K) → get m k ≡ get n k) → Perm m n
  unfolding get
  same_entries-Perm [] n u w h = same-Perm (sym (get-[] n (λ k. sym (h k))))
  same_entries-Perm ((k, v) ∷ m) n u w h =
      Perm.trans
        (Perm.cons (k, v)
          (same_entries-Perm m (remove n k) u.1 (remove-IsMap n k w) (get_rest m n k v u.0 h)))
        (Perm.symm (remove-Perm n k v w (get_first m n k v h)))
