-- ===== src/Base/Assoc.antt =====
-- A Go map as an association list. A range over the map visits the entries in the list's order.
-- Nothing is assumed of that order, so what is proved for every list holds for every order.
use mathlib.Core.Path.{◌≡◌, refl}
use mathlib.Core.List.{List, [], ◌∷◌}
use mathlib.Core.Option.{Option, none, some}
use native.Mathlib.Omega.{arith}
use mathlib.Core.Bool.{true, false}
use torua.Base.Tests.{if◌then◌else◌}
use torua.Base.Eq.{Comparable, ◌==◌}

abbrev pub Map {ℓ κ} : Type ℓ → Type κ → Type (ℓ ⊔ κ)
Map K V = List (K × V)

module _ {ℓ κ} {K : Type ℓ} {V : Type κ} ⦃e : Comparable K⦄ where
  -- `m[k]`, and `none` where the key is missing
  unfoldable pub get : Map K V → K → Option V
  get [] k = none
  get ((j, v) ∷ m) k = if j == k then some v else get m k

  -- `m[k] = v`
  unfoldable pub put : Map K V → K → V → Map K V
  put [] k v = (k, v) ∷ []
  put ((j, w) ∷ m) k v = let rest = put m k v in if j == k then (k, v) ∷ m else (j, w) ∷ rest

  -- `delete(m, k)`
  unfoldable pub remove : Map K V → K → Map K V
  remove [] k = []
  remove ((j, w) ∷ m) k = let rest = remove m k in if j == k then rest else (j, w) ∷ rest

  pub get-put :
      (m : Map K V) (k j : K) (v : V) → get (put m k v) j ≡ (if k == j then some v else get m j)
  unfolding get put
  get-put [] k j v = refl
  get-put ((i, w) ∷ m) k j v =
      ground (arith, e.same_iff k j, e.same_iff i k, e.same_iff i j, get-put m k j v)

  pub get-remove : (m : Map K V) (k j : K) → get (remove m k) j ≡ (if k == j then none else get m j)
  unfolding get remove
  get-remove [] k j = ground arith
  get-remove ((i, w) ∷ m) k j =
      ground (arith, e.same_iff k j, e.same_iff i k, e.same_iff i j, get-remove m k j)

  -- No key stands twice.
  abbrev pub IsMap : Map K V → Type κ
  IsMap [] = Unit
  IsMap ((k, v) ∷ m) = (get m k ≡ none) × IsMap m

  pub put-IsMap : (m : Map K V) (k : K) (v : V) → IsMap m → IsMap (put m k v)
  unfolding get put
  put-IsMap [] k v h = (refl, tt)
  put-IsMap ((j, w) ∷ m) k v h =
      ground (arith, e.same_iff j k, e.same_iff k j, put-IsMap m k v h.1, get-put m k j v)

  pub remove-IsMap : (m : Map K V) (k : K) → IsMap m → IsMap (remove m k)
  unfolding get remove
  remove-IsMap [] k h = tt
  remove-IsMap ((j, w) ∷ m) k h =
      ground (arith, e.same_iff j k, e.same_iff k j, remove-IsMap m k h.1, get-remove m k j)

  pub put-put : (m : Map K V) (k : K) (v w : V) → put (put m k v) k w ≡ put m k w
  unfolding put
  put-put [] k v w = ground (arith, e.same_iff k k)
  put-put ((j, u) ∷ m) k v w = ground (arith, e.same_iff k k, e.same_iff j k, put-put m k v w)

  pub get-put_own : (m : Map K V) (k j : K) (v : V) → (k == j) ≡ true → get (put m k v) j ≡ some v
  get-put_own m k j v h = ground (arith, get-put m k j v, h)

  pub get-put_away :
      (m : Map K V) (k j : K) (v : V) → (k == j) ≡ false → get (put m k v) j ≡ get m j
  get-put_away m k j v h = ground (arith, get-put m k j v, h)
