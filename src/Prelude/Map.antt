-- ===== src/Prelude/Map.antt =====
-- A hash map as an association list: `get`, `insert`, `remove` and `retain`.
use Prim.Native.Nat.{ℕ, ◌+◌, ◌≤◌}
use mathlib.Core.Path.{◌≡◌, refl}
use mathlib.Core.Bool.{Bool, true, false}
use mathlib.Core.Option.{Option, none, some}
use mathlib.Core.List.{List, [], ◌∷◌}
use native.Mathlib.Omega.{arith}
use affinidi_keri_rs.Prelude.Tests.{PartialEq, ◌==◌, if◌then◌else◌}

module _ {ℓ κ} {K : Type ℓ} {V : Type κ} where
  -- `retain(|_, v| keep(v))`.
  unfoldable pub retain_values : (V → Bool) → List (K × V) → List (K × V)
  retain_values keep [] = []
  retain_values keep ((i, w) ∷ m) =
      let rest = retain_values keep m in if keep w then (i, w) ∷ rest else rest

  -- `for v in map.values_mut() { *v = f(v) }`.
  unfoldable pub map_values : (V → V) → List (K × V) → List (K × V)
  map_values f [] = []
  map_values f ((i, w) ∷ m) = (i, f w) ∷ map_values f m

  -- `map.values().map(size).sum()`.
  unfoldable pub sum_values : (V → ℕ) → List (K × V) → ℕ
  sum_values size [] = 0
  sum_values size ((i, w) ∷ m) = size w + sum_values size m

module _ {ℓ κ} {K : Type ℓ} {V : Type κ} ⦃e : PartialEq K⦄ where
  unfoldable pub find : List (K × V) → K → Option V
  find [] k = none
  find ((i, v) ∷ m) k = if k == i then some v else find m k

  unfoldable pub put : List (K × V) → K → V → List (K × V)
  put [] k v = (k, v) ∷ []
  put ((i, w) ∷ m) k v = let rest = put m k v in if k == i then (i, v) ∷ m else (i, w) ∷ rest

  unfoldable pub remove : List (K × V) → K → List (K × V)
  remove [] k = []
  remove ((i, w) ∷ m) k = let rest = remove m k in if k == i then rest else (i, w) ∷ rest

  unfoldable pub absent : List (K × V) → K → Bool
  unfolding find
  absent m k = elim (find m k) [ none ↦ true | some v ↦ false ]

  -- No key twice.
  abbrev pub Unique : List (K × V) → Type 0
  Unique [] = Unit
  Unique ((i, w) ∷ m) = (absent m i ≡ true) × Unique m

  pub find-put :
      (m : List (K × V)) (k : K) (v : V) (i : K)
      → find (put m k v) i ≡ (if i == k then some v else find m i)
  unfolding find put
  find-put [] k v i = ground arith
  find-put ((j, w) ∷ m) k v i =
      ground (arith, find-put m k v i, e.same_iff k j, e.same_iff i j, e.same_iff i k)

  pub find-remove :
      (m : List (K × V)) (k i : K) → find (remove m k) i ≡ (if i == k then none else find m i)
  unfolding find remove
  find-remove [] k i = ground arith
  find-remove ((j, w) ∷ m) k i =
      ground (arith, find-remove m k i, e.same_iff k j, e.same_iff i j, e.same_iff i k)

  pub put-Unique : (m : List (K × V)) (k : K) (v : V) → Unique m → Unique (put m k v)
  unfolding absent put
  put-Unique [] k v u = (refl, tt)
  put-Unique ((j, w) ∷ m) k v u =
      ground (arith, put-Unique m k v u.1, find-put m k v j, e.same_iff k j, e.same_iff j k)

  pub remove-Unique : (m : List (K × V)) (k : K) → Unique m → Unique (remove m k)
  unfolding absent remove
  remove-Unique [] k u = tt
  remove-Unique ((j, w) ∷ m) k u = ground (arith, remove-Unique m k u.1, find-remove m k j)

  -- An entry that is kept is found where it was.
  pub find-retain_values :
      (keep : V → Bool) (m : List (K × V)) (k : K)
      → Unique m
      → find (retain_values keep m) k
        ≡ (elim (find m k) [ none ↦ none | some v ↦ (if keep v then some v else none) ])
  unfolding find retain_values absent
  find-retain_values keep [] k u = refl
  find-retain_values keep ((j, w) ∷ m) k u =
      ground (arith, find-retain_values keep m k u.1, e.same_iff k j)

  pub retain-Unique :
      (keep : V → Bool) (m : List (K × V)) → Unique m → Unique (retain_values keep m)
  unfolding retain_values absent
  retain-Unique keep [] u = tt
  retain-Unique keep ((j, w) ∷ m) u =
      ground (arith, retain-Unique keep m u.1, find-retain_values keep m j u.1)

  pub find-map_values :
      (f : V → V) (m : List (K × V)) (k : K)
      → find (map_values f m) k ≡ (elim (find m k) [ none ↦ none | some v ↦ some (f v) ])
  unfolding find map_values
  find-map_values f [] k = refl
  find-map_values f ((j, w) ∷ m) k = ground (arith, find-map_values f m k)

  pub map_values-Unique : (f : V → V) (m : List (K × V)) → Unique m → Unique (map_values f m)
  unfolding map_values absent
  map_values-Unique f [] u = tt
  map_values-Unique f ((j, w) ∷ m) u =
      ground (arith, map_values-Unique f m u.1, find-map_values f m j)

  pub sum_values-put :
      (size : V → ℕ) (m : List (K × V)) (k : K) (v : V)
      → sum_values size (put m k v) + (elim (find m k) [ none ↦ 0 | some w ↦ size w ])
        ≡ size v + sum_values size m
  unfolding find put sum_values
  sum_values-put size [] k v = omega arith
  sum_values-put size ((j, w) ∷ m) k v = ground (arith, sum_values-put size m k v)

  pub sum_values-remove :
      (size : V → ℕ) (m : List (K × V)) (k : K) → sum_values size (remove m k) ≤ sum_values size m
  unfolding remove sum_values
  sum_values-remove size [] k = omega arith
  sum_values-remove size ((j, w) ∷ m) k = ground (arith, sum_values-remove size m k)

module _ {ℓ κ} {K : Type ℓ} {V : Type κ} where
  pub sum_values-retain :
      (size : V → ℕ) (keep : V → Bool) (m : List (K × V))
      → sum_values size (retain_values keep m) ≤ sum_values size m
  unfolding retain_values sum_values
  sum_values-retain size keep [] = omega arith
  sum_values-retain size keep ((j, w) ∷ m) = ground (arith, sum_values-retain size keep m)

  pub sum_values-map :
      (size : V → ℕ) (f : V → V)
      → ((v : V) → size (f v) ≤ size v)
      → (m : List (K × V)) → sum_values size (map_values f m) ≤ sum_values size m
  unfolding map_values sum_values
  sum_values-map size f h [] = omega arith
  sum_values-map size f h ((j, w) ∷ m) = ground (arith, h w, sum_values-map size f h m)
