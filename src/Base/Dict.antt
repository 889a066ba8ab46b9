-- ===== src/Base/Dict.antt =====
-- `std::map` as an association list with a test for equal keys.
use mathlib.Core.Path.{◌≡◌}
use mathlib.Core.Logic.{◌↔◌}
use mathlib.Core.Bool.{Bool, true}
use mathlib.Core.List.{List, [], ◌∷◌}
use mathlib.Core.Option.{Option, none, some}
use native.Mathlib.Omega.{arith}
use secure_storage.Base.Tests.{if◌then◌else◌}

module _ {ℓ κ} {K : Type ℓ} {V : Type κ} (eq : K → K → Bool) where
  -- `find`: `none` is `end()`.
  unfoldable pub get : K → List (K × V) → Option V
  get k [] = none
  get k ((j, v) ∷ m) = let rest = get k m in if eq k j then some v else rest

  -- `erase` by key.
  unfoldable pub erase : K → List (K × V) → List (K × V)
  erase k [] = []
  erase k ((j, v) ∷ m) = let rest = erase k m in if eq k j then rest else (j, v) ∷ rest

  -- `m[k] = v`
  unfoldable pub set : K → V → List (K × V) → List (K × V)
  set k v m = (k, v) ∷ erase k m

module _ {ℓ κ} {K : Type ℓ} {V : Type κ} (eq : K → K → Bool)
    (eq_iff : (a b : K) → (eq a b ≡ true) ↔ (a ≡ b)) where
  pub get-erase :
      (j k : K) (m : List (K × V)) → get eq j (erase eq k m) ≡ (if eq j k then none else get eq j m)
  unfolding get erase
  get-erase j k [] = ground arith
  get-erase j k ((i, v) ∷ m) = ground (arith, get-erase j k m, eq_iff j k, eq_iff k i, eq_iff j i)

  pub get-set :
      (j k : K) (v : V) (m : List (K × V))
      → get eq j (set eq k v m) ≡ (if eq j k then some v else get eq j m)
  unfolding get set
  get-set j k v m = ground (arith, get-erase j k m)
