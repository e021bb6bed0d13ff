-- ===== src/Prelude/Maps.antt =====
-- HashMap, BTreeMap and DashMap as association lists. The program does not depend on their order
-- where they stand in the model.
use mathlib.Core.Path.{◌≡◌, refl}
use mathlib.Core.Logic.{◌≢◌}
use mathlib.Core.List.{List, [], ◌∷◌}
use mathlib.Core.Option.{Option, none, some}
use native.Mathlib.Omega.{arith}
use agent_tx_protocol.Prelude.Tests.{Eq, ◌==◌, if◌then◌else◌}

abbrev pub Map {ℓ κ} : Type ℓ → Type κ → Type (ℓ ⊔ κ)
Map K V = List (K × V)

module _ {ℓ κ} {K : Type ℓ} {V : Type κ} ⦃e : Eq K⦄ where
  unfoldable pub get : Map K V → K → Option V
  get [] k = none
  get ((j, v) ∷ m) k = if j == k then some v else get m k

  unfoldable pub insert : Map K V → K → V → Map K V
  insert [] k v = (k, v) ∷ []
  insert ((j, w) ∷ m) k v = if j == k then (k, v) ∷ m else (j, w) ∷ insert m k v

  unfoldable pub remove : Map K V → K → Map K V
  remove [] k = []
  remove ((j, v) ∷ m) k = if j == k then remove m k else (j, v) ∷ remove m k

  pub get-insert :
      (m : Map K V) (k j : K) (v : V) → get (insert m k v) j ≡ (if k == j then some v else get m j)
  unfolding get insert
  get-insert [] k j v = refl
  get-insert ((i, w) ∷ m) k j v =
      ground (arith, e.same_iff k j, e.same_iff i k, e.same_iff i j, get-insert m k j v)

  pub get-remove : (m : Map K V) (k j : K) → get (remove m k) j ≡ (if k == j then none else get m j)
  unfolding get remove
  get-remove [] k j = ground arith
  get-remove ((i, w) ∷ m) k j =
      ground (arith, e.same_iff k j, e.same_iff i k, e.same_iff i j, get-remove m k j)

  pub get-insert-same : (m : Map K V) (k : K) (v : V) → get (insert m k v) k ≡ some v
  get-insert-same m k v = ground (arith, e.same_iff k k, get-insert m k k v)

  pub get-insert-other : (m : Map K V) (k j : K) (v : V) → k ≢ j → get (insert m k v) j ≡ get m j
  get-insert-other m k j v h = ground (arith, e.same_iff k j, get-insert m k j v)

  pub get-remove-same : (m : Map K V) (k : K) → get (remove m k) k ≡ none
  get-remove-same m k = ground (arith, e.same_iff k k, get-remove m k k)

  pub get-remove-other : (m : Map K V) (k j : K) → k ≢ j → get (remove m k) j ≡ get m j
  get-remove-other m k j h = ground (arith, e.same_iff k j, get-remove m k j)

  -- Writing back the value that a key has changes nothing.
  pub insert-get : (m : Map K V) (k : K) (v : V) → get m k ≡ some v → insert m k v ≡ m
  unfolding get insert
  insert-get [] k v h = cc
  insert-get ((j, w) ∷ m) k v h = ground (arith, e.same_iff j k, insert-get m k v)

abbrev pub unwrap_or {ℓ} : {A : Type ℓ} → Option A → A → A
unwrap_or none d = d
unwrap_or (some a) d = a
