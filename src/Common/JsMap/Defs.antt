-- ===== src/Common/JsMap/Defs.antt =====
-- The operations of a `Map`, over keys with an equality.
use mathlib.Core.Bool.{Bool, true, false}
use mathlib.Core.List.{List, [], ◌∷◌}
use mathlib.Core.Option.{Option, none, some}
use mathlib.Core.Path.{◌≡◌}
use sagedockhand.Common.Tests.{if◌then◌else◌}
use sagedockhand.Common.Equality.{EqTest, ◌==◌}

abbrev pub JsMap {ℓ κ} : Type ℓ → Type κ → Type (ℓ ⊔ κ)
JsMap K V = List (K × V)

module _ {ℓ κ} {K : Type ℓ} {V : Type κ} ⦃e : EqTest K⦄ where
  -- `m.get(k)`
  unfoldable pub get : K → JsMap K V → Option V
  get k [] = none
  get k ((j, v) ∷ m) = if j == k then some v else get k m

  -- `m.has(k)`, `k in m`
  unfoldable pub has : K → JsMap K V → Bool
  has k [] = false
  has k ((j, v) ∷ m) = if j == k then true else has k m

  -- `m.set(k, v)`
  unfoldable pub put : K → V → JsMap K V → JsMap K V
  put k v [] = (k, v) ∷ []
  put k v ((j, w) ∷ m) = if j == k then (k, v) ∷ m else (j, w) ∷ put k v m

  -- `m.delete(k)`
  unfoldable pub remove : K → JsMap K V → JsMap K V
  remove k [] = []
  remove k ((j, v) ∷ m) = let rest = remove k m in if j == k then rest else (j, v) ∷ rest

  -- `for (const [k, v] of m) if (p(k, v)) m.delete(k)`: an entry that the test picks is dropped,
  -- and deleting during the iteration skips no other entry.
  unfoldable pub remove_if : (K → V → Bool) → JsMap K V → JsMap K V
  remove_if p [] = []
  remove_if p ((j, v) ∷ m) = let rest = remove_if p m in if p j v then rest else (j, v) ∷ rest

  -- No key twice.
  abbrev pub IsDistinct : JsMap K V → Type κ
  IsDistinct [] = Unit
  IsDistinct ((j, v) ∷ m) = (get j m ≡ none) × IsDistinct m
