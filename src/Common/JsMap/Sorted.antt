-- ===== src/Common/JsMap/Sorted.antt =====
-- Maps whose entries are sorted, or cut.
use Prim.Native.Nat.{ℕ, zero, suc}
use mathlib.Core.Bool.{Bool}
use mathlib.Core.List.{[], ◌∷◌, ◌++◌}
use mathlib.Core.Option.{none, some}
use mathlib.Core.Path.{◌≡◌, refl, ◌∙◌}
use native.Mathlib.Omega.{arith}
use sagedockhand.Common.Tests.{if◌then◌else◌}
use sagedockhand.Common.Lists.{take, All}
use sagedockhand.Common.Equality.{EqTest, ◌==◌, eq_iff, eq_refl}
use sagedockhand.Common.Sort.{insert_by, sort_by}
use sagedockhand.Common.JsMap.Defs.{JsMap, get, IsDistinct, remove_if}

module _ {ℓ κ} {K : Type ℓ} {V : Type κ} ⦃e : EqTest K⦄ (before : K × V → K × V → Bool) where
  get-insert_by :
      (k j : K) (v : V) (m : JsMap K V)
      → get j m ≡ none
      → get k (insert_by before (j, v) m) ≡ (if j == k then some v else get k m)
  unfolding insert_by get
  get-insert_by k j v [] h = refl
  get-insert_by k j v ((i, w) ∷ m) h =
      ground (arith, h, get-insert_by k j v m, eq_iff i k, eq_iff j k, eq_iff i j)

  IsDistinct-insert_by :
      (j : K) (v : V) (m : JsMap K V)
      → get j m ≡ none
      → IsDistinct m
      → IsDistinct (insert_by before (j, v) m)
  unfolding insert_by get
  IsDistinct-insert_by j v [] h d = (refl, tt)
  IsDistinct-insert_by j v ((i, w) ∷ m) h (fresh, d) = ground (
    arith,
    h,
    fresh,
    d,
    IsDistinct-insert_by j v m,
    get-insert_by i j v m,
    eq_iff i j,
    eq_iff j i,
  )

  pub get-sort_by : (k : K) (m : JsMap K V) → IsDistinct m → get k (sort_by before m) ≡ get k m
  unfolding sort_by get
  get-sort_by k [] d = refl
  get-sort_by k ((j, v) ∷ m) (fresh, d) =
      ground
        (arith, get-insert_by k j v (sort_by before m), get-sort_by k m d, get-sort_by j m d, fresh)

  pub IsDistinct-sort_by : (m : JsMap K V) → IsDistinct m → IsDistinct (sort_by before m)
  unfolding sort_by
  IsDistinct-sort_by [] d = tt
  IsDistinct-sort_by ((j, v) ∷ m) (fresh, d) =
      IsDistinct-insert_by j v (sort_by before m) (get-sort_by j m d ∙ fresh)
        (IsDistinct-sort_by m d)

module _ {ℓ κ} {K : Type ℓ} {V : Type κ} ⦃e : EqTest K⦄ where
  pub get-take_absent : (k : K) (n : ℕ) (m : JsMap K V) → get k m ≡ none → get k (take n m) ≡ none
  unfolding get
  get-take_absent k zero m h = refl
  get-take_absent k (suc n) [] h = refl
  get-take_absent k (suc n) ((j, v) ∷ m) h = ground (arith, h, get-take_absent k n m)

  pub get-take :
      (k : K) (v : V) (n : ℕ) (m : JsMap K V) → get k (take n m) ≡ some v → get k m ≡ some v
  unfolding get
  get-take k v zero m h = absurd (ground (arith, h))
  get-take k v (suc n) [] h = h
  get-take k v (suc n) ((j, w) ∷ m) h = ground (arith, h, get-take k v n m)

  pub IsDistinct-take : (n : ℕ) (m : JsMap K V) → IsDistinct m → IsDistinct (take n m)
  IsDistinct-take zero m d = tt
  IsDistinct-take (suc n) [] d = tt
  IsDistinct-take (suc n) ((j, v) ∷ m) (fresh, d) =
      (get-take_absent j n m fresh, IsDistinct-take n m d)

  -- Every entry of a map with distinct keys is what is found under its key.
  pub All-found_from :
      (m whole : JsMap K V)
      → ((k : K) (v : V) → get k m ≡ some v → get k whole ≡ some v)
      → IsDistinct m
      → All (λ (entry : K × V). get entry.0 whole ≡ some entry.1) m
  unfolding get
  All-found_from [] whole f d = tt
  All-found_from ((j, v) ∷ m) whole f (fresh, d) = (
    f j v (ground (arith, eq_refl j)),
    All-found_from m whole (λ k w h. f k w (ground (arith, h, fresh, eq_iff j k))) d,
  )

  pub remove_if-append :
      (p : K → V → Bool) (m n : JsMap K V) → remove_if p (m ++ n) ≡ remove_if p m ++ remove_if p n
  unfolding remove_if
  remove_if-append p [] n = refl
  remove_if-append p ((j, v) ∷ m) n = ground (arith, remove_if-append p m n)
