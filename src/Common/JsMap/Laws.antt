-- ===== src/Common/JsMap/Laws.antt =====
-- The laws of a `Map`: what `get` reads after each operation, and that keys stay distinct.
use Prim.Native.Nat.{suc, ◌≤◌}
use mathlib.Core.Bool.{Bool, false}
use mathlib.Core.List.{[], ◌∷◌, ◌++◌}
use mathlib.Core.Logic.{◌↔◌, inl, inr}
use mathlib.Core.Option.{Option, none, some}
use mathlib.Core.Path.{◌≡◌, refl, sym, ◌∙◌}
use native.Mathlib.Omega.{arith}
use sagedockhand.Common.Tests.{if◌then◌else◌, Bool-cases}
use sagedockhand.Common.Lists.{length, All}
use sagedockhand.Common.Equality.{EqTest, ◌==◌, eq_iff, eq_refl}
use sagedockhand.Common.JsMap.Defs.{JsMap, get, has, put, remove, remove_if, IsDistinct}

module _ {ℓ κ} {K : Type ℓ} {V : Type κ} ⦃e : EqTest K⦄ where
  pub get-put :
      (k j : K) (v : V) (m : JsMap K V) → get j (put k v m) ≡ (if k == j then some v else get j m)
  unfolding get put
  get-put k j v [] = refl
  get-put k j v ((i, w) ∷ m) = ground (arith, eq_iff k j, eq_iff i k, eq_iff i j, get-put k j v m)

  pub get-remove :
      (k j : K) (m : JsMap K V) → get j (remove k m) ≡ (if k == j then none else get j m)
  unfolding get remove
  get-remove k j [] = ground arith
  get-remove k j ((i, w) ∷ m) = ground (arith, eq_iff k j, eq_iff i k, eq_iff i j, get-remove k j m)

  pub has_iff : (k : K) (m : JsMap K V) → (has k m ≡ false) ↔ (get k m ≡ none)
  unfolding get has
  has_iff k [] = ground arith
  has_iff k ((i, w) ∷ m) = ground (arith, has_iff k m)

  -- What holds of every value of the map holds of the one found.
  pub All-get :
      (P : V → Type 0) (k : K) (v : V) (m : JsMap K V)
      → All (λ entry. P entry.1) m
      → get k m ≡ some v
      → P v
  unfolding get
  All-get P k v [] a h = absurd (ground (arith, h))
  All-get P k v ((i, w) ∷ m) (p, a) h = elim (Bool-cases (i == k)) [
    | inl here ↦ let same : w ≡ v = ground (arith, h, here) in rw (← same) p
    | inr apart ↦ All-get P k v m a (ground (arith, h, apart))
  ]

  pub get-append : (k : K) (v : V) (m n : JsMap K V) → get k m ≡ some v → get k (m ++ n) ≡ some v
  unfolding get
  get-append k v [] n h = cc
  get-append k v ((i, w) ∷ m) n h = ground (arith, get-append k v m n)

  pub get-append_absent : (k : K) (m n : JsMap K V) → get k m ≡ none → get k (m ++ n) ≡ get k n
  unfolding get
  get-append_absent k [] n h = refl
  get-append_absent k ((i, w) ∷ m) n h = ground (arith, get-append_absent k m n)

  pub remove-append : (k : K) (m n : JsMap K V) → remove k (m ++ n) ≡ remove k m ++ remove k n
  unfolding remove
  remove-append k [] n = refl
  remove-append k ((i, w) ∷ m) n = ground (arith, remove-append k m n)

  pub put_new : (k : K) (v : V) (m : JsMap K V) → get k m ≡ none → put k v m ≡ m ++ (k, v) ∷ []
  unfolding get put
  put_new k v [] h = refl
  put_new k v ((i, w) ∷ m) h = ground (arith, put_new k v m)

  pub remove_absent : (k : K) (m : JsMap K V) → get k m ≡ none → remove k m ≡ m
  unfolding get remove
  remove_absent k [] h = refl
  remove_absent k ((i, w) ∷ m) h = ground (arith, remove_absent k m)

  pub length-put_new :
      (k : K) (v : V) (m : JsMap K V) → get k m ≡ none → length (put k v m) ≡ suc (length m)
  unfolding get put
  length-put_new k v [] h = refl
  length-put_new k v ((i, w) ∷ m) h = ground (arith, length-put_new k v m)

  pub length-remove-le : (k : K) (m : JsMap K V) → length (remove k m) ≤ length m
  unfolding remove
  length-remove-le k [] = omega arith
  length-remove-le k ((i, w) ∷ m) = ground (arith, length-remove-le k m)

  pub length-remove :
      (k : K) (v : V) (m : JsMap K V)
      → IsDistinct m
      → get k m ≡ some v
      → suc (length (remove k m)) ≡ length m
  unfolding get remove
  length-remove k v [] d h = cc
  length-remove k v ((i, w) ∷ m) (fresh, d) h =
      ground (arith, length-remove k v m, remove_absent k m, eq_iff i k)

  pub IsDistinct-put : (k : K) (v : V) (m : JsMap K V) → IsDistinct m → IsDistinct (put k v m)
  unfolding get put
  IsDistinct-put k v [] d = (refl, tt)
  IsDistinct-put k v ((i, w) ∷ m) (fresh, d) =
      ground (arith, IsDistinct-put k v m, get-put k i v m, eq_iff i k, eq_iff k i)

  pub IsDistinct-remove : (k : K) (m : JsMap K V) → IsDistinct m → IsDistinct (remove k m)
  unfolding get remove
  IsDistinct-remove k [] d = tt
  IsDistinct-remove k ((i, w) ∷ m) (fresh, d) =
      ground (arith, IsDistinct-remove k m, get-remove k i m)

  -- Of an entry that stays the value can be read, and an entry that is picked is gone.
  abbrev pub unless : (K → V → Bool) → K → Option V → Option V
  unless p k none = none
  unless p k (some v) = if p k v then none else some v

  pub get-remove_if :
      (p : K → V → Bool) (k : K) (m : JsMap K V)
      → IsDistinct m
      → get k (remove_if p m) ≡ unless p k (get k m)
  unfolding get remove_if
  get-remove_if p k [] d = refl
  get-remove_if p k ((i, w) ∷ m) (fresh, d) = ground (arith, get-remove_if p k m d, eq_iff i k)

  pub unless-eq-some :
      (p : K → V → Bool) (k : K) (o : Option V) (v : V)
      → unless p k o ≡ some v
      → (o ≡ some v) × (p k v ≡ false)
  unless-eq-some p k none v h = cc
  unless-eq-some p k (some w) v h = ground arith

  -- What can be read after a sweep was there before, and the test did not pick it.
  pub get-remove_if-eq-some :
      (p : K → V → Bool) (k : K) (v : V) (m : JsMap K V)
      → IsDistinct m
      → get k (remove_if p m) ≡ some v
      → (get k m ≡ some v) × (p k v ≡ false)
  get-remove_if-eq-some p k v m d h =
      unless-eq-some p k (get k m) v (sym (get-remove_if p k m d) ∙ h)

  pub IsDistinct-remove_if :
      (p : K → V → Bool) (m : JsMap K V) → IsDistinct m → IsDistinct (remove_if p m)
  unfolding remove_if
  IsDistinct-remove_if p [] d = tt
  IsDistinct-remove_if p ((i, w) ∷ m) (fresh, d) =
      ground (arith, IsDistinct-remove_if p m d, get-remove_if p i m d)

  pub length-remove_if-le : (p : K → V → Bool) (m : JsMap K V) → length (remove_if p m) ≤ length m
  unfolding remove_if
  length-remove_if-le p [] = omega arith
  length-remove_if-le p ((i, w) ∷ m) = ground (arith, length-remove_if-le p m)

  -- What holds of every value that can be read holds of every entry.
  pub All-of_get {μ} :
      (Q : K → V → Type μ) (m : JsMap K V)
      → IsDistinct m
      → ((k : K) (v : V) → get k m ≡ some v → Q k v)
      → All (λ entry. Q entry.0 entry.1) m
  unfolding get
  All-of_get Q [] d h = tt
  All-of_get Q ((j, v) ∷ m) (fresh, d) h = (
    h j v (rw (eq_refl j)),
    All-of_get Q m d (λ k w found. h k w (ground (arith, found, fresh, eq_iff j k))),
  )
