-- ===== src/Common/Sort.antt =====
-- `xs.sort(cmp)`: a stable sort by a strict order, and what it promises.
use Prim.Native.Nat.{suc}
use mathlib.Core.Bool.{Bool, true, false}
use mathlib.Core.List.{List, [], ◌∷◌, ◌++◌, map, Perm}
use mathlib.Core.List.Perm
use mathlib.Core.Path.{◌≡◌, refl, ap, ◌∙◌}
use native.Mathlib.Omega.{arith}
use sagedockhand.Common.Tests.{if◌then◌else◌}
use sagedockhand.Common.Lists.{length, All}

module _ {ℓ} {A : Type ℓ} (before : A → A → Bool) where
  -- `before y x` is `cmp(y, x) < 0`: only then does a later `y` overtake `x`.
  unfoldable pub insert_by : A → List A → List A
  insert_by x [] = x ∷ []
  insert_by x (y ∷ ys) = if before y x then y ∷ insert_by x ys else x ∷ y ∷ ys

  unfoldable pub sort_by : List A → List A
  unfolding insert_by
  sort_by [] = []
  sort_by (x ∷ xs) = insert_by x (sort_by xs)

  -- Nothing stands before an element that belongs after it.
  abbrev pub IsSorted : List A → Type 0
  IsSorted [] = Unit
  IsSorted (x ∷ xs) = All (λ y. before y x ≡ false) xs × IsSorted xs

  insert_by-Perm : (x : A) (ys : List A) → Perm (insert_by x ys) (x ∷ ys)
  unfolding insert_by
  insert_by-Perm x [] = Perm.refl (x ∷ [])
  insert_by-Perm x (y ∷ ys) =
      elim (before y x) as (λ b. Perm (if b then y ∷ insert_by x ys else x ∷ y ∷ ys) (x ∷ y ∷ ys)) [
        | true ↦ Perm.trans (Perm.cons y (insert_by-Perm x ys)) (Perm.swap x y ys)
        | false ↦ Perm.refl (x ∷ y ∷ ys)
      ]

  -- Sorting rearranges.
  pub sort_by-Perm : (xs : List A) → Perm (sort_by xs) xs
  unfolding sort_by
  sort_by-Perm [] = Perm.refl []
  sort_by-Perm (x ∷ xs) = Perm.trans (insert_by-Perm x (sort_by xs)) (Perm.cons x (sort_by-Perm xs))

  length-insert_by : (x : A) (ys : List A) → length (insert_by x ys) ≡ suc (length ys)
  unfolding insert_by
  length-insert_by x [] = refl
  length-insert_by x (y ∷ ys) = ground (arith, length-insert_by x ys)

  pub length-sort_by : (xs : List A) → length (sort_by xs) ≡ length xs
  unfolding sort_by
  length-sort_by [] = refl
  length-sort_by (x ∷ xs) = length-insert_by x (sort_by xs) ∙ ap suc (length-sort_by xs)

  module _ {κ} (P : A → Type κ) where
    insert_by-All : (x : A) (ys : List A) → P x → All P ys → All P (insert_by x ys)
    unfolding insert_by
    insert_by-All x [] p h = (p, tt)
    insert_by-All x (y ∷ ys) p (q, h) = ground (arith, insert_by-All x ys p h)

    pub sort_by-All : (xs : List A) → All P xs → All P (sort_by xs)
    unfolding sort_by
    sort_by-All [] h = tt
    sort_by-All (x ∷ xs) (p, h) = insert_by-All x (sort_by xs) p (sort_by-All xs h)

  -- What holds of every element of a sorted list holds of every element of the list.
  module _ {κ} (P : A → Type κ) where
    All-insert_by : (x : A) (ys : List A) → All P (insert_by x ys) → P x × All P ys
    unfolding insert_by
    All-insert_by x [] h = h
    All-insert_by x (y ∷ ys) h = ground (arith, h, All-insert_by x ys)

    pub All-sort_by : (xs : List A) → All P (sort_by xs) → All P xs
    unfolding sort_by
    All-sort_by [] h = tt
    All-sort_by (x ∷ xs) h =
        let (p, rest) = All-insert_by x (sort_by xs) h in (p, All-sort_by xs rest)

module _ {ℓ} {A : Type ℓ} (before : A → A → Bool)
    (asym : (x y : A) → before x y ≡ true → before y x ≡ false)
    (trans : (x y z : A) → before y x ≡ false → before z y ≡ false → before z x ≡ false) where
  All-trans :
      (x y : A) (ys : List A)
      → before y x ≡ false
      → All (λ z. before z y ≡ false) ys
      → All (λ z. before z x ≡ false) ys
  All-trans x y [] h k = tt
  All-trans x y (z ∷ ys) h (p, k) = (trans x y z h p, All-trans x y ys h k)

  insert_by-IsSorted :
      (x : A) (ys : List A) → IsSorted before ys → IsSorted before (insert_by before x ys)
  unfolding insert_by
  insert_by-IsSorted x [] s = (tt, tt)
  insert_by-IsSorted x (y ∷ ys) (h, s) = ground (
    arith,
    insert_by-IsSorted x ys s,
    insert_by-All before (λ z. before z y ≡ false) x ys,
    asym y x,
    All-trans x y ys,
  )

  pub sort_by-IsSorted : (xs : List A) → IsSorted before (sort_by before xs)
  unfolding sort_by
  sort_by-IsSorted [] = tt
  sort_by-IsSorted (x ∷ xs) = insert_by-IsSorted x (sort_by before xs) (sort_by-IsSorted xs)

-- Sorting commutes with a map that keeps the order.
module _ {ℓ κ} {A : Type ℓ} {B : Type κ} (f : A → B) (before : A → A → Bool)
    (before' : B → B → Bool) (same : (x y : A) → before' (f x) (f y) ≡ before x y) where
  insert_by-map :
      (x : A) (ys : List A) → insert_by before' (f x) (map f ys) ≡ map f (insert_by before x ys)
  unfolding insert_by
  insert_by-map x [] = refl
  insert_by-map x (y ∷ ys) =
      rw (same y x)
        (elim (before y x)
          as (λ b.
            (if b then f y ∷ insert_by before' (f x) (map f ys) else f x ∷ f y ∷ map f ys)
            ≡ map f (if b then y ∷ insert_by before x ys else x ∷ y ∷ ys)) [
              | true ↦ ap (◌∷◌ (f y)) (insert_by-map x ys)
              | false ↦ refl
            ])

  pub sort_by-map : (xs : List A) → sort_by before' (map f xs) ≡ map f (sort_by before xs)
  unfolding sort_by
  sort_by-map [] = refl
  sort_by-map (x ∷ xs) = rw (sort_by-map xs) (insert_by-map x (sort_by before xs))

-- An element that belongs before none of the others, and stands last, stays last.
module _ {ℓ} {A : Type ℓ} (before : A → A → Bool) where
  insert_by-append_last :
      (x y : A) (ys : List A)
      → before y x ≡ false
      → insert_by before x (ys ++ y ∷ []) ≡ insert_by before x ys ++ y ∷ []
  unfolding insert_by
  insert_by-append_last x y [] h = ground (arith, h)
  insert_by-append_last x y (z ∷ ys) h = ground (arith, insert_by-append_last x y ys h)

  pub sort_by-append_last :
      (xs : List A) (y : A)
      → All (λ x. before y x ≡ false) xs
      → sort_by before (xs ++ y ∷ []) ≡ sort_by before xs ++ y ∷ []
  unfolding sort_by
  sort_by-append_last [] y h = refl
  sort_by-append_last (x ∷ xs) y (p, h) =
      rw (sort_by-append_last xs y h) (insert_by-append_last x y (sort_by before xs) p)
