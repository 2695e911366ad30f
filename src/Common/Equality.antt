-- ===== src/Common/Equality.antt =====
-- `===` on values that a program compares: an interface with its law, and its instances.
use Prim.Native.Nat.{ℕ}
use mathlib.Core.Path.{◌≡◌, refl}
use mathlib.Core.Logic.{◌↔◌}
use mathlib.Core.Bool.{Bool, true, false, ◌&&◌, ◌||◌}
use mathlib.Core.List.{List, [], ◌∷◌, ◌++◌}
use native.Mathlib.Omega.{arith}
use sagedockhand.Common.Lists.{All, All-append}
use sagedockhand.Common.Tests.{nat_beq, nat_beq_iff, if◌then◌else◌}

pub record EqTest {ℓ} (K : Type ℓ) : Type ℓ where
  pub equal : K → K → Bool
  pub sound : (x y : K) → equal x y ≡ true → x ≡ y
  pub reflexive : (x : K) → equal x x ≡ true

-- `x === y`.
infix 50 ◌==◌
abbrev pub ◌==◌ {ℓ} : {K : Type ℓ} ⦃test : EqTest K⦄ → K → K → Bool
◌==◌ ⦃test⦄ x y = test.equal x y

pub eq_refl {ℓ} : {K : Type ℓ} ⦃test : EqTest K⦄ (x : K) → (x == x) ≡ true
eq_refl ⦃test⦄ = test.reflexive

pub eq_iff {ℓ} : {K : Type ℓ} ⦃test : EqTest K⦄ (x y : K) → ((x == y) ≡ true) ↔ (x ≡ y)
eq_iff ⦃test⦄ x y = (test.sound x y, λ p. rw p (test.reflexive y))

pub nat_beq_refl : (n : ℕ) → nat_beq n n ≡ true
nat_beq_refl n = (nat_beq_iff n n).1 refl

pub nat_beq_sound : (m n : ℕ) → nat_beq m n ≡ true → m ≡ n
nat_beq_sound m n = (nat_beq_iff m n).0

-- Numbers.
instance abbrev pub nat_eq : EqTest ℕ
nat_eq = record { equal = nat_beq; sound = nat_beq_sound; reflexive = nat_beq_refl }

abbrev pub list_beq : List ℕ → List ℕ → Bool
list_beq [] [] = true
list_beq (x ∷ xs) (y ∷ ys) = nat_beq x y && list_beq xs ys
list_beq _ _ = false

pub list_beq_refl : (xs : List ℕ) → list_beq xs xs ≡ true
list_beq_refl [] = refl
list_beq_refl (x ∷ xs) = ground (arith, list_beq_refl xs)

pub list_beq_sound : (xs ys : List ℕ) → list_beq xs ys ≡ true → xs ≡ ys
list_beq_sound [] [] h = refl
list_beq_sound [] (y ∷ ys) h = cc
list_beq_sound (x ∷ xs) [] h = cc
list_beq_sound (x ∷ xs) (y ∷ ys) h = ground (arith, list_beq_sound xs ys)

-- Strings, as lists of code units.
instance abbrev pub text_eq : EqTest (List ℕ)
text_eq = record { equal = list_beq; sound = list_beq_sound; reflexive = list_beq_refl }

-- `xs.includes(x)`, and `[...new Set(xs)]`.
module _ {ℓ} {A : Type ℓ} ⦃e : EqTest A⦄ where
  unfoldable pub member : A → List A → Bool
  member x [] = false
  member x (y ∷ ys) = y == x || member x ys

  -- Adding to a set in insertion order.
  abbrev pub add_new : A → List A → List A
  add_new x seen = if member x seen then seen else seen ++ x ∷ []

  unfoldable pub unique_onto : List A → List A → List A
  unfolding member
  unique_onto seen [] = seen
  unique_onto seen (x ∷ xs) = unique_onto (add_new x seen) xs

  unfoldable pub unique : List A → List A
  unfolding unique_onto
  unique xs = unique_onto [] xs

  pub member-append : (x : A) (xs ys : List A) → member x (xs ++ ys) ≡ (member x xs || member x ys)
  unfolding member
  member-append x [] ys = refl
  member-append x (y ∷ xs) ys = ground (arith, member-append x xs ys)

  pub member-add_new :
      (x y : A) (seen : List A) → member x (add_new y seen) ≡ (member x seen || (y == x))
  unfolding member
  member-add_new x y seen = ground (arith, member-append x seen (y ∷ []), eq_iff y x)

  member-unique_onto :
      (x : A) (seen xs : List A) → member x (unique_onto seen xs) ≡ (member x seen || member x xs)
  unfolding member unique_onto
  member-unique_onto x seen [] = ground arith
  member-unique_onto x seen (y ∷ xs) =
      ground (arith, member-unique_onto x (add_new y seen) xs, member-add_new x y seen)

  -- Removing duplicates changes no membership.
  pub member-unique : (x : A) (xs : List A) → member x (unique xs) ≡ member x xs
  unfolding member unique
  member-unique x xs = member-unique_onto x [] xs

module _ {ℓ κ} {A : Type ℓ} ⦃e : EqTest A⦄ (P : A → Type κ) where
  All-unique_onto : (seen xs : List A) → All P seen → All P xs → All P (unique_onto seen xs)
  unfolding unique_onto
  All-unique_onto seen [] h k = h
  All-unique_onto seen (x ∷ xs) h (p, k) =
      All-unique_onto (add_new x seen) xs (ground (arith, All-append P seen (x ∷ []) h (p, tt))) k

  pub All-unique : (xs : List A) → All P xs → All P (unique xs)
  unfolding unique
  All-unique xs h = All-unique_onto [] xs tt h
