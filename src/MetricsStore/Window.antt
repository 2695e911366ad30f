-- ===== src/MetricsStore/Window.antt =====
-- The last elements of a list, as the window that a bounded buffer keeps.
use sagedockhand.Common.{
  length, get_elem?, drop, length-append, length-drop, ℕ, zero, suc, ◌+◌, ◌-◌, ◌≤◌, ◌<◌, min, ◌≡◌,
  refl, ap, some, List, [], ◌∷◌, ◌++◌, arith,
}

module _ {ℓ} {A : Type ℓ} where
  -- The last `n` elements.
  unfoldable pub last_n : ℕ → List A → List A
  last_n n xs = drop (length xs - n) xs

  drop-drop : (m n k : ℕ) (xs : List A) → n + m ≡ k → drop m (drop n xs) ≡ drop k xs
  drop-drop m zero k xs e = ap (λ j. drop j xs) (omega arith)
  drop-drop m (suc n) zero xs e = absurd (omega arith)
  drop-drop zero (suc n) (suc k) [] e = refl
  drop-drop (suc m) (suc n) (suc k) [] e = refl
  drop-drop m (suc n) (suc k) (x ∷ xs) e = drop-drop m n k xs (omega arith)

  drop-append : (n : ℕ) (xs ys : List A) → n ≤ length xs → drop n (xs ++ ys) ≡ drop n xs ++ ys
  drop-append zero xs ys h = refl
  drop-append (suc n) (x ∷ xs) ys h = drop-append n xs ys (omega arith)
  drop-append (suc n) [] ys h = absurd (omega arith)

  pub get_elem?-append :
      (xs : List A) (y : A) (i : ℕ) → i < length xs → get_elem? (xs ++ y ∷ []) i ≡ get_elem? xs i
  get_elem?-append [] y i h = absurd (omega arith)
  get_elem?-append (x ∷ xs) y zero h = refl
  get_elem?-append (x ∷ xs) y (suc i) h = get_elem?-append xs y i (omega arith)

  pub get_elem?-append_last : (xs : List A) (y : A) → get_elem? (xs ++ y ∷ []) (length xs) ≡ some y
  get_elem?-append_last [] y = refl
  get_elem?-append_last (x ∷ xs) y = get_elem?-append_last xs y

  pub get_elem?-drop :
      (n i j : ℕ) (xs : List A) → n + i ≡ j → get_elem? (drop n xs) i ≡ get_elem? xs j
  get_elem?-drop zero i j xs e = ap (λ k. get_elem? xs k) (omega arith)
  get_elem?-drop (suc n) i j [] e = refl
  get_elem?-drop (suc n) i zero (x ∷ xs) e = absurd (omega arith)
  get_elem?-drop (suc n) i (suc j) (x ∷ xs) e = get_elem?-drop n i j xs (omega arith)

  pub length-last_n : (n : ℕ) (xs : List A) → length (last_n n xs) ≡ min n (length xs)
  unfolding last_n
  length-last_n n xs = omega (arith, length-drop (length xs - n) xs)

  pub last_n_all : (n : ℕ) (xs : List A) → length xs ≤ n → last_n n xs ≡ xs
  unfolding last_n
  last_n_all n xs h = let e : length xs - n ≡ 0 = omega arith in rw e

  pub last_n_nil : (n : ℕ) → last_n n [] ≡ []
  last_n_nil n = last_n_all n [] (omega arith)

  -- Of a window the last elements are those of the whole.
  pub last_n-last_n : (m n : ℕ) (xs : List A) → last_n m (last_n n xs) ≡ last_n (min m n) xs
  unfolding last_n
  last_n-last_n m n xs =
      drop-drop (length (drop (length xs - n) xs) - m) (length xs - n) (length xs - min m n) xs
        (omega (arith, length-drop (length xs - n) xs))

  -- A window moves by one element at a time.
  pub last_n_push :
      (n : ℕ) (xs : List A) (y : A)
      → 0 < n
      → last_n n (last_n n xs ++ y ∷ []) ≡ last_n n (xs ++ y ∷ [])
  unfolding last_n
  last_n_push n xs y h =
      let k = length xs - n in
      let shorter = length-drop k xs in
      rw (← drop-append k xs (y ∷ []) (omega arith)) (
        drop-drop (length (drop k (xs ++ y ∷ [])) - n) k (length (xs ++ y ∷ []) - n) (xs ++ y ∷ [])
          (omega (arith, length-append xs (y ∷ []), length-drop k (xs ++ y ∷ []))))
