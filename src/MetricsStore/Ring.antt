-- ===== src/MetricsStore/Ring.antt =====
-- What is read from a ring buffer that holds a window of points: the points, oldest first.
use sagedockhand.Common.{
  nat_beq, if◌then◌else◌, length, get_elem?, length-drop, ℕ, suc, ◌+◌, ◌-◌, ◌%◌, ◌<◌, min, ◌≡◌,
  refl, ap, Option, some, List, [], ◌∷◌, map, arith,
}
use sagedockhand.MetricsStore.{
  max_points_per_env, RingBuffer, slot_at, read_slots, read_ring, latest,
}
use sagedockhand.MetricsStore.RingSlots.{Holds}
use sagedockhand.MetricsStore.Window.{last_n, get_elem?-drop, length-last_n}
use native.Mathlib.Nat.{add-zero}

module _ {P : Type 0} where
  -- Reading from the cell of the first element on gives the whole list.
  read_slots-eq :
      (slots : List (Option P)) (start : ℕ) (xs : List P)
      → ((i : ℕ)
          → i < length xs
          → get_elem? slots ((start + i) % max_points_per_env) ≡ some (get_elem? xs i))
      → read_slots slots (length xs) start ≡ map some xs
  unfolding read_slots slot_at
  read_slots-eq slots start [] h = refl
  read_slots-eq slots start (x ∷ xs) h =
      let next : (i : ℕ) → start + 1 + i ≡ start + suc i = λ i. omega arith in
      let here : get_elem? slots (start % max_points_per_env) ≡ some (some x) =
        rw (← ap (λ j. get_elem? slots (j % max_points_per_env)) (add-zero start))
          (h 0 (omega arith)) in
      let later = read_slots-eq slots (start + 1) xs (λ i lt.
        rw (ap (λ j. get_elem? slots (j % max_points_per_env)) (next i))
          (h (suc i) (omega arith))) in
      ground (arith, here, later)

  if_empty :
      (xs : List P) (r : List (Option P))
      → r ≡ map some xs
      → (if nat_beq (length xs) 0 then [] else r) ≡ map some xs
  if_empty [] r h = refl
  if_empty (x ∷ xs) r h = ground arith

  pub get_elem?-last_n :
      (n i j : ℕ) (xs : List P)
      → length xs - length (last_n n xs) + i ≡ j
      → get_elem? (last_n n xs) i ≡ get_elem? xs j
  unfolding last_n
  get_elem?-last_n n i j xs e =
      get_elem?-drop (length xs - n) i j xs (omega (arith, length-drop (length xs - n) xs))

  read_cells :
      (ring : RingBuffer P) (window : List P) (limit : ℕ)
      → Holds ring window
      → (i : ℕ) → i < length (last_n limit window)
      → get_elem? ring.slots (
          (((ring.head + max_points_per_env - ring.count) % max_points_per_env
                + (ring.count - length (last_n limit window)))
              % max_points_per_env
            + i)
          % max_points_per_env)
        ≡ some (get_elem? (last_n limit window) i)
  read_cells ring window limit held i lt =
      let shorter = length-last_n limit window in
      let j = length window - length (last_n limit window) + i in
      let e : (((ring.head + max_points_per_env - ring.count) % max_points_per_env
                  + (ring.count - length (last_n limit window)))
                % max_points_per_env
              + i)
            % max_points_per_env
          ≡ (ring.head + max_points_per_env - length window + j) % max_points_per_env =
        omega (arith, held.counted, held.fits) in
      rw (e, get_elem?-last_n limit i j window refl) (held.cells j (omega arith))

  -- `readRing` returns the newest `limit` points that the ring holds, oldest first.
  pub read_ring-eq :
      (ring : RingBuffer P) (window : List P) (limit : ℕ)
      → Holds ring window
      → read_ring ring limit ≡ map some (last_n limit window)
  unfolding read_ring
  read_ring-eq ring window limit held =
      let shorter = length-last_n limit window in
      let count : min ring.count limit ≡ length (last_n limit window) =
        omega (arith, held.counted) in
      let start =
        ((ring.head + max_points_per_env - ring.count) % max_points_per_env
          + (ring.count - length (last_n limit window)))
        % max_points_per_env in
      rw count (
        if_empty (last_n limit window) (read_slots ring.slots (length (last_n limit window)) start)
          (read_slots-eq ring.slots start (last_n limit window)
            (read_cells ring window limit held)))

  -- `getLatestMetric` returns the last point of the window, and nothing from an empty one.
  pub latest-eq :
      (ring : RingBuffer P) (window : List P)
      → Holds ring window
      → latest ring ≡ get_elem? window (length window - 1)
  unfolding latest slot_at
  latest-eq ring [] held = ground (arith, held.counted)
  latest-eq ring (x ∷ xs) held =
      let e : (ring.head + max_points_per_env - 1) % max_points_per_env
          ≡ (ring.head + max_points_per_env - length (x ∷ xs) + length xs) % max_points_per_env =
        omega (arith, held.fits) in
      rw e (ground (arith, held.cells (length xs) (omega arith), held.counted))
