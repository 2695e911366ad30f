-- ===== src/MetricsStore/RingSlots.antt =====
-- One ring buffer and the window of points that its slots hold, from its creation on through each `push`.
use sagedockhand.Common.{
  length, get_elem?, set, drop, length-append, length-set, get_elem?-set_self, get_elem?-set_ne,
  length-drop, length-replicate, ℕ, suc, ◌+◌, ◌-◌, ◌%◌, ◌≤◌, ◌<◌, ◌≡◌, refl, Option, none, some,
  List, [], ◌∷◌, ◌++◌, arith,
}
use sagedockhand.MetricsStore.{max_points_per_env, RingBuffer, new_ring, write}
use sagedockhand.MetricsStore.Window.{
  last_n, get_elem?-append, get_elem?-append_last, get_elem?-drop, last_n_all,
}
use native.Mathlib.Decide.{dec_lt}

module _ {P : Type 0} where
  -- The ring's cells, read from the oldest on, are the window.
  pub record Holds (ring : RingBuffer P) (window : List P) : Type 0 where
    pub sized : length ring.slots ≡ max_points_per_env
    pub head_in_range : ring.head < max_points_per_env
    pub counted : ring.count ≡ length window
    pub fits : length window ≤ max_points_per_env
    pub cells :
        (i : ℕ)
        → i < length window
        → get_elem? ring.slots
            ((ring.head + max_points_per_env - length window + i) % max_points_per_env)
          ≡ some (get_elem? window i)

  pub new_ring-Holds : Holds new_ring []
  unfolding new_ring
  new_ring-Holds = record {
    sized = length-replicate {A = Option P} max_points_per_env none;
    head_in_range = omega arith;
    counted = refl;
    fits = omega arith;
    cells = λ i h. absurd (omega arith);
  }

  module _ (point : P) (ring : RingBuffer P) (window : List P) (held : Holds ring window) where
    -- The cell that the new point goes to is not one that the window reads.
    growing_cell :
        (i : ℕ)
        → length window < max_points_per_env
        → i < length window
        → get_elem?
            (set ring.slots ring.head (some point))
            ((ring.head + max_points_per_env - length window + i) % max_points_per_env)
          ≡ some (get_elem? (window ++ point ∷ []) i)
    growing_cell i room h =
        rw
          (
            get_elem?-append window point i h,
            get_elem?-set_ne ring.slots ring.head
                ((ring.head + max_points_per_env - length window + i) % max_points_per_env)
                (some point) (omega (arith, held.head_in_range)),
          )
          (held.cells i h)

    write_growing :
        length window < max_points_per_env → Holds (write point ring) (window ++ point ∷ [])
    unfolding write
    write_growing room = record {
      sized = omega (arith, length-set ring.slots ring.head (some point), held.sized);
      head_in_range = omega arith;
      counted = ground (arith, held.counted, length-append window (point ∷ []));
      fits = omega (arith, length-append window (point ∷ []));
      cells = λ i h. elim (dec_lt i (length window)) [
        | yes old ↦
            let e : ((ring.head + 1) % max_points_per_env
                    + max_points_per_env
                    - length (window ++ point ∷ [])
                    + i)
                  % max_points_per_env
                ≡ (ring.head + max_points_per_env - length window + i) % max_points_per_env =
              omega (arith, length-append window (point ∷ []), held.head_in_range) in
            rw e (growing_cell i room old)
        | no new ↦
            let e : ((ring.head + 1) % max_points_per_env
                    + max_points_per_env
                    - length (window ++ point ∷ [])
                    + i)
                  % max_points_per_env
                ≡ ring.head =
              omega (arith, length-append window (point ∷ []), held.head_in_range) in
            let last : i ≡ length window = omega (arith, length-append window (point ∷ [])) in
            rw (
              e,
              get_elem?-set_self ring.slots ring.head (some point)
                  (omega (arith, held.head_in_range, held.sized)),
              last,
              get_elem?-append_last window point,
            )
      ];
    }

    -- In a full ring the new point replaces the oldest one.
    write_full :
        length window ≡ max_points_per_env
        → Holds (write point ring) (drop 1 (window ++ point ∷ []))
    unfolding write
    write_full full =
        let moved : length (drop 1 (window ++ point ∷ [])) ≡ length window =
          omega (arith, length-drop 1 (window ++ point ∷ []), length-append window (point ∷ [])) in
        record {
          sized = omega (arith, length-set ring.slots ring.head (some point), held.sized);
          head_in_range = omega arith;
          counted = ground (arith, held.counted, moved);
          fits = omega (arith, moved);
          cells = λ i h.
              rw (moved, get_elem?-drop 1 i (suc i) (window ++ point ∷ []) (omega arith))
                (elim (dec_lt (suc i) (length window)) [
                  | yes old ↦
                      let e : ((ring.head + 1) % max_points_per_env
                              + max_points_per_env
                              - length window
                              + i)
                            % max_points_per_env
                          ≡ (ring.head + max_points_per_env - length window + suc i)
                            % max_points_per_env =
                        omega (arith, held.head_in_range) in
                      rw
                        (
                          e,
                          get_elem?-append window point (suc i) old,
                          get_elem?-set_ne ring.slots ring.head
                              ((ring.head + max_points_per_env - length window + suc i)
                                % max_points_per_env)
                              (some point) (omega (arith, held.head_in_range)),
                        )
                        (held.cells (suc i) old)
                  | no new ↦
                      let last : suc i ≡ length window = omega (arith, moved) in
                      let e : ((ring.head + 1) % max_points_per_env
                              + max_points_per_env
                              - length window
                              + i)
                            % max_points_per_env
                          ≡ ring.head =
                        omega (arith, held.head_in_range) in
                      rw (
                        e,
                        get_elem?-set_self ring.slots ring.head (some point)
                            (omega (arith, held.head_in_range, held.sized)),
                        last,
                        get_elem?-append_last window point,
                      )
                ]);
        }

    -- After a write the ring holds the last 360 of the old window and the new point.
    pub write-Holds : Holds (write point ring) (last_n max_points_per_env (window ++ point ∷ []))
    unfolding last_n
    write-Holds = elim (dec_lt (length window) max_points_per_env) [
      | yes room ↦
          rw
            (last_n_all max_points_per_env (window ++ point ∷ [])
              (omega (arith, length-append window (point ∷ []))))
            (write_growing room)
      | no full ↦
          let one : length (window ++ point ∷ []) - max_points_per_env ≡ 1 =
            omega (arith, length-append window (point ∷ []), held.fits) in
          rw one (write_full (omega (arith, held.fits)))
    ]
