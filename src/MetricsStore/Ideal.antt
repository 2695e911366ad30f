-- ===== src/MetricsStore/Ideal.antt =====
-- The history that the ring buffers stand for: the readings pushed since the last clear.
use sagedockhand.Common.{
  length, get_elem?, ℕ, ◌-◌, ◌<◌, ◌≡◌, refl, Option, none, some, List, [], ◌∷◌, arith,
}
use sagedockhand.MetricsStore.{Reading, MetricPoint, max_points_per_env, RingBuffer}
use sagedockhand.MetricsStore.RingSlots.{Holds}
use sagedockhand.MetricsStore.Window.{last_n, length-last_n, last_n_nil}
use sagedockhand.MetricsStore.Ring.{get_elem?-last_n}

-- What the collectors and the environment handlers do to the store.
pub data Event (F T : Type 0) : Type 0 where
  push : ℕ → Reading F → T → Event F T
  clear : ℕ → Event F T

-- All points of each environment since it was last cleared, oldest first.
pub record Ideal (F T : Type 0) : Type 0 where
  pub points : ℕ → List (MetricPoint F T)
  pub next_id : ℕ

-- An environment without a ring has no points.
abbrev pub HoldsIn : {P : Type 0} → Option (RingBuffer P) → List P → Type 0
HoldsIn none points = points ≡ []
HoldsIn (some ring) points = Holds ring (last_n max_points_per_env points)

-- The last element of a window is the last of the whole.
pub window_empty :
    {P : Type 0} (ring : RingBuffer P) (points : List P)
    → Holds ring (last_n max_points_per_env points)
    → ring.count ≡ 0
    → points ≡ []
window_empty ring [] held e = refl
window_empty ring (x ∷ xs) held e =
    absurd (omega (arith, held.counted, length-last_n max_points_per_env (x ∷ xs)))

pub get_elem?-last_n_end :
    {P : Type 0} (n : ℕ) (xs : List P)
    → 0 < n
    → get_elem? (last_n n xs) (length (last_n n xs) - 1) ≡ get_elem? xs (length xs - 1)
get_elem?-last_n_end n [] h = rw last_n_nil
get_elem?-last_n_end n (x ∷ xs) h =
    get_elem?-last_n n (length (last_n n (x ∷ xs)) - 1) (length (x ∷ xs) - 1) (x ∷ xs)
      (omega (arith, length-last_n n (x ∷ xs)))
