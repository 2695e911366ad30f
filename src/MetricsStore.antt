-- ===== src/MetricsStore.antt =====
-- src/lib/server/metrics-store.ts: a ring buffer of metric points for each environment. The numbers
-- of a point (JavaScript floats) have the type `F` and its time stamp the type `T`; the id is a
-- counter. A cell that was never written is `none`, as `null` is.
pub mod Window
pub mod RingSlots
pub mod Ring
pub mod Ideal
pub mod History
pub mod Answers
mod Tests
use sagedockhand.Common.{
  ltb, if◌then◌else◌, get_elem?, set, take, replicate, ◌==◌, nat_eq, text_eq, ℕ, zero, suc, ◌+◌,
  ◌-◌, ◌%◌, min, Bool, false, Option, none, some, List, [], ◌∷◌, ◌++◌,
}
use sagedockhand.Common.Sort.{sort_by}
use sagedockhand.Common.JsMap.{JsMap, get, put, remove}

-- The numbers that a caller measures: cpuPercent, memoryPercent, memoryUsed, memoryTotal.
pub record Reading (F : Type 0) : Type 0 where
  pub cpu_percent : F
  pub memory_percent : F
  pub memory_used : F
  pub memory_total : F

pub record MetricPoint (F T : Type 0) : Type 0 where
  pub id : ℕ
  pub reading : Reading F
  pub environment_id : ℕ
  pub timestamp : T

abbrev pub max_points_per_env : ℕ
max_points_per_env = 360

pub record RingBuffer (P : Type 0) : Type 0 where
  pub slots : List (Option P)
  pub head : ℕ
  pub count : ℕ

pub record Store (F T : Type 0) : Type 0 where
  pub rings : JsMap ℕ (RingBuffer (MetricPoint F T))
  pub next_id : ℕ

module _ {P : Type 0} where
  -- `{ data: new Array(MAX_POINTS_PER_ENV).fill(null), head: 0, count: 0 }`
  pub new_ring : RingBuffer P
  new_ring = record { slots = replicate max_points_per_env none; head = 0; count = 0 }

  -- The three statements of `pushMetric` that write to the ring.
  pub write : P → RingBuffer P → RingBuffer P
  write point ring = record {
    slots = set ring.slots ring.head (some point);
    head = (ring.head + 1) % max_points_per_env;
    count = if ltb ring.count max_points_per_env then ring.count + 1 else ring.count;
  }

  -- `ring.data[i]`, where neither `undefined` nor `null` is a point.
  pub slot_at : List (Option P) → ℕ → Option P
  slot_at slots i = elim (get_elem? slots i) [ none ↦ none | some cell ↦ cell ]

  -- The loop of `readRing`: `left` rounds, the next of which reads at `read_from`.
  pub read_slots : List (Option P) → ℕ → ℕ → List (Option P)
  unfolding slot_at
  read_slots slots zero read_from = []
  read_slots slots (suc left) read_from =
      slot_at slots (read_from % max_points_per_env) ∷ read_slots slots left (read_from + 1)

  -- `readRing(ring, limit)`
  pub read_ring : RingBuffer P → ℕ → List (Option P)
  unfolding read_slots
  read_ring ring limit =
      let count = min ring.count limit in
      let start = (ring.head + max_points_per_env - ring.count) % max_points_per_env in
      let skip = ring.count - count in
      let read_from = (start + skip) % max_points_per_env in
      if count == 0 then [] else read_slots ring.slots count read_from

  -- The body of `getLatestMetric` on the ring that it finds.
  pub latest : RingBuffer P → Option P
  unfolding slot_at
  latest ring =
      if ring.count == 0
      then none
      else slot_at ring.slots ((ring.head + max_points_per_env - 1) % max_points_per_env)

module _ {F T : Type 0} where
  -- `if (!ring) ring = …`
  abbrev pub found_or_new : Option (RingBuffer (MetricPoint F T)) → RingBuffer (MetricPoint F T)
  found_or_new none = new_ring
  found_or_new (some ring) = ring

  -- `pushMetric(envId, …)` at the time `now`
  pub push_metric : ℕ → Reading F → T → Store F T → Store F T
  unfolding get put write new_ring
  push_metric env_id reading now s =
      let ring = found_or_new (get env_id s.rings) in
      let point : MetricPoint F T = record {
        id = s.next_id;
        reading = reading;
        environment_id = env_id;
        timestamp = now;
      } in
      record { rings = put env_id (write point ring) s.rings; next_id = s.next_id + 1 }

  -- `getLatestMetric(envId)`, on the ring that it finds.
  abbrev pub latest_in : Option (RingBuffer (MetricPoint F T)) → Option (MetricPoint F T)
  latest_in none = none
  latest_in (some ring) = latest ring

  pub get_latest_metric : ℕ → Store F T → Option (MetricPoint F T)
  unfolding get latest
  get_latest_metric env_id s = latest_in (get env_id s.rings)

  -- `getMetricsHistory(envId, limit)`, on the ring that it finds.
  abbrev pub history_in :
      Option (RingBuffer (MetricPoint F T)) → ℕ → List (Option (MetricPoint F T))
  history_in none limit = []
  history_in (some ring) limit = if ring.count == 0 then [] else read_ring ring limit

  pub get_metrics_history : ℕ → ℕ → Store F T → List (Option (MetricPoint F T))
  unfolding get read_ring
  get_metrics_history env_id limit s = history_in (get env_id s.rings) limit

  -- `all.push(...readRing(ring, ring.count))` for each ring
  pub all_points : JsMap ℕ (RingBuffer (MetricPoint F T)) → List (Option (MetricPoint F T))
  unfolding read_ring
  all_points [] = []
  all_points ((env_id, ring) ∷ rings) = read_ring ring ring.count ++ all_points rings

  -- `b.id - a.id` is negative. No point is missing where this is called.
  abbrev pub newest_first : Option (MetricPoint F T) → Option (MetricPoint F T) → Bool
  newest_first (some a) (some b) = ltb b.id a.id
  newest_first _ _ = false

  -- `getAllMetrics(limit)`
  pub get_all_metrics : ℕ → Store F T → List (Option (MetricPoint F T))
  unfolding all_points sort_by
  get_all_metrics limit s = take limit (sort_by newest_first (all_points s.rings))

  -- `clearEnvironmentMetrics(envId)`
  pub clear_environment_metrics : ℕ → Store F T → Store F T
  unfolding remove
  clear_environment_metrics env_id s = record s { rings = remove env_id s.rings }
