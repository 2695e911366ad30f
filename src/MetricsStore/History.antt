-- ===== src/MetricsStore/History.antt =====
-- The metrics store against an ideal one that keeps every point for ever: what each reading function
-- returns after any run of pushes and clears.
use sagedockhand.Common.{
  ltb, if◌then◌else◌, Bool-cases, length, get_elem?, take, All, ◌==◌, eq_iff, nat_eq, text_eq, ℕ,
  ◌+◌, ◌-◌, min, ◌≡◌, refl, ◌∙◌, inl, inr, Bool, Option, none, some, List, [], ◌∷◌, ◌++◌, map,
  arith,
}
use sagedockhand.Common.Sort.{sort_by, IsSorted, sort_by-Perm, sort_by-IsSorted, sort_by-map}
use sagedockhand.Common.JsMap.{
  JsMap, get, put, IsDistinct, get-put, get-remove, IsDistinct-put, IsDistinct-remove, All-of_get,
}
use sagedockhand.MetricsStore.{
  MetricPoint, max_points_per_env, RingBuffer, Store, write, found_or_new, push_metric, latest_in,
  get_latest_metric, history_in, get_metrics_history, all_points, newest_first, get_all_metrics,
  clear_environment_metrics,
}
use sagedockhand.MetricsStore.RingSlots.{Holds, new_ring-Holds, write-Holds}
use sagedockhand.MetricsStore.Window.{last_n, last_n_all, last_n_nil, last_n-last_n, last_n_push}
use sagedockhand.MetricsStore.Ring.{read_ring-eq, latest-eq}
use sagedockhand.MetricsStore.Ideal.{
  Event, Ideal, HoldsIn, window_empty, get_elem?-last_n_end, push, clear,
}
use mathlib.Core.List.{map-append, Perm}

module _ {F T : Type 0} where
  pub react : Event F T → Store F T → Store F T
  react (push env_id reading now) s = push_metric env_id reading now s
  react (clear env_id) s = clear_environment_metrics env_id s

  pub note : Event F T → Ideal F T → Ideal F T
  note (push env_id reading now) h = record {
    points = λ other.
        if env_id == other
        then h.points env_id
          ++ record { id = h.next_id; reading = reading; environment_id = env_id; timestamp = now }
            ∷ []
        else h.points other;
    next_id = h.next_id + 1;
  }
  note (clear env_id) h = record h {
    points = λ other. if env_id == other then [] else h.points other;
  }

  pub react_all : List (Event F T) → Store F T → Store F T
  unfolding react
  react_all [] s = s
  react_all (event ∷ events) s = react_all events (react event s)

  pub note_all : List (Event F T) → Ideal F T → Ideal F T
  unfolding note
  note_all [] h = h
  note_all (event ∷ events) h = note_all events (note event h)

  pub record Represents (s : Store F T) (h : Ideal F T) : Type 0 where
    pub distinct : IsDistinct s.rings
    pub same_id : s.next_id ≡ h.next_id
    pub held : (env_id : ℕ) → HoldsIn (get env_id s.rings) (h.points env_id)

  found_or_new-Holds :
      (found : Option (RingBuffer (MetricPoint F T))) (points : List (MetricPoint F T))
      → HoldsIn found points
      → Holds (found_or_new found) (last_n max_points_per_env points)
  found_or_new-Holds none points h = rw (h, last_n_nil) new_ring-Holds
  found_or_new-Holds (some ring) points h = h

  push_metric-held :
      (env_id other : ℕ) (point : MetricPoint F T) (s : Store F T) (h : Ideal F T)
      → Represents s h
      → HoldsIn
          (get other (put env_id (write point (found_or_new (get env_id s.rings))) s.rings))
          (if env_id == other then h.points env_id ++ point ∷ [] else h.points other)
  push_metric-held env_id other point s h r = rw get-put (elim (Bool-cases (env_id == other)) [
    | inl same ↦
        rw (same, ← last_n_push max_points_per_env (h.points env_id) point (omega arith))
          (write-Holds point _ _
            (found_or_new-Holds (get env_id s.rings) (h.points env_id) (r.held env_id)))
    | inr differ ↦ rw differ (r.held other)
  ])

  react-Represents :
      (event : Event F T) (s : Store F T) (h : Ideal F T)
      → Represents s h
      → Represents (react event s) (note event h)
  unfolding react note push_metric clear_environment_metrics
  react-Represents (push env_id reading now) s h r =
      let point : MetricPoint F T = record {
        id = s.next_id;
        reading = reading;
        environment_id = env_id;
        timestamp = now;
      } in
      record {
        distinct =
            IsDistinct-put env_id (write point (found_or_new (get env_id s.rings))) s.rings
              r.distinct;
        same_id = omega (arith, r.same_id);
        held = λ other. rw (← r.same_id) (push_metric-held env_id other point s h r);
      }
  react-Represents (clear env_id) s h r = record {
    distinct = IsDistinct-remove env_id s.rings r.distinct;
    same_id = r.same_id;
    held = λ other. rw get-remove (elim (Bool-cases (env_id == other)) [
      | inl same ↦ rw same refl
      | inr differ ↦ rw differ (r.held other)
    ]);
  }

  -- A store that represents a history still represents the history after any pushes and clears that
  -- both are given.
  pub react_all-Represents :
      (events : List (Event F T)) (s : Store F T) (h : Ideal F T)
      → Represents s h
      → Represents (react_all events s) (note_all events h)
  unfolding react_all note_all
  react_all-Represents [] s h r = r
  react_all-Represents (event ∷ events) s h r =
      react_all-Represents events (react event s) (note event h) (react-Represents event s h r)

  history_in-eq :
      (found : Option (RingBuffer (MetricPoint F T))) (points : List (MetricPoint F T)) (limit : ℕ)
      → HoldsIn found points
      → history_in found limit ≡ map some (last_n (min limit max_points_per_env) points)
  history_in-eq none points limit e = rw (e, last_n_nil)
  history_in-eq (some ring) points limit held =
      rw (← last_n-last_n limit max_points_per_env points) (elim (Bool-cases (ring.count == 0)) [
        | inl empty ↦
            rw (empty, window_empty ring points held ((eq_iff _ _).0 empty), last_n_nil, last_n_nil)
        | inr more ↦ rw more (read_ring-eq ring (last_n max_points_per_env points) limit held)
      ])

  latest_in-eq :
      (found : Option (RingBuffer (MetricPoint F T))) (points : List (MetricPoint F T))
      → HoldsIn found points
      → latest_in found ≡ get_elem? points (length points - 1)
  latest_in-eq none points e = rw e
  latest_in-eq (some ring) points held =
      latest-eq ring (last_n max_points_per_env points) held
      ∙ get_elem?-last_n_end max_points_per_env points (omega arith)

  -- A store that represents a history returns, for any environment and limit, the newest `limit` of its
  -- last 360 points, oldest first, with no gap.
  pub get_metrics_history-eq :
      (env_id limit : ℕ) (s : Store F T) (h : Ideal F T)
      → Represents s h
      → get_metrics_history env_id limit s
        ≡ map some (last_n (min limit max_points_per_env) (h.points env_id))
  unfolding get_metrics_history
  get_metrics_history-eq env_id limit s h r =
      history_in-eq (get env_id s.rings) (h.points env_id) limit (r.held env_id)

  -- `getLatestMetric` returns the last point pushed for the environment since it was last cleared,
  -- and nothing if there is none.
  pub get_latest_metric-eq :
      (env_id : ℕ) (s : Store F T) (h : Ideal F T)
      → Represents s h
      → get_latest_metric env_id s ≡ get_elem? (h.points env_id) (length (h.points env_id) - 1)
  unfolding get_latest_metric
  get_latest_metric-eq env_id s h r =
      latest_in-eq (get env_id s.rings) (h.points env_id) (r.held env_id)

  -- The windows of all environments, in the order of their rings.
  pub windows : JsMap ℕ (RingBuffer (MetricPoint F T)) → Ideal F T → List (MetricPoint F T)
  windows [] h = []
  windows ((env_id, ring) ∷ rings) h =
      last_n max_points_per_env (h.points env_id) ++ windows rings h

  all_points-eq :
      (rings : JsMap ℕ (RingBuffer (MetricPoint F T))) (h : Ideal F T)
      → All (λ entry. Holds entry.1 (last_n max_points_per_env (h.points entry.0))) rings
      → all_points rings ≡ map some (windows rings h)
  unfolding all_points windows
  all_points-eq [] h _ = refl
  all_points-eq ((env_id, ring) ∷ rings) h (held, more) =
      let window = last_n max_points_per_env (h.points env_id) in
      rw (
        read_ring-eq ring window ring.count held,
        last_n_all ring.count window (omega (arith, held.counted)),
        all_points-eq rings h more,
        map-append,
      )

  pub by_id : MetricPoint F T → MetricPoint F T → Bool
  by_id a b = ltb b.id a.id

  -- `getAllMetrics` returns the first `limit` of the points that all environments keep, and these are
  -- rearranged so that no point stands before one with a greater id.
  pub get_all_metrics-eq :
      (limit : ℕ) (s : Store F T) (h : Ideal F T)
      → Represents s h
      → (points : List (MetricPoint F T)) × (get_all_metrics limit s ≡ take limit (map some points))
        × IsSorted by_id points
        × Perm points (windows s.rings h)
  unfolding get_all_metrics by_id
  get_all_metrics-eq limit s h r = (
    sort_by by_id (windows s.rings h),
    rw (
      all_points-eq s.rings h (
          All-of_get (λ env_id ring. Holds ring (last_n max_points_per_env (h.points env_id)))
            s.rings r.distinct (λ env_id ring found. rw found at (r.held env_id))),
      sort_by-map some by_id newest_first (λ x y. refl),
    ),
    sort_by-IsSorted by_id (λ x y h. ground arith) (λ x y z h k. ground arith) (windows s.rings h),
    sort_by-Perm by_id (windows s.rings h),
  )
