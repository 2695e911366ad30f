-- ===== src/MetricsStore/Answers.antt =====
-- What the queries answer of a store that represents a history.
use sagedockhand.Common.{length, get_elem?, take, ℕ, ◌-◌, min, ◌≡◌, some, List, map}
use sagedockhand.Common.Sort.{IsSorted}
use sagedockhand.MetricsStore.{
  MetricPoint, max_points_per_env, Store, get_latest_metric, get_metrics_history, get_all_metrics,
}
use sagedockhand.MetricsStore.History.{
  react_all, note_all, react_all-Represents, Represents, get_metrics_history-eq,
  get_latest_metric-eq, windows, by_id, get_all_metrics-eq,
}
use sagedockhand.MetricsStore.Window.{last_n}
use sagedockhand.MetricsStore.Ideal.{Ideal, Event}
use mathlib.Core.List.{Perm}

module _ {F T : Type 0} where
  -- The points of an environment are its last ones, up to the limit and to the capacity; the latest is the
  -- last point of the history; and the points of all environments come newest first.
  pub record AnswersAs (s : Store F T) (h : Ideal F T) : Type 0 where
    pub history :
        (env_id limit : ℕ)
        → get_metrics_history env_id limit s
          ≡ map some (last_n (min limit max_points_per_env) (h.points env_id))
    pub last :
        (env_id : ℕ)
        → get_latest_metric env_id s ≡ get_elem? (h.points env_id) (length (h.points env_id) - 1)
    pub all :
        (limit : ℕ)
        → (points : List (MetricPoint F T)) × (get_all_metrics limit s
            ≡ take limit (map some points))
          × IsSorted by_id points
          × Perm points (windows s.rings h)

  pub Represents-AnswersAs : (s : Store F T) (h : Ideal F T) → Represents s h → AnswersAs s h
  Represents-AnswersAs s h r = record {
    history = λ env_id limit. get_metrics_history-eq env_id limit s h r;
    last = λ env_id. get_latest_metric-eq env_id s h r;
    all = λ limit. get_all_metrics-eq limit s h r;
  }

  -- After any pushes and clears, to a store that represents a history and to that history: the history of
  -- an environment is its last points, up to the limit and to 360; its latest metric is the last point of
  -- all; and the metrics of all environments are the first up to the limit of their last 360 points each,
  -- newest first.
  pub react_all-AnswersAs :
      (events : List (Event F T)) (s : Store F T) (h : Ideal F T)
      → Represents s h
      → AnswersAs (react_all events s) (note_all events h)
  react_all-AnswersAs events s h r =
      Represents-AnswersAs (react_all events s) (note_all events h)
        (react_all-Represents events s h r)
