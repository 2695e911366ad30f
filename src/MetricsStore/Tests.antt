-- ===== src/MetricsStore/Tests.antt =====
-- The metrics store on small inputs, and the theorems at concrete runs.
use sagedockhand.Common.{nat_eq, text_eq, ℕ, ◌≡◌, refl, some, List, [], ◌∷◌}
use sagedockhand.Common.JsMap.{get}
use sagedockhand.MetricsStore.{Reading, Store, push_metric, get_latest_metric}
use sagedockhand.MetricsStore.History.{react_all, note_all, Represents}
use sagedockhand.MetricsStore.Ideal.{Event, Ideal, push, clear}
use sagedockhand.MetricsStore.Answers.{AnswersAs, react_all-AnswersAs}

abbrev reading_of : ℕ → Reading ℕ
reading_of n = record { cpu_percent = n; memory_percent = n; memory_used = n; memory_total = 100 }

abbrev empty_store : Store ℕ ℕ
empty_store = record { rings = []; next_id = 1 }

abbrev empty_ideal : Ideal ℕ ℕ
empty_ideal = record { points = λ env_id. []; next_id = 1 }

empty-Represents : Represents empty_store empty_ideal
unfolding get
empty-Represents = record { distinct = tt; same_id = refl; held = λ env_id. refl }

abbrev events : List (Event ℕ ℕ)
events =
    push 1 (reading_of 7) 100 ∷ push 2 (reading_of 8) 101 ∷ push 1 (reading_of 9) 102 ∷ clear 2 ∷ []

latest_test :
    get_latest_metric 3 (push_metric 3 (reading_of 5) 9 empty_store)
    ≡ some (record { id = 1; reading = reading_of 5; environment_id = 3; timestamp = 9 })
unfolding get_latest_metric push_metric
latest_test = refl

react_all-AnswersAs_example : AnswersAs (react_all events empty_store) (note_all events empty_ideal)
react_all-AnswersAs_example = react_all-AnswersAs events empty_store empty_ideal empty-Represents
