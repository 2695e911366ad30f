-- ===== src/Collector/Health.antt =====
-- `isHealthTransition`.
use sagedockhand.Common.{
  if◌then◌else◌, ◌==◌, nat_eq, text_eq, ℕ, Bool, true, false, not, ◌||◌, Option, none, some, List,
  [], ◌∷◌,
}
use sagedockhand.Common.Text.{Text, codes, starts_with, contains, split, trim}
use sagedockhand.Common.JsMap.{JsMap, get, put, remove}
use sagedockhand.Collector.State.{env_key}

-- `action.split(':').pop()!.trim()`
abbrev pub last_part : List Text → Text
last_part [] = []
last_part (part ∷ []) = part
last_part (part ∷ next ∷ parts) = last_part (next ∷ parts)

unfoldable pub sub_status : Text → Text
sub_status action = if contains b':' action then trim (last_part (split b':' action)) else action

abbrev pub clears : Text → Bool
clears action = (action == codes "destroy") || (action == codes "die")

-- `previous === subStatus`
abbrev pub is_same_status : Option Text → Text → Bool
is_same_status none status = false
is_same_status (some previous) status = previous == status

-- `isHealthTransition(envId, containerId, action)`, with the map before and after it
unfoldable pub is_health_transition : ℕ → Text → Text → JsMap Text Text → JsMap Text Text × Bool
is_health_transition env_id container_id action last =
    let key = env_key env_id container_id in
    if clears action
    then (remove key last, true)
    else if not (starts_with action (codes "health_status"))
    then (last, true)
    else if is_same_status (get key last) (sub_status action)
    then (last, false)
    else (put key (sub_status action) last, true)
