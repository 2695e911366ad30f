-- ===== src/Collector/Relevance.antt =====
-- `handleContainerEvent`: the fields of an event, and which events count.
use sagedockhand.Common.{
  if◌then◌else◌, and_then, any, ◌==◌, nat_eq, text_eq, member, ℕ, Bool, false, not, ◌&&◌, Option,
  none, some, List, [], ◌∷◌, ◌++◌,
}
use sagedockhand.Common.Text.{Text, codes, starts_with, includes, split, to_lower}
use sagedockhand.Common.JsMap.{JsMap, get}
use sagedockhand.Collector.State.{env_key}

-- A missing actor, or one without an id, has the empty id.
pub record DockerEvent : Type 0 where
  pub kind : Text
  pub action : Text
  pub actor_id : Text
  pub attributes : Option (JsMap Text Text)
  pub time_nano : ℕ

abbrev pub container_actions : List Text
container_actions =
    codes "create"
    ∷ codes "start"
    ∷ codes "stop"
    ∷ codes "die"
    ∷ codes "kill"
    ∷ codes "restart"
    ∷ codes "pause"
    ∷ codes "unpause"
    ∷ codes "destroy"
    ∷ codes "rename"
    ∷ codes "update"
    ∷ codes "oom"
    ∷ codes "health_status"
    ∷ []

abbrev pub scanner_image_patterns : List Text
scanner_image_patterns =
    codes "anchore/grype"
    ∷ codes "aquasec/trivy"
    ∷ codes "ghcr.io/anchore/grype"
    ∷ codes "ghcr.io/aquasecurity/trivy"
    ∷ []

abbrev pub excluded_container_prefixes : List Text
excluded_container_prefixes = codes "dockhand-browse-" ∷ []

-- `event.Actor?.Attributes?.name`, and whether a text is given and not empty
abbrev pub attribute : Text → DockerEvent → Option Text
attribute key event = and_then event.attributes (get key)

abbrev pub or_null : Option Text → Option Text
or_null none = none
or_null (some []) = none
or_null (some (c ∷ s)) = some (c ∷ s)

abbrev pub head_part : List Text → Text
head_part [] = []
head_part (part ∷ parts) = part

-- `rawAction.split(':')[0]`
unfoldable pub base_action : Text → Text
base_action raw = head_part (split b':' raw)

abbrev pub is_health : Text → Bool
is_health action = starts_with action (codes "health_status")

-- The action that is recorded.
unfoldable pub action_of : Text → Text
action_of raw = if is_health raw then raw else base_action raw

abbrev pub is_scanner : Option Text → Bool
is_scanner none = false
is_scanner (some image) =
    any (λ pattern. includes (to_lower image) (to_lower pattern)) scanner_image_patterns

abbrev pub is_excluded : Option Text → Bool
is_excluded none = false
is_excluded (some name) = any (λ prefix. starts_with name prefix) excluded_container_prefixes

-- The early returns up to the one for excluded containers.
unfoldable pub is_relevant : DockerEvent → Bool
is_relevant event =
    (event.kind == codes "container")
    && member (base_action event.action) container_actions
    && not (event.actor_id == [])
    && not (is_scanner (attribute (codes "image") event))
    && not (is_excluded (attribute (codes "name") event))

-- `${msg.envId}-${event.timeNano}-${containerId}-${action}`
unfoldable pub dedup_key : ℕ → DockerEvent → Text
dedup_key env_id event =
    env_key env_id (env_key event.time_nano (event.actor_id ++ b'-' ∷ action_of event.action))
