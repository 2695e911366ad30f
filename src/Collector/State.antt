-- ===== src/Collector/State.antt =====
-- The variables of the module that the message handlers use.
use sagedockhand.Common.{nat_eq, text_eq, ℕ, Option, none, some, List, [], ◌∷◌, ◌++◌}
use sagedockhand.Common.Text.{Text, codes, to_decimal}
use sagedockhand.Common.JsMap.{JsMap, get}

pub record Collector : Type 0 where
  pub recent_events : JsMap Text ℕ
  pub last_disk_warning : JsMap ℕ ℕ
  pub env_names : JsMap ℕ Text
  pub configured_envs : List ℕ
  pub last_health_status : JsMap Text Text

-- `${envId}-${rest}`
abbrev pub env_key : ℕ → Text → Text
env_key env_id rest = to_decimal env_id ++ b'-' ∷ rest

-- `envNames.get(envId) || `env-${envId}``
abbrev pub name_or_default : ℕ → Option Text → Text
name_or_default env_id none = codes "env-" ++ to_decimal env_id
name_or_default env_id (some []) = codes "env-" ++ to_decimal env_id
name_or_default env_id (some (c ∷ name)) = c ∷ name

unfoldable pub env_name : ℕ → Collector → Text
env_name env_id collector = name_or_default env_id (get env_id collector.env_names)
