-- ===== src/Collector/Effects.antt =====
-- What the handlers do outside the module: rows of the database, events and notifications.
use sagedockhand.Common.{nat_eq, text_eq, ℕ, Bool, Option}
use sagedockhand.Common.Text.{Text}
use sagedockhand.Common.JsMap.{JsMap}

pub data NotificationType : Type 0 where
  error warning success info : NotificationType

pub record Notification : Type 0 where
  pub title : Text
  pub message : Text
  pub level : NotificationType

-- The row that `logContainerEvent` inserts; the time stamp is in milliseconds.
pub record ContainerEventRow : Type 0 where
  pub environment_id : ℕ
  pub container_id : Text
  pub container_name : Option Text
  pub image : Option Text
  pub action : Text
  pub actor_attributes : Option (JsMap Text Text)
  pub timestamp : ℕ

pub record EnvStatus : Type 0 where
  pub env_id : ℕ
  pub name : Text
  pub online : Bool
  pub reason : Option Text

pub data Effect : Type 0 where
  save_event emit_event : ContainerEventRow → Effect
  emit_status : EnvStatus → Effect
  -- `sendEnvironmentNotification(envId, action, notification, image)`
  notify_environment : ℕ → Text → Notification → Option Text → Effect
  -- `sendEventNotification(event, notification, envId)`
  notify_event : Text → Notification → ℕ → Effect
