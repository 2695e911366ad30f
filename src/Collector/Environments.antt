-- ===== src/Collector/Environments.antt =====
-- `sendEnvironmentConfigs`: which environments the worker is told to collect from.
use sagedockhand.Common.{
  if◌then◌else◌, keep, ◌==◌, nat_eq, text_eq, member, add_new, ℕ, zero, suc, Bool, not, ◌||◌, List,
  [], ◌∷◌, ◌++◌,
}
use sagedockhand.Common.Text.{Text, codes}
use sagedockhand.Common.JsMap.{JsMap, put, remove}
use sagedockhand.Collector.State.{Collector}

-- A row of the table of environments; an empty text or 0 stands where a value is missing, and a flag that
-- is null is true.
pub record Environment : Type 0 where
  pub id : ℕ
  pub name : Text
  pub connection_type : Text
  pub socket_path : Text
  pub protocol : Text
  pub host : Text
  pub port : ℕ
  pub tls_ca : Text
  pub tls_cert : Text
  pub tls_key : Text
  pub tls_skip_verify : Bool
  pub hawser_token : Text
  pub collect_metrics : Bool
  pub collect_activity : Bool

pub data WorkerConfig : Type 0 where
  socket : Text → WorkerConfig
  -- protocol, host, port, ca, cert, key, skipVerify
  remote : Text → Text → ℕ → Text → Text → Text → Bool → WorkerConfig

-- The messages to the worker.
pub data Command : Type 0 where
  -- envId, name, config, connectionType, hawserToken
  configure : ℕ → Text → WorkerConfig → Text → Text → Command
  forget : ℕ → Command
  set_metrics_interval : ℕ → Command
  set_event_mode : Text → ℕ → Command

abbrev pub or_text : Text → Text → Text
or_text [] other = other
or_text (c ∷ s) other = c ∷ s

abbrev pub or_number : ℕ → ℕ → ℕ
or_number zero other = other
or_number (suc n) other = suc n

unfoldable pub config_of : Environment → WorkerConfig
config_of env =
    if (env.connection_type == codes "socket") || (env.connection_type == [])
    then socket (or_text env.socket_path (codes "/var/run/docker.sock"))
    else remote (or_text env.protocol (codes "http")) (or_text env.host (codes "localhost"))
        (or_number env.port 2375) env.tls_ca env.tls_cert env.tls_key env.tls_skip_verify

abbrev pub configure_env : Environment → Command
configure_env env =
    configure env.id env.name (config_of env) (or_text env.connection_type (codes "socket"))
      env.hawser_token

-- `env.connectionType === 'hawser-edge'`
abbrev pub is_edge : Environment → Bool
is_edge env = env.connection_type == codes "hawser-edge"

abbrev pub is_collected : Environment → Bool
is_collected env = env.collect_metrics || env.collect_activity

-- What the loops have changed so far; the commands are in the order in which they are enqueued.
pub record Sync : Type 0 where
  pub active_ids : List ℕ
  pub env_names : JsMap ℕ Text
  pub configured_envs : List ℕ
  pub commands : List Command

abbrev pub enqueue : Command → Sync → Sync
enqueue command sync = record sync { commands = sync.commands ++ command ∷ [] }

-- The body of the loop over the environments.
unfoldable pub sync_environment : Environment → Sync → Sync
sync_environment env sync =
    if is_edge env
    then sync
    else let seen : Sync = record sync {
      active_ids = add_new env.id sync.active_ids;
      env_names = put env.id env.name sync.env_names;
    } in
      if not (is_collected env)
      then seen
      else enqueue (configure_env env)
          (record seen { configured_envs = add_new env.id seen.configured_envs })

unfoldable pub sync_environments : List Environment → Sync → Sync
sync_environments [] sync = sync
sync_environments (env ∷ envs) sync = sync_environments envs (sync_environment env sync)

-- `configuredEnvs.delete(envId)`
abbrev pub without : ℕ → List ℕ → List ℕ
without env_id ids = keep (λ i. not (i == env_id)) ids

-- The body of the loop that removes environments.
unfoldable pub forget_if_inactive : ℕ → Sync → Sync
forget_if_inactive env_id sync =
    if member env_id sync.active_ids
    then sync
    else enqueue (forget env_id) (record sync {
      configured_envs = without env_id sync.configured_envs;
      env_names = remove env_id sync.env_names;
    })

-- The loop goes over the ids that are configured when it starts: deleting the current one skips no other.
unfoldable pub forget_inactive : List ℕ → Sync → Sync
forget_inactive [] sync = sync
forget_inactive (env_id ∷ ids) sync = forget_inactive ids (forget_if_inactive env_id sync)

abbrev pub settings_commands : ℕ → Text → ℕ → List Command
settings_commands metrics_interval event_mode poll_interval =
    set_metrics_interval metrics_interval ∷ set_event_mode event_mode poll_interval ∷ []

abbrev pub start_sync : Collector → Sync
start_sync collector = record {
  active_ids = [];
  env_names = collector.env_names;
  configured_envs = collector.configured_envs;
  commands = [];
}

unfoldable pub synced : List Environment → Collector → Sync
synced environments collector =
    let sync = sync_environments environments (start_sync collector) in
    forget_inactive sync.configured_envs sync

-- `sendEnvironmentConfigs()`: the variables after it, and the commands that it writes when the worker
-- can be written to.
unfoldable pub send_environment_configs :
    List Environment → ℕ → Text → ℕ → Collector → Collector × List Command
send_environment_configs environments metrics_interval event_mode poll_interval collector =
    let sync = synced environments collector in
    (
      record collector { env_names = sync.env_names; configured_envs = sync.configured_envs },
      sync.commands ++ settings_commands metrics_interval event_mode poll_interval,
    )
