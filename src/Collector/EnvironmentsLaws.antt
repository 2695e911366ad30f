-- ===== src/Collector/EnvironmentsLaws.antt =====
-- Which environments are configured after a synchronisation, and what the worker is told of it.
use sagedockhand.Common.{
  ◌==◌, eq_iff, nat_eq, text_eq, member, add_new, member-add_new, ℕ, ◌≡◌, refl, ap, ◌∙◌, Bool, true,
  false, not, ◌&&◌, ◌||◌, List, [], ◌∷◌, ◌++◌, arith,
}
use sagedockhand.Common.Text.{Text}
use sagedockhand.Collector.State.{Collector}
use sagedockhand.Collector.Environments.{
  Environment, Command, configure_env, is_edge, is_collected, Sync, sync_environment,
  sync_environments, without, forget_if_inactive, forget_inactive, settings_commands, start_sync,
  synced, send_environment_configs, configure, forget, set_metrics_interval, set_event_mode,
}

-- The ids of the environments that pass a test.
abbrev pub has_env : ℕ → (Environment → Bool) → List Environment → Bool
has_env env_id p [] = false
has_env env_id p (env ∷ envs) = ((env.id == env_id) && p env) || has_env env_id p envs

abbrev pub is_direct : Environment → Bool
is_direct env = not (is_edge env)

abbrev pub is_wanted : Environment → Bool
is_wanted env = not (is_edge env) && is_collected env

active_ids-sync_environments :
    (env_id : ℕ) (envs : List Environment) (sync : Sync)
    → member env_id (sync_environments envs sync).active_ids
      ≡ (member env_id sync.active_ids || has_env env_id is_direct envs)
unfolding sync_environments sync_environment
active_ids-sync_environments env_id [] sync = ground arith
active_ids-sync_environments env_id (env ∷ envs) sync = ground (
  arith,
  active_ids-sync_environments env_id envs (sync_environment env sync),
  member-add_new env_id env.id sync.active_ids,
)

configured_envs-sync_environments :
    (env_id : ℕ) (envs : List Environment) (sync : Sync)
    → member env_id (sync_environments envs sync).configured_envs
      ≡ (member env_id sync.configured_envs || has_env env_id is_wanted envs)
unfolding sync_environments sync_environment
configured_envs-sync_environments env_id [] sync = ground arith
configured_envs-sync_environments env_id (env ∷ envs) sync = ground (
  arith,
  configured_envs-sync_environments env_id envs (sync_environment env sync),
  member-add_new env_id env.id sync.configured_envs,
)

member-without :
    (env_id own : ℕ) (ids : List ℕ)
    → member env_id (without own ids) ≡ (member env_id ids && not (own == env_id))
unfolding member
member-without env_id own [] = refl
member-without env_id own (i ∷ ids) = ground (arith, member-without env_id own ids)

active_ids-forget_if_inactive :
    (i : ℕ) (sync : Sync) → (forget_if_inactive i sync).active_ids ≡ sync.active_ids
unfolding forget_if_inactive
active_ids-forget_if_inactive i sync = ground arith

configured_envs-forget_if_inactive :
    (env_id i : ℕ) (sync : Sync)
    → member env_id (forget_if_inactive i sync).configured_envs
      ≡ (member env_id sync.configured_envs && (member env_id sync.active_ids || not (i == env_id)))
unfolding forget_if_inactive
configured_envs-forget_if_inactive env_id i sync =
    let known : (i == env_id) ≡ true → member i sync.active_ids ≡ member env_id sync.active_ids =
      λ h. ap (λ k. member k sync.active_ids) ((eq_iff i env_id).0 h) in
    ground (arith, known, member-without env_id i sync.configured_envs)

configured_envs-forget_inactive :
    (env_id : ℕ) (ids : List ℕ) (sync : Sync)
    → member env_id (forget_inactive ids sync).configured_envs ≡ (
        member env_id sync.configured_envs
        && (member env_id sync.active_ids || not (member env_id ids)))
unfolding forget_inactive member
configured_envs-forget_inactive env_id [] sync = ground arith
configured_envs-forget_inactive env_id (i ∷ ids) sync =
    let active = ap (member env_id) (active_ids-forget_if_inactive i sync) in
    ground (
      arith,
      active,
      configured_envs-forget_inactive env_id ids (forget_if_inactive i sync),
      configured_envs-forget_if_inactive env_id i sync,
    )

has_env_wanted :
    (env_id : ℕ) (envs : List Environment)
    → (has_env env_id is_wanted envs && not (has_env env_id is_direct envs)) ≡ false
has_env_wanted env_id [] = refl
has_env_wanted env_id (env ∷ envs) = ground (arith, has_env_wanted env_id envs)

configured_envs-synced :
    (env_id : ℕ) (envs : List Environment) (collector : Collector)
    → member env_id (synced envs collector).configured_envs ≡ (
        (member env_id collector.configured_envs && has_env env_id is_direct envs)
        || has_env env_id is_wanted envs)
unfolding synced member
configured_envs-synced env_id envs collector =
    let sync = sync_environments envs (start_sync collector) in
    ground (
      arith,
      configured_envs-forget_inactive env_id sync.configured_envs sync,
      active_ids-sync_environments env_id envs (start_sync collector),
      configured_envs-sync_environments env_id envs (start_sync collector),
      has_env_wanted env_id envs,
    )

-- What a worker that does as it is told collects from.
abbrev pub obey : Command → List ℕ → List ℕ
obey (configure env_id name config connection_type token) ids = add_new env_id ids
obey (forget env_id) ids = without env_id ids
obey (set_metrics_interval interval) ids = ids
obey (set_event_mode mode interval) ids = ids

unfoldable pub obey_all : List Command → List ℕ → List ℕ
obey_all [] ids = ids
obey_all (command ∷ commands) ids = obey_all commands (obey command ids)

obey_all-append :
    (commands later : List Command) (ids : List ℕ)
    → obey_all (commands ++ later) ids ≡ obey_all later (obey_all commands ids)
unfolding obey_all
obey_all-append [] later ids = refl
obey_all-append (c ∷ commands) later ids = obey_all-append commands later (obey c ids)

-- The worker agrees on one environment.
abbrev Agrees : ℕ → List ℕ → Sync → Type 0
Agrees env_id ids sync =
    member env_id (obey_all sync.commands ids) ≡ member env_id sync.configured_envs

Agrees-sync_environment :
    (env_id : ℕ) (ids : List ℕ) (env : Environment) (sync : Sync)
    → Agrees env_id ids sync
    → Agrees env_id ids (sync_environment env sync)
unfolding sync_environment obey_all
Agrees-sync_environment env_id ids env sync h = ground (
  arith,
  h,
  ap (member env_id) (obey_all-append sync.commands (configure_env env ∷ []) ids),
  member-add_new env_id env.id (obey_all sync.commands ids),
  member-add_new env_id env.id sync.configured_envs,
)

Agrees-sync_environments :
    (env_id : ℕ) (ids : List ℕ) (envs : List Environment) (sync : Sync)
    → Agrees env_id ids sync
    → Agrees env_id ids (sync_environments envs sync)
unfolding sync_environments
Agrees-sync_environments env_id ids [] sync h = h
Agrees-sync_environments env_id ids (env ∷ envs) sync h =
    Agrees-sync_environments env_id ids envs (sync_environment env sync)
      (Agrees-sync_environment env_id ids env sync h)

Agrees-forget_if_inactive :
    (env_id : ℕ) (ids : List ℕ) (i : ℕ) (sync : Sync)
    → Agrees env_id ids sync
    → Agrees env_id ids (forget_if_inactive i sync)
unfolding forget_if_inactive obey_all
Agrees-forget_if_inactive env_id ids i sync h = ground (
  arith,
  h,
  ap (member env_id) (obey_all-append sync.commands (forget i ∷ []) ids),
  member-without env_id i (obey_all sync.commands ids),
  member-without env_id i sync.configured_envs,
)

Agrees-forget_inactive :
    (env_id : ℕ) (ids inactive : List ℕ) (sync : Sync)
    → Agrees env_id ids sync
    → Agrees env_id ids (forget_inactive inactive sync)
unfolding forget_inactive
Agrees-forget_inactive env_id ids [] sync h = h
Agrees-forget_inactive env_id ids (i ∷ inactive) sync h =
    Agrees-forget_inactive env_id ids inactive (forget_if_inactive i sync)
      (Agrees-forget_if_inactive env_id ids i sync h)

Agrees-synced :
    (env_id : ℕ) (envs : List Environment) (collector : Collector)
    → Agrees env_id collector.configured_envs (synced envs collector)
unfolding synced obey_all
Agrees-synced env_id envs collector =
    let sync = sync_environments envs (start_sync collector) in
    Agrees-forget_inactive env_id collector.configured_envs sync.configured_envs sync
      (Agrees-sync_environments env_id collector.configured_envs envs (start_sync collector) refl)

-- After `sendEnvironmentConfigs` an environment is configured exactly when it is listed, is not an edge
-- agent and either collects something or was configured before; and a worker that collected from the
-- environments configured before and obeys the commands collects from it exactly when it is configured.
pub send_environment_configs_iff :
    (env_id : ℕ) (environments : List Environment) (metrics_interval : ℕ) (event_mode : Text)
    (poll_interval : ℕ) (collector : Collector)
    → let after =
        send_environment_configs environments metrics_interval event_mode poll_interval collector in
      (member env_id after.0.configured_envs ≡ (
        (member env_id collector.configured_envs && has_env env_id is_direct environments)
        || has_env env_id is_wanted environments))
      × (member env_id (obey_all after.1 collector.configured_envs)
          ≡ member env_id after.0.configured_envs)
unfolding send_environment_configs obey_all
send_environment_configs_iff env_id environments metrics_interval event_mode poll_interval
      collector =
    (
      configured_envs-synced env_id environments collector,
      ap (member env_id) (
            obey_all-append (synced environments collector).commands
              (settings_commands metrics_interval event_mode poll_interval)
              collector.configured_envs)
          ∙ Agrees-synced env_id environments collector,
    )
