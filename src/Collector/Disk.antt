-- ===== src/Collector/Disk.antt =====
-- `handleDiskUsage`. It is taken as one step: what another message does during its awaits is not modelled,
-- and it notes the time at which it began. The sizes are what the message lists, absent lists
-- being empty and absent sizes 0.
use sagedockhand.Common.{
  ltb, if◌then◌else◌, or_value, ◌==◌, nat_eq, text_eq, member, ℕ, zero, suc, ◌+◌, ◌-◌, ◌*◌, Bool,
  true, false, not, ◌&&◌, ◌||◌, Option, none, some, List, [], ◌∷◌, ◌++◌,
}
use sagedockhand.Common.Text.{Text, codes, to_decimal}
use sagedockhand.Common.JsMap.{get, put}
use sagedockhand.Collector.Effects.{Effect, warning, notify_event}
use sagedockhand.Collector.State.{Collector, env_name}

abbrev pub disk_warning_cooldown : ℕ
disk_warning_cooldown = 3600000

pub record DiskUsage : Type 0 where
  pub images : List ℕ
  pub containers : List ℕ
  pub volumes : List ℕ
  pub build_cache : List ℕ

-- The settings of the environment, `none` where one is not set.
pub record DiskSettings : Type 0 where
  pub enabled : Option Bool
  pub mode : Option Text
  pub threshold_gb : Option ℕ
  pub threshold : Option ℕ

abbrev pub sum_sizes : List ℕ → ℕ
sum_sizes [] = 0
sum_sizes (size ∷ sizes) = size + sum_sizes sizes

unfoldable pub total_used : DiskUsage → ℕ
total_used usage =
    sum_sizes usage.images
    + sum_sizes usage.containers
    + sum_sizes usage.volumes
    + sum_sizes usage.build_cache

abbrev pub gb : ℕ
gb = 1024 * 1024 * 1024

-- `lastWarning && Date.now() - lastWarning < DISK_WARNING_COOLDOWN`
abbrev pub is_cooling : Option ℕ → ℕ → Bool
is_cooling none now = false
is_cooling (some last) now = not (last == 0) && ltb (now - last) disk_warning_cooldown

-- `threshold || 80`
abbrev pub threshold_of : Option ℕ → ℕ
threshold_of none = 80
threshold_of (some zero) = 80
threshold_of (some (suc n)) = suc n

abbrev pub is_absolute : DiskSettings → Bool
is_absolute settings = or_value settings.mode (codes "percentage") == codes "absolute"

abbrev pub threshold_gb_of : DiskSettings → ℕ
threshold_gb_of settings = or_value settings.threshold_gb 50

-- The value of the first pair of `DriverStatus` that is the total space.
abbrev pub data_space_total : List (Text × Text) → Option Text
data_space_total [] = none
data_space_total ((key, value) ∷ status) =
    if key == codes "Data Space Total" then some value else data_space_total status

-- `parse_size` is `parseSize` and `reaches used total threshold` is `used / total * 100 >= threshold`,
-- both in floating point; `format_size` is `formatSize`, and `percent_text used total` is the
-- percentage with one decimal.
module _ (parse_size : Text → ℕ) (reaches : ℕ → ℕ → ℕ → Bool) (format_size : ℕ → Text)
    (percent_text : ℕ → ℕ → Text) where
  abbrev pub space : Option Text → ℕ
  space none = 0
  space (some size) = parse_size size

  -- Whether the usage is over the threshold of the mode.
  unfoldable pub is_over : DiskSettings → DiskUsage → List (Text × Text) → Bool
  is_over settings usage driver_status =
      if is_absolute settings
      then ltb (threshold_gb_of settings * gb) (total_used usage)
      else let total = space (data_space_total driver_status) in
        not (total == 0) && reaches (total_used usage) total (threshold_of settings.threshold)

  abbrev pub warning_of : ℕ → Text → DiskSettings → DiskUsage → List (Text × Text) → Effect
  warning_of env_id name settings usage driver_status =
      let used = total_used usage in
      notify_event (codes "disk_space_warning")
        (if is_absolute settings
          then record {
            title = codes "High Docker disk usage";
            message =
                codes "Environment \""
                ++ name
                ++ codes "\" is using "
                ++ format_size used
                ++ codes " of Docker disk space (threshold: "
                ++ to_decimal (threshold_gb_of settings)
                ++ codes " GB)";
            level = warning;
          }
          else record {
            title = codes "Disk space warning";
            message =
                codes "Environment \""
                ++ name
                ++ codes "\" Docker disk usage is at "
                ++ percent_text used (space (data_space_total driver_status))
                ++ codes "% ("
                ++ format_size used
                ++ codes " used)";
            level = warning;
          })
        env_id

  -- `handleDiskUsage(msg)`, at the time `now`; `sent` tells whether the notification goes out.
  unfoldable pub handle_disk_usage :
      Bool
      → ℕ
      → Option DiskUsage
      → List (Text × Text)
      → DiskSettings
      → ℕ
      → Collector
      → Collector × List Effect
  handle_disk_usage sent env_id none driver_status settings now collector = (collector, [])
  handle_disk_usage sent env_id (some usage) driver_status settings now collector =
      if (env_id == 0)
        || not (member env_id collector.configured_envs)
        || not (or_value settings.enabled true)
        || is_cooling (get env_id collector.last_disk_warning) now
        || not (is_over settings usage driver_status)
      then (collector, [])
      else (
        (if sent
            then record collector { last_disk_warning = put env_id now collector.last_disk_warning }
            else collector),
        warning_of env_id (env_name env_id collector) settings usage driver_status ∷ [],
      )
