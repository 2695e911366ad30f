-- ===== src/Collector/DiskLaws.antt =====
-- Warnings about the disk usage of an environment are an hour apart.
use sagedockhand.Common.{
  if◌then◌else◌, Bool-cases, All, ◌==◌, eq_iff, nat_eq, text_eq, ℕ, ◌+◌, ◌≤◌, ◌≡◌, refl, sym, ap,
  ◌∙◌, inl, inr, Bool, true, false, not, ◌&&◌, Option, none, some, List, [], ◌∷◌, arith,
}
use sagedockhand.Common.Text.{Text}
use sagedockhand.Common.JsMap.{get, get-put}
use sagedockhand.Collector.Disk.{
  disk_warning_cooldown, DiskUsage, DiskSettings, is_cooling, handle_disk_usage,
}
use sagedockhand.Collector.Effects.{Effect}
use sagedockhand.Collector.State.{Collector}

pub record DiskMessage : Type 0 where
  pub sent : Bool
  pub env_id : ℕ
  pub usage : Option DiskUsage
  pub driver_status : List (Text × Text)
  pub settings : DiskSettings
  pub now : ℕ

abbrev is_none_sent : List Effect → Bool
is_none_sent [] = true
is_none_sent (effect ∷ effects) = false

-- Each time is at least an hour after the one before.
abbrev pub IsSpacedFrom : ℕ → List ℕ → Type 0
IsSpacedFrom last [] = Unit
IsSpacedFrom last (time ∷ times) = (last + disk_warning_cooldown ≤ time) × IsSpacedFrom time times

abbrev pub IsSpaced : List ℕ → Type 0
IsSpaced [] = Unit
IsSpaced (time ∷ times) = IsSpacedFrom time times

cooled :
    (last now : ℕ)
    → 1 ≤ last
    → is_cooling (some last) now ≡ false
    → last + disk_warning_cooldown ≤ now
cooled last now p h = ground (arith, p, h)

module _ (parse_size : Text → ℕ) (reaches : ℕ → ℕ → ℕ → Bool) (format_size : ℕ → Text)
    (percent_text : ℕ → ℕ → Text) where
  abbrev handle_message : DiskMessage → Collector → Collector × List Effect
  handle_message m collector =
      handle_disk_usage parse_size reaches format_size percent_text m.sent m.env_id m.usage
        m.driver_status m.settings m.now collector

  abbrev is_warned : ℕ → DiskMessage → List Effect → Bool
  is_warned env_id m effects = (m.env_id == env_id) && m.sent && not (is_none_sent effects)

  -- The times at which warnings about an environment go out, in a run over the messages.
  unfoldable pub warned_at : ℕ → List DiskMessage → Collector → List ℕ
  warned_at env_id [] collector = []
  warned_at env_id (m ∷ ms) collector =
      let step = handle_message m collector in
      let rest = warned_at env_id ms step.0 in
      if is_warned env_id m step.1 then m.now ∷ rest else rest

  -- What a message does to the time of the last warning of an environment.
  get-unwarned :
      (env_id own : ℕ) (sent : Bool) (usage : Option DiskUsage) (driver_status : List (Text × Text))
      (settings : DiskSettings) (now : ℕ) (collector : Collector)
      → let step =
          handle_disk_usage parse_size reaches format_size percent_text sent own usage driver_status
            settings now collector in
        ((own == env_id) && sent && not (is_none_sent step.1)) ≡ false
        → get env_id step.0.last_disk_warning ≡ get env_id collector.last_disk_warning
  unfolding handle_disk_usage
  get-unwarned env_id own sent none driver_status settings now collector h = refl
  get-unwarned env_id own sent (some usage) driver_status settings now collector h =
      ground (arith, h, get-put own env_id now collector.last_disk_warning)

  get-warned :
      (env_id own : ℕ) (sent : Bool) (usage : Option DiskUsage) (driver_status : List (Text × Text))
      (settings : DiskSettings) (now : ℕ) (collector : Collector)
      → let step =
          handle_disk_usage parse_size reaches format_size percent_text sent own usage driver_status
            settings now collector in
        ((own == env_id) && sent && not (is_none_sent step.1)) ≡ true
        → (is_cooling (get env_id collector.last_disk_warning) now ≡ false)
          × (get env_id step.0.last_disk_warning ≡ some now)
  unfolding handle_disk_usage
  get-warned env_id own sent none driver_status settings now collector h =
      absurd (ground (arith, h))
  get-warned env_id own sent (some usage) driver_status settings now collector h =
      let same : own ≡ env_id = ground (arith, h, eq_iff own env_id) in
      ground (arith, h, same, get-put own env_id now collector.last_disk_warning)

  spaced_from :
      (env_id last : ℕ) (ms : List DiskMessage) (collector : Collector)
      → All (λ m. 1 ≤ m.now) ms
      → 1 ≤ last
      → get env_id collector.last_disk_warning ≡ some last
      → IsSpacedFrom last (warned_at env_id ms collector)
  unfolding warned_at
  spaced_from env_id last [] collector positive p h = tt
  spaced_from env_id last (m ∷ ms) collector (q, positive) p h =
      let next = (handle_message m collector).0 in
      elim (Bool-cases (is_warned env_id m (handle_message m collector).1)) [
        | inr silent ↦
            let same =
              get-unwarned env_id m.env_id m.sent m.usage m.driver_status m.settings m.now collector
                silent in
            rw silent (spaced_from env_id last ms next positive p (same ∙ h))
        | inl warned ↦
            let (cool, noted) =
              get-warned env_id m.env_id m.sent m.usage m.driver_status m.settings m.now collector
                warned in
            rw warned (
              cooled last m.now p (ap (λ o. is_cooling o m.now) (sym h) ∙ cool),
              spaced_from env_id m.now ms next positive q noted,
            )
      ]

  -- The warnings about an environment that go out, over any messages that are handled one after the other,
  -- are at least an hour apart, where no message is handled at the time 0.
  pub warned_at-IsSpaced :
      (env_id : ℕ) (ms : List DiskMessage) (collector : Collector)
      → All (λ m. 1 ≤ m.now) ms
      → IsSpaced (warned_at env_id ms collector)
  unfolding warned_at
  warned_at-IsSpaced env_id [] collector positive = tt
  warned_at-IsSpaced env_id (m ∷ ms) collector (q, positive) =
      let next = (handle_message m collector).0 in
      elim (Bool-cases (is_warned env_id m (handle_message m collector).1)) [
        | inr silent ↦ rw silent (warned_at-IsSpaced env_id ms next positive)
        | inl warned ↦
            let (cool, noted) =
              get-warned env_id m.env_id m.sent m.usage m.driver_status m.settings m.now collector
                warned in
            rw warned (spaced_from env_id m.now ms next positive q noted)
      ]
