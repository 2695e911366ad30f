-- ===== src/Collector/Dedup.antt =====
-- The cache that recognises events that were seen already.
use sagedockhand.Common.{
  ltb, if◌then◌else◌, length, take, nat_eq, text_eq, ℕ, ◌-◌, Bool, List, [], ◌∷◌,
}
use sagedockhand.Common.Text.{Text}
use sagedockhand.Common.Sort.{sort_by}
use sagedockhand.Common.JsMap.{JsMap, put, remove, remove_if}

abbrev pub dedup_window_ms : ℕ
dedup_window_ms = 5000

abbrev pub max_dedup_cache_size : ℕ
max_dedup_cache_size = 500

abbrev pub earlier : Text × ℕ → Text × ℕ → Bool
earlier a b = ltb a.1 b.1

-- `for (const [key] of toRemove) recentEvents.delete(key)`
unfoldable pub remove_all : List (Text × ℕ) → JsMap Text ℕ → JsMap Text ℕ
remove_all [] recent = recent
remove_all ((key, stamp) ∷ entries) recent = remove_all entries (remove key recent)

abbrev pub trim_to_size : JsMap Text ℕ → JsMap Text ℕ
trim_to_size recent =
    if ltb max_dedup_cache_size (length recent)
    then remove_all (take (length recent - max_dedup_cache_size) (sort_by earlier recent)) recent
    else recent

-- `cleanupRecentEvents()`
unfoldable pub cleanup_recent_events : ℕ → JsMap Text ℕ → JsMap Text ℕ
cleanup_recent_events now recent =
    trim_to_size (remove_if (λ key stamp. ltb dedup_window_ms (now - stamp)) recent)

-- What `handleContainerEvent` does with a key that it has not seen.
unfoldable pub note_event : Text → ℕ → JsMap Text ℕ → JsMap Text ℕ
note_event key now recent =
    let added = put key now recent in
    if ltb max_dedup_cache_size (length added) then cleanup_recent_events now added else added
