-- ===== src/Collector/DedupLaws.antt =====
-- The cache of seen events is bounded, and what was just seen is in it.
use sagedockhand.Common.{
  ltb, ltb→lt, Bool-cases, length, take, length-append, take_append-le, All, eq_refl, nat_eq,
  text_eq, ℕ, ◌-◌, ◌≤◌, ◌≡◌, ap, ◌∙◌, inl, inr, Bool, false, none, some, [], ◌∷◌, ◌++◌, arith,
}
use sagedockhand.Common.Text.{Text}
use sagedockhand.Common.Sort.{sort_by, length-sort_by, sort_by-append_last}
use sagedockhand.Common.JsMap.{
  JsMap, get, put, remove_if, IsDistinct, get-put, get-append_absent, put_new, IsDistinct-put,
  get-remove_if, IsDistinct-remove_if, length-remove_if-le, get-sort_by, IsDistinct-sort_by,
  get-take_absent, IsDistinct-take, remove_if-append,
}
use sagedockhand.MetricsStore.{latest}
use sagedockhand.Collector.SurplusLaws.{
  IsBounded, get-here, IsDistinct-remove_all, length-remove_all, get-remove_all, surplus,
  surplus-Found, length-surplus,
}
use sagedockhand.Collector.Dedup.{
  dedup_window_ms, max_dedup_cache_size, earlier, trim_to_size, cleanup_recent_events, note_event,
}

trim_to_size-IsBounded :
    (recent : JsMap Text ℕ) → IsDistinct recent → IsBounded (trim_to_size recent)
unfolding surplus
trim_to_size-IsBounded recent d = elim (Bool-cases (ltb max_dedup_cache_size (length recent))) [
  | inr small ↦ rw small (record { distinct = d; within = ground (arith, small) })
  | inl large ↦
      let over = ltb→lt max_dedup_cache_size (length recent) large in
      let n = length recent - max_dedup_cache_size in
      let cut =
        length-remove_all (surplus recent) recent
          (IsDistinct-take n (sort_by earlier recent) (IsDistinct-sort_by earlier recent d))
          (surplus-Found recent d) d in
      rw large (record {
        distinct = IsDistinct-remove_all (surplus recent) recent d;
        within = omega (arith, cut, length-surplus recent, over);
      })
]

pub cleanup_recent_events-IsBounded :
    (now : ℕ) (recent : JsMap Text ℕ)
    → IsDistinct recent
    → IsBounded (cleanup_recent_events now recent)
unfolding cleanup_recent_events
cleanup_recent_events-IsBounded now recent d =
    trim_to_size-IsBounded (remove_if (λ key stamp. ltb dedup_window_ms (now - stamp)) recent)
      (IsDistinct-remove_if (λ key stamp. ltb dedup_window_ms (now - stamp)) recent d)

-- Noting an event keeps the cache of seen events within its limit of 500, without a key held twice.
pub note_event-IsBounded :
    (key : Text) (now : ℕ) (recent : JsMap Text ℕ)
    → IsBounded recent
    → IsBounded (note_event key now recent)
unfolding note_event
note_event-IsBounded key now recent b =
    let d = IsDistinct-put key now recent b.distinct in
    elim (Bool-cases (ltb max_dedup_cache_size (length (put key now recent)))) [
      | inl large ↦ rw large (cleanup_recent_events-IsBounded now (put key now recent) d)
      | inr small ↦ rw small (record { distinct = d; within = ground (arith, small) })
    ]

-- The newest entry, at the end of the cache, is no surplus.
surplus-absent :
    (key : Text) (now : ℕ) (recent : JsMap Text ℕ)
    → get key recent ≡ none
    → IsDistinct recent
    → All (λ (entry : Text × ℕ). earlier (key, now) entry ≡ false) recent
    → length recent ≤ max_dedup_cache_size
    → get key (surplus (recent ++ (key, now) ∷ [])) ≡ none
unfolding surplus
surplus-absent key now recent fresh d latest within =
    let n = length (recent ++ (key, now) ∷ []) - max_dedup_cache_size in
    let sorted = sort_by earlier recent in
    let few : n ≤ length sorted =
      omega
        (arith, within, length-sort_by earlier recent, length-append recent ((key, now) ∷ [])) in
    ap (λ m. get key (take n m)) (sort_by-append_last earlier recent (key, now) latest)
    ∙ ap (get key) (take_append-le n sorted ((key, now) ∷ []) few)
    ∙ get-take_absent key n sorted (get-sort_by earlier key recent d ∙ fresh)

trim_to_size-last :
    (key : Text) (now : ℕ) (recent : JsMap Text ℕ)
    → get key recent ≡ none
    → IsDistinct recent
    → All (λ (entry : Text × ℕ). earlier (key, now) entry ≡ false) recent
    → length recent ≤ max_dedup_cache_size
    → get key (trim_to_size (recent ++ (key, now) ∷ [])) ≡ some now
unfolding surplus
trim_to_size-last key now recent fresh d latest within =
    let there = get-append_absent key recent ((key, now) ∷ []) fresh ∙ get-here key now in
    ground (
      arith,
      there,
      get-remove_all key (surplus (recent ++ (key, now) ∷ [])) (recent ++ (key, now) ∷ [])
          (surplus-absent key now recent fresh d latest within),
    )

-- No entry is later than the time `now`.
abbrev pub IsPast : ℕ → JsMap Text ℕ → Type 0
IsPast now recent = All (λ (entry : Text × ℕ). entry.1 ≤ now) recent

latest_of_IsPast :
    (key : Text) (now : ℕ) (recent : JsMap Text ℕ)
    → IsPast now recent
    → All (λ (entry : Text × ℕ). earlier (key, now) entry ≡ false) recent
latest_of_IsPast key now [] h = tt
latest_of_IsPast key now ((k, stamp) ∷ recent) (p, h) =
    (ground (arith, p), latest_of_IsPast key now recent h)

IsPast-remove_if :
    (now : ℕ) (p : Text → ℕ → Bool) (recent : JsMap Text ℕ)
    → IsPast now recent
    → IsPast now (remove_if p recent)
unfolding remove_if
IsPast-remove_if now p [] h = tt
IsPast-remove_if now p ((k, stamp) ∷ recent) (q, h) =
    ground (arith, q, IsPast-remove_if now p recent h)

abbrev pub is_stale : ℕ → Text → ℕ → Bool
is_stale now key stamp = ltb dedup_window_ms (now - stamp)

remove_if-last :
    (key : Text) (now : ℕ) (recent : JsMap Text ℕ)
    → remove_if (is_stale now) (recent ++ (key, now) ∷ [])
      ≡ remove_if (is_stale now) recent ++ (key, now) ∷ []
unfolding remove_if
remove_if-last key now recent =
    remove_if-append (is_stale now) recent ((key, now) ∷ []) ∙ ground arith

-- An event that was not seen is seen once it is noted.
pub note_event-remembered :
    (key : Text) (now : ℕ) (recent : JsMap Text ℕ)
    → IsBounded recent
    → IsPast now recent
    → get key recent ≡ none
    → get key (note_event key now recent) ≡ some now
unfolding note_event cleanup_recent_events
note_event-remembered key now recent b past fresh =
    let gone : get key (remove_if (is_stale now) recent) ≡ none =
      get-remove_if (is_stale now) key recent b.distinct ∙ rw fresh in
    let kept =
      trim_to_size-last key now (remove_if (is_stale now) recent) gone
        (IsDistinct-remove_if (is_stale now) recent b.distinct)
        (latest_of_IsPast key now _ (IsPast-remove_if now (is_stale now) recent past))
        (omega (arith, length-remove_if-le (is_stale now) recent, b.within)) in
    let cleaned : get key (cleanup_recent_events now (put key now recent)) ≡ some now =
      ap (λ m. get key (cleanup_recent_events now m)) (put_new key now recent fresh)
      ∙ ap (λ m. get key (trim_to_size m)) (remove_if-last key now recent)
      ∙ kept in
    ground (arith, cleaned, get-put key key now recent, eq_refl key)
