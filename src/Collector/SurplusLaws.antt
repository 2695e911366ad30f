-- ===== src/Collector/SurplusLaws.antt =====
-- `cleanupRecentEvents`: the entries that it removes beyond the limit.
use sagedockhand.Common.{
  length, take, length-take, All, eq_refl, eq_iff, nat_eq, text_eq, ℕ, ◌+◌, ◌-◌, ◌≤◌, ◌≡◌, refl,
  sym, ◌∙◌, none, some, List, [], ◌∷◌, arith,
}
use sagedockhand.Common.Text.{Text}
use sagedockhand.Common.Sort.{sort_by, length-sort_by}
use sagedockhand.Common.JsMap.{
  JsMap, get, remove, IsDistinct, get-remove, length-remove, IsDistinct-remove, get-sort_by,
  IsDistinct-sort_by, get-take, IsDistinct-take, All-found_from,
}
use sagedockhand.Collector.Dedup.{max_dedup_cache_size, earlier, remove_all}

-- No key twice, and no more keys than the limit.
pub record IsBounded (recent : JsMap Text ℕ) : Type 0 where
  pub distinct : IsDistinct recent
  pub within : length recent ≤ max_dedup_cache_size

abbrev pub Found : JsMap Text ℕ → Text × ℕ → Type 0
Found recent (key, stamp) = get key recent ≡ some stamp

pub get-here : (key : Text) (now : ℕ) → get key ((key, now) ∷ []) ≡ some now
unfolding get
get-here key now = rw (eq_refl key)

pub IsDistinct-remove_all :
    (entries : List (Text × ℕ)) (recent : JsMap Text ℕ)
    → IsDistinct recent
    → IsDistinct (remove_all entries recent)
unfolding remove_all
IsDistinct-remove_all [] recent d = d
IsDistinct-remove_all ((key, stamp) ∷ entries) recent d =
    IsDistinct-remove_all entries (remove key recent) (IsDistinct-remove key recent d)

-- Removing another key leaves what is found.
All-Found-remove :
    (key : Text) (entries recent : JsMap Text ℕ)
    → get key entries ≡ none
    → All (Found recent) entries
    → All (Found (remove key recent)) entries
unfolding get
All-Found-remove key [] recent fresh h = tt
All-Found-remove key ((k, v) ∷ entries) recent fresh (p, h) = (
  ground (arith, fresh, p, get-remove key k recent, eq_iff key k, eq_iff k key),
  All-Found-remove key entries recent (ground (arith, fresh)) h,
)

pub length-remove_all :
    (entries recent : JsMap Text ℕ)
    → IsDistinct entries
    → All (Found recent) entries
    → IsDistinct recent
    → length (remove_all entries recent) + length entries ≡ length recent
unfolding remove_all
length-remove_all [] recent d h r = omega arith
length-remove_all ((key, stamp) ∷ entries) recent (fresh, d) (p, h) r =
    let rest =
      length-remove_all entries (remove key recent) d (All-Found-remove key entries recent fresh h)
        (IsDistinct-remove key recent r) in
    omega (arith, rest, length-remove key stamp recent r p)

pub get-remove_all :
    (key : Text) (entries recent : JsMap Text ℕ)
    → get key entries ≡ none
    → get key (remove_all entries recent) ≡ get key recent
unfolding remove_all get
get-remove_all key [] recent h = refl
get-remove_all key ((k, v) ∷ entries) recent h =
    ground (
      arith,
      h,
      get-remove_all key entries (remove k recent),
      get-remove k key recent,
      eq_iff k key,
    )

-- The oldest entries beyond the limit.
unfoldable pub surplus : JsMap Text ℕ → JsMap Text ℕ
surplus recent = take (length recent - max_dedup_cache_size) (sort_by earlier recent)

pub surplus-Found :
    (recent : JsMap Text ℕ) → IsDistinct recent → All (Found recent) (surplus recent)
unfolding surplus
surplus-Found recent d =
    All-found_from (surplus recent) recent
      (λ k v h.
        sym (get-sort_by earlier k recent d)
        ∙ get-take k v (length recent - max_dedup_cache_size) (sort_by earlier recent) h)
      (IsDistinct-take (length recent - max_dedup_cache_size) (sort_by earlier recent)
        (IsDistinct-sort_by earlier recent d))

pub length-surplus :
    (recent : JsMap Text ℕ) → length (surplus recent) ≡ length recent - max_dedup_cache_size
unfolding surplus
length-surplus recent = omega (
  arith,
  length-take (length recent - max_dedup_cache_size) (sort_by earlier recent),
  length-sort_by earlier recent,
)
