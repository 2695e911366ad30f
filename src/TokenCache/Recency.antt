-- ===== src/TokenCache/Recency.antt =====
-- The eviction order of the token cache: how many entries are newer than a key, and how one call
-- changes that number.
use sagedockhand.Common.{
  if◌then◌else◌, Option-cases, length, length-append, ◌==◌, eq_iff, nat_eq, text_eq, ℕ, suc, ◌≤◌,
  ◌<◌, ◌≡◌, ◌≢◌, inl, inr, none, some, [], ◌∷◌, ◌++◌, arith,
}
use sagedockhand.Common.Text.{Text}
use sagedockhand.Common.JsMap.{JsMap, get, remove, IsDistinct, get-remove, length-remove-le}
use sagedockhand.TokenCache.{TokenCacheEntry, max_cache_size, lookup, evict_oldest, store}
use sagedockhand.TokenCache.Eviction.{
  IsValid, appended, evict_oldest_lem, store_lem, IsDistinct-appended, lookup_miss, lookup_hit,
  get-appended,
}

module _ {U : Type 0} where
  -- The number of entries set or read after `key`.
  pub newer : Text → JsMap Text (TokenCacheEntry U) → ℕ
  newer key [] = 0
  newer key ((k, v) ∷ rest) = if k == key then length rest else newer key rest

  newer-le : (key : Text) (cache : JsMap Text (TokenCacheEntry U)) → newer key cache ≤ length cache
  unfolding newer
  newer-le key [] = omega arith
  newer-le key ((k, v) ∷ rest) = ground (arith, newer-le key rest)

  newer-remove-le :
      (key other : Text) (cache : JsMap Text (TokenCacheEntry U))
      → newer key (remove other cache) ≤ newer key cache
  unfolding newer remove
  newer-remove-le key other [] = omega arith
  newer-remove-le key other ((k, v) ∷ rest) = ground (
    arith,
    newer-remove-le key other rest,
    length-remove-le other rest,
    newer-le key (remove other rest),
    newer-le key rest,
    eq_iff k key,
    eq_iff k other,
  )

  newer-append :
      (key : Text) (e : TokenCacheEntry U) (cache : JsMap Text (TokenCacheEntry U))
      (last : Text × TokenCacheEntry U)
      → get key cache ≡ some e
      → newer key (cache ++ last ∷ []) ≡ suc (newer key cache)
  unfolding newer get
  newer-append key e [] last h = cc
  newer-append key e ((k, v) ∷ rest) last h =
      ground (arith, newer-append key e rest last, length-append rest (last ∷ []))

  newer-append_absent :
      (key : Text) (e : TokenCacheEntry U) (cache : JsMap Text (TokenCacheEntry U))
      → get key cache ≡ none
      → newer key (cache ++ (key, e) ∷ []) ≡ 0
  unfolding newer get
  newer-append_absent key e [] h = ground arith
  newer-append_absent key e ((k, v) ∷ rest) h = ground (arith, newer-append_absent key e rest)

  pub newer-appended_self :
      (key : Text) (e : TokenCacheEntry U) (cache : JsMap Text (TokenCacheEntry U))
      → newer key (appended key e cache) ≡ 0
  unfolding appended
  newer-appended_self key e cache =
      newer-append_absent key e (remove key cache)
        (ground (arith, get-remove key key cache, eq_iff key key))

  pub newer-appended-le :
      (key other : Text) (e v : TokenCacheEntry U) (cache : JsMap Text (TokenCacheEntry U))
      → get key cache ≡ some e
      → other ≢ key
      → newer key (appended other v cache) ≤ suc (newer key cache)
  unfolding appended
  newer-appended-le key other e v cache h ne = ground (
    arith,
    get-remove other key cache,
    eq_iff other key,
    newer-append key e (remove other cache) (other, v),
    newer-remove-le key other cache,
  )

  -- The oldest entry has all the others after it, so evicting it spares a key that has fewer.
  evict_oldest_keeps :
      (key : Text) (e : TokenCacheEntry U) (cache : JsMap Text (TokenCacheEntry U))
      → IsDistinct cache
      → get key cache ≡ some e
      → suc (newer key cache) < length cache
      → (get key (evict_oldest cache) ≡ some e) × (newer key (evict_oldest cache) ≤ newer key cache)
  unfolding newer get
  evict_oldest_keeps key e [] d h lt = cc
  evict_oldest_keeps key e ((k, v) ∷ rest) d h lt = rw (evict_oldest_lem k v rest d) (ground arith)

  -- Setting another key spares a key that fewer than 1023 entries are newer than, and makes at most
  -- one more entry newer.
  pub store_keeps :
      (key other : Text) (e v : TokenCacheEntry U) (cache : JsMap Text (TokenCacheEntry U))
      → IsValid cache
      → get key cache ≡ some e
      → other ≢ key
      → suc (newer key cache) < max_cache_size
      → (get key (store other v cache) ≡ some e)
        × (newer key (store other v cache) ≤ suc (newer key cache))
  store_keeps key other e v cache valid h ne lt = rw store_lem (
      ground (
        arith,
        get-appended other key v cache,
        eq_iff other key,
        newer-appended-le key other e v cache h ne,
        IsDistinct-appended other v cache valid.distinct,
        evict_oldest_keeps key e (appended other v cache),
      ))

  -- A key that was just set is the newest.
  pub newer-store_self :
      (key : Text) (e : TokenCacheEntry U) (cache : JsMap Text (TokenCacheEntry U))
      → IsValid cache
      → (get key (store key e cache) ≡ some e) × (newer key (store key e cache) ≡ 0)
  newer-store_self key e cache valid = rw store_lem (
      ground (
        arith,
        get-appended key key e cache,
        eq_iff key key,
        newer-appended_self key e cache,
        IsDistinct-appended key e cache valid.distinct,
        evict_oldest_keeps key e (appended key e cache),
      ))

  -- Reading any key spares every key, and makes at most one more entry newer.
  pub lookup_keeps :
      (key other : Text) (e : TokenCacheEntry U) (cache : JsMap Text (TokenCacheEntry U))
      → get key cache ≡ some e
      → (get key (lookup other cache).0 ≡ some e)
        × (newer key (lookup other cache).0 ≤ suc (newer key cache))
  lookup_keeps key other e cache h = elim (Option-cases (get other cache)) [
    | inl miss ↦ rw (lookup_miss other cache miss) (h, omega arith)
    | inr (v, hit) ↦ rw (lookup_hit other v cache hit) (
        ground (
          arith,
          get-appended other key v cache,
          eq_iff other key,
          newer-appended-le key other e v cache h,
          newer-appended_self key v cache,
        ))
  ]
