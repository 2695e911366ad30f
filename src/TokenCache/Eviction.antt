-- ===== src/TokenCache/Eviction.antt =====
-- `validateApiToken`'s cache: its table after a lookup, an insertion and an eviction.
use sagedockhand.Common.{
  ltb, if◌then◌else◌, Option-cases, length, length-append, ◌==◌, eq_iff, nat_eq, text_eq, suc, ◌≤◌,
  max, ◌≡◌, inl, inr, none, some, [], ◌∷◌, ◌++◌, arith,
}
use sagedockhand.Common.Text.{Text}
use sagedockhand.Common.JsMap.{
  JsMap, get, has, put, remove, IsDistinct, get-put, get-remove, has_iff, put_new, remove_absent,
  length-remove-le, length-remove, IsDistinct-put, IsDistinct-remove,
}
use sagedockhand.TokenCache.{TokenCacheEntry, max_cache_size, lookup, evict_oldest, store}

module _ {U : Type 0} where
  pub record IsValid (cache : JsMap Text (TokenCacheEntry U)) : Type 0 where
    pub distinct : IsDistinct cache
    pub bounded : length cache ≤ max_cache_size

  -- `set` without its guards: the key's old entry goes, the new one is appended, and the oldest
  -- goes if that is one too many.
  unfoldable pub appended :
      Text → TokenCacheEntry U → JsMap Text (TokenCacheEntry U) → JsMap Text (TokenCacheEntry U)
  appended key entry cache = remove key cache ++ (key, entry) ∷ []

  get-remove_self :
      (key : Text) (cache : JsMap Text (TokenCacheEntry U)) → get key (remove key cache) ≡ none
  get-remove_self key cache = ground (arith, get-remove key key cache, eq_iff key key)

  pub cleared_lem :
      (key : Text) (cache : JsMap Text (TokenCacheEntry U))
      → (if has key cache then remove key cache else cache) ≡ remove key cache
  cleared_lem key cache = ground (arith, has_iff key cache, remove_absent key cache)

  pub appended_lem :
      (key : Text) (entry : TokenCacheEntry U) (cache : JsMap Text (TokenCacheEntry U))
      → put key entry (remove key cache) ≡ appended key entry cache
  unfolding appended
  appended_lem key entry cache = put_new key entry (remove key cache) (get-remove_self key cache)

  pub evict_oldest_lem :
      (key : Text) (entry : TokenCacheEntry U) (cache : JsMap Text (TokenCacheEntry U))
      → IsDistinct ((key, entry) ∷ cache)
      → evict_oldest ((key, entry) ∷ cache) ≡ cache
  unfolding evict_oldest remove
  evict_oldest_lem key entry cache d = ground (arith, eq_iff key key, remove_absent key cache d.0)

  pub store_lem :
      (key : Text) (entry : TokenCacheEntry U) (cache : JsMap Text (TokenCacheEntry U))
      → store key entry cache ≡ (
          if ltb max_cache_size (length (appended key entry cache))
          then evict_oldest (appended key entry cache)
          else appended key entry cache)
  unfolding store
  store_lem key entry cache = rw (cleared_lem, appended_lem)

  pub length-appended :
      (key : Text) (entry : TokenCacheEntry U) (cache : JsMap Text (TokenCacheEntry U))
      → length (appended key entry cache) ≡ suc (length (remove key cache))
  unfolding appended
  length-appended key entry cache =
      omega (arith, length-append {0} (remove key cache) ((key, entry) ∷ []))

  pub IsDistinct-appended :
      (key : Text) (entry : TokenCacheEntry U) (cache : JsMap Text (TokenCacheEntry U))
      → IsDistinct cache
      → IsDistinct (appended key entry cache)
  IsDistinct-appended key entry cache d =
      rw (← appended_lem key entry cache)
        (IsDistinct-put key entry (remove key cache) (IsDistinct-remove key cache d))

  evict_oldest-IsDistinct :
      (cache : JsMap Text (TokenCacheEntry U)) → IsDistinct cache → IsDistinct (evict_oldest cache)
  unfolding evict_oldest
  evict_oldest-IsDistinct [] d = tt
  evict_oldest-IsDistinct ((k, v) ∷ rest) d = rw (evict_oldest_lem k v rest d) d.1

  length-evict_oldest :
      (cache : JsMap Text (TokenCacheEntry U))
      → IsDistinct cache
      → suc (length (evict_oldest cache)) ≡ max 1 (length cache)
  unfolding evict_oldest
  length-evict_oldest [] d = omega arith
  length-evict_oldest ((k, v) ∷ rest) d = rw (evict_oldest_lem k v rest d) (omega arith)

  -- `set` keeps the keys distinct and never leaves more entries than the limit.
  pub store-IsValid :
      (key : Text) (entry : TokenCacheEntry U) (cache : JsMap Text (TokenCacheEntry U))
      → IsValid cache
      → IsValid (store key entry cache)
  store-IsValid key entry cache v = rw store_lem (record {
    distinct = ground (
      arith,
      IsDistinct-appended key entry cache v.distinct,
      evict_oldest-IsDistinct (appended key entry cache),
    );
    bounded = ground (
      arith,
      IsDistinct-appended key entry cache v.distinct,
      length-appended key entry cache,
      length-remove-le key cache,
      v.bounded,
      length-evict_oldest (appended key entry cache),
    );
  })

  pub lookup_miss :
      (key : Text) (cache : JsMap Text (TokenCacheEntry U))
      → get key cache ≡ none
      → lookup key cache ≡ (cache, none)
  unfolding lookup
  lookup_miss key cache miss = rw (miss, lookup)

  pub lookup_hit :
      (key : Text) (entry : TokenCacheEntry U) (cache : JsMap Text (TokenCacheEntry U))
      → get key cache ≡ some entry
      → lookup key cache ≡ (appended key entry cache, some entry)
  unfolding lookup
  lookup_hit key entry cache hit = rw (hit, lookup, appended_lem)

  -- `get` keeps the keys distinct and the size bounded.
  pub lookup-IsValid :
      (key : Text) (cache : JsMap Text (TokenCacheEntry U))
      → IsValid cache
      → IsValid (lookup key cache).0
  lookup-IsValid key cache v = elim (Option-cases (get key cache)) [
    | inl miss ↦ rw (lookup_miss key cache miss) v
    | inr (entry, hit) ↦ rw (lookup_hit key entry cache hit) (record {
      distinct = IsDistinct-appended key entry cache v.distinct;
      bounded = omega (
        arith,
        length-appended key entry cache,
        length-remove key entry cache v.distinct hit,
        v.bounded,
      );
    })
  ]

  pub get-appended :
      (key other : Text) (entry : TokenCacheEntry U) (cache : JsMap Text (TokenCacheEntry U))
      → get other (appended key entry cache)
        ≡ (if key == other then some entry else get other cache)
  get-appended key other entry cache =
      rw (← appended_lem key entry cache)
        (ground (arith, get-put key other entry (remove key cache), get-remove key other cache))
