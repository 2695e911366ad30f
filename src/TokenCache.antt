-- ===== src/TokenCache.antt =====
-- src/lib/server/token-cache.ts: the LRU cache of validated API tokens. The cache key is a digest in
-- hexadecimal, `user` is an id with whatever else the session carries (`U`), and `Date.now()` is
-- the argument `now`. A function that changes the cache returns the new one.
pub mod Eviction
pub mod Contents
pub mod Recency
pub mod Runs
mod Tests
use sagedockhand.Common.{
  ltb, leb, if◌then◌else◌, length, ◌==◌, nat_eq, text_eq, ℕ, Option, none, some, [], ◌∷◌,
}
use sagedockhand.Common.Text.{Text}
use sagedockhand.Common.JsMap.{JsMap, get, has, put, remove, remove_if}

pub record TokenCacheEntry (U : Type 0) : Type 0 where
  pub user_id : ℕ
  pub user : U
  pub expires_at : ℕ

abbrev pub max_cache_size : ℕ
max_cache_size = 1024

module _ {U : Type 0} where
  -- `get(key)`: a hit is deleted and set again, so that it is the newest.
  pub lookup :
      Text
      → JsMap Text (TokenCacheEntry U)
      → JsMap Text (TokenCacheEntry U) × Option (TokenCacheEntry U)
  unfolding get remove put
  lookup key cache = elim (get key cache) [
    | none ↦ (cache, none)
    | some entry ↦ (put key entry (remove key cache), some entry)
  ]

  -- `this.map.delete(this.map.keys().next().value)`
  pub evict_oldest : JsMap Text (TokenCacheEntry U) → JsMap Text (TokenCacheEntry U)
  unfolding remove
  evict_oldest [] = []
  evict_oldest ((oldest, entry) ∷ rest) = remove oldest ((oldest, entry) ∷ rest)

  -- `set(key, entry)`
  pub store :
      Text → TokenCacheEntry U → JsMap Text (TokenCacheEntry U) → JsMap Text (TokenCacheEntry U)
  unfolding has remove put evict_oldest
  store key entry cache =
      let cleared = if has key cache then remove key cache else cache in
      let added = put key entry cleared in
      if ltb max_cache_size (length added) then evict_oldest added else added

  -- `invalidateTokenCacheForUser(userId)`
  pub invalidate_token_cache_for_user :
      ℕ → JsMap Text (TokenCacheEntry U) → JsMap Text (TokenCacheEntry U)
  unfolding remove_if
  invalidate_token_cache_for_user user_id cache =
      remove_if (λ key (entry : TokenCacheEntry U). entry.user_id == user_id) cache

  -- The callback of the cleanup interval.
  pub cleanup : ℕ → JsMap Text (TokenCacheEntry U) → JsMap Text (TokenCacheEntry U)
  unfolding remove_if
  cleanup now cache = remove_if (λ key (entry : TokenCacheEntry U). leb entry.expires_at now) cache

  -- `clear()`, and `clearTokenCache()`.
  pub clear_token_cache : JsMap Text (TokenCacheEntry U) → JsMap Text (TokenCacheEntry U)
  clear_token_cache cache = []
