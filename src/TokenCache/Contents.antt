-- ===== src/TokenCache/Contents.antt =====
-- What the token cache holds after each operation: the keys stay distinct, the size bounded, and
-- which entries can be read.
use sagedockhand.Common.{
  leb, Option-cases, ◌==◌, eq_iff, nat_eq, text_eq, ℕ, ◌≡◌, refl, sym, inl, inr, arith,
}
use sagedockhand.Common.Text.{Text}
use sagedockhand.Common.JsMap.{
  JsMap, get, IsDistinct, unless, get-remove_if, IsDistinct-remove_if, length-remove_if-le,
}
use sagedockhand.TokenCache.{TokenCacheEntry, lookup, invalidate_token_cache_for_user, cleanup}
use sagedockhand.TokenCache.Eviction.{IsValid, lookup_miss, lookup_hit, get-appended}

module _ {U : Type 0} where
  -- A lookup returns what is stored under the key, and changes nothing that can be read later: for
  -- every key, `get` on the map reads the same before and after.
  get-lookup :
      (key other : Text) (cache : JsMap Text (TokenCacheEntry U))
      → ((lookup key cache).1 ≡ get key cache) × (get other (lookup key cache).0 ≡ get other cache)
  get-lookup key other cache = elim (Option-cases (get key cache)) [
    | inl miss ↦ rw (lookup_miss key cache miss) (sym miss, refl)
    | inr (entry, hit) ↦
        rw (lookup_hit key entry cache hit)
          (sym hit, ground (arith, get-appended key other entry cache, eq_iff key other))
  ]

  -- Invalidation for a user drops exactly that user's entries, in a cache with distinct keys: a key
  -- reads as before unless its entry belongs to the user.
  get-invalidate_token_cache_for_user :
      (user_id : ℕ) (key : Text) (cache : JsMap Text (TokenCacheEntry U))
      → IsDistinct cache
      → get key (invalidate_token_cache_for_user user_id cache)
        ≡ unless (λ _ (entry : TokenCacheEntry U). entry.user_id == user_id) key (get key cache)
  unfolding invalidate_token_cache_for_user
  get-invalidate_token_cache_for_user user_id key cache d =
      get-remove_if (λ _ (entry : TokenCacheEntry U). entry.user_id == user_id) key cache d

  -- The periodic cleanup drops exactly the entries whose expiry is not after now, in a cache with distinct
  -- keys.
  get-cleanup :
      (now : ℕ) (key : Text) (cache : JsMap Text (TokenCacheEntry U))
      → IsDistinct cache
      → get key (cleanup now cache)
        ≡ unless (λ _ (entry : TokenCacheEntry U). leb entry.expires_at now) key (get key cache)
  unfolding cleanup
  get-cleanup now key cache d =
      get-remove_if (λ _ (entry : TokenCacheEntry U). leb entry.expires_at now) key cache d

  -- A lookup answers what the map holds and leaves what every key reads; invalidation for a user drops
  -- exactly that user's entries, and the periodic cleanup exactly those whose expiry is not after now, in a
  -- cache with distinct keys.
  pub get_after_operations :
      (key other : Text) (user_id now : ℕ) (cache : JsMap Text (TokenCacheEntry U))
      → IsDistinct cache
      → ((lookup key cache).1 ≡ get key cache)
        × (get other (lookup key cache).0 ≡ get other cache)
        × (get key (invalidate_token_cache_for_user user_id cache)
            ≡ unless
                (λ _ (entry : TokenCacheEntry U). entry.user_id == user_id)
                key
                (get key cache))
        × (get key (cleanup now cache)
            ≡ unless
                (λ _ (entry : TokenCacheEntry U). leb entry.expires_at now)
                key
                (get key cache))
  get_after_operations key other user_id now cache d =
      let (hit, kept) = get-lookup key other cache in
      (
        hit,
        kept,
        get-invalidate_token_cache_for_user user_id key cache d,
        get-cleanup now key cache d,
      )

  pub invalidate-IsValid :
      (user_id : ℕ) (cache : JsMap Text (TokenCacheEntry U))
      → IsValid cache
      → IsValid (invalidate_token_cache_for_user user_id cache)
  unfolding invalidate_token_cache_for_user
  invalidate-IsValid user_id cache v =
      let picked = λ (_ : Text) (entry : TokenCacheEntry U). entry.user_id == user_id in
      record {
        distinct = IsDistinct-remove_if picked cache v.distinct;
        bounded = omega (arith, length-remove_if-le picked cache, v.bounded);
      }

  pub cleanup-IsValid :
      (now : ℕ) (cache : JsMap Text (TokenCacheEntry U))
      → IsValid cache
      → IsValid (cleanup now cache)
  unfolding cleanup
  cleanup-IsValid now cache v =
      let picked = λ (_ : Text) (entry : TokenCacheEntry U). leb entry.expires_at now in
      record {
        distinct = IsDistinct-remove_if picked cache v.distinct;
        bounded = omega (arith, length-remove_if-le picked cache, v.bounded);
      }
