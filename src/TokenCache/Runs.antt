-- ===== src/TokenCache/Runs.antt =====
-- Runs of the token cache: every reachable cache is valid, and what survives a run of requests.
use sagedockhand.Common.{
  length, All, nat_eq, text_eq, ℕ, suc, ◌+◌, ◌≤◌, ◌<◌, ◌≡◌, ◌≢◌, some, List, [], ◌∷◌, arith,
}
use sagedockhand.Common.Text.{Text}
use sagedockhand.Common.JsMap.{JsMap, get}
use sagedockhand.TokenCache.{
  TokenCacheEntry, max_cache_size, lookup, store, invalidate_token_cache_for_user, cleanup,
  clear_token_cache,
}
use sagedockhand.TokenCache.Recency.{newer, store_keeps, newer-store_self, lookup_keeps}
use sagedockhand.TokenCache.Contents.{invalidate-IsValid, cleanup-IsValid}
use sagedockhand.TokenCache.Eviction.{IsValid, store-IsValid, lookup-IsValid}

-- What other modules and the timer ask of the cache.
pub data Call (U : Type 0) : Type 0 where
  look : Text → Call U
  keep_entry : Text → TokenCacheEntry U → Call U
  invalidate : ℕ → Call U
  expire : ℕ → Call U
  clear : Call U

module _ {U : Type 0} where
  pub perform : Call U → JsMap Text (TokenCacheEntry U) → JsMap Text (TokenCacheEntry U)
  perform (look key) cache = (lookup key cache).0
  perform (keep_entry key entry) cache = store key entry cache
  perform (invalidate user_id) cache = invalidate_token_cache_for_user user_id cache
  perform (expire now) cache = cleanup now cache
  perform clear cache = clear_token_cache cache

  pub run : List (Call U) → JsMap Text (TokenCacheEntry U) → JsMap Text (TokenCacheEntry U)
  unfolding perform
  run [] cache = cache
  run (call ∷ calls) cache = run calls (perform call cache)

  perform-IsValid :
      (call : Call U) (cache : JsMap Text (TokenCacheEntry U))
      → IsValid cache
      → IsValid (perform call cache)
  unfolding perform clear_token_cache
  perform-IsValid (look key) cache v = lookup-IsValid key cache v
  perform-IsValid (keep_entry key entry) cache v = store-IsValid key entry cache v
  perform-IsValid (invalidate user_id) cache v = invalidate-IsValid user_id cache v
  perform-IsValid (expire now) cache v = cleanup-IsValid now cache v
  perform-IsValid clear cache v = record { distinct = tt; bounded = omega arith }

  -- From a valid cache, whatever calls are made, no key is held twice and at most 1024 entries are held.
  pub run-IsValid :
      (calls : List (Call U)) (cache : JsMap Text (TokenCacheEntry U))
      → IsValid cache
      → IsValid (run calls cache)
  unfolding run
  run-IsValid [] cache v = v
  run-IsValid (call ∷ calls) cache v =
      run-IsValid calls (perform call cache) (perform-IsValid call cache v)

  -- A lookup of any key, or a set of another one.
  abbrev pub Spares : Text → Call U → Type 0
  Spares key (look other) = Unit
  Spares key (keep_entry other entry) = other ≢ key
  Spares key _ = ⊥

  perform_keeps :
      (key : Text) (e : TokenCacheEntry U) (call : Call U) (cache : JsMap Text (TokenCacheEntry U))
      → Spares key call
      → IsValid cache
      → get key cache ≡ some e
      → suc (newer key cache) < max_cache_size
      → (get key (perform call cache) ≡ some e)
        × (newer key (perform call cache) ≤ suc (newer key cache))
  unfolding perform
  perform_keeps key e (look other) cache s v h lt = lookup_keeps key other e cache h
  perform_keeps key e (keep_entry other entry) cache s v h lt =
      store_keeps key other e entry cache v h s lt
  perform_keeps key e (invalidate user_id) cache s v h lt = absurd s
  perform_keeps key e (expire now) cache s v h lt = absurd s
  perform_keeps key e clear cache s v h lt = absurd s

  run_keeps :
      (key : Text) (e : TokenCacheEntry U) (calls : List (Call U))
      (cache : JsMap Text (TokenCacheEntry U))
      → All (Spares key) calls
      → IsValid cache
      → get key cache ≡ some e
      → newer key cache + length calls < max_cache_size
      → get key (run calls cache) ≡ some e
  unfolding run
  run_keeps key e [] cache s v h lt = h
  run_keeps key e (call ∷ calls) cache s v h lt =
      let (kept, more) = perform_keeps key e call cache s.0 v h (omega arith) in
      run_keeps key e calls (perform call cache) s.1 (perform-IsValid call cache v) kept
        (omega arith)

  -- A token that was just set in a valid cache can be read after any run of fewer than 1024 calls
  -- that look keys up and set other keys.
  pub run-store_survives :
      (key : Text) (e : TokenCacheEntry U) (calls : List (Call U))
      (cache : JsMap Text (TokenCacheEntry U))
      → All (Spares key) calls
      → IsValid cache
      → length calls < max_cache_size
      → get key (run calls (store key e cache)) ≡ some e
  run-store_survives key e calls cache s v lt =
      let (stored, newest) = newer-store_self key e cache v in
      run_keeps key e calls (store key e cache) s (store-IsValid key e cache v) stored (omega arith)
