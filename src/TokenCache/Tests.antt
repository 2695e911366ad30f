-- ===== src/TokenCache/Tests.antt =====
-- Runs of the token cache on small inputs, and the theorems at concrete caches.
use sagedockhand.Common.{nat_eq, text_eq, ℕ, ◌≡◌, refl, some, [], ◌∷◌, arith}
use sagedockhand.Common.Text.{Text, codes}
use sagedockhand.Common.JsMap.{JsMap, get, put, remove, remove_if}
use sagedockhand.TokenCache.{
  TokenCacheEntry, lookup, store, invalidate_token_cache_for_user, cleanup,
}
use sagedockhand.TokenCache.Runs.{run, run-IsValid, run-store_survives, look, keep_entry}
use sagedockhand.TokenCache.Eviction.{IsValid}

abbrev entry_of : ℕ → ℕ → TokenCacheEntry Unit
entry_of user_id expires_at = record { user_id = user_id; user = tt; expires_at = expires_at }

abbrev two : JsMap Text (TokenCacheEntry Unit)
two = (codes "a", entry_of 1 50) ∷ (codes "b", entry_of 2 90) ∷ []

two-IsValid : IsValid two
unfolding get
two-IsValid = record { distinct = (refl, (refl, tt)); bounded = omega arith }

moved : (lookup (codes "a") two).0 ≡ (codes "b", entry_of 2 90) ∷ (codes "a", entry_of 1 50) ∷ []
unfolding lookup get put remove
moved = refl

dropped :
    (cleanup 50 two ≡ (codes "b", entry_of 2 90) ∷ [])
    × (invalidate_token_cache_for_user 2 two ≡ (codes "a", entry_of 1 50) ∷ [])
unfolding cleanup invalidate_token_cache_for_user remove_if
dropped = (refl, refl)

run-IsValid_example :
    IsValid (run (look (codes "a") ∷ keep_entry (codes "c") (entry_of 3 70) ∷ []) two)
run-IsValid_example =
    run-IsValid (look (codes "a") ∷ keep_entry (codes "c") (entry_of 3 70) ∷ []) two two-IsValid

run-store_survives_example :
    get (codes "c") (
      run
        (look (codes "a") ∷ keep_entry (codes "d") (entry_of 4 70) ∷ [])
        (store (codes "c") (entry_of 3 70) two))
    ≡ some (entry_of 3 70)
run-store_survives_example =
    run-store_survives (codes "c") (entry_of 3 70)
      (look (codes "a") ∷ keep_entry (codes "d") (entry_of 4 70) ∷ []) two (tt, (ground arith, tt))
      two-IsValid (omega arith)
