-- ===== src/RateLimit/Tests.antt =====
-- The rate limiter on small inputs, and the theorems at concrete runs.
use sagedockhand.Common.{length, nat_eq, text_eq, ℕ, suc, ◌≡◌, refl, some, List, [], ◌∷◌, arith}
use sagedockhand.Common.Text.{codes}
use sagedockhand.Common.JsMap.{get}
use sagedockhand.RateLimit.{is_rate_limited, record_failed_attempt, cleanup}
use sagedockhand.RateLimit.Cleanup.{
  IsValid, perform, perform-IsValid, is_rate_limited-cleanup, fail,
}
use sagedockhand.RateLimit.Lockout.{fail_all, final, verdict, is_rate_limited-fail_all}

abbrev times : List ℕ
times = 2000 ∷ 3000 ∷ 4000 ∷ 5000 ∷ []

empty-IsValid : IsValid []
unfolding get
empty-IsValid = record { distinct = tt; consistent = λ identifier entry found. cc }

one-IsValid : IsValid (perform (fail (codes "ann") 1000) [])
one-IsValid = perform-IsValid (fail (codes "ann") 1000) [] empty-IsValid

is_rate_limited-cleanup_example :
    (is_rate_limited (codes "ann") 3000 (cleanup 2000 (perform (fail (codes "ann") 1000) []))).1
    ≡ (is_rate_limited (codes "ann") 3000 (perform (fail (codes "ann") 1000) [])).1
is_rate_limited-cleanup_example =
    is_rate_limited-cleanup (codes "ann") 2000 3000 (perform (fail (codes "ann") 1000) [])
      one-IsValid (omega arith)

locked_test :
    (is_rate_limited (codes "ann") 6500 (fail_all (codes "ann") (1000 ∷ times) [])).1.retry_after
    ≡ some 899
unfolding is_rate_limited record_failed_attempt fail_all
locked_test = refl

is_rate_limited-fail_all_example :
    (is_rate_limited (codes "ann") 6500 (fail_all (codes "ann") (1000 ∷ times) [])).1
    ≡ verdict (suc (length times)) (final 1000 times) 6500
unfolding get
is_rate_limited-fail_all_example =
    is_rate_limited-fail_all (codes "ann") 1000 times [] 6500 refl (omega arith)
