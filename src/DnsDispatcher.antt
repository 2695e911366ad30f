-- ===== src/DnsDispatcher.antt =====
-- src/lib/server/dns-dispatcher.ts: the cache of names in front of the resolver of the system, which is not
-- here: its answers are events. A caller has a number; what happens to it is an effect.
pub mod FlightLaws
pub mod WaitLaws
pub mod CallerLaws
mod Tests
use sagedockhand.Common.{
  ltb, if◌then◌else◌, nat_eq, text_eq, ℕ, ◌+◌, Option, none, some, List, [], ◌∷◌, ◌++◌,
}
use sagedockhand.Common.Text.{Text}
use sagedockhand.Common.JsMap.{JsMap, get, put, remove}

abbrev pub dns_ttl_ms : ℕ
dns_ttl_ms = 30000

abbrev pub dns_neg_ttl_ms : ℕ
dns_neg_ttl_ms = 10000

-- What the resolver answers: an address with its family, or an error.
pub data Answer : Type 0 where
  found : Text → ℕ → Answer
  failed : Text → Answer

pub record Cached : Type 0 where
  pub answer : Answer
  pub expires_at : ℕ

-- `inFlight` has the callers that wait for a pending promise.
pub record Dispatcher : Type 0 where
  pub dns_cache : JsMap Text Cached
  pub dns_neg_cache : JsMap Text Cached
  pub in_flight : JsMap Text (List ℕ)

pub data Effect : Type 0 where
  -- `origLookup(hostname, …)` is called
  started : Text → Effect
  -- the promise of a caller for a name is settled
  settled : ℕ → Text → Answer → Effect

abbrev pub wait_for : ℕ → Text → Dispatcher → Option (List ℕ) → Dispatcher × List Effect
wait_for caller hostname d (some callers) =
    (record d { in_flight = put hostname (callers ++ caller ∷ []) d.in_flight }, [])
wait_for caller hostname d none =
    (record d { in_flight = put hostname (caller ∷ []) d.in_flight }, started hostname ∷ [])

-- From the deduplication on.
unfoldable pub join_or_start : ℕ → Text → Dispatcher → Dispatcher × List Effect
join_or_start caller hostname d = wait_for caller hostname d (get hostname d.in_flight)

abbrev pub try_negative : ℕ → Text → ℕ → Dispatcher → Option Cached → Dispatcher × List Effect
try_negative caller hostname now d none = join_or_start caller hostname d
try_negative caller hostname now d (some cached) =
    if ltb now cached.expires_at
    then (d, settled caller hostname cached.answer ∷ [])
    else join_or_start caller hostname
        (record d { dns_neg_cache = remove hostname d.dns_neg_cache })

-- From the negative cache on.
unfoldable pub after_positive : ℕ → Text → ℕ → Dispatcher → Dispatcher × List Effect
after_positive caller hostname now d =
    try_negative caller hostname now d (get hostname d.dns_neg_cache)

abbrev pub try_positive : ℕ → Text → ℕ → Dispatcher → Option Cached → Dispatcher × List Effect
try_positive caller hostname now d none = after_positive caller hostname now d
try_positive caller hostname now d (some cached) =
    if ltb now cached.expires_at
    then (d, settled caller hostname cached.answer ∷ [])
    else after_positive caller hostname now (record d { dns_cache = remove hostname d.dns_cache })

-- `lookupWithCache(hostname)`, called at the time `now`
unfoldable pub lookup_with_cache : ℕ → Text → ℕ → Dispatcher → Dispatcher × List Effect
lookup_with_cache caller hostname now d =
    try_positive caller hostname now d (get hostname d.dns_cache)

abbrev pub remember : Text → Answer → ℕ → Dispatcher → Dispatcher
remember hostname (found address family) now d = record d {
  dns_cache =
      put hostname (record { answer = found address family; expires_at = now + dns_ttl_ms })
        d.dns_cache;
}
remember hostname (failed error) now d = record d {
  dns_neg_cache =
      put hostname (record { answer = failed error; expires_at = now + dns_neg_ttl_ms })
        d.dns_neg_cache;
}

unfoldable pub settle_all : Text → Answer → List ℕ → List Effect
settle_all hostname answer [] = []
settle_all hostname answer (caller ∷ callers) =
    settled caller hostname answer ∷ settle_all hostname answer callers

abbrev pub finish : Text → Answer → Dispatcher → Option (List ℕ) → Dispatcher × List Effect
finish hostname answer d none = (d, [])
finish hostname answer d (some callers) =
    (record d { in_flight = remove hostname d.in_flight }, settle_all hostname answer callers)

-- The callback of the resolver, and the `finally` that follows it.
unfoldable pub on_answer : Text → Answer → ℕ → Dispatcher → Dispatcher × List Effect
on_answer hostname answer now d =
    finish hostname answer (remember hostname answer now d) (get hostname d.in_flight)

pub data Event : Type 0 where
  asks : ℕ → Text → ℕ → Event
  answers : Text → Answer → ℕ → Event

abbrev pub react : Event → Dispatcher → Dispatcher × List Effect
react (asks caller hostname now) d = lookup_with_cache caller hostname now d
react (answers hostname answer now) d = on_answer hostname answer now d

unfoldable pub react_all : List Event → Dispatcher → Dispatcher × List Effect
react_all [] d = (d, [])
react_all (event ∷ events) d =
    let (next, effects) = react event d in
    let (last, later) = react_all events next in (last, effects ++ later)
