-- ===== src/DnsDispatcher/FlightLaws.antt =====
-- The balance of the lookups of a name that are started and answered.
use sagedockhand.Common.{
  ltb, if◌then◌else◌, if-holds, ◌==◌, eq_iff, nat_eq, text_eq, ℕ, suc, ◌+◌, ◌≡◌, refl, ap, true,
  Option, none, some, List, [], ◌∷◌, ◌++◌, arith,
}
use sagedockhand.Common.Text.{Text}
use sagedockhand.Common.JsMap.{JsMap, get, remove, get-put, get-remove}
use sagedockhand.DnsDispatcher.{
  Answer, Cached, Dispatcher, Effect, wait_for, join_or_start, try_negative, after_positive,
  try_positive, lookup_with_cache, remember, settle_all, on_answer, Event, react, react_all, found,
  failed, started, settled, asks, answers,
}

-- How often a name is looked up, and how often the resolver answers it.
unfoldable pub starts_of : Text → List Effect → ℕ
starts_of hostname [] = 0
starts_of hostname (started name ∷ effects) =
    let rest = starts_of hostname effects in if name == hostname then suc rest else rest
starts_of hostname (settled caller name answer ∷ effects) = starts_of hostname effects

unfoldable pub answers_of : Text → List Event → ℕ
answers_of hostname [] = 0
answers_of hostname (asks caller name now ∷ events) = answers_of hostname events
answers_of hostname (answers name answer now ∷ events) =
    let rest = answers_of hostname events in if name == hostname then suc rest else rest

-- The resolver answers only what is looked up.
abbrev pub IsPossible : Event → Dispatcher → Type 0
IsPossible (asks caller hostname now) d = Unit
IsPossible (answers hostname answer now) d =
    (callers : List ℕ) × (get hostname d.in_flight ≡ some callers)

abbrev pub ArePossible : List Event → Dispatcher → Type 0
ArePossible [] d = Unit
ArePossible (event ∷ events) d = IsPossible event d × ArePossible events (react event d).0

abbrev pub flying : Option (List ℕ) → ℕ
flying none = 0
flying (some callers) = 1

abbrev IsBalanced : Text → ℕ → Dispatcher → Dispatcher × List Effect → Type 0
IsBalanced hostname answered before r =
    starts_of hostname r.1 + flying (get hostname before.in_flight)
    ≡ answered + flying (get hostname r.0.in_flight)

starts_of-append :
    (hostname : Text) (xs ys : List Effect)
    → starts_of hostname (xs ++ ys) ≡ starts_of hostname xs + starts_of hostname ys
unfolding starts_of
starts_of-append hostname [] ys = omega arith
starts_of-append hostname (started name ∷ xs) ys = ground (arith, starts_of-append hostname xs ys)
starts_of-append hostname (settled caller name answer ∷ xs) ys = starts_of-append hostname xs ys

starts_of-settle_all :
    (hostname name : Text) (answer : Answer) (callers : List ℕ)
    → starts_of hostname (settle_all name answer callers) ≡ 0
unfolding starts_of settle_all
starts_of-settle_all hostname name answer [] = refl
starts_of-settle_all hostname name answer (caller ∷ callers) =
    starts_of-settle_all hostname name answer callers

get-same :
    (name hostname : Text) (m : JsMap Text (List ℕ))
    → (name == hostname) ≡ true
    → get name m ≡ get hostname m
get-same name hostname m h = ap (λ k. get k m) ((eq_iff name hostname).0 h)

wait_for-IsBalanced :
    (hostname name : Text) (caller : ℕ) (d : Dispatcher) (o : Option (List ℕ))
    → get name d.in_flight ≡ o
    → IsBalanced hostname 0 d (wait_for caller name d o)
unfolding starts_of
wait_for-IsBalanced hostname name caller d none h =
    ground (
      arith,
      h,
      get-put name hostname (caller ∷ []) d.in_flight,
      get-same name hostname d.in_flight,
    )
wait_for-IsBalanced hostname name caller d (some callers) h = ground (
  arith,
  h,
  get-put name hostname (callers ++ caller ∷ []) d.in_flight,
  get-same name hostname d.in_flight,
)

try_negative-IsBalanced :
    (hostname name : Text) (caller now : ℕ) (d : Dispatcher) (o : Option Cached)
    → IsBalanced hostname 0 d (try_negative caller name now d o)
unfolding starts_of join_or_start
try_negative-IsBalanced hostname name caller now d none =
    wait_for-IsBalanced hostname name caller d (get name d.in_flight) refl
try_negative-IsBalanced hostname name caller now d (some cached) =
    if-holds (IsBalanced hostname 0 d) (ltb now cached.expires_at) (omega arith) (
      wait_for-IsBalanced hostname name caller
        (record d { dns_neg_cache = remove name d.dns_neg_cache }) (get name d.in_flight) refl)

try_positive-IsBalanced :
    (hostname name : Text) (caller now : ℕ) (d : Dispatcher) (o : Option Cached)
    → IsBalanced hostname 0 d (try_positive caller name now d o)
unfolding starts_of after_positive
try_positive-IsBalanced hostname name caller now d none =
    try_negative-IsBalanced hostname name caller now d (get name d.dns_neg_cache)
try_positive-IsBalanced hostname name caller now d (some cached) =
    if-holds (IsBalanced hostname 0 d) (ltb now cached.expires_at) (omega arith) (
      try_negative-IsBalanced hostname name caller now
        (record d { dns_cache = remove name d.dns_cache }) (get name d.dns_neg_cache))

in_flight-remember :
    (name : Text) (answer : Answer) (now : ℕ) (d : Dispatcher)
    → (remember name answer now d).in_flight ≡ d.in_flight
in_flight-remember name (found address family) now d = refl
in_flight-remember name (failed error) now d = refl

pub react-IsBalanced :
    (hostname : Text) (event : Event) (d : Dispatcher)
    → IsPossible event d
    → IsBalanced hostname (answers_of hostname (event ∷ [])) d (react event d)
unfolding lookup_with_cache on_answer answers_of
react-IsBalanced hostname (asks caller name now) d p =
    try_positive-IsBalanced hostname name caller now d (get name d.dns_cache)
react-IsBalanced hostname (answers name answer now) d (callers, there) =
    let kept = in_flight-remember name answer now d in
    let after = remember name answer now d in
    rw there (
      ground (
        arith,
        there,
        starts_of-settle_all hostname name answer callers,
        ap (λ (m : JsMap Text (List ℕ)). get hostname (remove name m)) kept,
        get-remove name hostname d.in_flight,
        get-same name hostname d.in_flight,
      ))

answers_of-cons :
    (hostname : Text) (event : Event) (events : List Event)
    → answers_of hostname (event ∷ events)
      ≡ answers_of hostname (event ∷ []) + answers_of hostname events
unfolding answers_of
answers_of-cons hostname (asks caller name now) events = omega arith
answers_of-cons hostname (answers name answer now) events = ground arith

-- In any run, a name is looked up as often as it is answered, and once more exactly when a lookup is in
-- flight at the end and was not at the start.
pub react_all-IsBalanced :
    (hostname : Text) (events : List Event) (d : Dispatcher)
    → ArePossible events d
    → IsBalanced hostname (answers_of hostname events) d (react_all events d)
unfolding react_all starts_of answers_of
react_all-IsBalanced hostname [] d p = omega arith
react_all-IsBalanced hostname (event ∷ events) d (p, ps) =
    let next = (react event d).0 in
    omega (
      arith,
      react-IsBalanced hostname event d p,
      react_all-IsBalanced hostname events next ps,
      answers_of-cons hostname event events,
      starts_of-append hostname (react event d).1 (react_all events next).1,
    )
