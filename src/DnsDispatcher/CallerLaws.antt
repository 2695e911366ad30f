-- ===== src/DnsDispatcher/CallerLaws.antt =====
-- How often callers are answered, and how many lookups are started.
use sagedockhand.Common.{
  ltb, if◌then◌else◌, if-holds, ◌==◌, nat_eq, text_eq, ℕ, ◌+◌, ◌≡◌, refl, Bool, Option, none, some,
  List, [], ◌∷◌, ◌++◌, arith,
}
use sagedockhand.Common.Text.{Text}
use sagedockhand.Common.JsMap.{get, remove, IsDistinct, IsDistinct-put, IsDistinct-remove}
use sagedockhand.DnsDispatcher.{
  Answer, Cached, Dispatcher, Effect, wait_for, join_or_start, try_negative, after_positive,
  try_positive, lookup_with_cache, remember, finish, on_answer, Event, react, react_all, found,
  failed, settled, asks, answers,
}
use sagedockhand.DnsDispatcher.FlightLaws.{
  starts_of, answers_of, ArePossible, flying, react_all-IsBalanced,
}
use sagedockhand.DnsDispatcher.WaitLaws.{
  settlements, asked, waits, times_in-append, waits-put, waits-remove, settlements-append,
  settlements-settle_all,
}

-- No name is in flight twice, and what is settled and what waits make up what waited and what asks.
record IsSettled (caller asking : ℕ) (before : Dispatcher) (r : Dispatcher × List Effect)
    : Type 0 where
  distinct : IsDistinct r.0.in_flight
  balance :
      settlements caller r.1 + waits caller r.0.in_flight ≡ waits caller before.in_flight + asking

abbrev one_if : Bool → ℕ
one_if b = if b then 1 else 0

wait_for-IsSettled :
    (caller own : ℕ) (name : Text) (d : Dispatcher) (o : Option (List ℕ))
    → get name d.in_flight ≡ o
    → IsDistinct d.in_flight
    → IsSettled caller (one_if (own == caller)) d (wait_for own name d o)
unfolding settlements
wait_for-IsSettled caller own name d none h e = record {
  distinct = IsDistinct-put name (own ∷ []) d.in_flight e;
  balance = ground (arith, h, waits-put caller name (own ∷ []) d.in_flight);
}
wait_for-IsSettled caller own name d (some callers) h e = record {
  distinct = IsDistinct-put name (callers ++ own ∷ []) d.in_flight e;
  balance = ground (
    arith,
    h,
    waits-put caller name (callers ++ own ∷ []) d.in_flight,
    times_in-append caller callers (own ∷ []),
  );
}

cached-IsSettled :
    (caller own : ℕ) (name : Text) (answer : Answer) (d : Dispatcher)
    → IsDistinct d.in_flight
    → IsSettled caller (one_if (own == caller)) d (d, settled own name answer ∷ [])
unfolding settlements
cached-IsSettled caller own name answer d e = record { distinct = e; balance = ground arith }

try_negative-IsSettled :
    (caller own now : ℕ) (name : Text) (d : Dispatcher) (o : Option Cached)
    → IsDistinct d.in_flight
    → IsSettled caller (one_if (own == caller)) d (try_negative own name now d o)
unfolding join_or_start
try_negative-IsSettled caller own now name d none e =
    wait_for-IsSettled caller own name d (get name d.in_flight) refl e
try_negative-IsSettled caller own now name d (some cached) e =
    if-holds (IsSettled caller (one_if (own == caller)) d) (ltb now cached.expires_at)
      (cached-IsSettled caller own name cached.answer d e)
      (let r =
          wait_for-IsSettled caller own name
            (record d { dns_neg_cache = remove name d.dns_neg_cache }) (get name d.in_flight) refl
            e in
        record { distinct = r.distinct; balance = r.balance })

try_positive-IsSettled :
    (caller own now : ℕ) (name : Text) (d : Dispatcher) (o : Option Cached)
    → IsDistinct d.in_flight
    → IsSettled caller (one_if (own == caller)) d (try_positive own name now d o)
unfolding after_positive
try_positive-IsSettled caller own now name d none e =
    try_negative-IsSettled caller own now name d (get name d.dns_neg_cache) e
try_positive-IsSettled caller own now name d (some cached) e =
    if-holds (IsSettled caller (one_if (own == caller)) d) (ltb now cached.expires_at)
      (cached-IsSettled caller own name cached.answer d e)
      (let r =
          try_negative-IsSettled caller own now name
            (record d { dns_cache = remove name d.dns_cache }) (get name d.dns_neg_cache) e in
        record { distinct = r.distinct; balance = r.balance })

finish-IsSettled :
    (caller : ℕ) (name : Text) (answer : Answer) (now : ℕ) (d : Dispatcher) (o : Option (List ℕ))
    → get name d.in_flight ≡ o
    → IsDistinct d.in_flight
    → IsSettled caller 0 d (finish name answer (remember name answer now d) o)
unfolding settlements
finish-IsSettled caller name (found a f) now d none h e = record {
  distinct = e;
  balance = omega arith;
}
finish-IsSettled caller name (failed x) now d none h e = record {
  distinct = e;
  balance = omega arith;
}
finish-IsSettled caller name (found a f) now d (some callers) h e = record {
  distinct = IsDistinct-remove name d.in_flight e;
  balance = ground (
    arith,
    h,
    settlements-settle_all caller name (found a f) callers,
    waits-remove caller name d.in_flight e,
  );
}
finish-IsSettled caller name (failed x) now d (some callers) h e = record {
  distinct = IsDistinct-remove name d.in_flight e;
  balance = ground (
    arith,
    h,
    settlements-settle_all caller name (failed x) callers,
    waits-remove caller name d.in_flight e,
  );
}

react-IsSettled :
    (caller : ℕ) (event : Event) (d : Dispatcher)
    → IsDistinct d.in_flight
    → IsSettled caller (asked caller (event ∷ [])) d (react event d)
unfolding lookup_with_cache on_answer asked
react-IsSettled caller (asks own name now) d e =
    try_positive-IsSettled caller own now name d (get name d.dns_cache) e
react-IsSettled caller (answers name answer now) d e =
    finish-IsSettled caller name answer now d (get name d.in_flight) refl e

asked-cons :
    (caller : ℕ) (event : Event) (events : List Event)
    → asked caller (event ∷ events) ≡ asked caller (event ∷ []) + asked caller events
unfolding asked
asked-cons caller (asks own name now) events = ground arith
asked-cons caller (answers name answer now) events = omega arith

react_all-IsSettled :
    (caller : ℕ) (events : List Event) (d : Dispatcher)
    → IsDistinct d.in_flight
    → IsSettled caller (asked caller events) d (react_all events d)
unfolding react_all settlements asked
react_all-IsSettled caller [] d e = record { distinct = e; balance = omega arith }
react_all-IsSettled caller (event ∷ events) d e =
    let first = react-IsSettled caller event d e in
    let rest = react_all-IsSettled caller events (react event d).0 first.distinct in
    record {
      distinct = rest.distinct;
      balance = omega (
        arith,
        first.balance,
        rest.balance,
        asked-cons caller event events,
        settlements-append caller (react event d).1 (react_all events (react event d).0).1,
      );
    }

-- In any run from a dispatcher that has no name in flight twice, in which the resolver answers only what is
-- looked up: the lookups of a name that are started, and one more if the name is in flight at the start, are
-- as many as the answers for it, and one more if it is in flight at the end; and the number of times that a
-- caller is answered or waits at the end is the number of times that it waits at the start or asks.
pub react_all-balance :
    (hostname : Text) (caller : ℕ) (events : List Event) (d : Dispatcher)
    → ArePossible events d
    → IsDistinct d.in_flight
    → let (after, effects) = react_all events d in
      (starts_of hostname effects + flying (get hostname d.in_flight)
        ≡ answers_of hostname events + flying (get hostname after.in_flight))
      × (settlements caller effects + waits caller after.in_flight
          ≡ waits caller d.in_flight + asked caller events)
react_all-balance hostname caller events d p e =
    (react_all-IsBalanced hostname events d p, (react_all-IsSettled caller events d e).balance)
