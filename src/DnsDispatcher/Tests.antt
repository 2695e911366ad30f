-- ===== src/DnsDispatcher/Tests.antt =====
-- The dispatcher on small inputs, and the theorem at a concrete run.
use sagedockhand.Common.{nat_eq, text_eq, ◌+◌, ◌≡◌, refl, List, [], ◌∷◌}
use sagedockhand.Common.Text.{Text, codes}
use sagedockhand.Common.JsMap.{get, put, remove}
use sagedockhand.DnsDispatcher.{
  Dispatcher, join_or_start, after_positive, lookup_with_cache, settle_all, on_answer, Event,
  react_all, found, started, settled, asks, answers,
}
use sagedockhand.DnsDispatcher.FlightLaws.{starts_of, answers_of, ArePossible, flying}
use sagedockhand.DnsDispatcher.WaitLaws.{settlements, asked, waits}
use sagedockhand.DnsDispatcher.CallerLaws.{react_all-balance}

abbrev empty : Dispatcher
empty = record { dns_cache = []; dns_neg_cache = []; in_flight = [] }

abbrev home : Text
home = codes "nas.local"

abbrev events : List Event
events =
    asks 1 home 100
    ∷ asks 2 home 150
    ∷ answers home (found (codes "10.0.0.2") 4) 200
    ∷ asks 3 home 30100
    ∷ asks 1 home 30200
    ∷ []

events-ArePossible : ArePossible events empty
unfolding lookup_with_cache after_positive join_or_start on_answer get put remove
events-ArePossible = (tt, (tt, ((1 ∷ 2 ∷ [], refl), (tt, (tt, tt)))))

react_all-balance_example :
    let (after, effects) = react_all events empty in
    (starts_of home effects + flying (get home empty.in_flight)
      ≡ answers_of home events + flying (get home after.in_flight))
    × (settlements 1 effects + waits 1 after.in_flight ≡ waits 1 empty.in_flight + asked 1 events)
react_all-balance_example = react_all-balance home 1 events empty events-ArePossible tt

-- Two callers share a lookup, one reads the cache, and one comes when the entry has expired.
effects_test :
    (react_all events empty).1
    ≡ started home
      ∷ settled 1 home (found (codes "10.0.0.2") 4)
      ∷ settled 2 home (found (codes "10.0.0.2") 4)
      ∷ settled 3 home (found (codes "10.0.0.2") 4)
      ∷ started home
      ∷ []
unfolding react_all lookup_with_cache after_positive join_or_start on_answer settle_all get put
    remove
effects_test = refl
