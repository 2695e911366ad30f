-- ===== src/Hawser/Calls.antt =====
-- The calls that reach one connection while it is in the table, and what they settle.
use sagedockhand.Common.{
  length, keep, ◌==◌, nat_eq, text_eq, ℕ, ◌≡◌, Bool, true, Option, none, some, List, [], ◌∷◌, ◌++◌,
}
use sagedockhand.Common.Text.{Text, codes}
use sagedockhand.Common.JsMap.{get, put, remove}
use sagedockhand.Hawser.Requests.{forget_request, register, on_response, on_stream, on_stream_end}
use sagedockhand.Hawser.State.{
  ResponseMessage, Connection, Effect, relaying, request, stream_cancelled, resolved, collected,
  rejected, relayed, relay_ended, relay_failed, sent, closed, terminated, status_changed, forwarded,
}

-- Each is the part of a function of Requests that is about the connection: a request that goes out and one
-- that fails to, a stream for a caller, the three messages of the agent, a timer or signal of a request,
-- and the `cancel` of a stream.
pub data Call : Type 0 where
  asks unsent : Text → Bool → Call
  relays cancels : Text → Call
  responds : Text → ResponseMessage → Call
  receives : Text → Text → Call
  ends : Text → Option Text → Call
  gives_up : Text → Text → Call

unfoldable pub perform : Call → Connection → Connection × List Effect
perform (asks id streaming) c = (register id streaming c, sent c.ws (request id streaming) ∷ [])
perform (unsent id streaming) c =
    (forget_request id (register id streaming c), rejected id (codes "Failed to send message") ∷ [])
perform (relays id) c = (
  record c { pending_stream_requests = put id relaying c.pending_stream_requests },
  sent c.ws (request id true) ∷ [],
)
perform (cancels id) c = (
  record c { pending_stream_requests = remove id c.pending_stream_requests },
  sent c.ws (stream_cancelled id) ∷ [],
)
perform (responds id message) c = on_response id message c
perform (receives id chunk) c = on_stream id chunk c
perform (ends id reason) c = on_stream_end id reason c
perform (gives_up id reason) c = (forget_request id c, rejected id reason ∷ [])

unfoldable pub perform_all : List Call → Connection → Connection × List Effect
perform_all [] c = (c, [])
perform_all (call ∷ calls) c =
    let (next, effects) = perform call c in
    let (last, later) = perform_all calls next in (last, effects ++ later)

-- A request and a stream have an id that is not in use, and a request is given up only while it waits.
abbrev pub IsPossible : Call → Connection → Type 0
IsPossible (asks id streaming) c =
    (get id c.pending_requests ≡ none) × (get id c.pending_stream_requests ≡ none)
IsPossible (unsent id streaming) c =
    (get id c.pending_requests ≡ none) × (get id c.pending_stream_requests ≡ none)
IsPossible (relays id) c = get id c.pending_requests ≡ none
IsPossible (cancels id) c = Unit
IsPossible (responds id message) c = Unit
IsPossible (receives id chunk) c = Unit
IsPossible (ends id reason) c = Unit
IsPossible (gives_up id reason) c =
    (streaming : Bool) × (get id c.pending_requests ≡ some streaming)

abbrev pub ArePossible : List Call → Connection → Type 0
ArePossible [] c = Unit
ArePossible (call ∷ calls) c = IsPossible call c × ArePossible calls (perform call c).0

-- The requests that are made, and those that effects settle.
unfoldable pub requested : List Call → List Text
requested [] = []
requested (asks id streaming ∷ calls) = id ∷ requested calls
requested (unsent id streaming ∷ calls) = id ∷ requested calls
requested (relays id ∷ calls) = requested calls
requested (cancels id ∷ calls) = requested calls
requested (responds id message ∷ calls) = requested calls
requested (receives id chunk ∷ calls) = requested calls
requested (ends id reason ∷ calls) = requested calls
requested (gives_up id reason ∷ calls) = requested calls

abbrev pub settled_by : Effect → List Text
settled_by (resolved id message) = id ∷ []
settled_by (collected id chunks) = id ∷ []
settled_by (rejected id reason) = id ∷ []
settled_by (relayed id chunk) = []
settled_by (relay_ended id reason) = []
settled_by (relay_failed id reason) = []
settled_by (sent ws message) = []
settled_by (closed ws code) = []
settled_by (terminated ws) = []
settled_by (status_changed env_id agent) = []
settled_by (forwarded env_id message) = []

unfoldable pub settled : List Effect → List Text
settled [] = []
settled (effect ∷ effects) = settled_by effect ++ settled effects

abbrev pub occurrences : Text → List Text → ℕ
occurrences id ids = length (keep (λ other. other == id) ids)
