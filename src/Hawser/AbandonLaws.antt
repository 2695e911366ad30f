-- ===== src/Hawser/AbandonLaws.antt =====
-- Ending a connection rejects each request that waits once, and settles no other.
use sagedockhand.Common.{
  Bool-cases, All, ◌==◌, nat_eq, text_eq, ℕ, ◌+◌, ◌≡◌, refl, sym, ap, ◌∙◌, inl, inr, Bool, true,
  Option, none, some, List, [], ◌∷◌, ◌++◌, arith,
}
use sagedockhand.Common.Text.{Text}
use sagedockhand.Common.JsMap.{JsMap, get, IsDistinct, All-of_get}
use sagedockhand.Hawser.Calls.{settled_by, settled, occurrences}
use sagedockhand.Hawser.Requests.{forget_stream}
use sagedockhand.Hawser.State.{Stream, Connection, Effect, collecting, relaying}
use sagedockhand.Hawser.Connections.{reject_requests, end_streams, abandon}
use sagedockhand.Hawser.ConsistencyLaws.{
  IsConsistent, IsDistinct-forget_stream, get-forget_stream, get-same,
}
use mathlib.Core.List.{append_assoc, append-nil}

abbrev pub counted : Option Bool → ℕ
counted none = 0
counted (some streaming) = 1

-- Whether a request waits, as a number.
abbrev pub waiting : Text → Connection → ℕ
waiting id c = counted (get id c.pending_requests)

pub occurrences-append :
    (id : Text) (xs ys : List Text)
    → occurrences id (xs ++ ys) ≡ occurrences id xs + occurrences id ys
occurrences-append id [] ys = omega arith
occurrences-append id (x ∷ xs) ys = ground (arith, occurrences-append id xs ys)

pub settled-append : (xs ys : List Effect) → settled (xs ++ ys) ≡ settled xs ++ settled ys
unfolding settled
settled-append [] ys = refl
settled-append (x ∷ xs) ys =
    ap (◌++◌ (settled_by x)) (settled-append xs ys)
    ∙ sym (append_assoc (settled_by x) (settled xs) (settled ys))

-- The loop over the requests rejects each of them once.
occurrences-reject_requests :
    (id : Text) (reason : Text) (requests : JsMap Text Bool) (pending : JsMap Text Stream)
    → IsDistinct requests
    → occurrences id (settled (reject_requests reason requests pending).1)
      ≡ counted (get id requests)
unfolding reject_requests settled get
occurrences-reject_requests id reason [] pending d = refl
occurrences-reject_requests id reason ((own, streaming) ∷ requests) pending (fresh, d) =
    let left = forget_stream own (some streaming) pending in
    let rest = occurrences-reject_requests id reason requests left d in
    ground (arith, rest, fresh, get-same own id requests)

-- The streams that it leaves were there before, and are not those of streaming requests.
get-reject_requests :
    (id reason : Text) (requests : JsMap Text Bool) (pending : JsMap Text Stream) (stream : Stream)
    → get id (reject_requests reason requests pending).0 ≡ some stream
    → (get id pending ≡ some stream) × (get id requests ≡ some true → ⊥)
unfolding reject_requests get
get-reject_requests id reason [] pending stream h = (h, λ e. ground (arith, e))
get-reject_requests id reason ((own, streaming) ∷ requests) pending stream h =
    let (there, apart) =
      get-reject_requests id reason requests (forget_stream own (some streaming) pending) stream
        h in
    let (first, other) = get-forget_stream own id (some streaming) pending stream there in
    (
      first,
      λ e. elim (Bool-cases (own == id)) [
        | inl same ↦ other same (ground (arith, e, same))
        | inr different ↦ apart (ground (arith, e, different))
      ],
    )

IsDistinct-reject_requests :
    (reason : Text) (requests : JsMap Text Bool) (pending : JsMap Text Stream)
    → IsDistinct pending
    → IsDistinct (reject_requests reason requests pending).0
unfolding reject_requests
IsDistinct-reject_requests reason [] pending d = d
IsDistinct-reject_requests reason ((own, streaming) ∷ requests) pending d =
    IsDistinct-reject_requests reason requests (forget_stream own (some streaming) pending)
      (IsDistinct-forget_stream own (some streaming) pending d)

abbrev IsRelay : Stream → Type 0
IsRelay relaying = Unit
IsRelay (collecting chunks) = ⊥

-- Ending the streams of callers settles no request.
settled-end_streams :
    (reason : Text) (pending : JsMap Text Stream)
    → All (λ (entry : Text × Stream). IsRelay entry.1) pending
    → settled (end_streams reason pending) ≡ []
unfolding end_streams settled
settled-end_streams reason [] h = refl
settled-end_streams reason ((id, relaying) ∷ pending) (p, h) = settled-end_streams reason pending h
settled-end_streams reason ((id, collecting chunks) ∷ pending) (p, h) = absurd p

is_relay :
    (c : Connection) (id : Text) (stream : Stream)
    → IsConsistent c
    → get id c.pending_stream_requests ≡ some stream
    → (get id c.pending_requests ≡ some true → ⊥)
    → IsRelay stream
is_relay c id relaying s h apart = tt
is_relay c id (collecting chunks) s h apart = apart (s.awaited id chunks h)

pub abandon-waiting :
    (id reason : Text) (c : Connection)
    → IsConsistent c
    → occurrences id (settled (abandon reason c)) ≡ waiting id c
unfolding abandon
abandon-waiting id reason c s =
    let requests = c.pending_requests in
    let pending = c.pending_stream_requests in
    let left = (reject_requests reason requests pending).0 in
    let relays =
      All-of_get (λ (key : Text) (stream : Stream). IsRelay stream) left
        (IsDistinct-reject_requests reason requests pending s.streams_distinct)
        (λ key stream h.
          let (there, apart) = get-reject_requests key reason requests pending stream h in
          is_relay c key stream s there apart) in
    ap (occurrences id) (
      settled-append (reject_requests reason requests pending).1 (end_streams reason left)
      ∙ ap (◌++◌ (settled (reject_requests reason requests pending).1))
          (settled-end_streams reason left relays)
      ∙ append-nil _)
    ∙ occurrences-reject_requests id reason requests pending s.requests_distinct
