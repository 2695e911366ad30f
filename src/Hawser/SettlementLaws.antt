-- ===== src/Hawser/SettlementLaws.antt =====
-- What the calls settle, and what is abandoned after them, is what they request.
use sagedockhand.Common.{
  eq_refl, nat_eq, text_eq, ℕ, ◌+◌, ◌≡◌, refl, ap, ◌∙◌, Bool, true, Option, none, some, List, [],
  ◌∷◌, ◌++◌, arith,
}
use sagedockhand.Common.Text.{Text}
use sagedockhand.Common.JsMap.{JsMap, get, put, remove, get-put, get-remove}
use sagedockhand.Hawser.Calls.{
  Call, perform, perform_all, IsPossible, ArePossible, requested, settled, occurrences, asks,
  unsent, relays, cancels, responds, receives, ends, gives_up,
}
use sagedockhand.Hawser.Requests.{
  forget_request, register, settle, on_response, take_data, on_stream, end_stream, on_stream_end,
}
use sagedockhand.Hawser.State.{
  Hello, ResponseMessage, Stream, Connection, Effect, collecting, relaying,
}
use sagedockhand.Hawser.Connections.{abandon, new_connection}
use sagedockhand.Hawser.ConsistencyLaws.{IsConsistent, get-same, perform-IsConsistent}
use sagedockhand.Hawser.AbandonLaws.{
  counted, waiting, occurrences-append, settled-append, abandon-waiting,
}
use mathlib.Core.List.{append_assoc}

counted-put :
    (id other : Text) (streaming : Bool) (m : JsMap Text Bool)
    → get id m ≡ none
    → counted (get other (put id streaming m)) ≡ counted (get other m) + occurrences other (id ∷ [])
counted-put id other streaming m fresh =
    ground (arith, fresh, get-put id other streaming m, get-same id other m)

counted-remove :
    (id other : Text) (streaming : Bool) (m : JsMap Text Bool)
    → get id m ≡ some streaming
    → counted (get other (remove id m)) + occurrences other (id ∷ []) ≡ counted (get other m)
counted-remove id other streaming m there =
    ground (arith, there, get-remove id other m, get-same id other m)

-- What a call settles and what waits after it make up what waited before it and what it requests.
abbrev IsBalanced : Text → Call → Connection → Type 0
IsBalanced id call c =
    occurrences id (settled (perform call c).1) + waiting id (perform call c).0
    ≡ waiting id c + occurrences id (requested (call ∷ []))

settle-balance :
    (id other : Text) (message : ResponseMessage) (c : Connection) (o : Option Bool)
    → get id c.pending_requests ≡ o
    → occurrences other (settled (settle id message c o).1)
        + waiting other (settle id message c o).0
      ≡ waiting other c
unfolding settled forget_request
settle-balance id other message c none h = omega arith
settle-balance id other message c (some streaming) h =
    omega (arith, counted-remove id other streaming c.pending_requests h)

take_data-balance :
    (id other chunk : Text) (c : Connection) (o : Option Stream)
    → occurrences other (settled (take_data id chunk c o).1)
        + waiting other (take_data id chunk c o).0
      ≡ waiting other c
unfolding settled
take_data-balance id other chunk c none = omega arith
take_data-balance id other chunk c (some relaying) = omega arith
take_data-balance id other chunk c (some (collecting chunks)) = omega arith

end_stream-balance :
    (id other : Text) (reason : Option Text) (c : Connection) (o : Option Stream)
    → get id c.pending_stream_requests ≡ o
    → IsConsistent c
    → occurrences other (settled (end_stream id reason c o).1)
        + waiting other (end_stream id reason c o).0
      ≡ waiting other c
unfolding settled
end_stream-balance id other reason c none h s = omega arith
end_stream-balance id other reason c (some relaying) h s = omega arith
end_stream-balance id other reason c (some (collecting chunks)) h s =
    omega (arith, counted-remove id other true c.pending_requests (s.awaited id chunks h))

perform-IsBalanced :
    (call : Call) (c : Connection) (id : Text)
    → IsPossible call c
    → IsConsistent c
    → IsBalanced id call c
unfolding perform requested settled register forget_request on_response on_stream on_stream_end
perform-IsBalanced (asks own streaming) c id (fresh, new) s =
    omega (arith, counted-put own id streaming c.pending_requests fresh)
perform-IsBalanced (unsent own streaming) c id (fresh, new) s =
    let added : get own (put own streaming c.pending_requests) ≡ some streaming =
      get-put own own streaming c.pending_requests ∙ rw (eq_refl own) refl in
    omega (
      arith,
      counted-put own id streaming c.pending_requests fresh,
      counted-remove own id streaming (put own streaming c.pending_requests) added,
    )
perform-IsBalanced (relays own) c id p s = omega arith
perform-IsBalanced (cancels own) c id p s = omega arith
perform-IsBalanced (responds own message) c id p s =
    omega (arith, settle-balance own id message c (get own c.pending_requests) refl)
perform-IsBalanced (receives own chunk) c id p s =
    omega (arith, take_data-balance own id chunk c (get own c.pending_stream_requests))
perform-IsBalanced (ends own reason) c id p s =
    omega (arith, end_stream-balance own id reason c (get own c.pending_stream_requests) refl s)
perform-IsBalanced (gives_up own reason) c id (streaming, there) s =
    omega (arith, counted-remove own id streaming c.pending_requests there)

requested-cons :
    (call : Call) (calls : List Call)
    → requested (call ∷ calls) ≡ requested (call ∷ []) ++ requested calls
unfolding requested
requested-cons (asks id streaming) calls = refl
requested-cons (unsent id streaming) calls = refl
requested-cons (relays id) calls = refl
requested-cons (cancels id) calls = refl
requested-cons (responds id message) calls = refl
requested-cons (receives id chunk) calls = refl
requested-cons (ends id reason) calls = refl
requested-cons (gives_up id reason) calls = refl

settled_from :
    (calls : List Call) (c : Connection) (id reason : Text)
    → ArePossible calls c
    → IsConsistent c
    → occurrences id (settled ((perform_all calls c).1 ++ abandon reason (perform_all calls c).0))
      ≡ waiting id c + occurrences id (requested calls)
unfolding perform_all requested
settled_from [] c id reason p s = omega (arith, abandon-waiting id reason c s)
settled_from (call ∷ calls) c id reason (p, ps) s =
    let next = (perform call c).0 in
    let first = (perform call c).1 in
    let later = (perform_all calls next).1 in
    let last = abandon reason (perform_all calls next).0 in
    let rest = settled_from calls next id reason ps (perform-IsConsistent call c p s) in
    let made =
      ap (occurrences id) (requested-cons call calls)
      ∙ occurrences-append id (requested (call ∷ [])) (requested calls) in
    let split =
      ap (occurrences id) (settled-append first (later ++ last))
      ∙ occurrences-append id (settled first) (settled (later ++ last)) in
    ap (λ (l : List Effect). occurrences id (settled l)) (append_assoc first later last)
    ∙ omega (arith, split, rest, made, perform-IsBalanced call c id p s)

pub settled-abandon :
    (calls : List Call) (number ws : ℕ) (agent : Hello) (now : ℕ) (id reason : Text)
    → ArePossible calls (new_connection number ws agent now)
    → let run = perform_all calls (new_connection number ws agent now) in
      occurrences id (settled (run.1 ++ abandon reason run.0)) ≡ occurrences id (requested calls)
unfolding get
settled-abandon calls number ws agent now id reason p =
    settled_from calls (new_connection number ws agent now) id reason p (record {
      requests_distinct = tt;
      streams_distinct = tt;
      awaited = λ other chunks h. absurd (ground (arith, h));
    })
    ∙ omega arith
