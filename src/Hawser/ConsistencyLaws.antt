-- ===== src/Hawser/ConsistencyLaws.antt =====
-- A stream that collects data belongs to a streaming request that waits.
use sagedockhand.Common.{
  Bool-cases, if-holds, ◌==◌, eq_iff, nat_eq, text_eq, ◌≡◌, refl, sym, ap, ◌∙◌, inl, inr, Bool,
  true, false, Option, none, some, List, [], ◌∷◌, ◌++◌, arith,
}
use sagedockhand.Common.Text.{Text}
use sagedockhand.Common.JsMap.{
  JsMap, get, put, remove, IsDistinct, get-put, get-remove, IsDistinct-put, IsDistinct-remove,
}
use sagedockhand.Hawser.Calls.{
  Call, perform, IsPossible, asks, unsent, relays, cancels, responds, receives, ends, gives_up,
}
use sagedockhand.Hawser.Requests.{
  forget_stream, forget_request, register, settle, on_response, take_data, on_stream, end_stream,
  on_stream_end,
}
use sagedockhand.Hawser.State.{ResponseMessage, Stream, Connection, collecting, relaying}

pub record IsConsistent (c : Connection) : Type 0 where
  pub requests_distinct : IsDistinct c.pending_requests
  pub streams_distinct : IsDistinct c.pending_stream_requests
  pub awaited :
      (id : Text) (chunks : List Text)
      → get id c.pending_stream_requests ≡ some (collecting chunks)
      → get id c.pending_requests ≡ some true

pub IsDistinct-forget_stream :
    (id : Text) (o : Option Bool) (pending : JsMap Text Stream)
    → IsDistinct pending
    → IsDistinct (forget_stream id o pending)
IsDistinct-forget_stream id (some true) pending d = IsDistinct-remove id pending d
IsDistinct-forget_stream id (some false) pending d = d
IsDistinct-forget_stream id none pending d = d

pub get-forget_stream :
    (id other : Text) (o : Option Bool) (pending : JsMap Text Stream) (stream : Stream)
    → get other (forget_stream id o pending) ≡ some stream
    → (get other pending ≡ some stream) × ((id == other) ≡ true → o ≡ some true → ⊥)
get-forget_stream id other (some true) pending stream h =
    let removed = get-remove id other pending in
    elim (Bool-cases (id == other)) [
      | inl same ↦ absurd (ground (arith, h, removed, same))
      | inr different ↦
          (ground (arith, h, removed, different), λ same e. ground (arith, same, different))
    ]
get-forget_stream id other (some false) pending stream h = (h, λ same e. ground (arith, e))
get-forget_stream id other none pending stream h = (h, λ same e. ground (arith, e))

relaying-ne : {chunks : List Text} → relaying ≡ collecting chunks → ⊥
relaying-ne e = ground (arith, e)

pub get-same :
    {A : Type 0} (id other : Text) (m : JsMap Text A)
    → (id == other) ≡ true
    → get id m ≡ get other m
get-same id other m h = ap (λ k. get k m) ((eq_iff id other).0 h)

forget_request-IsConsistent :
    (id : Text) (c : Connection) → IsConsistent c → IsConsistent (forget_request id c)
unfolding forget_request
forget_request-IsConsistent id c s = record {
  requests_distinct = IsDistinct-remove id c.pending_requests s.requests_distinct;
  streams_distinct =
      IsDistinct-forget_stream id (get id c.pending_requests) c.pending_stream_requests
        s.streams_distinct;
  awaited = λ other chunks h.
      let (there, apart) =
        get-forget_stream id other (get id c.pending_requests) c.pending_stream_requests
          (collecting chunks) h in
      let waits = s.awaited other chunks there in
      elim (Bool-cases (id == other)) [
        | inl same ↦ absurd (apart same (get-same id other c.pending_requests same ∙ waits))
        | inr different ↦ get-remove id other c.pending_requests ∙ rw different waits
      ];
}

register-IsConsistent :
    (id : Text) (streaming : Bool) (c : Connection)
    → get id c.pending_requests ≡ none
    → get id c.pending_stream_requests ≡ none
    → IsConsistent c
    → IsConsistent (register id streaming c)
unfolding register
register-IsConsistent id streaming c fresh new s = record {
  requests_distinct = IsDistinct-put id streaming c.pending_requests s.requests_distinct;
  streams_distinct =
      if-holds IsDistinct streaming
        (IsDistinct-put id (collecting []) c.pending_stream_requests s.streams_distinct)
        s.streams_distinct;
  awaited = λ other chunks h. ground (
    arith,
    h,
    fresh,
    new,
    s.awaited other chunks,
    get-put id other streaming c.pending_requests,
    get-put id other (collecting []) c.pending_stream_requests,
    eq_iff id other,
  );
}

-- A stream whose entry is put or removed, while the requests stay.
remove-IsConsistent :
    (id : Text) (c : Connection)
    → IsConsistent c
    → IsConsistent (record c { pending_stream_requests = remove id c.pending_stream_requests })
remove-IsConsistent id c s = record {
  requests_distinct = s.requests_distinct;
  streams_distinct = IsDistinct-remove id c.pending_stream_requests s.streams_distinct;
  awaited = λ other chunks h.
      s.awaited other chunks (ground (arith, h, get-remove id other c.pending_stream_requests));
}

put-IsConsistent :
    (id : Text) (stream : Stream) (c : Connection)
    → ((chunks : List Text) → stream ≡ collecting chunks → get id c.pending_requests ≡ some true)
    → IsConsistent c
    → IsConsistent (record c { pending_stream_requests = put id stream c.pending_stream_requests })
put-IsConsistent id stream c waits s = record {
  requests_distinct = s.requests_distinct;
  streams_distinct = IsDistinct-put id stream c.pending_stream_requests s.streams_distinct;
  awaited = λ other chunks h.
      let stored = get-put id other stream c.pending_stream_requests in
      elim (Bool-cases (id == other)) [
        | inl same ↦
            sym (get-same id other c.pending_requests same)
            ∙ waits chunks (ground (arith, h, stored, same))
        | inr different ↦ s.awaited other chunks (ground (arith, h, stored, different))
      ];
}

settle-IsConsistent :
    (id : Text) (message : ResponseMessage) (c : Connection) (o : Option Bool)
    → IsConsistent c
    → IsConsistent (settle id message c o).0
settle-IsConsistent id message c none s = s
settle-IsConsistent id message c (some streaming) s = forget_request-IsConsistent id c s

take_data-IsConsistent :
    (id chunk : Text) (c : Connection) (o : Option Stream)
    → get id c.pending_stream_requests ≡ o
    → IsConsistent c
    → IsConsistent (take_data id chunk c o).0
take_data-IsConsistent id chunk c none h s = s
take_data-IsConsistent id chunk c (some relaying) h s = s
take_data-IsConsistent id chunk c (some (collecting chunks)) h s =
    put-IsConsistent id (collecting (chunks ++ chunk ∷ [])) c (λ more e. s.awaited id chunks h) s

end_stream-IsConsistent :
    (id : Text) (reason : Option Text) (c : Connection) (o : Option Stream)
    → IsConsistent c
    → IsConsistent (end_stream id reason c o).0
end_stream-IsConsistent id reason c none s = s
end_stream-IsConsistent id reason c (some relaying) s = remove-IsConsistent id c s
end_stream-IsConsistent id reason c (some (collecting chunks)) s = record {
  requests_distinct = IsDistinct-remove id c.pending_requests s.requests_distinct;
  streams_distinct = IsDistinct-remove id c.pending_stream_requests s.streams_distinct;
  awaited = λ other more h.
      let removed = get-remove id other c.pending_stream_requests in
      let there : get other c.pending_stream_requests ≡ some (collecting more) =
        ground (arith, h, removed) in
      ground
        (arith, h, removed, s.awaited other more there, get-remove id other c.pending_requests);
}

pub perform-IsConsistent :
    (call : Call) (c : Connection)
    → IsPossible call c
    → IsConsistent c
    → IsConsistent (perform call c).0
unfolding perform on_response on_stream on_stream_end
perform-IsConsistent (asks id streaming) c (fresh, new) s =
    register-IsConsistent id streaming c fresh new s
perform-IsConsistent (unsent id streaming) c (fresh, new) s =
    forget_request-IsConsistent id (register id streaming c)
      (register-IsConsistent id streaming c fresh new s)
perform-IsConsistent (relays id) c fresh s =
    put-IsConsistent id relaying c (λ chunks e. absurd (relaying-ne e)) s
perform-IsConsistent (cancels id) c p s = remove-IsConsistent id c s
perform-IsConsistent (responds id message) c p s =
    settle-IsConsistent id message c (get id c.pending_requests) s
perform-IsConsistent (receives id chunk) c p s =
    take_data-IsConsistent id chunk c (get id c.pending_stream_requests) refl s
perform-IsConsistent (ends id reason) c p s =
    end_stream-IsConsistent id reason c (get id c.pending_stream_requests) s
perform-IsConsistent (gives_up id reason) c p s = forget_request-IsConsistent id c s
