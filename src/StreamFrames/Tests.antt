-- ===== src/StreamFrames/Tests.antt =====
-- A stream of three frames, cut in the middle of a header and of a payload.
use sagedockhand.Common.{
  ◌++◌, false, true, inr, nat_eq, map, All, arith, nat_eq, ℕ, ◌≡◌, refl, List, [], ◌∷◌,
}
use sagedockhand.StreamFrames.{
  Frame, read_uint8, read_uint32_be, next_frame, frames_of, payloads_of, concat,
  process_stream_frames, stream_stderr,
}
use sagedockhand.StreamFrames.Demux.{
  demux_turn, demux_frames, raw_text, separated, whole, demux_docker_stream,
}
use sagedockhand.StreamFrames.DemuxLaws.{IsFilled, IsCut, demux_docker_stream-encode}
use sagedockhand.StreamFrames.EncodingLaws.{header_of, encode, IsSendable, stream_stderr-encode}

abbrev cut : List (List ℕ)
cut =
    (2 ∷ 0 ∷ 0 ∷ 0 ∷ 0 ∷ 0 ∷ [])
    ∷ (0 ∷ 2 ∷ 104 ∷ 105 ∷ 1 ∷ 0 ∷ 0 ∷ 0 ∷ 0 ∷ 0 ∷ 0 ∷ 1 ∷ 111 ∷ 2 ∷ 0 ∷ 0 ∷ 0 ∷ 0 ∷ 0 ∷ 0 ∷ 2 ∷ 33
        ∷ [])
    ∷ (34 ∷ 2 ∷ 0 ∷ [])
    ∷ []

cut_test :
    stream_stderr (λ bytes. bytes) [] cut ≡ ((104 ∷ 105 ∷ []) ∷ (33 ∷ 34 ∷ []) ∷ [], 2 ∷ 0 ∷ [])
unfolding stream_stderr process_stream_frames frames_of payloads_of next_frame read_uint8
    read_uint32_be
cut_test = refl

abbrev sent : List Frame
sent =
    record { stream_type = 2; payload = 104 ∷ 105 ∷ [] }
    ∷ record { stream_type = 1; payload = 111 ∷ [] }
    ∷ []

abbrev pieces : List (List ℕ)
pieces =
    (2 ∷ 0 ∷ 0 ∷ 0 ∷ 0 ∷ 0 ∷ [])
    ∷ (0 ∷ 2 ∷ 104 ∷ 105 ∷ 1 ∷ 0 ∷ 0 ∷ 0 ∷ 0 ∷ 0 ∷ 0 ∷ 1 ∷ 111 ∷ [])
    ∷ []

framed : concat pieces ≡ concat (map encode sent)
unfolding concat header_of
framed = refl

sent-IsSendable : All IsSendable sent
sent-IsSendable = ((omega arith, omega arith), ((omega arith, omega arith), tt))

stream_stderr-encode_example :
    stream_stderr (λ bytes. bytes) [] pieces ≡ (map (λ bytes. bytes) (payloads_of 2 sent), [])
stream_stderr-encode_example =
    stream_stderr-encode (λ bytes. bytes) pieces sent sent-IsSendable framed

sent-IsFilled : All IsFilled sent
sent-IsFilled = (omega arith, (omega arith, tt))

-- A header without its payload
abbrev rest : List ℕ
rest = 1 ∷ 0 ∷ 0 ∷ 0 ∷ 0 ∷ 0 ∷ 0 ∷ 9 ∷ 7 ∷ []

rest-IsCut : IsCut rest
unfolding read_uint32_be read_uint8
rest-IsCut = inr (inr (omega arith))

demux_docker_stream-encode_example :
    (let buffer = concat (map encode sent) ++ rest in
      demux_docker_stream (λ bytes. bytes) true buffer
      ≡ separated (raw_text (λ bytes. bytes) buffer) [])
demux_docker_stream-encode_example =
    demux_docker_stream-encode (λ bytes. bytes) true sent rest sent-IsFilled rest-IsCut

demux_test :
    demux_docker_stream (λ bytes. bytes) false (concat (map encode sent) ++ 1 ∷ [])
    ≡ whole (111 ∷ 104 ∷ 105 ∷ [])
unfolding demux_docker_stream demux_frames demux_turn read_uint8 read_uint32_be concat header_of
demux_test = refl
