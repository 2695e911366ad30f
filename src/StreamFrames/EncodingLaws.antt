-- ===== src/StreamFrames/EncodingLaws.antt =====
-- Docker's framing of a stream, against the loop that reads it.
use sagedockhand.Common.{
  length, drop, length-append, drop_append, take_append, ℕ, ◌+◌, ◌/◌, ◌%◌, ◌≤◌, ◌≡◌, refl, ap, ◌∙◌,
  zero, suc, some, List, [], ◌∷◌, ◌++◌, map, All, arith, append_assoc,
}
use sagedockhand.Common.Text.{Text}
use sagedockhand.StreamFrames.{
  Frame, read_uint8, read_uint32_be, header_size, max_frame_size, next_frame, after, with_frame,
  frames_of, payloads_of, concat, process_stream_frames, stream_stderr,
}
use sagedockhand.StreamFrames.FrameLaws.{IsNext-next_frame, frames_of-some, frames_of-fuel}
use sagedockhand.StreamFrames.ChunkLaws.{stream_stderr-process_stream_frames}

-- A byte for the stream, three of padding, four of the size with the highest first, and the payload.
unfoldable pub header_of : ℕ → ℕ → List ℕ
header_of stream_type size =
    stream_type
    ∷ 0
    ∷ 0
    ∷ 0
    ∷ size / 16777216
    ∷ size / 65536 % 256
    ∷ size / 256 % 256
    ∷ size % 256
    ∷ []

abbrev pub encode : Frame → List ℕ
encode frame = header_of frame.stream_type (length frame.payload) ++ frame.payload

-- A frame of a known stream that is not too large
abbrev pub IsSendable : Frame → Type 0
IsSendable frame = (frame.stream_type ≤ 2) × (length frame.payload ≤ max_frame_size)

pub read_size-header_of :
    (stream_type size : ℕ) (more : List ℕ)
    → read_uint32_be 4 (header_of stream_type size ++ more) ≡ size
unfolding read_uint32_be read_uint8 header_of
read_size-header_of stream_type size more = omega arith

next_frame-encode :
    (frame : Frame) (more : List ℕ)
    → IsSendable frame
    → next_frame (encode frame ++ more) ≡ some frame
unfolding header_of read_uint8
next_frame-encode frame more (known, small) =
    let size = length frame.payload in
    let size_eq =
      ap (read_uint32_be 4) (append_assoc (header_of frame.stream_type size) frame.payload more)
      ∙ read_size-header_of frame.stream_type size (frame.payload ++ more) in
    IsNext-next_frame (encode frame ++ more) frame (record {
      fits = omega (arith, size_eq, length-append frame.payload more);
      known = ground (arith, known);
      small = rw size_eq (ground (arith, small));
      is = rw (size_eq, take_append frame.payload more) refl;
    })

pub after-encode :
    (frame : Frame) (more : List ℕ) → after (some frame) (encode frame ++ more) ≡ more
unfolding header_of
after-encode frame more =
    let units : header_size + length frame.payload ≡ length (encode frame) = omega arith in
    ap (λ n. drop n (encode frame ++ more)) units ∙ drop_append (encode frame) more

frames_of-empty : frames_of 0 [] ≡ ([], [])
unfolding frames_of
frames_of-empty = refl

pub frames_of-encode :
    (fuel : ℕ) (frames : List Frame)
    → All IsSendable frames
    → length (concat (map encode frames)) ≤ fuel
    → frames_of fuel (concat (map encode frames)) ≡ (frames, [])
unfolding concat header_of
frames_of-encode fuel [] sendable enough =
    frames_of-fuel fuel 0 [] (omega arith) (omega arith) ∙ frames_of-empty
frames_of-encode zero (frame ∷ frames) sendable enough = absurd (omega arith)
frames_of-encode (suc fuel) (frame ∷ frames) (first, sendable) enough =
    let more = concat (map encode frames) in
    frames_of-some fuel (encode frame ++ more) frame (next_frame-encode frame more first)
    ∙ ap (λ rest. with_frame (some frame) (encode frame ++ more) (frames_of fuel rest))
        (after-encode frame more)
    ∙ ap (with_frame (some frame) (encode frame ++ more)) (
        frames_of-encode fuel frames sendable
          (omega (arith, enough, length-append frame.payload more)))

-- Where a stream is made of whole frames, each of stdin, stdout or stderr and of 10 MB at most, then however
-- it is cut into chunks, `onStderr` is called with the payload of each frame of stderr, in their order, and
-- no byte remains.
pub stream_stderr-encode :
    (decode : List ℕ → Text) (chunks : List (List ℕ)) (frames : List Frame)
    → All IsSendable frames
    → concat chunks ≡ concat (map encode frames)
    → stream_stderr decode [] chunks ≡ (map decode (payloads_of 2 frames), [])
unfolding process_stream_frames
stream_stderr-encode decode chunks frames sendable framed =
    let read =
      frames_of-encode (length (concat (map encode frames))) frames sendable (omega arith) in
    stream_stderr-process_stream_frames decode chunks ∙ rw (framed, read) refl
