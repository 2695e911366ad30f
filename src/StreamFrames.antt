-- ===== src/StreamFrames.antt =====
-- src/lib/server/docker.ts: the frames of a Docker stream (`processStreamFrames`), and the loop that passes
-- it the chunks of the stream (`streamLocalStderr`). A buffer is the list of its bytes; `decode` is
-- `toString('utf-8')`.
pub mod FrameLaws
pub mod ChunkLaws
pub mod EncodingLaws
pub mod Demux
pub mod DemuxLaws
pub mod ExtractLaws
mod Tests
use sagedockhand.Common.{
  ltb, if◌then◌else◌, length, take, drop, ◌==◌, nat_eq, ℕ, ◌+◌, ◌*◌, Option, none, some, List, [],
  ◌∷◌, ◌++◌, map, zero, suc,
}
use sagedockhand.Common.Text.{Text}

pub record Frame : Type 0 where
  pub stream_type : ℕ
  pub payload : List ℕ

-- `buffer.readUInt8(offset)`, where the buffer has a byte there
unfoldable pub read_uint8 : ℕ → List ℕ → ℕ
read_uint8 offset [] = 0
read_uint8 zero (byte ∷ bytes) = byte
read_uint8 (suc offset) (byte ∷ bytes) = read_uint8 offset bytes

-- `buffer.readUInt32BE(offset)`
unfoldable pub read_uint32_be : ℕ → List ℕ → ℕ
read_uint32_be offset buffer =
    ((read_uint8 offset buffer * 256 + read_uint8 (offset + 1) buffer) * 256
        + read_uint8 (offset + 2) buffer)
      * 256
    + read_uint8 (offset + 3) buffer

abbrev pub header_size : ℕ
header_size = 8

abbrev pub max_frame_size : ℕ
max_frame_size = 10 * 1024 * 1024

-- One turn of the loop at the bytes from `offset` on: the frame, or none where the loop ends.
unfoldable pub next_frame : List ℕ → Option Frame
next_frame buffer =
    let stream_type = read_uint8 0 buffer in
    let frame_size = read_uint32_be 4 buffer in
    if ltb (length buffer) header_size
    then none
    else if ltb 2 stream_type
    then none
    else if ltb max_frame_size frame_size
    then none
    else if ltb (length buffer) (header_size + frame_size)
    then none
    else some
        (record { stream_type = stream_type; payload = take frame_size (drop header_size buffer) })

-- `offset += 8 + frameSize`
abbrev pub after : Option Frame → List ℕ → List ℕ
after none buffer = buffer
after (some frame) buffer = drop (header_size + length frame.payload) buffer

abbrev pub with_frame : Option Frame → List ℕ → List Frame × List ℕ → List Frame × List ℕ
with_frame none buffer rest = ([], buffer)
with_frame (some frame) buffer (frames, remaining) = (frame ∷ frames, remaining)

-- The loop, with the frames that it passes and the bytes that remain.
unfoldable pub frames_of : ℕ → List ℕ → List Frame × List ℕ
frames_of zero buffer = ([], buffer)
frames_of (suc fuel) buffer =
    let found = next_frame buffer in with_frame found buffer (frames_of fuel (after found buffer))

-- The payloads of the frames of one type, in their order.
unfoldable pub payloads_of : ℕ → List Frame → List (List ℕ)
payloads_of stream_type [] = []
payloads_of stream_type (frame ∷ frames) =
    let later = payloads_of stream_type frames in
    if frame.stream_type == stream_type then frame.payload ∷ later else later

unfoldable pub concat : List (List ℕ) → List ℕ
concat [] = []
concat (chunk ∷ chunks) = chunk ++ concat chunks

-- The result, with the texts that `onStdout` and `onStderr` are called with, where they are given.
pub record Processed : Type 0 where
  pub on_stdout : List Text
  pub on_stderr : List Text
  pub stdout : Text
  pub remaining : List ℕ

unfoldable pub process_stream_frames : (List ℕ → Text) → List ℕ → Processed
process_stream_frames decode buffer =
    let (frames, remaining) = frames_of (length buffer) buffer in
    record {
      on_stdout = map decode (payloads_of 1 frames);
      on_stderr = map decode (payloads_of 2 frames);
      stdout = decode (concat (payloads_of 1 frames));
      remaining = remaining;
    }

-- The loop of `streamLocalStderr` over the chunks that it reads: the texts that `onStderr` is called with, and
-- the buffer after it.
unfoldable pub stream_stderr : (List ℕ → Text) → List ℕ → List (List ℕ) → List Text × List ℕ
stream_stderr decode buffer [] = ([], buffer)
stream_stderr decode buffer (chunk ∷ chunks) =
    let result = process_stream_frames decode (buffer ++ chunk) in
    let (later, last) = stream_stderr decode result.remaining chunks in
    (result.on_stderr ++ later, last)
