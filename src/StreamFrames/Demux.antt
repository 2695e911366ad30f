-- ===== src/StreamFrames/Demux.antt =====
-- `demuxDockerStream` and `extractStdoutFromBuffer`, which take a whole stream apart.
use sagedockhand.Common.{
  ltb, leb, if◌then◌else◌, length, take, drop, keep, ◌==◌, nat_eq, ℕ, ◌+◌, ◌-◌, Option, none, some,
  List, [], ◌∷◌, ◌++◌, map, zero, suc, Bool, true, false, not, ◌&&◌, ◌||◌,
}
use sagedockhand.Common.Text.{Text, concatenated}
use sagedockhand.StreamFrames.{
  Frame, read_uint8, read_uint32_be, header_size, process_stream_frames,
}

-- What one turn of the loop does at the bytes from `offset` on: it ends, it finds the stream invalid, or it
-- reads a frame.
pub data Turn : Type 0 where
  ended invalid : Turn
  framed : Frame → Turn

unfoldable pub demux_turn : List ℕ → Turn
demux_turn buffer =
    let frame_size = read_uint32_be 4 buffer in
    if ltb (length buffer) header_size
    then ended
    else if (frame_size == 0) || ltb (length buffer - header_size) frame_size
    then invalid
    else framed (record {
      stream_type = read_uint8 0 buffer;
      payload = take frame_size (drop header_size buffer);
    })

-- `offset += 8 + frameSize`
abbrev pub advanced : Turn → List ℕ → List ℕ
advanced (framed frame) buffer = drop (header_size + length frame.payload) buffer
advanced ended buffer = buffer
advanced invalid buffer = buffer

-- No frames at all where the stream is invalid
abbrev pub note_turn : Turn → Option (List Frame) → Option (List Frame)
note_turn ended later = some []
note_turn invalid later = none
note_turn (framed frame) none = none
note_turn (framed frame) (some frames) = some (frame ∷ frames)

-- The frames that the loop reads, or none where it returns the raw content.
unfoldable pub demux_frames : ℕ → List ℕ → Option (List Frame)
demux_frames zero buffer = some []
demux_frames (suc fuel) buffer =
    let turn = demux_turn buffer in note_turn turn (demux_frames fuel (advanced turn buffer))

-- `/[\x00-\x08\x0B\x0C\x0E-\x1F]/`
abbrev pub is_control : ℕ → Bool
is_control c = leb c 8 || c == 11 || c == 12 || (leb 14 c && leb c 31)

unfoldable pub raw_text : (List ℕ → Text) → List ℕ → Text
raw_text decode buffer = keep (λ c. not (is_control c)) (decode buffer)

-- What is pushed on `stderr` or, with `false`, on `stdout`
abbrev pub texts_of : (List ℕ → Text) → Bool → List Frame → List Text
texts_of decode stderr frames =
    map (λ (frame : Frame). decode frame.payload)
      (keep
        (λ (frame : Frame). if stderr then frame.stream_type == 2 else not (frame.stream_type == 2))
        frames)

-- With `separateStreams`, and without
pub data Output : Type 0 where
  separated : Text → Text → Output
  whole : Text → Output

abbrev pub output_of : (List ℕ → Text) → Bool → List ℕ → Option (List Frame) → Output
output_of decode separate_streams buffer none =
    if separate_streams
    then separated (raw_text decode buffer) []
    else whole (raw_text decode buffer)
output_of decode separate_streams buffer (some frames) =
    let stdout = texts_of decode false frames in
    let stderr = texts_of decode true frames in
    if separate_streams
    then separated (concatenated stdout) (concatenated stderr)
    else whole (concatenated (stdout ++ stderr))

unfoldable pub demux_docker_stream : (List ℕ → Text) → Bool → List ℕ → Output
demux_docker_stream decode separate_streams buffer =
    output_of decode separate_streams buffer (demux_frames (length buffer) buffer)

unfoldable pub extract_stdout_from_buffer : (List ℕ → Text) → List ℕ → Text
extract_stdout_from_buffer decode buffer =
    let result = process_stream_frames decode buffer in
    if (length result.stdout == 0) && ltb 0 (length buffer)
    then raw_text decode buffer
    else if ltb 0 (length result.remaining)
    then result.stdout ++ raw_text decode result.remaining
    else result.stdout
