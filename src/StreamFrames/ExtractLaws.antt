-- ===== src/StreamFrames/ExtractLaws.antt =====
-- `extractStdoutFromBuffer` on framed streams.
use sagedockhand.Common.{
  ltb, if◌then◌else◌, length, ◌==◌, nat_eq, ℕ, ◌≡◌, refl, ◌∙◌, none, List, ◌++◌, map, All, arith,
  append-nil, ◌&&◌,
}
use sagedockhand.Common.Text.{Text}
use sagedockhand.StreamFrames.{
  Frame, next_frame, frames_of, payloads_of, concat, process_stream_frames,
}
use sagedockhand.StreamFrames.FrameLaws.{frames_of-none, frames_of-append}
use sagedockhand.StreamFrames.EncodingLaws.{encode, IsSendable, frames_of-encode}
use sagedockhand.StreamFrames.Demux.{raw_text, extract_stdout_from_buffer}

frames_of-encode_append :
    (frames : List Frame) (tail : List ℕ)
    → All IsSendable frames
    → next_frame tail ≡ none
    → (let buffer = concat (map encode frames) ++ tail in frames_of (length buffer) buffer)
      ≡ (frames, tail)
frames_of-encode_append frames tail sendable stop =
    let sent = concat (map encode frames) in
    let read = frames_of-encode (length sent) frames sendable (omega arith) in
    frames_of-append (length sent) (length (sent ++ tail))
      (length ((frames_of (length sent) sent).1 ++ tail)) sent tail (omega arith) (omega arith)
      (omega arith)
    ∙ rw (read, frames_of-none (length tail) tail stop, append-nil frames) refl

-- Of whole frames and bytes that are no such frame, the output is the text of all of stdout, decoded at once, and
-- the raw text of those bytes; but everything is raw text when stdout has none.
pub extract_stdout_from_buffer-encode :
    (decode : List ℕ → Text) (frames : List Frame) (tail : List ℕ)
    → All IsSendable frames
    → next_frame tail ≡ none
    → (let buffer = concat (map encode frames) ++ tail in
        let stdout = decode (concat (payloads_of 1 frames)) in
        extract_stdout_from_buffer decode buffer ≡ (
          if (length stdout == 0) && ltb 0 (length buffer)
          then raw_text decode buffer
          else if ltb 0 (length tail)
          then stdout ++ raw_text decode tail
          else stdout))
unfolding extract_stdout_from_buffer process_stream_frames
extract_stdout_from_buffer-encode decode frames tail sendable stop =
    rw (frames_of-encode_append frames tail sendable stop) refl
