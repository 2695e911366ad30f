-- ===== src/StreamFrames/ChunkLaws.antt =====
-- `streamLocalStderr`: what the chunks of the stream come to.
use sagedockhand.Common.{
  length, nat_eq, ℕ, ◌≡◌, refl, sym, ap, ◌∙◌, none, List, [], ◌∷◌, ◌++◌, append_assoc, append-nil,
  arith,
}
use sagedockhand.Common.Text.{Text}
use sagedockhand.StreamFrames.{
  Frame, next_frame, frames_of, payloads_of, concat, process_stream_frames, stream_stderr,
}
use sagedockhand.StreamFrames.FrameLaws.{next_frame-frames_of, frames_of-append, frames_of-none}
use mathlib.Core.List.{map-append}

payloads_of-append :
    (stream_type : ℕ) (xs ys : List Frame)
    → payloads_of stream_type (xs ++ ys) ≡ payloads_of stream_type xs ++ payloads_of stream_type ys
unfolding payloads_of
payloads_of-append stream_type [] ys = refl
payloads_of-append stream_type (frame ∷ xs) ys =
    ground (arith, payloads_of-append stream_type xs ys)

-- The calls of `onStderr` for a buffer, and what remains of it
abbrev stderr_of : (List ℕ → Text) → List ℕ → List Text × List ℕ
stderr_of decode buffer =
    let result = process_stream_frames decode buffer in (result.on_stderr, result.remaining)

stderr_of-append :
    (decode : List ℕ → Text) (buffer more : List ℕ)
    → stderr_of decode (buffer ++ more) ≡ (
        let result = process_stream_frames decode buffer in
        let later = process_stream_frames decode (result.remaining ++ more) in
        (result.on_stderr ++ later.on_stderr, later.remaining))
unfolding process_stream_frames
stderr_of-append decode buffer more =
    let fuel = length buffer in
    let first = frames_of fuel buffer in
    rw
      (
        frames_of-append fuel (length (buffer ++ more)) (length (first.1 ++ more)) buffer more
            (omega arith) (omega arith) (omega arith),
        payloads_of-append 2 first.0 (frames_of (length (first.1 ++ more)) (first.1 ++ more)).0,
      )
      (ap (λ texts. (texts, (frames_of (length (first.1 ++ more)) (first.1 ++ more)).1))
        (map-append decode (payloads_of 2 first.0)
          (payloads_of 2 (frames_of (length (first.1 ++ more)) (first.1 ++ more)).0)))

next_frame-empty : next_frame [] ≡ none
unfolding next_frame
next_frame-empty = refl

stream_stderr-from :
    (decode : List ℕ → Text) (buffer : List ℕ) (chunks : List (List ℕ))
    → next_frame buffer ≡ none
    → stream_stderr decode buffer chunks ≡ stderr_of decode (buffer ++ concat chunks)
unfolding stream_stderr concat process_stream_frames payloads_of
stream_stderr-from decode buffer [] stop =
    rw (append-nil buffer, frames_of-none (length buffer) buffer stop) refl
stream_stderr-from decode buffer (chunk ∷ chunks) stop =
    let result = process_stream_frames decode (buffer ++ chunk) in
    let ended = next_frame-frames_of (length (buffer ++ chunk)) (buffer ++ chunk) (omega arith) in
    ap (λ (q : List Text × List ℕ). (result.on_stderr ++ q.0, q.1))
      (stream_stderr-from decode result.remaining chunks ended)
    ∙ sym (stderr_of-append decode (buffer ++ chunk) (concat chunks))
    ∙ ap (stderr_of decode) (append_assoc buffer chunk (concat chunks))

-- However a stream is cut into chunks, `onStderr` is called with the same texts in the same order and the same
-- bytes remain: those of one call of `processStreamFrames` on the whole stream.
pub stream_stderr-process_stream_frames :
    (decode : List ℕ → Text) (chunks : List (List ℕ))
    → stream_stderr decode [] chunks ≡ (
        let whole = process_stream_frames decode (concat chunks) in
        (whole.on_stderr, whole.remaining))
stream_stderr-process_stream_frames decode chunks =
    stream_stderr-from decode [] chunks next_frame-empty
