-- ===== src/StreamFrames/DemuxLaws.antt =====
-- `demuxDockerStream` on framed streams.
use sagedockhand.Common.{
  ltb, if◌then◌else◌, length, length-append, take_append, nat_eq, ℕ, ◌+◌, ◌≤◌, ◌<◌, ◌≡◌, refl, ap,
  sym, ◌∙◌, Option, none, some, List, [], ◌∷◌, ◌++◌, map, zero, suc, Bool, true, false, ◌⊎◌, inl,
  inr, All, arith, append_assoc, append-nil, Bool-cases,
}
use sagedockhand.Common.Text.{Text, concatenated}
use sagedockhand.StreamFrames.{Frame, read_uint8, read_uint32_be, header_size, concat}
use sagedockhand.StreamFrames.EncodingLaws.{header_of, encode, after-encode, read_size-header_of}
use sagedockhand.StreamFrames.Demux.{
  ended, invalid, framed, demux_turn, note_turn, demux_frames, raw_text, texts_of, output_of,
  separated, whole, demux_docker_stream,
}

abbrev pub IsFilled : Frame → Type 0
IsFilled frame = 0 < length frame.payload

demux_turn-encode :
    (frame : Frame) (more : List ℕ)
    → IsFilled frame
    → demux_turn (encode frame ++ more) ≡ framed frame
unfolding demux_turn header_of read_uint8
demux_turn-encode frame more filled =
    let size = length frame.payload in
    let size_eq =
      ap (read_uint32_be 4) (append_assoc (header_of frame.stream_type size) frame.payload more)
      ∙ read_size-header_of frame.stream_type size (frame.payload ++ more) in
    rw (size_eq, take_append frame.payload more)
      (ground (arith, filled, length-append frame.payload more))

abbrev preceded : List Frame → Option (List Frame) → Option (List Frame)
preceded frames none = none
preceded frames (some later) = some (frames ++ later)

preceded-nil : (later : Option (List Frame)) → later ≡ preceded [] later
preceded-nil none = refl
preceded-nil (some frames) = refl

note_turn-preceded :
    (frame : Frame) (frames : List Frame) (later : Option (List Frame))
    → note_turn (framed frame) (preceded frames later) ≡ preceded (frame ∷ frames) later
note_turn-preceded frame frames none = refl
note_turn-preceded frame frames (some later) = refl

demux_frames-framed :
    (fuel : ℕ) (frame : Frame) (more : List ℕ)
    → IsFilled frame
    → demux_frames (suc fuel) (encode frame ++ more)
      ≡ note_turn (framed frame) (demux_frames fuel more)
unfolding demux_frames
demux_frames-framed fuel frame more filled =
    rw (demux_turn-encode frame more filled)
      (ap (λ bytes. note_turn (framed frame) (demux_frames fuel bytes)) (after-encode frame more))

demux_frames-encode :
    (fuel : ℕ) (frames : List Frame) (tail : List ℕ) (later : Option (List Frame))
    → All IsFilled frames
    → ((n : ℕ) → length tail ≤ n → demux_frames n tail ≡ later)
    → length (concat (map encode frames) ++ tail) ≤ fuel
    → demux_frames fuel (concat (map encode frames) ++ tail) ≡ preceded frames later
unfolding concat
demux_frames-encode fuel [] tail later filled rest enough = rest fuel enough ∙ preceded-nil later
demux_frames-encode zero (frame ∷ frames) tail later filled rest enough =
    absurd (unfold header_of in omega arith)
demux_frames-encode (suc fuel) (frame ∷ frames) tail later (first, filled) rest enough =
    let others = concat (map encode frames) in
    ap (demux_frames (suc fuel)) (append_assoc (encode frame) others tail)
    ∙ demux_frames-framed fuel frame (others ++ tail) first
    ∙ ap (note_turn (framed frame)) (
        demux_frames-encode fuel frames tail later filled rest (
          unfold header_of in
          omega (
            arith,
            enough,
            length-append (encode frame ++ others) tail,
            length-append frame.payload others,
            length-append others tail,
          )))
    ∙ note_turn-preceded frame frames later

-- A frame that is not whole, or that is empty
abbrev pub IsCut : List ℕ → Type 0
IsCut tail =
    (length tail < header_size)
    ⊎ ((read_uint32_be 4 tail ≡ 0) ⊎ (length tail < header_size + read_uint32_be 4 tail))

demux_turn-IsCut :
    (tail : List ℕ)
    → IsCut tail
    → demux_turn tail ≡ (if ltb (length tail) header_size then ended else invalid)
unfolding demux_turn
demux_turn-IsCut tail (inl short) = ground (arith, short)
demux_turn-IsCut tail (inr (inl empty)) = ground (arith, empty)
demux_turn-IsCut tail (inr (inr cut)) = ground (arith, cut)

demux_frames-IsCut :
    (tail : List ℕ) (fuel : ℕ)
    → IsCut tail
    → length tail ≤ fuel
    → demux_frames fuel tail ≡ (if ltb (length tail) header_size then some [] else none)
unfolding demux_frames
demux_frames-IsCut tail zero cut enough = ground (arith, enough)
demux_frames-IsCut tail (suc fuel) cut enough = rw (demux_turn-IsCut tail cut) (ground arith)

concatenated-append :
    (xs ys : List Text) → concatenated (xs ++ ys) ≡ concatenated xs ++ concatenated ys
concatenated-append [] ys = refl
concatenated-append (x ∷ xs) ys =
    ap (◌++◌ x) (concatenated-append xs ys)
    ∙ sym (append_assoc x (concatenated xs) (concatenated ys))

output_of-some :
    (decode : List ℕ → Text) (separate_streams : Bool) (buffer : List ℕ) (frames : List Frame)
    → output_of decode separate_streams buffer (some frames) ≡ (
        let stdout = concatenated (texts_of decode false frames) in
        let stderr = concatenated (texts_of decode true frames) in
        if separate_streams then separated stdout stderr else whole (stdout ++ stderr))
output_of-some decode true buffer frames = refl
output_of-some decode false buffer frames =
    ap whole (concatenated-append (texts_of decode false frames) (texts_of decode true frames))

-- A stream that begins with whole frames that are not empty and goes on with bytes that are no such frame: when
-- these are less than a header, the texts of the frames come out, stderr apart or after the rest, and the
-- bytes are dropped; otherwise all of the stream comes out as raw text.
pub demux_docker_stream-encode :
    (decode : List ℕ → Text) (separate_streams : Bool) (frames : List Frame) (tail : List ℕ)
    → All IsFilled frames
    → IsCut tail
    → (let buffer = concat (map encode frames) ++ tail in
        let stdout = concatenated (texts_of decode false frames) in
        let stderr = concatenated (texts_of decode true frames) in
        demux_docker_stream decode separate_streams buffer ≡ (
          if ltb (length tail) header_size
          then if separate_streams then separated stdout stderr else whole (stdout ++ stderr)
          else if separate_streams
          then separated (raw_text decode buffer) []
          else whole (raw_text decode buffer)))
unfolding demux_docker_stream
demux_docker_stream-encode decode separate_streams frames tail filled cut =
    let buffer = concat (map encode frames) ++ tail in
    let read =
      demux_frames-encode (length buffer) frames tail
        (if ltb (length tail) header_size then some [] else none) filled
        (λ n enough. demux_frames-IsCut tail n cut enough) (omega arith) in
    rw read (elim (Bool-cases (ltb (length tail) header_size)) [
      | inl short ↦
          rw (short, append-nil frames) (output_of-some decode separate_streams buffer frames)
      | inr long ↦ rw long refl
    ])
