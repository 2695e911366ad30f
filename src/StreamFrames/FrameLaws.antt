-- ===== src/StreamFrames/FrameLaws.antt =====
-- The loop of `processStreamFrames` on a buffer that grows.
use sagedockhand.Common.{
  ltb, Option-cases, length, take, drop, length-append, length-take, length-drop, take_append-le,
  nat_eq, ℕ, zero, suc, ◌+◌, ◌≤◌, ◌<◌, ◌≡◌, refl, sym, ap, ◌∙◌, inl, inr, false, none, some, List,
  [], ◌∷◌, ◌++◌, arith,
}
use sagedockhand.StreamFrames.{
  Frame, read_uint8, read_uint32_be, header_size, max_frame_size, next_frame, after, with_frame,
  frames_of,
}

drop_append-le : (n : ℕ) (s t : List ℕ) → n ≤ length s → drop n (s ++ t) ≡ drop n s ++ t
drop_append-le zero s t h = refl
drop_append-le (suc n) [] t h = absurd (omega arith)
drop_append-le (suc n) (x ∷ s) t h = drop_append-le n s t (omega arith)

read_uint8-append :
    (offset : ℕ) (buffer more : List ℕ)
    → offset < length buffer
    → read_uint8 offset (buffer ++ more) ≡ read_uint8 offset buffer
unfolding read_uint8
read_uint8-append offset [] more h = absurd (omega arith)
read_uint8-append zero (byte ∷ buffer) more h = refl
read_uint8-append (suc offset) (byte ∷ buffer) more h =
    read_uint8-append offset buffer more (omega arith)

read_uint32_be-append :
    (buffer more : List ℕ)
    → header_size ≤ length buffer
    → read_uint32_be 4 (buffer ++ more) ≡ read_uint32_be 4 buffer
unfolding read_uint32_be
read_uint32_be-append buffer more h =
    rw
      (
        read_uint8-append 4 buffer more (omega arith),
        read_uint8-append 5 buffer more (omega arith),
        read_uint8-append 6 buffer more (omega arith),
        read_uint8-append 7 buffer more (omega arith),
      )
      refl

pub record IsNext (buffer : List ℕ) (frame : Frame) : Type 0 where
  pub fits : header_size + read_uint32_be 4 buffer ≤ length buffer
  pub known : ltb 2 (read_uint8 0 buffer) ≡ false
  pub small : ltb max_frame_size (read_uint32_be 4 buffer) ≡ false
  pub is :
      record {
        stream_type = read_uint8 0 buffer;
        payload = take (read_uint32_be 4 buffer) (drop header_size buffer);
      }
      ≡ frame

next_frame-IsNext :
    (buffer : List ℕ) (frame : Frame) → next_frame buffer ≡ some frame → IsNext buffer frame
unfolding next_frame
next_frame-IsNext buffer frame h = record {
  fits = ground (arith, h);
  known = ground (arith, h);
  small = ground (arith, h);
  is = ground (arith, h);
}

pub IsNext-next_frame :
    (buffer : List ℕ) (frame : Frame) → IsNext buffer frame → next_frame buffer ≡ some frame
unfolding next_frame
IsNext-next_frame buffer frame n = ground (arith, n.fits, n.known, n.small, n.is)

length_payload :
    (buffer : List ℕ) (frame : Frame)
    → IsNext buffer frame
    → header_size + length frame.payload ≤ length buffer
length_payload buffer frame n =
    let size = read_uint32_be 4 buffer in
    let units : length frame.payload ≡ length (take size (drop header_size buffer)) =
      ap (λ (f : Frame). length f.payload) (sym n.is) in
    omega (
      arith,
      units,
      length-take size (drop header_size buffer),
      length-drop header_size buffer,
      n.fits,
    )

-- A complete frame stays the next one when more bytes follow.
next_frame-append :
    (buffer more : List ℕ) (frame : Frame)
    → next_frame buffer ≡ some frame
    → next_frame (buffer ++ more) ≡ some frame
next_frame-append buffer more frame h =
    let n = next_frame-IsNext buffer frame h in
    let size = read_uint32_be 4 buffer in
    let long : header_size ≤ length buffer = omega (arith, n.fits) in
    let size_eq = read_uint32_be-append buffer more long in
    let kind_eq = read_uint8-append 0 buffer more (omega (arith, long)) in
    IsNext-next_frame (buffer ++ more) frame (record {
      fits = omega (arith, size_eq, n.fits, length-append buffer more);
      known = ap (ltb 2) kind_eq ∙ n.known;
      small = ap (ltb max_frame_size) size_eq ∙ n.small;
      is =
          rw
            (
              kind_eq,
              size_eq,
              drop_append-le header_size buffer more long,
              take_append-le size (drop header_size buffer) more
                  (omega (arith, n.fits, length-drop header_size buffer)),
            )
            n.is;
    })

next_frame-nil : (buffer : List ℕ) → length buffer ≤ 0 → next_frame buffer ≡ none
unfolding next_frame
next_frame-nil [] h = refl
next_frame-nil (x ∷ buffer) h = absurd (omega arith)

length-after :
    (buffer : List ℕ) (frame : Frame)
    → next_frame buffer ≡ some frame
    → length (after (some frame) buffer) < length buffer
length-after buffer frame h = omega (
  arith,
  length-drop (header_size + length frame.payload) buffer,
  length_payload buffer frame (next_frame-IsNext buffer frame h),
)

pub frames_of-none :
    (fuel : ℕ) (buffer : List ℕ) → next_frame buffer ≡ none → frames_of fuel buffer ≡ ([], buffer)
unfolding frames_of
frames_of-none zero buffer h = refl
frames_of-none (suc fuel) buffer h = rw h refl

pub frames_of-some :
    (fuel : ℕ) (buffer : List ℕ) (frame : Frame)
    → next_frame buffer ≡ some frame
    → frames_of (suc fuel) buffer
      ≡ with_frame (some frame) buffer (frames_of fuel (after (some frame) buffer))
unfolding frames_of
frames_of-some fuel buffer frame h = rw h refl

-- As many turns as there are bytes are enough: the loop ends where no frame is next.
pub next_frame-frames_of :
    (fuel : ℕ) (buffer : List ℕ)
    → length buffer ≤ fuel
    → next_frame (frames_of fuel buffer).1 ≡ none
unfolding frames_of
next_frame-frames_of zero buffer enough = next_frame-nil buffer enough
next_frame-frames_of (suc fuel) buffer enough = elim (Option-cases (next_frame buffer)) [
  | inl stop ↦ rw stop stop
  | inr (frame, h) ↦ rw h (
      next_frame-frames_of fuel (after (some frame) buffer)
        (omega (arith, enough, length-after buffer frame h)))
]

-- More turns change nothing.
pub frames_of-fuel :
    (fuel other : ℕ) (buffer : List ℕ)
    → length buffer ≤ fuel
    → length buffer ≤ other
    → frames_of fuel buffer ≡ frames_of other buffer
frames_of-fuel zero other buffer a b =
    frames_of-none zero buffer (next_frame-nil buffer a)
    ∙ sym (frames_of-none other buffer (next_frame-nil buffer a))
frames_of-fuel (suc fuel) zero buffer a b =
    frames_of-none (suc fuel) buffer (next_frame-nil buffer b)
    ∙ sym (frames_of-none zero buffer (next_frame-nil buffer b))
frames_of-fuel (suc fuel) (suc other) buffer a b = elim (Option-cases (next_frame buffer)) [
  | inl stop ↦ frames_of-none (suc fuel) buffer stop ∙ sym (frames_of-none (suc other) buffer stop)
  | inr (frame, h) ↦
      let short = length-after buffer frame h in
      frames_of-some fuel buffer frame h
      ∙ ap (with_frame (some frame) buffer) (
          frames_of-fuel fuel other (after (some frame) buffer) (omega (arith, short))
            (omega (arith, short)))
      ∙ sym (frames_of-some other buffer frame h)
]

abbrev pub prepended : List Frame → List Frame × List ℕ → List Frame × List ℕ
prepended frames (later, remaining) = (frames ++ later, remaining)

frames_of-append_stopped :
    (fuel long short : ℕ) (buffer more : List ℕ)
    → next_frame buffer ≡ none
    → length (buffer ++ more) ≤ long
    → length ((frames_of fuel buffer).1 ++ more) ≤ short
    → frames_of long (buffer ++ more)
      ≡ prepended (frames_of fuel buffer).0 (frames_of short ((frames_of fuel buffer).1 ++ more))
frames_of-append_stopped fuel long short buffer more none_next b c =
    let stop = frames_of-none fuel buffer none_next in
    rw stop (
      frames_of-fuel long short (buffer ++ more) b
        (rw (← ap (λ (q : List Frame × List ℕ). q.1) stop) c))

-- The loop on a buffer to which bytes are added: its frames before, then those that it finds in what remained
-- and the new bytes.
pub frames_of-append :
    (fuel long short : ℕ) (buffer more : List ℕ)
    → length buffer ≤ fuel
    → length (buffer ++ more) ≤ long
    → length ((frames_of fuel buffer).1 ++ more) ≤ short
    → frames_of long (buffer ++ more)
      ≡ prepended (frames_of fuel buffer).0 (frames_of short ((frames_of fuel buffer).1 ++ more))
frames_of-append zero long short buffer more a b c =
    frames_of-append_stopped zero long short buffer more (next_frame-nil buffer a) b c
frames_of-append (suc fuel) zero short buffer more a b c =
    frames_of-append_stopped (suc fuel) zero short buffer more
      (next_frame-nil buffer (omega (arith, b, length-append buffer more))) b c
frames_of-append (suc fuel) (suc long) short buffer more a b c =
    elim (Option-cases (next_frame buffer)) [
      | inl stop ↦ frames_of-append_stopped (suc fuel) (suc long) short buffer more stop b c
      | inr (frame, h) ↦
          let size = header_size + length frame.payload in
          let here = frames_of-some fuel buffer frame h in
          let there =
            frames_of-some long (buffer ++ more) frame (next_frame-append buffer more frame h) in
          let rest =
            drop_append-le size buffer more
              (length_payload buffer frame (next_frame-IsNext buffer frame h)) in
          let less = length-after buffer frame h in
          rw (here, there, rest)
            (ap (prepended (frame ∷ [])) (
              frames_of-append fuel long short (drop size buffer) more (omega (arith, a, less))
                (omega (
                  arith,
                  b,
                  less,
                  length-append buffer more,
                  length-append (drop size buffer) more,
                ))
                (rw (← ap (λ (q : List Frame × List ℕ). q.1) here) c)))
    ]
