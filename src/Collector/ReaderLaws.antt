-- ===== src/Collector/ReaderLaws.antt =====
-- The lines do not depend on where the output is cut into chunks.
use sagedockhand.Common.{
  Bool-cases, ◌==◌, nat_eq, text_eq, ℕ, ◌≡◌, refl, sym, ap, ◌∙◌, inl, inr, false, List, [], ◌∷◌,
  ◌++◌,
}
use sagedockhand.Common.Text.{Text, concatenated}
use sagedockhand.Collector.Reader.{emit, scan, read_chunk, read_chunks}
use mathlib.Core.List.{append-nil, append_assoc}

emit-append : (line : Text) (xs ys : List Text) → emit line (xs ++ ys) ≡ emit line xs ++ ys
emit-append [] xs ys = refl
emit-append (c ∷ line) xs ys = refl

scan-append :
    (line s t : Text)
    → scan line (s ++ t)
      ≡ ((scan line s).0 ++ (scan (scan line s).1 t).0, (scan (scan line s).1 t).1)
unfolding scan
scan-append line [] t = refl
scan-append line (c ∷ s) t = elim (Bool-cases (c == 10)) [
  | inl newline ↦
      let later = (scan (scan [] s).1 t).0 in
      rw (newline, scan-append [] s t)
        (ap (λ (l : List Text). (l, (scan (scan [] s).1 t).1))
          (emit-append line (scan [] s).0 later))
  | inr other ↦ rw (other, scan-append (line ++ c ∷ []) s t) refl
]

-- A line that is not complete may be scanned again with what follows it.
scan-IsLine : (line t : Text) → scan [] line ≡ ([], line) → scan [] (line ++ t) ≡ scan line t
scan-IsLine line t h =
    scan-append [] line t ∙ ap (λ (q : List Text × Text). (q.0 ++ (scan q.1 t).0, (scan q.1 t).1)) h

scan-byte : (line : Text) (c : ℕ) → (c == 10) ≡ false → scan line (c ∷ []) ≡ ([], line ++ c ∷ [])
unfolding scan
scan-byte line c other = rw other refl

-- What is left has no line end in it.
left-IsLine :
    (line s : Text) → scan [] line ≡ ([], line) → scan [] (scan line s).1 ≡ ([], (scan line s).1)
unfolding scan
left-IsLine line [] h = h
left-IsLine line (c ∷ s) h = elim (Bool-cases (c == 10)) [
  | inl newline ↦ rw newline (left-IsLine [] s refl)
  | inr other ↦
      rw other
        (left-IsLine (line ++ c ∷ []) s (scan-IsLine line (c ∷ []) h ∙ scan-byte line c other))
]

scan-nil : scan [] [] ≡ ([], [])
unfolding scan
scan-nil = refl

read_chunks-from :
    (buffer : Text) (chunks : List Text)
    → scan [] buffer ≡ ([], buffer)
    → read_chunks buffer chunks ≡ scan [] (buffer ++ concatenated chunks)
unfolding read_chunks read_chunk
read_chunks-from buffer [] h = rw (append-nil buffer) (sym h)
read_chunks-from buffer (chunk ∷ chunks) h =
    let lines = (scan [] (buffer ++ chunk)).0 in
    let left = (scan [] (buffer ++ chunk)).1 in
    let rest = left-IsLine [] (buffer ++ chunk) (scan-nil) in
    rw
      (
        ← append_assoc buffer chunk (concatenated chunks),
        scan-append [] (buffer ++ chunk) (concatenated chunks),
        ← scan-IsLine left (concatenated chunks) rest,
      )
      (ap (λ (q : List Text × Text). (lines ++ q.0, q.1)) (read_chunks-from left chunks rest))

-- The worker's output gives the same lines, and leaves the same incomplete line, however it is cut into
-- chunks: those of the whole output scanned at once.
pub read_chunks-scan : (chunks : List Text) → read_chunks [] chunks ≡ scan [] (concatenated chunks)
unfolding scan
read_chunks-scan chunks = read_chunks-from [] chunks refl
