-- ===== src/Collector/Reader.antt =====
-- `readStdout`: the lines that the worker prints, out of the chunks of its output.
use sagedockhand.Common.{if◌then◌else◌, ◌==◌, nat_eq, text_eq, List, [], ◌∷◌, ◌++◌}
use sagedockhand.Common.Text.{Text}

abbrev pub emit : Text → List Text → List Text
emit [] lines = lines
emit (c ∷ line) lines = (c ∷ line) ∷ lines

-- The loop over the buffer: the complete lines that are not empty, and the bytes that are left. `line`
-- has the bytes since the last newline.
unfoldable pub scan : Text → Text → List Text × Text
scan line [] = ([], line)
scan line (byte ∷ bytes) =
    let (lines, left) = scan [] bytes in
    let more = scan (line ++ byte ∷ []) bytes in
    if byte == 10 then (emit line lines, left) else more

-- The callback of `data`, with the buffer before it: the lines that it handles, and the new buffer.
unfoldable pub read_chunk : Text → Text → List Text × Text
read_chunk line_buffer chunk = scan [] (line_buffer ++ chunk)

-- All lines of a sequence of chunks, and the buffer after it.
unfoldable pub read_chunks : Text → List Text → List Text × Text
read_chunks line_buffer [] = ([], line_buffer)
read_chunks line_buffer (chunk ∷ chunks) =
    let (lines, buffer) = read_chunk line_buffer chunk in
    let (later, last) = read_chunks buffer chunks in (lines ++ later, last)
