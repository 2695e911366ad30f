-- ===== src/SseParser/Parser.antt =====
-- The parser's state and its steps.
use sagedockhand.Common.{
  ltb, if◌then◌else◌, length, take, drop, ◌==◌, nat_eq, text_eq, ℕ, suc, Bool, false, not, ◌&&◌,
  Option, none, some, List, [], ◌∷◌, ◌++◌,
}
use sagedockhand.Common.Text.{Text, codes, starts_with, includes, index_of, split, join}

-- The last of the lines that `split` gives, taken off: `lines.pop() || ''`.
abbrev pub pop : List Text → List Text × Text
pop [] = ([], [])
pop (line ∷ []) = ([], line)
pop (line ∷ next ∷ lines) = let (front, last) = pop (next ∷ lines) in (line ∷ front, last)

-- `accept.includes('application/json') && !accept.includes('text/event-stream')`
unfoldable pub prefers_json : Option Text → Bool
prefers_json none = false
prefers_json (some accept) =
    includes accept (codes "application/json") && not (includes accept (codes "text/event-stream"))

pub record Parser (J : Type 0) : Type 0 where
  pub event_type : Text
  pub data_lines : List Text
  pub result_data : Option J

abbrev pub fresh : {J : Type 0} → Parser J
fresh = record { event_type = []; data_lines = []; result_data = none }

-- The name of a field and its value.
abbrev pub without_cr : Text → Text
without_cr [] = []
without_cr (c ∷ []) = if c == 13 then [] else c ∷ []
without_cr (c ∷ d ∷ line) = c ∷ without_cr (d ∷ line)

abbrev pub without_space : Text → Text
without_space [] = []
without_space (c ∷ value) = if c == 32 then value else c ∷ value

abbrev pub field_of : Text → Option ℕ → Text × Text
field_of line none = (line, [])
field_of line (some colon) = (take colon line, without_space (drop (suc colon) line))

module _ {J : Type 0} (parse : Text → Option (Option J)) where
  -- `JSON.parse(data)`, where a failure keeps the previous result
  abbrev pub parsed : Option J → Option (Option J) → Option J
  parsed before none = before
  parsed before (some result) = result

  -- `dispatch()`
  unfoldable pub dispatch : Parser J → Parser J
  dispatch parser =
      let text = join 10 parser.data_lines in
      record {
        event_type = [];
        data_lines = [];
        result_data =
            if (parser.event_type == codes "result") && not (text == [])
            then parsed parser.result_data (parse text)
            else parser.result_data;
      }

  abbrev pub take_field : Text × Text → Parser J → Parser J
  take_field (name, value) parser =
      if name == codes "event"
      then record parser { event_type = if value == [] then codes "message" else value }
      else if name == codes "data"
      then record parser { data_lines = parser.data_lines ++ value ∷ [] }
      else parser

  -- `parseLine(rawLine)`
  unfoldable pub parse_line : Parser J → Text → Parser J
  parse_line parser raw_line =
      let line = without_cr raw_line in
      if starts_with line (b':' ∷ [])
      then parser
      else if line == []
      then dispatch parser
      else take_field (field_of line (index_of b':' line)) parser

  unfoldable pub parse_lines : Parser J → List Text → Parser J
  parse_lines parser [] = parser
  parse_lines parser (line ∷ lines) = parse_lines (parse_line parser line) lines

  -- One round of the loop over the stream, with the buffer.
  unfoldable pub feed : Parser J × Text → Text → Parser J × Text
  feed (parser, buffer) chunk =
      let (lines, last) = pop (split 10 (buffer ++ chunk)) in (parse_lines parser lines, last)

  unfoldable pub feed_all : Parser J × Text → List Text → Parser J × Text
  feed_all state [] = state
  feed_all state (chunk ∷ chunks) = feed_all (feed state chunk) chunks

  -- `if (dataLines.length > 0) dispatch()`
  abbrev pub final_dispatch : Parser J → Parser J
  final_dispatch parser = if ltb 0 (length parser.data_lines) then dispatch parser else parser

  -- What follows the loop; `rest` is what the decoder still held.
  unfoldable pub flush : Parser J × Text → Text → Parser J
  flush (parser, buffer) rest =
      let last = buffer ++ rest in
      final_dispatch (if last == [] then parser else parse_lines parser (split 10 last))

  -- `sseToJSON(sseResponse)`: the data of the result event, `none` the fallback. The stream yields the
  -- chunks and then either ends, with what the decoder still held, or fails.
  unfoldable pub sse_to_json : List Text → Option Text → Option J
  sse_to_json chunks none = (feed_all (fresh, []) chunks).0.result_data
  sse_to_json chunks (some rest) = (flush (feed_all (fresh, []) chunks) rest).result_data
