-- ===== src/SseParser/Tests.antt =====
-- A stream of two events in three chunks, whose data are their own JSON value.
use sagedockhand.Common.{◌≡◌, refl, Option, some, List, [], ◌∷◌, ◌++◌}
use sagedockhand.Common.Text.{Text, codes, split, join, concatenated}
use sagedockhand.SseParser.Parser.{
  fresh, dispatch, parse_line, parse_lines, feed, feed_all, final_dispatch, flush, sse_to_json,
}
use sagedockhand.SseParser.Streaming.{sse_to_json-lines}

abbrev parse : Text → Option (Option Text)
parse text = some (some text)

abbrev chunks : List Text
chunks =
    codes "event: prog\ndata: 1\n\nev" ∷ codes "ent: result\r\nda" ∷ codes "ta: {\ndata:}\n" ∷ []

chunks_test : sse_to_json parse chunks (some []) ≡ some (codes "{\n}")
unfolding sse_to_json feed_all feed parse_lines parse_line dispatch flush split join
chunks_test = refl

sse_to_json-lines_example :
    sse_to_json parse chunks (some (codes "\n"))
    ≡ (final_dispatch parse
        (parse_lines parse fresh (split 10 (concatenated chunks ++ codes "\n")))).result_data
sse_to_json-lines_example = sse_to_json-lines parse chunks (codes "\n")
