-- ===== src/SseParser/Streaming.antt =====
-- The result does not depend on where the stream is cut into chunks.
use sagedockhand.Common.{
  ◌≡◌, refl, sym, ap, ◌∙◌, Option, some, List, [], ◌∷◌, ◌++◌, append_assoc, append-nil, arith,
}
use sagedockhand.Common.Text.{Text, split, join, concatenated}
use sagedockhand.SseParser.Lines.{split-nonempty, split-append, pop-append}
use sagedockhand.SseParser.Parser.{
  pop, Parser, fresh, dispatch, parse_line, parse_lines, feed, feed_all, final_dispatch, flush,
  sse_to_json,
}

module _ {J : Type 0} (parse : Text → Option (Option J)) where
  parse_lines-append :
      (parser : Parser J) (front lines : List Text)
      → parse_lines parse parser (front ++ lines)
        ≡ parse_lines parse (parse_lines parse parser front) lines
  unfolding parse_lines
  parse_lines-append parser [] lines = refl
  parse_lines-append parser (line ∷ front) lines =
      parse_lines-append (parse_line parse parser line) front lines

  -- The state of the loop that has read the text so far.
  abbrev after_text : Parser J → Text → Parser J × Text
  after_text parser text =
      (parse_lines parse parser (pop (split 10 text)).0, (pop (split 10 text)).1)

  feed-after_text :
      (parser : Parser J) (text chunk : Text)
      → feed parse (after_text parser text) chunk ≡ after_text parser (text ++ chunk)
  unfolding feed
  feed-after_text parser text chunk =
      let front = (pop (split 10 text)).0 in
      let rest = split 10 ((pop (split 10 text)).1 ++ chunk) in
      let lines : split 10 (text ++ chunk) ≡ front ++ rest = split-append 10 text chunk in
      let cut = pop-append front rest (split-nonempty 10 ((pop (split 10 text)).1 ++ chunk)) in
      let whole : pop (split 10 (text ++ chunk)) ≡ (front ++ (pop rest).0, (pop rest).1) =
        ap pop lines ∙ cut in
      ap (λ (p : Parser J). (p, (pop rest).1)) (sym (parse_lines-append parser front (pop rest).0))
      ∙ ap (λ (q : List Text × Text). (parse_lines parse parser q.0, q.1)) (sym whole)

  feed_all-after_text :
      (parser : Parser J) (text : Text) (chunks : List Text)
      → feed_all parse (after_text parser text) chunks
        ≡ after_text parser (text ++ concatenated chunks)
  unfolding feed_all
  feed_all-after_text parser text [] = rw (append-nil text) refl
  feed_all-after_text parser text (chunk ∷ chunks) =
      ap (λ (state : Parser J × Text). feed_all parse state chunks)
        (feed-after_text parser text chunk)
      ∙ (feed_all-after_text parser (text ++ chunk) chunks
          ∙ ap (after_text parser) (append_assoc text chunk (concatenated chunks)))

  -- The blank line at the end is of no account.
  final_dispatch-blank :
      (parser : Parser J)
      → (final_dispatch parse (parse_line parse parser [])).result_data
        ≡ (final_dispatch parse parser).result_data
  unfolding parse_line dispatch join
  final_dispatch-blank parser = go parser.data_lines refl
    where
      go :
          (lines : List Text)
          → parser.data_lines ≡ lines
          → (final_dispatch parse (parse_line parse parser [])).result_data
            ≡ (final_dispatch parse parser).result_data
      go [] e = ground (arith, e)
      go (line ∷ lines) e = ground (arith, e)

  flush-final_dispatch :
      (parser : Parser J) (last : Text)
      → (flush parse (parser, []) last).result_data
        ≡ (final_dispatch parse (parse_lines parse parser (split 10 last))).result_data
  unfolding flush split parse_lines
  flush-final_dispatch parser [] = sym (final_dispatch-blank parser)
  flush-final_dispatch parser (c ∷ last) = refl

  flush_lem :
      (parser : Parser J) (text rest : Text)
      → (flush parse (after_text parser text) rest).result_data
        ≡ (final_dispatch parse (parse_lines parse parser (split 10 (text ++ rest)))).result_data
  unfolding flush
  flush_lem parser text rest =
      let front = (pop (split 10 text)).0 in
      let last = (pop (split 10 text)).1 ++ rest in
      let before = parse_lines parse parser front in
      flush-final_dispatch before last
      ∙ ap (λ (p : Parser J). (final_dispatch parse p).result_data)
          (sym (
            ap (parse_lines parse parser) (split-append 10 text rest)
            ∙ parse_lines-append parser front (split 10 last)))

  -- The result of a stream that ends is the one that the lines of its whole text give, however the text
  -- was cut into chunks: parsed one by one, with a dispatch at the end when data lines are left.
  pub sse_to_json-lines :
      (chunks : List Text) (rest : Text)
      → sse_to_json parse chunks (some rest)
        ≡ (final_dispatch parse
            (parse_lines parse fresh (split 10 (concatenated chunks ++ rest)))).result_data
  unfolding sse_to_json split parse_lines
  sse_to_json-lines chunks rest =
      ap (λ (state : Parser J × Text). (flush parse state rest).result_data)
        (feed_all-after_text fresh [] chunks)
      ∙ flush_lem fresh (concatenated chunks) rest
