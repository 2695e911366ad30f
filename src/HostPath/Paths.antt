-- ===== src/HostPath/Paths.antt =====
-- `resolve` of node:path, for absolute bases.
use sagedockhand.Common.{if◌then◌else◌, drop, ◌==◌, nat_eq, text_eq, ◌||◌, List, [], ◌∷◌, ◌++◌}
use sagedockhand.Common.Text.{Text, codes, starts_with, split, join}
use mathlib.Core.List.{reverse}

-- `resolve(base, path)` for an absolute `base`: the segments without `.`, each `..` taking one away.
abbrev pub push_segment : List Text → Text → List Text
push_segment stack segment =
    if (segment == []) || (segment == codes ".")
    then stack
    else if segment == codes ".."
    then drop 1 stack
    else segment ∷ stack

unfoldable pub resolve_segments : List Text → List Text → List Text
resolve_segments stack [] = stack
resolve_segments stack (segment ∷ segments) = resolve_segments (push_segment stack segment) segments

unfoldable pub resolve_path : Text → Text → Text
resolve_path base path =
    let full = if starts_with path (b'/' ∷ []) then path else base ++ b'/' ∷ path in
    b'/' ∷ join b'/' (reverse (resolve_segments [] (split b'/' full)))
