-- ===== src/HostPath/Rewrite.antt =====
-- `rewriteComposeVolumePaths`: the relative sources of volume lines become host paths.
use sagedockhand.Common.{
  ltb, if◌then◌else◌, and_then, length, drop, every, span, ◌==◌, nat_eq, text_eq, ℕ, Bool, not,
  ◌&&◌, ◌||◌, Option, none, some, List, [], ◌∷◌, ◌++◌, map,
}
use sagedockhand.Common.Text.{Text, codes, starts_with, split, join, is_space}
use sagedockhand.HostPath.Mounts.{Mount, translate_container_path_via_mount}
use sagedockhand.HostPath.Paths.{resolve_path}

-- The pattern /^(\s*-\s*)(['"]?)(\.\.?\/[^'":\s]+)(\2)(:.+)$/, group by group. No group can give a
-- character back to the next one, so each takes all it can.
pub record VolumeMatch : Type 0 where
  pub prefix : Text
  pub relative_src : Text
  pub dest_part : Text

abbrev pub after_dash : Text → Text → Option (Text × Text)
after_dash indent [] = none
after_dash indent (c ∷ s) =
    if c == b'-' then some (indent ++ c ∷ (span is_space s).0, (span is_space s).1) else none

-- `(\s*-\s*)` and what follows
unfoldable pub prefix_of : Text → Option (Text × Text)
prefix_of line = after_dash (span is_space line).0 (span is_space line).1

abbrev pub is_quote : ℕ → Bool
is_quote c = (c == 34) || (c == 39)

-- `(['"]?)` and what follows
unfoldable pub quote_of : Text → Text × Text
quote_of [] = ([], [])
quote_of (c ∷ s) = if is_quote c then (c ∷ [], s) else ([], c ∷ s)

-- `[^'":\s]`
abbrev pub is_source_unit : ℕ → Bool
is_source_unit c = not (is_quote c) && not (c == b':') && not (is_space c)

abbrev pub run_of : Text → Text × Text → Option (Text × Text)
run_of dots ([], rest) = none
run_of dots (c ∷ run, rest) = some (dots ++ c ∷ run, rest)

-- `(\.\.?\/[^'":\s]+)` and what follows
unfoldable pub source_of : Text → Option (Text × Text)
source_of s =
    if starts_with s (codes "./")
    then run_of (codes "./") (span is_source_unit (drop 2 s))
    else if starts_with s (codes "../")
    then run_of (codes "../") (span is_source_unit (drop 3 s))
    else none

-- `.` matches every code unit but these.
abbrev pub is_line_end : ℕ → Bool
is_line_end c = (c == 10) || (c == 13) || (c == 0x2028) || (c == 0x2029)

-- `(:.+)$`
abbrev pub dest_of : Text → Option Text
dest_of [] = none
dest_of (c ∷ []) = none
dest_of (c ∷ d ∷ s) =
    if (c == b':') && every (λ x. not (is_line_end x)) (d ∷ s) then some (c ∷ d ∷ s) else none

-- `(\2)`: the same quote, or nothing
unfoldable pub closed_dest_of : Text → Text → Option Text
closed_dest_of quote s = if starts_with s quote then dest_of (drop (length quote) s) else none

abbrev pub match_body : Text → Text × Text → Option VolumeMatch
match_body prefix (quote, body) = and_then (source_of body) (λ (source, rest).
    and_then (closed_dest_of quote rest)
      (λ dest. some (record { prefix = prefix; relative_src = source; dest_part = dest })))

unfoldable pub volume_match : Text → Option VolumeMatch
volume_match line = and_then (prefix_of line) (λ (prefix, body). match_body prefix (quote_of body))

-- What a line becomes, and the note of the change.
pub record Rewritten : Type 0 where
  pub line : Text
  pub change : Option Text

abbrev pub unchanged : Text → Rewritten
unchanged line = record { line = line; change = none }

-- The note is `  ${relativeSrc} -> ${absoluteHostPath}`.
abbrev pub with_source : VolumeMatch → Text → Rewritten
with_source found host = record {
  line = found.prefix ++ host ++ found.dest_part;
  change = some (codes "  " ++ found.relative_src ++ codes " -> " ++ host);
}

-- `if (absoluteHostPath)`
abbrev pub rewrite_matched : Text → VolumeMatch → Option Text → Rewritten
rewrite_matched line found none = unchanged line
rewrite_matched line found (some []) = unchanged line
rewrite_matched line found (some (c ∷ host)) = with_source found (c ∷ host)

abbrev pub rewrite_found : List Mount → Text → Text → Option VolumeMatch → Rewritten
rewrite_found mounts working_dir line none = unchanged line
rewrite_found mounts working_dir line (some found) =
    rewrite_matched line found
      (translate_container_path_via_mount mounts (resolve_path working_dir found.relative_src))

-- The body of the loop.
unfoldable pub rewrite_line : List Mount → Text → Text → Rewritten
rewrite_line mounts working_dir line = rewrite_found mounts working_dir line (volume_match line)

pub record RewriteResult : Type 0 where
  pub content : Text
  pub modified : Bool
  pub changes : List Text

abbrev pub changes_of : List Rewritten → List Text
changes_of [] = []
changes_of (r ∷ rs) = elim r.change [ none ↦ changes_of rs | some change ↦ change ∷ changes_of rs ]

-- `rewriteComposeVolumePaths(composeContent, workingDir)`
unfoldable pub rewrite_compose_volume_paths : List Mount → Text → Text → RewriteResult
rewrite_compose_volume_paths mounts working_dir content =
    let lines = map (rewrite_line mounts working_dir) (split 10 content) in
    let changes = changes_of lines in
    record {
      content = join 10 (map (λ (r : Rewritten). r.line) lines);
      modified = ltb 0 (length changes);
      changes = changes;
    }
