-- ===== src/HostPath/RewriteLaws.antt =====
-- Which lines are rewritten, and that a second pass changes nothing.
use sagedockhand.Common.{
  Option-cases, length, drop, All, All-IsIn, ℕ, ◌≡◌, refl, inl, inr, true, Option, none, some, List,
  [], ◌∷◌, ◌++◌, arith,
}
use sagedockhand.Common.Text.{Text, starts_with}
use sagedockhand.HostPath.MountsLaws.{translate_container_path_via_mount-IsMostSpecific}
use sagedockhand.HostPath.Rewrite.{
  VolumeMatch, prefix_of, quote_of, source_of, closed_dest_of, match_body, volume_match, unchanged,
  rewrite_matched, rewrite_line,
}
use sagedockhand.HostPath.Mounts.{Mount, translate_container_path_via_mount}
use sagedockhand.HostPath.Paths.{resolve_path}
use sagedockhand.HostPath.LineLaws.{Spaces, prefix_of-dash, IsDash, prefix_of-IsDash}
use mathlib.Core.List.{append_assoc}

-- A line whose source is absolute does not match.
volume_match-absolute :
    (a b rest : Text) → Spaces a → Spaces b → volume_match (a ++ b'-' ∷ (b ++ b'/' ∷ rest)) ≡ none
unfolding volume_match quote_of source_of
volume_match-absolute a b rest ha hb = rw (prefix_of-dash a b b'/' rest ha hb refl) refl

match_body-prefix :
    (prefix : Text) (body : Text × Text) (found : VolumeMatch)
    → match_body prefix body ≡ some found
    → found.prefix ≡ prefix
match_body-prefix prefix (quote, body) found h = elim (Option-cases (source_of body)) [
  | inl lacks ↦ absurd (ground (arith, h, lacks))
  | inr ((source, rest), has_source) ↦ elim (Option-cases (closed_dest_of quote rest)) [
    | inl open_end ↦ absurd (ground (arith, h, has_source, open_end))
    | inr (dest, closed) ↦ ground (arith, h, has_source, closed)
  ]
]

volume_match-IsDash :
    (line : Text) (found : VolumeMatch) → volume_match line ≡ some found → IsDash found.prefix
unfolding volume_match
volume_match-IsDash line found h = elim (Option-cases (prefix_of line)) [
  | inl lacks ↦ absurd (ground (arith, h, lacks))
  | inr ((prefix, body), has_prefix) ↦
      rw (match_body-prefix prefix (quote_of body) found (rw has_prefix at h))
        (prefix_of-IsDash line prefix body has_prefix)
]

-- What a matched line becomes, when the host path is absolute, is no match any more.
with_source-absolute :
    (prefix host dest : Text)
    → IsDash prefix
    → volume_match (prefix ++ (b'/' ∷ host) ++ dest) ≡ none
with_source-absolute prefix host dest d =
    rw
      (
        d.is_prefix,
        append_assoc (d.before ++ b'-' ∷ d.after) (b'/' ∷ host) dest,
        append_assoc d.before (b'-' ∷ d.after) (b'/' ∷ host ++ dest),
      )
      (volume_match-absolute d.before d.after (host ++ dest) d.before_spaces d.after_spaces)

head_of_absolute :
    (source rest : Text)
    → starts_with source (b'/' ∷ []) ≡ true
    → (host : Text) × (source ++ rest ≡ b'/' ∷ host)
head_of_absolute [] rest h = absurd (ground (arith, h))
head_of_absolute (c ∷ s) rest h = (s ++ rest, ground (arith, h))

module _ (mounts : List Mount) (working_dir : Text)
    (absolute : All (λ mount. starts_with mount.source (b'/' ∷ []) ≡ true) mounts) where
  translation-absolute :
      (path : Text) (c : ℕ) (host : Text)
      → translate_container_path_via_mount mounts path ≡ some (c ∷ host)
      → c ≡ b'/'
  translation-absolute path c host h =
      let (mount, best, moves) =
        translate_container_path_via_mount-IsMostSpecific mounts path (c ∷ host) h in
      let (tail, begins) = head_of_absolute mount.source (drop (length mount.destination) path) (
        All-IsIn (λ m. starts_with m.source (b'/' ∷ []) ≡ true) mount mounts absolute best.among) in
      ground (arith, moves, begins)

  rewrite_matched-again :
      (line : Text) (found : VolumeMatch) (host : Option Text)
      → volume_match line ≡ some found
      → translate_container_path_via_mount mounts (resolve_path working_dir found.relative_src)
        ≡ host
      → let once = (rewrite_matched line found host).line in
        rewrite_line mounts working_dir once ≡ unchanged once
  unfolding rewrite_line
  rewrite_matched-again line found none m e = rw (m, e) refl
  rewrite_matched-again line found (some []) m e = rw (m, e) refl
  rewrite_matched-again line found (some (c ∷ host)) m e =
      rw
        (
          translation-absolute (resolve_path working_dir found.relative_src) c host e,
          with_source-absolute found.prefix host found.dest_part (volume_match-IsDash line found m),
        )
        refl

  rewrite_line-none :
      (line : Text)
      → volume_match line ≡ none
      → rewrite_line mounts working_dir line ≡ unchanged line
  unfolding rewrite_line
  rewrite_line-none line h = rw h refl

  rewrite_line-some :
      (line : Text) (found : VolumeMatch)
      → volume_match line ≡ some found
      → rewrite_line mounts working_dir line
        ≡ rewrite_matched line found (
            translate_container_path_via_mount mounts (resolve_path working_dir found.relative_src))
  unfolding rewrite_line
  rewrite_line-some line found h = rw h refl

  -- With mounts whose sources are absolute, rewriting a rewritten line changes nothing.
  pub rewrite_line-rewrite_line :
      (line : Text)
      → let once = (rewrite_line mounts working_dir line).line in
        rewrite_line mounts working_dir once ≡ unchanged once
  rewrite_line-rewrite_line line = elim (Option-cases (volume_match line)) [
    | inl plain ↦ rw (rewrite_line-none line plain) (rewrite_line-none line plain)
    | inr (found, matched) ↦
        rw (rewrite_line-some line found matched) (rewrite_matched-again line found _ matched refl)
  ]
