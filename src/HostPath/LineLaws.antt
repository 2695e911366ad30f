-- ===== src/HostPath/LineLaws.antt =====
-- `rewriteComposeVolumePaths` on one line: how a line is taken apart, and what a line becomes.
use sagedockhand.Common.{
  every, All, span, span_append, span_split, ℕ, ◌≡◌, refl, true, false, not, none, some, List, [],
  ◌∷◌, ◌++◌, arith,
}
use sagedockhand.Common.Text.{Text, codes, is_space}
use sagedockhand.HostPath.Rewrite.{
  after_dash, prefix_of, is_quote, quote_of, is_source_unit, source_of, is_line_end, closed_dest_of,
  volume_match, unchanged, rewrite_line,
}
use sagedockhand.HostPath.Mounts.{Mount, translate_container_path_via_mount}
use sagedockhand.HostPath.Paths.{resolve_path}

abbrev pub Spaces : Text → Type 0
Spaces s = All (λ c. is_space c ≡ true) s

-- The dash and the space around it, in front of something else, are the first group.
pub prefix_of-dash :
    (a b : Text) (c : ℕ) (body : Text)
    → Spaces a
    → Spaces b
    → is_space c ≡ false
    → prefix_of (a ++ b'-' ∷ (b ++ c ∷ body)) ≡ some (a ++ b'-' ∷ b, c ∷ body)
unfolding prefix_of
prefix_of-dash a b c body ha hb hc =
    rw (span_append is_space a b'-' (b ++ c ∷ body) ha refl, span_append is_space b c body hb hc)
      refl

-- Every matched prefix is such a dash.
pub record IsDash (prefix : Text) : Type 0 where
  pub before : Text
  pub after : Text
  pub before_spaces : Spaces before
  pub after_spaces : Spaces after
  pub is_prefix : prefix ≡ before ++ b'-' ∷ after

pub prefix_of-IsDash :
    (line prefix body : Text) → prefix_of line ≡ some (prefix, body) → IsDash prefix
unfolding prefix_of
prefix_of-IsDash line prefix body h = go (span is_space line).1 refl h
  where
    go :
        (rest : Text)
        → (span is_space line).1 ≡ rest
        → after_dash (span is_space line).0 rest ≡ some (prefix, body)
        → IsDash prefix
    go [] e k = absurd (ground (arith, k))
    go (c ∷ s) e k = record {
      before = (span is_space line).0;
      after = (span is_space s).0;
      before_spaces = (span_split is_space line).1;
      after_spaces = (span_split is_space s).1;
      is_prefix = ground (arith, k);
    }

-- The source of a line that is not quoted runs up to the colon.
source_of-run :
    (c : ℕ) (run dest : Text)
    → All (λ x. is_source_unit x ≡ true) (c ∷ run)
    → source_of (codes "./" ++ c ∷ run ++ b':' ∷ dest) ≡ some (codes "./" ++ c ∷ run, b':' ∷ dest)
unfolding source_of
source_of-run c run dest h = rw (span_append is_source_unit (c ∷ run) b':' dest h refl) refl

-- A volume line that gives a source below `./` and is not quoted is rewritten to the host path, when the
-- resolved source has a translation; the space in front and the destination are kept.
pub rewrite_line-plain :
    (mounts : List Mount) (working_dir : Text) (a b : Text) (c : ℕ) (run : Text) (d : ℕ)
    → (dest : Text) (h : ℕ) (host : Text) → All (λ x. is_space x ≡ true) a
    → All (λ x. is_space x ≡ true) b
    → All (λ x. is_source_unit x ≡ true) (c ∷ run)
    → every (λ x. not (is_line_end x)) (d ∷ dest) ≡ true
    → translate_container_path_via_mount mounts (resolve_path working_dir (codes "./" ++ c ∷ run))
      ≡ some (h ∷ host)
    → (rewrite_line mounts working_dir
        (a ++ b'-' ∷ (b ++ (codes "./" ++ c ∷ run ++ b':' ∷ d ∷ dest)))).line
      ≡ (a ++ b'-' ∷ b) ++ (h ∷ host) ++ b':' ∷ d ∷ dest
unfolding rewrite_line volume_match quote_of closed_dest_of
rewrite_line-plain mounts working_dir a b c run d dest h host ha hb hr hd found =
    rw
      (
        prefix_of-dash a b b'.' (b'/' ∷ c ∷ run ++ b':' ∷ d ∷ dest) ha hb refl,
        source_of-run c run (d ∷ dest) hr,
        hd,
        found,
      )
      refl

closed_dest_of-quote :
    (q : ℕ) (dest : Text) → is_quote q ≡ true → closed_dest_of (q ∷ []) (b':' ∷ dest) ≡ none
unfolding closed_dest_of
closed_dest_of-quote q dest h = ground (arith, h)

-- A volume line whose quotes enclose the source and the destination is no match, and stays as it is.
pub rewrite_line-quoted :
    (mounts : List Mount) (working_dir : Text) (a b : Text) (q c : ℕ) (run dest : Text)
    → All (λ x. is_space x ≡ true) a
    → All (λ x. is_space x ≡ true) b
    → is_quote q ≡ true
    → All (λ x. is_source_unit x ≡ true) (c ∷ run)
    → let line = a ++ b'-' ∷ (b ++ q ∷ (codes "./" ++ c ∷ run ++ b':' ∷ dest)) in
      rewrite_line mounts working_dir line ≡ unchanged line
unfolding rewrite_line volume_match quote_of
rewrite_line-quoted mounts working_dir a b q c run dest ha hb hq hr =
    rw
      (
        prefix_of-dash a b q (codes "./" ++ c ∷ run ++ b':' ∷ dest) ha hb (ground (arith, hq)),
        hq,
        source_of-run c run dest hr,
        closed_dest_of-quote q dest hq,
      )
      refl
