-- ===== src/UpdateUtils/GateLaws.antt =====
-- What the gate makes of several scanners' summaries.
use sagedockhand.Common.{IsIn, ◌≤◌, ◌≡◌, inl, inr, true, Option, none, some, List, [], ◌∷◌, arith}
use sagedockhand.UpdateUtils.Gate.{
  VulnerabilitySeverity, VulnerabilityCriteria, should_block_update, no_findings, worse_of,
  combine_from, combine_scan_summaries, never, any_severity, critical_high, critical_only,
  more_than_current,
}

-- No count is larger.
record AtMost (a b : VulnerabilitySeverity) : Type 0 where
  critical : a.critical ≤ b.critical
  high : a.high ≤ b.high
  medium : a.medium ≤ b.medium
  low : a.low ≤ b.low

AtMost-trans : (a b c : VulnerabilitySeverity) → AtMost a b → AtMost b c → AtMost a c
AtMost-trans a b c h k = record {
  critical = omega (arith, h.critical, k.critical);
  high = omega (arith, h.high, k.high);
  medium = omega (arith, h.medium, k.medium);
  low = omega (arith, h.low, k.low);
}

worse_of-AtMost : (a b : VulnerabilitySeverity) → AtMost a (worse_of a b) × AtMost b (worse_of a b)
worse_of-AtMost a b = (
  record { critical = omega arith; high = omega arith; medium = omega arith; low = omega arith },
  record { critical = omega arith; high = omega arith; medium = omega arith; low = omega arith },
)

combine_from-AtMost :
    (so_far : VulnerabilitySeverity) (summaries : List VulnerabilitySeverity)
    → AtMost so_far (combine_from so_far summaries)
unfolding combine_from
combine_from-AtMost so_far [] = record {
  critical = omega arith;
  high = omega arith;
  medium = omega arith;
  low = omega arith;
}
combine_from-AtMost so_far (summary ∷ summaries) =
    AtMost-trans so_far (worse_of so_far summary) (combine_from (worse_of so_far summary) summaries)
      (worse_of-AtMost so_far summary).0 (combine_from-AtMost (worse_of so_far summary) summaries)

combine_from-IsIn :
    (s so_far : VulnerabilitySeverity) (summaries : List VulnerabilitySeverity)
    → IsIn s summaries
    → AtMost s (combine_from so_far summaries)
unfolding combine_from
combine_from-IsIn s so_far [] i = absurd i
combine_from-IsIn s so_far (summary ∷ summaries) (inl e) =
    AtMost-trans s (worse_of so_far summary) (combine_from (worse_of so_far summary) summaries)
      (rw e (worse_of-AtMost so_far summary).1)
      (combine_from-AtMost (worse_of so_far summary) summaries)
combine_from-IsIn s so_far (summary ∷ summaries) (inr later) =
    combine_from-IsIn s (worse_of so_far summary) summaries later

should_block_update-AtMost :
    (criteria : VulnerabilityCriteria) (a b : VulnerabilitySeverity)
    (current : Option VulnerabilitySeverity)
    → AtMost a b
    → should_block_update criteria a current ≡ true
    → should_block_update criteria b current ≡ true
unfolding should_block_update
should_block_update-AtMost any_severity a b current m h =
    ground (arith, h, m.critical, m.high, m.medium, m.low)
should_block_update-AtMost critical_high a b current m h = ground (arith, h, m.critical, m.high)
should_block_update-AtMost critical_only a b current m h = ground (arith, h, m.critical)
should_block_update-AtMost more_than_current a b none m h = h
should_block_update-AtMost more_than_current a b (some current) m h =
    ground (arith, h, m.critical, m.high, m.medium, m.low)
should_block_update-AtMost never a b current m h = h

-- Whatever the criterion, when the findings of one scanner alone block the update, the combined findings
-- of all scanners block it.
pub should_block_update-combine_scan_summaries :
    (criteria : VulnerabilityCriteria) (s : VulnerabilitySeverity)
    (summaries : List VulnerabilitySeverity) (current : Option VulnerabilitySeverity)
    → IsIn s summaries
    → should_block_update criteria s current ≡ true
    → should_block_update criteria (combine_scan_summaries summaries) current ≡ true
unfolding combine_scan_summaries
should_block_update-combine_scan_summaries criteria s summaries current i =
    should_block_update-AtMost criteria s (combine_from no_findings summaries) current
      (combine_from-IsIn s no_findings summaries i)
