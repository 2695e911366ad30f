-- ===== src/UpdateUtils/Gate.antt =====
-- `shouldBlockUpdate` and `combineScanSummaries`.
use sagedockhand.Common.{ltb, ℕ, ◌+◌, max, Bool, false, ◌||◌, Option, none, some, List, [], ◌∷◌}

-- Counts of findings; the fractions and negative numbers of JavaScript do not occur.
pub record VulnerabilitySeverity : Type 0 where
  pub critical : ℕ
  pub high : ℕ
  pub medium : ℕ
  pub low : ℕ
  pub negligible : ℕ
  pub unknown : ℕ

pub data VulnerabilityCriteria : Type 0 where
  never any_severity critical_high critical_only more_than_current : VulnerabilityCriteria

-- `critical + high + medium + low`
abbrev pub total : VulnerabilitySeverity → ℕ
total s = s.critical + s.high + s.medium + s.low

abbrev pub exceeds : VulnerabilitySeverity → Option VulnerabilitySeverity → Bool
exceeds new none = false
exceeds new (some current) = ltb (total current) (total new)

-- `shouldBlockUpdate(criteria, newScanSummary, currentScanSummary)`, its `blocked`; the reason is a text
-- for the reader that is made of the same numbers.
unfoldable pub should_block_update :
    VulnerabilityCriteria → VulnerabilitySeverity → Option VulnerabilitySeverity → Bool
should_block_update any_severity new current = ltb 0 (total new)
should_block_update critical_high new current = ltb 0 new.critical || ltb 0 new.high
should_block_update critical_only new current = ltb 0 new.critical
should_block_update more_than_current new current = exceeds new current
should_block_update never new current = false

abbrev pub no_findings : VulnerabilitySeverity
no_findings = record { critical = 0; high = 0; medium = 0; low = 0; negligible = 0; unknown = 0 }

abbrev pub worse_of : VulnerabilitySeverity → VulnerabilitySeverity → VulnerabilitySeverity
worse_of a b = record {
  critical = max a.critical b.critical;
  high = max a.high b.high;
  medium = max a.medium b.medium;
  low = max a.low b.low;
  negligible = max a.negligible b.negligible;
  unknown = max a.unknown b.unknown;
}

-- The `reduce` of `combineScanSummaries`, from the summary so far.
unfoldable pub combine_from :
    VulnerabilitySeverity → List VulnerabilitySeverity → VulnerabilitySeverity
combine_from so_far [] = so_far
combine_from so_far (summary ∷ summaries) = combine_from (worse_of so_far summary) summaries

-- `combineScanSummaries(results)`
unfoldable pub combine_scan_summaries : List VulnerabilitySeverity → VulnerabilitySeverity
combine_scan_summaries summaries = combine_from no_findings summaries
