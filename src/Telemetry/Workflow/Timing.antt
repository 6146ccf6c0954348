-- ===== src/Telemetry/Workflow/Timing.antt =====
-- `HistoricalTiming` of src/telemetry/workflow.rs.
use github_webhook_exporter.Prelude.{
  ◌&&◌, ℤ, ◌≤ℤ◌, leb_ℤ, Result, ok, err, Text, lit, if◌then◌else◌,
}

pub data TimingSource : Type 0 where
  reported fallback : TimingSource

unfoldable pub timing_source_as_str : TimingSource → Text
timing_source_as_str reported = lit "reported"
timing_source_as_str fallback = lit "fallback"

-- A `SystemTime` is the number of nanoseconds from the Unix epoch to it.
abbrev pub SystemTime : Type 0
SystemTime = ℤ

pub record HistoricalTiming : Type 0 where
  pub start : SystemTime
  pub end : SystemTime
  pub source : TimingSource

pub data WorkflowTimingError : Type 0 where
  invalid_interval : WorkflowTimingError

unfoldable pub derived_timing :
    SystemTime → SystemTime → TimingSource → Result WorkflowTimingError HistoricalTiming
derived_timing start end source =
    if leb_ℤ start end
    then ok (record { start = start; end = end; source = source })
    else err invalid_interval

unfoldable pub reported_timing :
    SystemTime → SystemTime → Result WorkflowTimingError HistoricalTiming
reported_timing start end =
    if leb_ℤ start end
    then ok (record { start = start; end = end; source = reported })
    else err invalid_interval

unfoldable pub fallback_timing : SystemTime → HistoricalTiming
fallback_timing instant = record { start = instant; end = instant; source = fallback }

unfoldable pub reported_within_parent :
    SystemTime → SystemTime → HistoricalTiming → Result WorkflowTimingError HistoricalTiming
reported_within_parent start end parent =
    if leb_ℤ start end && leb_ℤ parent.start start && leb_ℤ end parent.end
    then ok (record { start = start; end = end; source = reported })
    else err invalid_interval

-- The bounds are in order.
abbrev pub Ordered : HistoricalTiming → Type 0
Ordered t = t.start ≤ℤ t.end

-- One interval lies in another.
abbrev pub Within : HistoricalTiming → HistoricalTiming → Type 0
Within t parent = (parent.start ≤ℤ t.start) × (t.end ≤ℤ parent.end)
