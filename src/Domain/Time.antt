-- ===== src/Domain/Time.antt =====
-- Instants, and the parts of the `time` crate that the source calls (a parameter of the model).
-- An instant is a number of nanoseconds counted from the least `OffsetDateTime`, in UTC.
use github_webhook_exporter.Prelude.{
  ℕ, ◌-◌, ◌*◌, ◌/◌, ◌≤◌, ◌<◌, ◌≡◌, ◌↔◌, true, Option, none, some, Text, text_lt, ltb, if◌then◌else◌,
}

abbrev pub nanos_per_milli : ℕ
nanos_per_milli = 1000000

-- `OffsetDateTime::parse(_, &Rfc3339)` converted to UTC, and `format` with the fixed-width layout
-- `[year]-[month]-[day]T[hour]:[minute]:[second].[subsecond digits:3]Z`.
pub record TimeFormat : Type 0 where
  pub parse_rfc3339 : Text → Option ℕ
  pub format_millis : ℕ → Option Text

-- What the crate documents of the two, for the instants of the years from 0 on, which are those
-- at or after `year_zero`: the layout keeps the milliseconds, it is read back, and texts of equal
-- width order as the times that they show.
pub record TimeFormatLaws (f : TimeFormat) : Type 0 where
  pub year_zero : ℕ
  pub parse-format :
      (n : ℕ) (s : Text)
      → year_zero ≤ n
      → f.format_millis n ≡ some s
      → f.parse_rfc3339 s ≡ some (n / nanos_per_milli * nanos_per_milli)
  pub format_ordered :
      (m n : ℕ) (s t : Text)
      → year_zero ≤ m
      → year_zero ≤ n
      → f.format_millis m ≡ some s
      → f.format_millis n ≡ some t
      → (text_lt s t ≡ true) ↔ (m / nanos_per_milli < n / nanos_per_milli)

-- `OffsetDateTime::checked_sub` with a duration that is not negative.
abbrev pub checked_sub : ℕ → ℕ → Option ℕ
checked_sub now d = if ltb now d then none else some (now - d)
