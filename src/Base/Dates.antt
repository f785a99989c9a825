-- ===== src/Base/Dates.antt =====
-- The date formats of Go's package `time` that the data files use, as a parameter, and what the
-- program relies on: a date of the years 0 to 9999 that is printed is read back, and a print has no blank at the
-- ends and no line break.
use mathlib.Core.Path.{◌≡◌}
use mathlib.Core.Logic.{◌≢◌}
use mathlib.Core.List.{[]}
use mathlib.Core.Option.{Option, some}
use twister_aws.Base.Texts.{Text}
use mathlib.Core.Bool.{Bool, true}
use Prim.Native.Nat.{◌*◌}
use twister_aws.Base.Tests.{ltb}
use twister_aws.Base.Int.{ℤ, pos, negsuc}
use twister_aws.Base.Strings.{trim_space, read_back}

pub record Dates : Type 0 where
  -- time.Parse(time.RFC3339, s), in UTC
  pub parse_rfc3339 : Text → Option ℤ
  -- time.Parse(time.RFC3339Nano, s), in UTC
  pub parse_rfc3339_nano : Text → Option ℤ
  -- strconv.ParseFloat, taken as seconds since the epoch
  pub parse_seconds : Text → Option ℤ
  -- t.UTC().Format(time.RFC3339Nano)
  pub format : ℤ → Text

-- From the start of the year 0 to the end of the year 9999: what a date in RFC 3339 can say.
abbrev pub is_date : ℤ → Bool
is_date (pos n) = ltb n (253402300800 * 1000000000)
is_date (negsuc n) = ltb n (62167219200 * 1000000000)

pub record IsDates (d : Dates) : Type 0 where
  pub parse-format : (t : ℤ) → is_date t ≡ true → d.parse_rfc3339 (d.format t) ≡ some t
  pub format-trimmed : (t : ℤ) → trim_space (d.format t) ≡ d.format t
  pub format-ne-nil : (t : ℤ) → d.format t ≢ []
  pub format-kept : (t : ℤ) → read_back (d.format t) ≡ d.format t
