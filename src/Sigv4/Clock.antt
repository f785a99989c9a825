-- ===== src/Sigv4/Clock.antt =====
-- parseAmzDate and verifyClockSkew of internal/sigv4/verify.go, with time.Parse for the one layout
-- that they use. A time is its nanoseconds since the start of the year 0, in UTC.
use twister_aws.Base.{
  ℕ, zero, suc, ◌+◌, ◌-◌, ◌*◌, ◌/◌, ◌%◌, ◌^◌, Text, Bool, not, ◌&&◌, ◌||◌, Option, none, some, [],
  ◌∷◌, leb, ltb, eqb, length, take, if◌then◌else◌,
}
use twister_aws.Base.Options.{◌>>=◌}
use twister_aws.Base.Results.{Result, ok, err}
use twister_aws.Sigv4.{Refusal, invalid_date, outside_skew}

abbrev is_digit : ℕ → Bool
is_digit c = leb b'0' c && leb c b'9'

-- The number of the first `k` bytes, which are to be digits, with `acc` in front; and what follows.
unfoldable pub read_digits : ℕ → ℕ → Text → Option (ℕ × Text)
read_digits zero acc s = some (acc, s)
read_digits (suc k) acc [] = none
read_digits (suc k) acc (c ∷ s) =
    let rest = read_digits k (acc * 10 + (c - b'0')) s in if is_digit c then rest else none

-- A byte of the layout that stands for itself.
unfoldable pub read_byte : ℕ → Text → Option Text
read_byte b [] = none
read_byte b (c ∷ s) = if eqb c b then some s else none

-- The digits at the start, and what follows them.
unfoldable pub span_digits : Text → Text × Text
span_digits [] = ([], [])
span_digits (c ∷ s) =
    let rest = span_digits s in if is_digit c then (c ∷ rest.0, rest.1) else ([], c ∷ s)

unfoldable pub number : ℕ → Text → ℕ
number acc [] = acc
number acc (c ∷ s) = number (acc * 10 + (c - b'0')) s

-- The first nine digits of a fraction, as nanoseconds.
unfoldable pub nanoseconds : Text → ℕ
nanoseconds digits = let shown = take 9 digits in number 0 shown * 10 ^ (9 - length shown)

-- time.Parse takes a fraction behind the seconds though the layout has none.
unfoldable pub read_fraction : Text → ℕ × Text
read_fraction [] = (0, [])
read_fraction (c ∷ s) =
    let digits = span_digits s in
    if (eqb c b'.' || eqb c b',') && ltb 0 (length digits.0)
    then (nanoseconds digits.0, digits.1)
    else (0, c ∷ s)

unfoldable pub is_leap : ℕ → Bool
is_leap y = eqb (y % 4) 0 && (not (eqb (y % 100) 0) || eqb (y % 400) 0)

unfoldable pub days_in : ℕ → ℕ → ℕ
days_in y m =
    if eqb m 2
    then (if is_leap y then 29 else 28)
    else if eqb m 4 || (eqb m 6 || (eqb m 9 || eqb m 11))
    then 30
    else 31

-- The days of the first `m` months of a year.
unfoldable pub days_before_month : ℕ → ℕ → ℕ
days_before_month y zero = 0
days_before_month y (suc m) = days_before_month y m + days_in y (suc m)

-- The days of the years before `y`, from the year 0, which is a leap year.
unfoldable pub days_before_year : ℕ → ℕ
days_before_year y = y * 365 + (y + 3) / 4 + (y + 399) / 400 - (y + 99) / 100

-- Whether a day and a time of day are in range.
unfoldable pub in_range : ℕ → ℕ → ℕ → ℕ → ℕ → ℕ → Bool
in_range year month day hour minute second =
    (leb 1 month && leb month 12)
    && ((leb 1 day && leb day (days_in year month))
        && (ltb hour 24 && (ltb minute 60 && ltb second 60)))

unfoldable pub to_nanoseconds : ℕ → ℕ → ℕ → ℕ → ℕ → ℕ → ℕ → ℕ
to_nanoseconds year month day hour minute second nanos =
    let days = days_before_year year + days_before_month year (month - 1) + (day - 1) in
    (((days * 24 + hour) * 60 + minute) * 60 + second) * 10 ^ 9 + nanos

-- time.Parse("20060102T150405Z", s)
unfoldable pub parse_amz_date : Text → Option ℕ
parse_amz_date amz_date = do
  (year, rest) ← read_digits 4 0 amz_date
  (month, rest) ← read_digits 2 0 rest
  (day, rest) ← read_digits 2 0 rest
  rest ← read_byte b'T' rest
  (hour, rest) ← read_digits 2 0 rest
  (minute, rest) ← read_digits 2 0 rest
  (second, rest) ← read_digits 2 0 rest
  after ← read_byte b'Z' (read_fraction rest).1
  if in_range year month day hour minute second && eqb (length after) 0
      then some (to_nanoseconds year month day hour minute second (read_fraction rest).0)
      else none

-- 15 minutes
abbrev pub max_skew : ℕ
max_skew = 15 * 60 * 10 ^ 9

-- Two times differ by more than 15 minutes if one is later than the other and 15 minutes.
unfoldable pub verify_clock_skew : Text → ℕ → Result Refusal (Unit {0})
verify_clock_skew amz_date now = elim (parse_amz_date amz_date) [
  | none ↦ err invalid_date
  | some t ↦ if ltb (t + max_skew) now || ltb (now + max_skew) t then err outside_skew else ok tt
]
