-- ===== src/Tests/Data.antt =====
-- The parameters of the models, as small functions that have the properties that are relied on.
use twister_aws.Base.{
  ℕ, zero, suc, Text, codes, ◌≡◌, ◌≢◌, refl, Option, some, none, [], ◌∷◌, arith, if◌then◌else◌, eqb,
  ◌<◌, All,
}
use twister_aws.Base.Int.{ℤ, pos, negsuc}
use twister_aws.Base.Dates.{Dates, IsDates}
use twister_aws.Base.Strings.{trim_space, read_back}
use twister_aws.SecretStore.Arn.{IsDigest}
use twister_aws.ParamStore.Files.{Numbers, IsNumbers}

-- A number as three bytes: its sign, its size, and a byte that closes it.
unfoldable pub print : ℤ → Text
print (pos n) = b'p' ∷ n ∷ b'.' ∷ []
print (negsuc n) = b'n' ∷ n ∷ b'.' ∷ []

unfoldable pub read : Text → Option ℤ
read (sign ∷ n ∷ dot ∷ []) = if eqb sign b'p' then some (pos n) else some (negsuc n)
read _ = none

read-print : (z : ℤ) → read (print z) ≡ some z
unfolding read print
read-print (pos n) = refl
read-print (negsuc n) = refl

abbrev pub dates : Dates
dates = record {
  parse_rfc3339 = read;
  parse_rfc3339_nano = read;
  parse_seconds = read;
  format = print;
}

print-trimmed : (t : ℤ) → trim_space (print t) ≡ print t
unfolding print trim_space
print-trimmed (pos n) = refl
print-trimmed (negsuc n) = refl

print-filled : (t : ℤ) → print t ≢ []
unfolding print
print-filled (pos n) = cc
print-filled (negsuc n) = cc

print-kept : (t : ℤ) → read_back (print t) ≡ print t
unfolding print read_back
print-kept (pos n) = ground arith
print-kept (negsuc n) = ground arith

pub dates-IsDates : IsDates dates
dates-IsDates = record {
  parse-format = λ t h. read-print t;
  format-trimmed = print-trimmed;
  format-ne-nil = print-filled;
  format-kept = print-kept;
}

abbrev pub numbers : Numbers
numbers = record { atoi = read; format = print }

pub numbers-IsNumbers : IsNumbers numbers
numbers-IsNumbers = record {
  atoi-format = λ z h. read-print z;
  format-ne-nil = print-filled;
  format-kept = print-kept;
}

-- n bytes that are 0xa7
unfoldable pub bytes : ℕ → Text
bytes zero = []
bytes (suc n) = 167 ∷ bytes n

bytes-All : (n : ℕ) → All (λ c. c < 256) (bytes n)
unfolding bytes
bytes-All zero = tt
bytes-All (suc n) = (omega arith, bytes-All n)

abbrev pub sha256 : Text → Text
sha256 s = bytes 32

pub sha256-IsDigest : IsDigest sha256
sha256-IsDigest = record { size = λ s. unfold bytes in refl; bytes = λ s. bytes-All 32 }

abbrev pub md5 : Text → Text
md5 s = bytes 16

abbrev pub us : Text
us = codes "us-east-1"

abbrev pub eu : Text
eu = codes "eu-west-1"
