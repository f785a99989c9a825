-- ===== src/Tests/Signatures.antt =====
-- The theorems on signatures, applied to small requests.
use twister_aws.Base.{
  get_first, ℕ, zero, suc, ◌%◌, Text, Map, codes, ◌≡◌, refl, ◌↔◌, ◌++◌, List, [], ◌∷◌, some, inl,
  inr, length, lookup, ◌==◌, arith,
}
use twister_aws.Base.Results.{ok}
use twister_aws.Base.Strings.{trim_space, hex_encode}
use twister_aws.Base.Strings.Laws.{has_byte-Lacks, has_byte}
use twister_aws.Base.Sort.{sort_with}
use twister_aws.Sigv4.{Request, Crypto}
use twister_aws.Sigv4.Encoding.Laws.{Bytes}
use twister_aws.Sigv4.Query.{pairs, lt_pair, canonical_query}
use twister_aws.Sigv4.Query.Order.{canonical_query-Perm}
use twister_aws.Sigv4.Query.Reading.{AreBytes, read_query, read_query-canonical_query}
use twister_aws.Sigv4.Fields.{Scope}
use twister_aws.Sigv4.Fields.Header.{authorization_header}
use twister_aws.Sigv4.Fields.Laws.{IsScope}
use twister_aws.Sigv4.Verify.{verify, expected_signature, sha256_hex}
use twister_aws.Sigv4.Verify.Sound.{IsSigned, IsFresh, IsPayload, verify_iff}
use twister_aws.Sigv4.Verify.Complete.{IsCrypto, IsClient, verify_of_IsClient}
use twister_aws.Base.{Bool, true, ltb, ◌&&◌, ◌*◌, ◌+◌, ◌-◌, ◌^◌, lookup}
use twister_aws.Base.Strings.{
  join, trim_left, trim_right, is_space, equal_fold, to_lower, lower_byte,
}
use twister_aws.Sigv4.Clock.{
  parse_amz_date, read_digits, read_byte, span_digits, read_fraction, nanoseconds, number, is_leap,
  days_in, days_before_month, days_before_year, in_range, to_nanoseconds,
}
use twister_aws.Sigv4.Fields.{is_allowed_signing_service, string_to_sign}
use mathlib.Core.List.Perm

abbrev pub parameters : Map (List Text)
parameters = (codes "a b", codes "1" ∷ codes "&" ∷ []) ∷ (codes "Z", codes "=" ∷ []) ∷ []

abbrev parameters_turned : Map (List Text)
parameters_turned = (codes "Z", codes "=" ∷ []) ∷ (codes "a b", codes "1" ∷ codes "&" ∷ []) ∷ []

canonical_query-Perm_example : canonical_query parameters ≡ canonical_query parameters_turned
canonical_query-Perm_example =
    canonical_query-Perm parameters parameters_turned
      (Perm.swap (codes "Z", codes "=" ∷ []) (codes "a b", codes "1" ∷ codes "&" ∷ []) [])

unfoldable pub all_bytes : Text → Bool
all_bytes [] = true
all_bytes (c ∷ s) = ltb c 256 && all_bytes s

pub all_bytes-Bytes : (s : Text) → all_bytes s ≡ true → Bytes s
unfolding all_bytes
all_bytes-Bytes [] h = tt
all_bytes-Bytes (c ∷ s) h = (ground arith, all_bytes-Bytes s (ground arith))

parameters-AreBytes : AreBytes parameters
unfolding all_bytes
parameters-AreBytes = (
  (
    all_bytes-Bytes (codes "a b") refl,
    (all_bytes-Bytes (codes "1") refl, (all_bytes-Bytes (codes "&") refl, tt)),
  ),
  ((all_bytes-Bytes (codes "Z") refl, (all_bytes-Bytes (codes "=") refl, tt)), tt),
)

read_query-canonical_query_example :
    read_query (canonical_query parameters) ≡ sort_with lt_pair (pairs parameters)
read_query-canonical_query_example = read_query-canonical_query parameters parameters-AreBytes

-- The first `n` bytes of a text, with zeros at its end.
unfoldable pub padded : ℕ → Text → Text
padded zero s = []
padded (suc n) [] = 0 ∷ padded n []
padded (suc n) (c ∷ s) = c % 256 ∷ padded n s

padded-length : (n : ℕ) (s : Text) → length (padded n s) ≡ n
unfolding padded
padded-length zero s = refl
padded-length (suc n) [] = omega (arith, padded-length n [])
padded-length (suc n) (c ∷ s) = omega (arith, padded-length n s)

padded-Bytes : (n : ℕ) (s : Text) → Bytes (padded n s)
unfolding padded
padded-Bytes zero s = tt
padded-Bytes (suc n) [] = (omega arith, padded-Bytes n [])
padded-Bytes (suc n) (c ∷ s) = (omega arith, padded-Bytes n s)

abbrev pub padding : Crypto
padding = record { sha256 = padded 32; hmac_sha256 = λ key message. padded 32 (message ++ key) }

pub padding-IsCrypto : IsCrypto padding
padding-IsCrypto = record {
  mac_length = λ key message. padded-length 32 (message ++ key);
  mac_bytes = λ key message. padded-Bytes 32 (message ++ key);
}

abbrev pub key_id : Text
key_id = codes "AKIA0000000000000000"

abbrev pub secret : Text
secret = codes "AAAAAAAAAAAAAAAAAAAAAAAAAAAAAAAAAAAAAAAA"

abbrev pub day : Text
day = codes "20250102"

abbrev pub scope : Scope
scope = record { access_key = key_id; date_stamp = day; region = codes "eu"; service = codes "sqs" }

abbrev pub credential : Text
credential = codes "AKIA0000000000000000/20250102/eu/sqs/aws4_request"

scope-IsScope : IsScope credential scope
unfolding has_byte is_allowed_signing_service ◌==◌
scope-IsScope = record {
  written = refl;
  key_whole = has_byte-Lacks b'/' key_id refl;
  stamp_whole = has_byte-Lacks b'/' day refl;
  region_whole = has_byte-Lacks b'/' (codes "eu") refl;
  service_whole = has_byte-Lacks b'/' (codes "sqs") refl;
  stamp_length = refl;
  served = refl;
}

-- What `padding` gives for every request of that second.
abbrev pub signature : Text
signature = codes "AWS4-HMAC-SHA256" ++ b'\n' ∷ codes "20250102T030405"

abbrev pub request : Request
request = record {
  method = codes "GET";
  escaped_path = [];
  query = parameters;
  header =
      (codes "X-Amz-Date", codes "20250102T030405Z" ∷ [])
      ∷ (
        codes "Authorization",
        authorization_header (record {
          credential = credential;
          signed_headers = codes "host;x-amz-date";
          signature = hex_encode signature;
        })
            ∷ [],
      )
      ∷ [];
  host = codes "localhost";
}

-- 2025-01-02, 03:04:05, in nanoseconds since the year 0
abbrev pub seconds : ℕ
seconds = (((2025 * 365 + 507 - 15 + 1) * 24 + 3) * 60 + 4) * 60 + 5

abbrev pub now : ℕ
now = (seconds + 60) * 10 ^ 9

request-IsFresh : IsFresh (codes "20250102T030405Z") day now
unfolding parse_amz_date read_digits read_byte span_digits read_fraction nanoseconds number is_leap
    days_in days_before_month days_before_year in_range to_nanoseconds
request-IsFresh = record {
  time = seconds * 10 ^ 9;
  time_read = refl;
  not_old = omega arith;
  not_ahead = omega arith;
  day = refl;
  long = omega arith;
}

pub request-IsClient : IsClient padding request scope secret (sha256_hex padding (codes "body"))
unfolding expected_signature padded string_to_sign join get_first lookup ◌==◌ has_byte trim_space
    trim_left trim_right is_space
request-IsClient = record {
  credential = credential;
  signed_headers = codes "host;x-amz-date";
  credential_scope = scope-IsScope;
  credential_field = record {
    filled = cc;
    trimmed = refl;
    whole = has_byte-Lacks b',' credential refl;
  };
  headers_field = record {
    filled = cc;
    trimmed = refl;
    whole = has_byte-Lacks b',' (codes "host;x-amz-date") refl;
  };
  header = refl;
}

abbrev allowed : Map Text
allowed = (key_id, secret) ∷ []

pub request-IsPayload :
    IsPayload padding
      (trim_space (get_first (codes "X-Amz-Content-Sha256") request.header))
      (codes "body")
      (sha256_hex padding (codes "body"))
unfolding IsPayload get_first lookup ◌==◌ trim_space trim_left trim_right equal_fold to_lower
    lower_byte
request-IsPayload = inr (refl, (inl refl, refl))

known : lookup scope.access_key allowed ≡ some secret
unfolding lookup ◌==◌
known = refl

pub request_date : IsFresh (get_first (codes "X-Amz-Date") request.header) scope.date_stamp now
unfolding get_first lookup ◌==◌
request_date = request-IsFresh

verify_of_IsClient_example :
    verify padding request (codes "body") allowed now ≡ ok (codes "eu", codes "sqs")
verify_of_IsClient_example =
    verify_of_IsClient padding request (codes "body") allowed now scope secret
      (sha256_hex padding (codes "body")) padding-IsCrypto request-IsClient known request_date
      request-IsPayload

verify_iff_example :
    (verify padding request (codes "body") allowed now ≡ ok (codes "eu", codes "sqs"))
    ↔ IsSigned padding request (codes "body") allowed now (codes "eu") (codes "sqs")
verify_iff_example =
    verify_iff padding request (codes "body") allowed now (codes "eu") (codes "sqs")
