-- ===== src/Tests/Keys.antt =====
-- The theorems on access keys, applied to a first key.
use twister_aws.Base.{
  Text, codes, ◌≡◌, ◌≢◌, refl, none, some, [], ◌∷◌, ◌++◌, arith, ◌==◌, lookup, insert, true,
}
use twister_aws.Base.Files.{missing, holds}
use twister_aws.Base.Results.{ok}
use twister_aws.Base.Sort.{sort}
use twister_aws.Base.Strings.{
  trim_space, trim_left, trim_right, is_space, read_back, to_upper, hex_encode, hex_digit,
}
use twister_aws.Sigv4.Verify.{sha256_hex}
use twister_aws.Credentials.{
  Provider, CsvFile, header, rows_of, add_access_key_and_persist, reload_from_file, verify_request,
  write_allowlist_csv,
}
use twister_aws.Credentials.RoundTrip.{IsKept, AreKept, reload_from_file-add_access_key_and_persist}
use twister_aws.Iam.{
  Random, created, create_access_key, new_key_pair, access_key_of, base64_digit, base64_raw,
}
use twister_aws.Iam.Keys.{IsRandom, create_access_key-verify_request}
use twister_aws.Base.Int.{pos}
use twister_aws.Router.{Router}
use twister_aws.Router.Primary.{Primary, IsServed, serve, serve-IsServed}
use twister_aws.Tests.Signatures.{
  all_bytes, all_bytes-Bytes, key_id, secret, scope, request, now, padding, padding-IsCrypto,
  request-IsClient, request_date, request-IsPayload,
}

abbrev zeros : Text
zeros = 0 ∷ 0 ∷ 0 ∷ 0 ∷ 0 ∷ 0 ∷ 0 ∷ 0 ∷ []

abbrev many_zeros : Text
many_zeros = zeros ++ (zeros ++ (zeros ++ (0 ∷ 0 ∷ 0 ∷ 0 ∷ 0 ∷ 0 ∷ [])))

abbrev random : Random
random = record { for_id = some zeros; for_secret = some many_zeros }

random-IsRandom : IsRandom random
unfolding all_bytes
random-IsRandom = record {
  id = zeros;
  secret = many_zeros;
  id_given = refl;
  secret_given = refl;
  id_length = refl;
  secret_length = refl;
  id_bytes = all_bytes-Bytes zeros refl;
  secret_bytes = all_bytes-Bytes many_zeros refl;
}

abbrev fresh : Provider
fresh = record { access_to_secret = []; csv_path = codes "c" }

nothing_kept : (k s : Text) → lookup k [] ≢ some s
unfolding lookup
nothing_kept k s e = ground (arith, e)

fresh-AreKept : AreKept fresh.access_to_secret
fresh-AreKept = record {
  key_kept = λ k s e. absurd (nothing_kept k s e);
  secret_kept = λ k s e. absurd (nothing_kept k s e);
}

abbrev keyed : Provider
keyed = record { access_to_secret = (key_id, secret) ∷ []; csv_path = codes "c" }

abbrev written : CsvFile
written = holds (header ∷ (key_id ∷ secret ∷ []) ∷ [])

adds : add_access_key_and_persist true key_id secret fresh missing ≡ (none, keyed, written)
unfolding add_access_key_and_persist write_allowlist_csv rows_of sort insert lookup ◌==◌ trim_space
    trim_left trim_right is_space read_back
adds = refl

makes : create_access_key true random fresh missing ≡ (created key_id secret, keyed, written)
unfolding create_access_key new_key_pair access_key_of base64_raw base64_digit to_upper hex_encode
    hex_digit add_access_key_and_persist write_allowlist_csv rows_of sort insert lookup ◌==◌
    trim_space trim_left trim_right is_space read_back
makes = refl

stored_id : IsKept key_id
unfolding trim_space trim_left trim_right is_space read_back
stored_id = record { filled = λ e. ground (arith, e); trimmed = refl; kept = refl }

stored_secret : IsKept secret
unfolding trim_space trim_left trim_right is_space read_back
stored_secret = record { filled = λ e. ground (arith, e); trimmed = refl; kept = refl }

reload_from_file-add_access_key_and_persist_example :
    ((reload_from_file keyed written).0 ≡ none)
    × (lookup key_id (reload_from_file keyed written).1.access_to_secret ≡ some secret)
    × ((j : Text)
        → trim_space j ≢ []
        → lookup j (reload_from_file keyed written).1.access_to_secret
          ≡ lookup j keyed.access_to_secret)
reload_from_file-add_access_key_and_persist_example =
    reload_from_file-add_access_key_and_persist key_id secret fresh keyed missing written
      fresh-AreKept stored_id stored_secret adds

create_access_key-verify_request_example :
    (verify_request padding request (codes "body") now keyed ≡ ok (codes "eu", codes "sqs"))
    × (verify_request padding request (codes "body") now (reload_from_file keyed written).1
        ≡ ok (codes "eu", codes "sqs"))
create_access_key-verify_request_example =
    create_access_key-verify_request padding random fresh keyed missing written secret request
      (codes "body") now scope (sha256_hex padding (codes "body")) random-IsRandom fresh-AreKept
      makes padding-IsCrypto request-IsClient request_date request-IsPayload

-- A router that holds the key.
abbrev router : Router
router = record {
  provider = keyed;
  iam = true;
  sqs = true;
  ec2 = true;
  services = codes "ssm" ∷ [];
}

abbrev primary : Primary
primary = record { provider = keyed; has_s3 = true; api = router; max_put = pos 0 }

serve-IsServed_example :
    IsServed padding primary request
      (codes "/")
      (some (codes "body"))
      none
      now
      (serve padding primary request (codes "/") (some (codes "body")) none now)
serve-IsServed_example =
    serve-IsServed padding primary request (codes "/") (some (codes "body")) none now
