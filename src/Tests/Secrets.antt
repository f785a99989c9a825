-- ===== src/Tests/Secrets.antt =====
-- Runs on secrets.
use twister_aws.Base.{
  Text, codes, ◌≡◌, ◌≢◌, refl, true, false, Option, none, some, List, [], ◌==◌, lookup, arith,
  Lacks,
}
use twister_aws.Base.Strings.{to_lower, trim_space, read_back, has_prefix, all_hex, is_hex_digit}
use twister_aws.Base.Int.{pos}
use twister_aws.Base.Files.{File, missing}
use twister_aws.Region.{normalize_region}
use twister_aws.SecretStore.{
  SecretRecord, Store, new_store, region_storage_key, lookup_in_region, parse_name_from_secret_id,
  synthesize_arn,
}
use twister_aws.SecretStore.Arn.{IsSuffix, parse_name_from_secret_id-synthesize_arn}
use twister_aws.SecretStore.Files.{PersistError, Row, upsert_persist, load_secrets_csv}
use twister_aws.SecretStore.Files.Rows.{IsStorable}
use twister_aws.SecretStore.Files.RoundTrip.{load_secrets_csv-upsert_persist}
use twister_aws.SecretStore.Files.Validity.{IsValid}
use twister_aws.SecretsManager.{
  Service, CreateSecretRequest, secret, created, failed, create_secret, get_secret_value,
}
use twister_aws.SecretsManager.Behaviour.{
  IsAccepted, get_secret_value-create_secret, get_secret_value_suffixed,
}
use twister_aws.SecretsManager.Failures.{create_secret_not_persisted}
use twister_aws.Tests.Data.{dates, dates-IsDates, sha256, sha256-IsDigest, us, eu}

abbrev record_of : Text → Text → SecretRecord
record_of region name = record {
  region = region;
  name = name;
  secret_string = codes "s3cret";
  created_date = pos 7;
  version_id = codes "V1";
}

us-Lacks : Lacks 0 us
us-Lacks = omega arith

empty-IsValid : IsValid []
unfolding lookup
empty-IsValid = record { storable = λ k r e. cc; normal = λ k r e. cc; keyed = λ k r e. cc }

storable :
    (region : Text)
    → read_back (normalize_region region) ≡ normalize_region region
    → IsStorable (record_of region (codes "db"))
unfolding trim_space read_back
storable region kept = record {
  name_trimmed = refl;
  named = cc;
  filled = cc;
  version_trimmed = refl;
  versioned = cc;
  dated = refl;
  name_kept = refl;
  region_kept = kept;
  secret_kept = refl;
  version_kept = refl;
}

us_kept : read_back (normalize_region us) ≡ normalize_region us
unfolding read_back normalize_region to_lower trim_space ◌==◌
us_kept = refl

eu_kept : read_back (normalize_region eu) ≡ normalize_region eu
unfolding read_back normalize_region to_lower trim_space ◌==◌
eu_kept = refl

csv_path : trim_space (codes "secrets.csv") ≢ []
unfolding trim_space
csv_path = cc

abbrev one_secret : Option PersistError × Store × File (List Row)
one_secret =
    upsert_persist dates true (codes "secrets.csv") (record_of us (codes "db")) new_store missing

one_secret-IsValid : IsValid one_secret.1.by_key
one_secret-IsValid =
    (load_secrets_csv-upsert_persist sha256 dates dates-IsDates (pos 9) (codes "secrets.csv")
      (record_of us (codes "db")) new_store missing empty-IsValid (storable us us_kept) csv_path).1

load_secrets_csv-upsert_persist_example :
    let (e, s', file') =
      upsert_persist dates true
        (codes "secrets.csv")
        (record_of eu (codes "db"))
        one_secret.1
        one_secret.2 in
    (e ≡ none)
    × IsValid s'.by_key
    × (lookup (region_storage_key eu (codes "db")) s'.by_key
        ≡ some (record (record_of eu (codes "db")) { region = normalize_region eu }))
    × ((j : Text)
        → lookup j (load_secrets_csv sha256 dates file' (pos 9) new_store).1.by_key
          ≡ lookup j s'.by_key)
load_secrets_csv-upsert_persist_example =
    load_secrets_csv-upsert_persist sha256 dates dates-IsDates (pos 9) (codes "secrets.csv")
      (record_of eu (codes "db")) one_secret.1 one_secret.2 one_secret-IsValid (storable eu eu_kept)
      csv_path

parse_name_from_secret_id-synthesize_arn_example :
    parse_name_from_secret_id (synthesize_arn sha256 us (codes "db-0badf00d")) ≡ codes "db-0badf00d"
parse_name_from_secret_id-synthesize_arn_example =
    parse_name_from_secret_id-synthesize_arn sha256 sha256-IsDigest us (codes "db-0badf00d")
      (omega arith) (cc) (cc)

abbrev request : Text → CreateSecretRequest
request name = record { name = name; secret_string = codes "s3cret"; secret_binary = [] }

abbrev service : Service
service = record { store = one_secret.1; secrets_csv = codes "secrets.csv"; file = one_secret.2 }

accepted : IsAccepted (request (codes "db"))
unfolding trim_space
accepted = record { named = cc; filled = cc }

us_normal : normalize_region us ≡ us
unfolding normalize_region to_lower trim_space ◌==◌
us_normal = refl

get_secret_value-create_secret_example :
    let name = trim_space (codes "db") in
    let arn = synthesize_arn sha256 (normalize_region us) name in
    let (reply, s') =
      create_secret sha256 dates true
        (pos 9)
        (codes "V2")
        (some (request (codes "db")))
        us
        service in
    (reply ≡ created arn name (codes "V2"))
    × (get_secret_value sha256 (some arn) us s'
        ≡ secret (record {
          arn = synthesize_arn sha256 us name;
          name = name;
          secret_string = codes "s3cret";
          created_date = pos 9;
          version_id = codes "V2";
        }))
get_secret_value-create_secret_example =
    get_secret_value-create_secret sha256 sha256-IsDigest dates (pos 9) (codes "V2")
      (request (codes "db")) us service accepted csv_path us-Lacks (rw us_normal (omega arith))
      (rw us_normal (cc))

abbrev suffixed : Text
suffixed = codes "db-0badf00d"

suffixed-IsAccepted : IsAccepted (request suffixed)
unfolding trim_space
suffixed-IsAccepted = record { named = cc; filled = cc }

suffixed_trimmed : trim_space suffixed ≡ suffixed
unfolding trim_space
suffixed_trimmed = refl

a_suffix : IsSuffix (codes "0badf00d")
unfolding all_hex is_hex_digit
a_suffix = record { size = refl; digits = refl; dashless = omega arith }

no_arn : has_prefix suffixed (codes "arn:") ≡ false
unfolding has_prefix
no_arn = refl

abbrev empty_service : Service
empty_service = record { store = new_store; secrets_csv = codes "secrets.csv"; file = missing }

nothing_there : lookup_in_region suffixed us new_store ≡ none
unfolding lookup_in_region lookup
nothing_there = ground arith

get_secret_value_suffixed_example :
    get_secret_value sha256
      (some suffixed)
      us
      (create_secret sha256 dates true
        (pos 9)
        (codes "V2")
        (some (request suffixed))
        us
        empty_service).1
    ≡ failed 400 "ResourceNotFoundException"
get_secret_value_suffixed_example =
    get_secret_value_suffixed sha256 sha256-IsDigest dates (pos 9) (codes "V2") (request suffixed)
      us empty_service suffixed-IsAccepted csv_path us-Lacks (codes "db") (codes "0badf00d")
      suffixed_trimmed a_suffix (cc) no_arn nothing_there

refuses :
    (create_secret sha256 dates true (pos 9) (codes "V2") (some (request (codes " "))) us service).0
    ≡ failed 400 "InvalidParameterException"
unfolding create_secret trim_space ◌==◌
refuses = refl

create_secret_not_persisted_example :
    let arn = synthesize_arn sha256 (normalize_region us) (trim_space (codes "db")) in
    let (reply, s') =
      create_secret sha256 dates false
        (pos 9)
        (codes "V2")
        (some (request (codes "db")))
        us
        service in
    (reply ≡ failed 500 "InternalServiceError")
    × (s'.file ≡ service.file)
    × (get_secret_value sha256 (some arn) us s'
        ≡ secret (record {
          arn = synthesize_arn sha256 us (trim_space (codes "db"));
          name = trim_space (codes "db");
          secret_string = codes "s3cret";
          created_date = pos 9;
          version_id = codes "V2";
        }))
create_secret_not_persisted_example =
    create_secret_not_persisted sha256 sha256-IsDigest dates (pos 9) (codes "V2")
      (request (codes "db")) us service accepted csv_path us-Lacks (rw us_normal (omega arith))
      (rw us_normal (cc))
