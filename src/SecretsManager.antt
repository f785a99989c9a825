-- ===== src/SecretsManager.antt =====
-- Secrets Manager: internal/secretsmanager/service.go. A request is its decoded body, `none` where
-- json.Unmarshal fails; the text of a message is not modelled, its status and type are.
pub mod Behaviour
pub mod Failures
use twister_aws.Base.{
  ℕ, Text, String, codes, Bool, not, ◌&&◌, Option, none, some, List, ◌==◌, if◌then◌else◌, [],
}
use twister_aws.Base.Int.{ℤ}
use twister_aws.Base.Dates.{Dates}
use twister_aws.Base.Files.{File}
use twister_aws.Base.Strings.{trim_space}
use twister_aws.Region.{normalize_region}
use twister_aws.SecretStore.{SecretRecord, Store, lookup_in_region, synthesize_arn}
use twister_aws.SecretStore.Files.{Row, PersistError, upsert_persist}

-- Service, with the file that SecretsCSV names.
pub record Service : Type 0 where
  pub store : Store
  pub secrets_csv : Text
  pub file : File (List Row)

pub record CreateSecretRequest : Type 0 where
  pub name : Text
  pub secret_string : Text
  pub secret_binary : Text

pub record GetSecretValueResponse : Type 0 where
  pub arn : Text
  pub name : Text
  pub secret_string : Text
  pub created_date : ℤ
  pub version_id : Text

pub data Reply : Type 0 where
  secret : GetSecretValueResponse → Reply
  -- ARN, Name and VersionId
  created : Text → Text → Text → Reply
  -- status and __type
  failed : ℕ → String → Reply

module _ (sha256 : Text → Text) where
  -- The request is its SecretId.
  unfoldable pub get_secret_value : Option Text → Text → Service → Reply
  get_secret_value none region s = failed 400 "InvalidParameterException"
  get_secret_value (some secret_id) region s =
      if trim_space secret_id == []
      then failed 400 "InvalidParameterException"
      else elim (lookup_in_region secret_id region s.store) [
        | none ↦ failed 400 "ResourceNotFoundException"
        | some rec ↦ secret (record {
          arn = synthesize_arn sha256 region rec.name;
          name = rec.name;
          secret_string = rec.secret_string;
          created_date = rec.created_date;
          version_id = rec.version_id;
        })
      ]

  -- `vid` is the random version id, `now` the clock's reading, and `ok` whether the file system
  -- lets the file be replaced.
  unfoldable pub answer_created :
      Text → Text → Text → Service → Option PersistError × Store × File (List Row) → Reply × Service
  answer_created region name vid s (some e, store', file') =
      (failed 500 "InternalServiceError", record s { store = store'; file = file' })
  answer_created region name vid s (none, store', file') = (
    created (synthesize_arn sha256 region name) name vid,
    record s { store = store'; file = file' },
  )

  unfoldable pub create_secret :
      (dates : Dates) (ok : Bool) (now : ℤ) (vid : Text)
      → Option CreateSecretRequest
      → Text
      → Service
      → Reply × Service
  unfolding answer_created
  create_secret dates ok now vid none signed s = (failed 400 "InvalidParameterException", s)
  create_secret dates ok now vid (some req) signed s =
      let name = trim_space req.name in
      if name == []
      then (failed 400 "InvalidParameterException", s)
      else if trim_space req.secret_string == [] && not (trim_space req.secret_binary == [])
      then (failed 400 "InvalidParameterException", s)
      else if trim_space req.secret_string == []
      then (failed 400 "InvalidParameterException", s)
      else let region = normalize_region signed in
        let rec : SecretRecord = record {
          region = region;
          name = name;
          secret_string = req.secret_string;
          created_date = now;
          version_id = vid;
        } in
        answer_created region name vid s (upsert_persist dates ok s.secrets_csv rec s.store s.file)
