-- ===== src/Ssm.antt =====
-- Systems Manager parameters: internal/ssm/service.go. A request is its decoded body, `none` where
-- json.Unmarshal fails; the text of a message is not modelled, its status and type are.
pub mod Behaviour
pub mod Versions
pub mod Reloads
use twister_aws.Base.{
  ℕ, Text, String, codes, Bool, not, ◌&&◌, Option, none, some, List, ◌==◌, if◌then◌else◌, [],
}
use twister_aws.Base.Int.{ℤ, pos, wrap_suc}
use twister_aws.Base.Dates.{Dates}
use twister_aws.Base.Files.{File}
use twister_aws.Base.Strings.{trim_space}
use twister_aws.Region.{normalize_region}
use twister_aws.SecretStore.Files.{Row, PersistError}
use twister_aws.ParamStore.{ParameterRecord, Store, lookup_in_region, synthesize_parameter_arn}
use twister_aws.ParamStore.Files.{Numbers, upsert_persist}

-- Service, with the file that ParametersCSV names.
pub record Service : Type 0 where
  pub store : Store
  pub parameters_csv : Text
  pub file : File (List Row)

pub record GetParameterRequest : Type 0 where
  pub name : Text
  pub with_decryption : Bool

pub record PutParameterRequest : Type 0 where
  pub name : Text
  pub value : Text
  pub kind : Text
  pub overwrite : Bool

pub record ParameterBody : Type 0 where
  pub arn : Text
  pub name : Text
  pub kind : Text
  pub value : Text
  pub version : ℤ
  pub data_type : Text
  pub last_modified : ℤ

pub data Reply : Type 0 where
  parameter : ParameterBody → Reply
  -- Version; the Tier is Standard
  stored : ℤ → Reply
  -- status and __type
  failed : ℕ → String → Reply

unfoldable pub body_of : Text → ParameterRecord → ParameterBody
body_of region rec = record {
  arn = synthesize_parameter_arn region rec.name;
  name = rec.name;
  kind = rec.kind;
  value = rec.value;
  version = rec.version;
  data_type = codes "text";
  last_modified = rec.last_modified;
}

unfoldable pub get_parameter : Option GetParameterRequest → Text → Service → Reply
get_parameter none region s = failed 400 "InvalidRequestException"
get_parameter (some req) region s =
    if trim_space req.name == []
    then failed 400 "InvalidRequestException"
    else elim (lookup_in_region req.name region s.store) [
      | none ↦ failed 400 "ParameterNotFound"
      | some rec ↦
          if rec.kind == codes "SecureString" && not req.with_decryption
          then failed 400 "InvalidRequestException"
          else parameter (body_of region rec)
    ]

-- Whether a parameter exists that must not be overwritten.
unfoldable pub is_taken : Option ParameterRecord → Bool → Bool
is_taken none overwrite = Bool.false
is_taken (some rec) overwrite = not overwrite

unfoldable pub next_version : Option ParameterRecord → ℤ
next_version none = pos 1
next_version (some rec) = wrap_suc rec.version

unfoldable pub answer_stored :
    ℤ → Service → Option PersistError × Store × File (List Row) → Reply × Service
answer_stored ver s (some e, store', file') =
    (failed 500 "InternalServiceError", record s { store = store'; file = file' })
answer_stored ver s (none, store', file') = (stored ver, record s { store = store'; file = file' })

-- `now` is the clock's reading, and `ok` tells whether the file system lets the file be replaced.
unfoldable pub put_parameter :
    (dates : Dates) (numbers : Numbers) (ok : Bool) (now : ℤ)
    → Option PutParameterRequest
    → Text
    → Service
    → Reply × Service
put_parameter dates numbers ok now none signed s = (failed 400 "InvalidRequestException", s)
put_parameter dates numbers ok now (some req) signed s =
    let name = trim_space req.name in
    if name == []
    then (failed 400 "InvalidRequestException", s)
    else let region = normalize_region signed in
      let trimmed = trim_space req.kind in
      let ptype = if trimmed == [] then codes "String" else trimmed in
      if not (ptype == codes "String")
        && (not (ptype == codes "StringList") && not (ptype == codes "SecureString"))
      then (failed 400 "InvalidRequestException", s)
      else let existing = lookup_in_region name region s.store in
        if is_taken existing req.overwrite
        then (failed 400 "ParameterAlreadyExists", s)
        else let ver = next_version existing in
          let rec : ParameterRecord = record {
            region = region;
            name = name;
            kind = ptype;
            value = req.value;
            version = ver;
            last_modified = now;
          } in
          answer_stored ver s
            (upsert_persist dates numbers ok s.parameters_csv now rec s.store s.file)
