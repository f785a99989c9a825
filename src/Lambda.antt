-- ===== src/Lambda.antt =====
-- Lambda: internal/lambda. Registry is registry.go, Mappings is event_source.go, Docker is docker.go,
-- Handlers, Events and Dispatch are service.go.
-- Files are what they decode to; whether a file can be written is an argument.
pub mod Registry
pub mod Mappings
pub mod Docker
pub mod Handlers
pub mod Events
pub mod Dispatch
use twister_aws.Base.{Text, List}
use twister_aws.Base.Int.{ℤ}
use twister_aws.Base.Results

pub record FunctionConfig : Type 0 where
  pub function_name : Text
  pub region : Text
  pub image_uri : Text
  pub handler : Text
  pub timeout : ℤ
  pub memory_size : ℤ
  pub package_type : Text
  pub runtime : Text
  pub role : Text
  pub architectures : List Text

pub record EventSourceMapping : Type 0 where
  pub uuid : Text
  pub event_source_arn : Text
  pub function_name : Text
  pub state : Text
  pub batch_size : ℤ

-- The errors of the registry and of the store of mappings.
pub data Fault : Type 0 where
  name_required invalid_name image_required empty_root unreadable disk : Fault
  fields_required mapping_exists empty_uuid no_such_mapping : Fault

abbrev pub Result {ℓ} : Type ℓ → Type ℓ
Result = Results.Result Fault
