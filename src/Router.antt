-- ===== src/Router.antt =====
-- The entry of the JSON 1.1 and the query services: internal/awsserver/router.go. `route` is ServeHTTP up
-- to the call of the service that it chooses. A request is what Sigv4 reads of it; its body is none where
-- io.ReadAll fails.
pub mod Access
pub mod Primary
pub mod Refresh
pub mod Build
use twister_aws.Base.{
  ℕ, ◌^◌, Text, Map, codes, Bool, true, false, not, ◌&&◌, ◌||◌, Option, none, some, List, [], ◌∷◌,
  ◌==◌, get_first, length, ltb, if◌then◌else◌,
}
use twister_aws.Base.Results.{ok, err}
use twister_aws.Base.Sort.{elem}
use twister_aws.Base.Strings.{trim_space, to_lower, has_prefix, cut_byte}
use twister_aws.Sigv4.{Request, Crypto, Refusal}
use twister_aws.Credentials.{Provider, is_empty, verify_request}
use twister_aws.Iam.{is_bootstrap_create_access_key}

-- Router, with whether its query services are set and the names of its JSON services.
pub record Router : Type 0 where
  pub provider : Provider
  pub iam : Bool
  pub sqs : Bool
  pub ec2 : Bool
  pub services : List Text

pub data Route : Type 0 where
  -- an answer of the router itself
  stopped : (status : ℕ) → Route
  forbidden : Refusal → Route
  -- the call of a service
  to_iam to_sqs to_ec2 : (region : Text) → Route
  to_service : (name operation region : Text) → Route

unfoldable pub canonical_json_service_name : Text → Text
canonical_json_service_name s =
    let t = to_lower (trim_space s) in
    if (t == codes "amazonssm") || (t == codes "ssm")
    then codes "ssm"
    else if t == codes "secretsmanager"
    then codes "secretsmanager"
    else if t == codes "lambda_20150331"
    then codes "lambda"
    else t

-- From the name of the target's service and the operation on.
unfoldable pub route_target :
    Router → (region signing_service service_name operation : Text) → Route
route_target rt region signing_service service_name operation =
    let canon_sign = canonical_json_service_name signing_service in
    let canon_target = canonical_json_service_name service_name in
    if not (canon_sign == canon_target)
    then stopped 400
    else if not (canon_sign == codes "secretsmanager")
        && not (canon_sign == codes "ssm")
        && not (canon_sign == codes "lambda")
    then stopped 400
    else if not (elem canon_target rt.services)
    then stopped 400
    else to_service canon_target operation region

-- From the content type of the JSON services on.
unfoldable pub route_json : Router → Request → (region signing_service : Text) → Route
route_json rt r region signing_service =
    let target = get_first (codes "X-Amz-Target") r.header in
    if not
      (has_prefix (get_first (codes "Content-Type") r.header) (codes "application/x-amz-json-1.1"))
    then stopped 400
    else if trim_space target == []
    then stopped 400
    else elim (cut_byte b'.' target) [
      | none ↦ stopped 400
      | some p ↦
          if (p.0 == []) || (p.1 == [])
          then stopped 400
          else route_target rt region signing_service p.0 p.1
    ]

-- From the signed service on.
unfoldable pub route_signed : Router → Request → (region signing_service : Text) → Route
route_signed rt r region signing_service =
    if signing_service == codes "iam"
    then (if rt.iam then to_iam region else stopped 503)
    else if signing_service == codes "sqs"
    then (if rt.sqs then to_sqs region else stopped 503)
    else if signing_service == codes "ec2"
    then (if rt.ec2 then to_ec2 region else stopped 503)
    else route_json rt r region signing_service

abbrev pub max_body_bytes : ℕ
max_body_bytes = 2 ^ 20

-- Whether the first key is asked for while there is none; `form` is the body as a form.
unfoldable pub is_bootstrap : Router → Request → Option (Map (List Text)) → Bool
is_bootstrap rt r form =
    is_empty rt.provider
    && (rt.iam && is_bootstrap_create_access_key (get_first (codes "Content-Type") r.header) form)

unfoldable pub route :
    Crypto → Router → Request → Option Text → Option (Map (List Text)) → ℕ → Route
route crypto rt r body form now =
    if not (r.method == codes "POST") then stopped 405 else elim body [
      | none ↦ stopped 400
      | some b ↦
          if ltb max_body_bytes (length b)
          then stopped 400
          else if is_bootstrap rt r form
          then to_iam (codes "us-east-1")
          else elim (verify_request crypto r b now rt.provider) [
            | err e ↦ forbidden e
            | ok (region, signing_service) ↦ route_signed rt r region signing_service
          ]
    ]
