-- ===== src/Lambda/Dispatch.antt =====
-- The calls by their names, and what a receive of SQS sets off: internal/lambda/service.go.
pub mod Reachable
use twister_aws.Base.{
  ℕ, Text, codes, Bool, true, false, not, ◌||◌, Option, none, some, List, [], ◌∷◌, ◌++◌, ◌==◌,
  is_nil, if◌then◌else◌,
}
use twister_aws.Base.Results.{ok, err}
use twister_aws.Region.{normalize_region}
use twister_aws.Sqs.{Message}
use twister_aws.Lambda.Registry.{Registry}
use twister_aws.Lambda.Mappings.{find_function_for_sqs}
use twister_aws.Lambda.Docker.{Ran}
use twister_aws.Lambda.Handlers.{
  Reply, refused, CreateFunctionReq, InvokeRequest, InvokeError, Invocation, handle_create_function,
  handle_get_function, handle_delete_function, handle_list_functions, handle_invoke,
  invoke_with_payload,
}
use twister_aws.Lambda.Events.{
  Service, CreateMappingReq, handle_create_event_source_mapping, handle_delete_event_source_mapping,
  handle_list_event_source_mappings,
}

-- What a body decodes to for each of the calls.
pub record Body : Type 0 where
  pub create_function : Option CreateFunctionReq
  pub invoke : Option InvokeRequest
  pub name : Option Text
  pub create_mapping : Option CreateMappingReq
  pub uuid : Option Text

-- What a call meets: whether files can be written, the docker program, if it is there, the texts of
-- errors, sixteen random bytes, the signed region, and the UUID of the URL's query.
pub record Surroundings : Type 0 where
  pub written : Bool
  pub docker : Option ((args : List Text) (input : Text) → Ran)
  pub message : InvokeError → Text
  pub random : Text
  pub region : Text
  pub of_url : Text

unfoldable pub with_registry : Reply × Registry → Service → Reply × Service
with_registry done s = (done.0, record s { registry = done.1 })

unfoldable pub handle_lambda : Surroundings → (op : Text) → Body → Service → Reply × Service
handle_lambda w op body s =
    if op == codes "CreateFunction"
    then with_registry (handle_create_function w.written w.region body.create_function s.registry) s
    else if op == codes "Invoke"
    then (handle_invoke w.message w.docker w.random w.region body.invoke s.registry, s)
    else if op == codes "GetFunction"
    then (handle_get_function body.name s.registry, s)
    else if op == codes "DeleteFunction"
    then with_registry (handle_delete_function w.written body.name s.registry) s
    else if op == codes "ListFunctions"
    then (handle_list_functions w.region s.registry, s)
    else if op == codes "CreateEventSourceMapping"
    then handle_create_event_source_mapping w.written w.random body.create_mapping s
    else if op == codes "DeleteEventSourceMapping"
    then handle_delete_event_source_mapping w.written body.uuid w.of_url s
    else if op == codes "ListEventSourceMappings"
    then (handle_list_event_source_mappings s, s)
    else (refused 400 (codes "InvalidParameterValueException"), s)

-- A record of the event, as it is before its JSON.
pub record EventRecord : Type 0 where
  pub message_id : Text
  pub receipt_handle : Text
  pub body : Text
  pub aws_region : Text
  pub event_source_arn : Text

unfoldable pub build_sqs_event : (region queue_name : Text) → List Message → List EventRecord
build_sqs_event region queue_name [] = []
build_sqs_event region queue_name (m ∷ ms) =
    record {
      message_id = m.message_id;
      receipt_handle = m.receipt_handle;
      body = m.body;
      aws_region = normalize_region region;
      event_source_arn =
          codes "arn:aws:sqs:"
          ++ (normalize_region region ++ (codes ":000000000000:" ++ queue_name));
    }
    ∷ build_sqs_event region queue_name ms

-- The run that a receive sets off, if there is one; `to_json` is json.Marshal.
unfoldable pub on_sqs_messages :
    (to_json : List EventRecord → Text)
    → Surroundings
    → (queue_name : Text) → List Message
    → Service
    → Option Invocation
on_sqs_messages to_json w queue_name ms s =
    if is_nil ms then none else elim (find_function_for_sqs w.region queue_name s.events) [
      | err e ↦ none
      | ok name ↦
          if name == []
          then none
          else some (
              invoke_with_payload w.docker w.random name w.region
                (to_json (build_sqs_event w.region queue_name ms)) s.registry)
    ]
