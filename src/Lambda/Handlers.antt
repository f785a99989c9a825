-- ===== src/Lambda/Handlers.antt =====
-- The calls on functions: internal/lambda/service.go, up to the event source mappings. A body is what it
-- decodes to; `message` is the text of an error, `request_id` the random bytes of makeRequestID.
use twister_aws.Base.{
  ℕ, Text, Map, codes, Bool, false, ◌||◌, Option, none, some, List, [], ◌∷◌, ◌++◌, ◌==◌, eqb,
  if◌then◌else◌,
}
use twister_aws.Base.Int.{ℤ, pos, negsuc}
use twister_aws.Base.Results.{ok, err}
use twister_aws.Base.Strings.{trim_space, has_prefix, hex_encode}
use twister_aws.Region.{normalize_region}
use twister_aws.Lambda.{FunctionConfig, EventSourceMapping, Fault}
use twister_aws.Lambda.Registry.{Registry, put, get, delete, list_functions}
use twister_aws.Lambda.Docker.{Ran, RunError, InvokeResult, decimal_of_int, run}

pub record CreateFunctionReq : Type 0 where
  pub function_name : Option Text
  pub image_uri : Option (Option Text)
  pub package_type : Option Text
  pub handler : Option Text
  pub role : Option Text
  pub timeout : Option ℤ
  pub memory_size : Option ℤ
  pub architectures : List Text

pub record FunctionSummary : Type 0 where
  pub function_name : Text
  pub function_arn : Text
  pub package_type : Text
  pub memory_size : ℤ
  pub timeout : ℤ
  pub architectures : List Text

pub record InvokeRequest : Type 0 where
  pub function_name : Option Text
  pub payload : Option Text

-- The answers, with the status of those that are refused and the type of their error.
pub data Reply : Type 0 where
  refused : (status : ℕ) (type : Text) → Reply
  created : (arn : Text) (role handler : Option Text) → FunctionConfig → Reply
  found : FunctionConfig → Reply
  no_content : Reply
  functions : List FunctionSummary → Reply
  -- the function's error is empty if there is none; the payload before its base64
  invoked : (function_error payload : Text) → Reply
  mapping : EventSourceMapping → Reply
  mappings : List EventSourceMapping → Reply

unfoldable pub deref_string : Option Text → Text
deref_string none = []
deref_string (some s) = s

unfoldable pub deref_int : Option ℤ → ℤ → ℤ
deref_int none standard = standard
deref_int (some i) standard = i

unfoldable pub function_arn_for : (region name : Text) → Text
function_arn_for region name =
    codes "arn:aws:lambda:"
    ++ (normalize_region region ++ (codes ":000000000000:function:" ++ name))

-- The image of the request, if it is there and not blank.
unfoldable pub image_of : CreateFunctionReq → Text
image_of req = elim req.image_uri [ none ↦ [] | some code ↦ trim_space (deref_string code) ]

unfoldable pub config_of : (region : Text) → CreateFunctionReq → FunctionConfig
config_of region req = record {
  function_name = deref_string req.function_name;
  region = normalize_region region;
  image_uri = image_of req;
  handler = deref_string req.handler;
  timeout = deref_int req.timeout (pos 30);
  memory_size = deref_int req.memory_size (pos 128);
  package_type =
      if deref_string req.package_type == [] then codes "Image" else deref_string req.package_type;
  runtime = [];
  role = deref_string req.role;
  architectures = req.architectures;
}

unfoldable pub handle_create_function :
    Bool → (region : Text) → Option CreateFunctionReq → Registry → Reply × Registry
handle_create_function written region none r =
    (refused 400 (codes "InvalidParameterValueException"), r)
handle_create_function written region (some req) r =
    if (deref_string req.function_name == []) || (image_of req == [])
    then (refused 400 (codes "InvalidParameterValueException"), r)
    else elim (put written (config_of region req) r) [
      | err e ↦ (refused 500 (codes "ServiceException"), r)
      | ok (c, after) ↦
          (created (function_arn_for region c.function_name) req.role req.handler c, after)
    ]

unfoldable pub handle_get_function : (name : Option Text) → Registry → Reply
handle_get_function name r =
    if deref_string name == []
    then refused 400 (codes "InvalidParameterValueException")
    else elim (get (deref_string name) r) [
      | err e ↦ refused 500 (codes "ServiceException")
      | ok none ↦ refused 404 (codes "ResourceNotFoundException")
      | ok (some c) ↦ found c
    ]

unfoldable pub handle_delete_function : Bool → (name : Option Text) → Registry → Reply × Registry
handle_delete_function removed name r =
    if deref_string name == []
    then (refused 400 (codes "InvalidParameterValueException"), r)
    else elim (delete removed (deref_string name) r) [
      | err e ↦ (refused 500 (codes "ServiceException"), r)
      | ok after ↦ (no_content, after)
    ]

unfoldable pub summary_of : (region : Text) → FunctionConfig → FunctionSummary
summary_of region c = record {
  function_name = c.function_name;
  function_arn = function_arn_for (if c.region == [] then region else c.region) c.function_name;
  package_type = c.package_type;
  memory_size = c.memory_size;
  timeout = c.timeout;
  architectures = c.architectures;
}

-- The loop of handleListFunctions.
unfoldable pub summaries : (region : Text) → List Text → Registry → List FunctionSummary
summaries region [] r = []
summaries region (name ∷ names) r =
    let rest = summaries region names r in
    elim (get name r) [ err e ↦ rest | ok none ↦ rest | ok (some c) ↦ summary_of region c ∷ rest ]

unfoldable pub handle_list_functions : (region : Text) → Registry → Reply
handle_list_functions region r = elim (list_functions r) [
  | err e ↦ refused 500 (codes "ServiceException")
  | ok names ↦ functions (summaries region names r)
]

pub data InvokeError : Type 0 where
  registry_error : Fault → InvokeError
  function_not_found : Text → InvokeError
  no_docker : InvokeError
  run_error : RunError → InvokeError
  unhandled : (exit : ℤ) (stderr : Text) → InvokeError

pub record Invocation : Type 0 where
  pub stdout : Text
  pub status : ℕ
  pub failure : Option InvokeError

unfoldable pub env_of : (region request_id : Text) → FunctionConfig → Map Text
env_of region request_id c =
    (codes "AWS_LAMBDA_FUNCTION_NAME", c.function_name)
    ∷ (codes "AWS_LAMBDA_FUNCTION_MEMORY_SIZE", decimal_of_int c.memory_size)
    ∷ (codes "AWS_DEFAULT_REGION", normalize_region region)
    ∷ (codes "AWS_REGION", normalize_region region)
    ∷ (codes "LAMBDA_TASK_ROOT", codes "/var/task")
    ∷ ((if c.handler == [] then [] else (codes "_HANDLER", c.handler) ∷ [])
        ++ (codes "AWS_REQUEST_ID", hex_encode request_id) ∷ [])

unfoldable pub is_zero : ℤ → Bool
is_zero (pos n) = eqb n 0
is_zero (negsuc n) = false

unfoldable pub is_minus_one : ℤ → Bool
is_minus_one (pos n) = false
is_minus_one (negsuc n) = eqb n 0

-- What InvokeWithPayload makes of a run that was not lost.
unfoldable pub of_exit : InvokeResult → Invocation
of_exit res = record {
  stdout = res.stdout;
  status = 200;
  failure = if is_zero res.exit_code then none else some (unhandled res.exit_code res.stderr);
}

-- What InvokeWithPayload makes of a run.
unfoldable pub invocation_of : InvokeResult → Invocation
invocation_of res = elim res.failure [
  | none ↦ of_exit res
  | some e ↦
      if is_minus_one res.exit_code
      then record { stdout = res.stdout; status = 502; failure = some (run_error e) }
      else of_exit res
]

-- `docker` is what the program does, none if it is not in the path.
unfoldable pub invoke_with_payload :
    Option ((args : List Text) (input : Text) → Ran)
    → (request_id function_name region payload : Text) → Registry
    → Invocation
invoke_with_payload docker request_id function_name region payload r = elim (get function_name r) [
  | err e ↦ record { stdout = []; status = 0; failure = some (registry_error e) }
  | ok none ↦ record { stdout = []; status = 0; failure = some (function_not_found function_name) }
  | ok (some c) ↦ elim docker [
    | none ↦ record { stdout = []; status = 0; failure = some no_docker }
    | some program ↦
        invocation_of
          (run program c.image_uri payload (env_of region request_id c) c.memory_size c.timeout)
  ]
]

-- strings.Contains
unfoldable pub contains : Text → Text → Bool
contains [] part = part == []
contains (c ∷ s) part = has_prefix (c ∷ s) part || contains s part

-- The answer to an invocation whose error has a text.
unfoldable pub invoke_reply : (message : InvokeError → Text) → Invocation → Reply
invoke_reply message inv = elim inv.failure [
  | none ↦ invoked [] inv.stdout
  | some e ↦
      if contains (message e) (codes "function not found")
      then refused 404 (codes "ResourceNotFoundException")
      else if eqb inv.status 502
      then refused 502 (codes "ServiceException")
      else invoked (codes "Unhandled") inv.stdout
]

unfoldable pub handle_invoke :
    (message : InvokeError → Text)
    → Option ((args : List Text) (input : Text) → Ran)
    → (request_id region : Text) → Option InvokeRequest
    → Registry
    → Reply
handle_invoke message docker request_id region none r =
    refused 400 (codes "InvalidRequestContentException")
handle_invoke message docker request_id region (some req) r =
    if deref_string req.function_name == []
    then refused 400 (codes "InvalidParameterValueException")
    else elim docker [
      | none ↦ refused 500 (codes "ServiceException")
      | some program ↦ invoke_reply message (
          invoke_with_payload (some program) request_id (deref_string req.function_name) region
            (if deref_string req.payload == [] then codes "{}" else deref_string req.payload) r)
    ]
