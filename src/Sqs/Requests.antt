-- ===== src/Sqs/Requests.antt =====
-- Requests to SQS: internal/sqs/handler.go (forms, answered in XML) and json.go, on top of Manager. A
-- reply is its status and its fields or error code; the encodings as XML and JSON are left out.
pub mod Urls
pub mod Polling
pub mod Forms
pub mod Json
pub mod Handle
pub mod Agreement
pub mod Answers
use twister_aws.Base.{ℕ, Text, Bool, Option, none, some, List}
use twister_aws.Sqs.{Message, Manager, Error, invalid_region, invalid_queue_name, queue_not_found}

-- What a request depends on besides itself: url.Parse, as the path of a URL that can be parsed; the
-- digest; the random message id and receipt handles; whether a file can be written and whether
-- DequeueHook is set.
pub record Env : Type 0 where
  pub url_path : Text → Option Text
  pub md5 : Text → Text
  pub message_id : Text
  pub handles : ℕ → Text
  pub written : Bool
  pub hook : Bool

-- The clock and the other requests while a request polls: the time before the first attempt, the time
-- after each attempt, and the manager that each further attempt finds. Times are in milliseconds.
pub record Waiting : Type 0 where
  pub start : ℕ
  pub after : ℕ → ℕ
  pub found : ℕ → Manager

pub data Reply : Type 0 where
  queue_url : Text → Reply
  queue_urls : List Text → Reply
  sent : (message_id md5_of_body : Text) → Reply
  received : List Message → Reply
  empty : Reply
  failed : (status : ℕ) (code : Text) → Reply

-- The reply, the manager after the request, and the messages that DequeueHook was called with.
pub record Answer : Type 0 where
  pub reply : Reply
  pub manager : Manager
  pub hooked : Option (List Message)

-- An answer that leaves the queues as they are.
abbrev pub answer : Reply → Manager → Answer
answer reply m = record { reply = reply; manager = m; hooked = none }

-- mapManagerErr and mapManagerErrJSON, for the code of a wrong parameter and that of a failure.
unfoldable pub map_manager_err : (parameter failure : Text) → Error → Reply
map_manager_err parameter failure invalid_region = failed 400 parameter
map_manager_err parameter failure invalid_queue_name = failed 400 parameter
map_manager_err parameter failure _ = failed 500 failure

-- The same with a code for a queue that is not there.
unfoldable pub map_queue_err : (missing parameter failure : Text) → Error → Reply
map_queue_err missing parameter failure queue_not_found = failed 400 missing
map_queue_err missing parameter failure e = map_manager_err parameter failure e
