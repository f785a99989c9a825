-- ===== src/Sqs/Requests/Handle.antt =====
-- Handle of internal/sqs/handler.go: the choice between the two protocols.
use twister_aws.Base.{Text, Bool, Option, if◌then◌else◌}
use twister_aws.Sqs.{Manager}
use twister_aws.Sqs.Requests.{Env, Waiting, Answer}
use twister_aws.Sqs.Requests.Urls.{request_base_url}
use twister_aws.Sqs.Requests.Forms.{Form, handle_form}
use twister_aws.Sqs.Requests.Json.{Body, is_amz_json1, handle_amz_json}

-- A request whose body was read both ways: as a form, and as the JSON of its operation.
pub record Request : Type 0 where
  pub tls : Bool
  pub forwarded_proto : Text
  pub host : Text
  pub content_type : Text
  pub target : Text
  pub form : Option Form
  pub body : Option Body

unfoldable pub handle_request : Env → Waiting → Request → (region : Text) → Manager → Option Answer
handle_request env w r region m =
    let base = request_base_url r.tls r.forwarded_proto r.host in
    if is_amz_json1 r.content_type
    then handle_amz_json env w r.target r.body region base m
    else handle_form env w r.content_type r.form region base m
