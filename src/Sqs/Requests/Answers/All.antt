-- ===== src/Sqs/Requests/Answers/All.antt =====
-- Handle of internal/sqs/handler.go answers every request.
use twister_aws.Base.{Text, if_lem}
use twister_aws.Sqs.{Manager}
use twister_aws.Sqs.Requests.{Env, Waiting}
use twister_aws.Sqs.Requests.Urls.{request_base_url}
use twister_aws.Sqs.Requests.Json.{is_amz_json1}
use twister_aws.Sqs.Requests.Handle.{Request, handle_request}
use twister_aws.Sqs.Requests.Answers.{IsClock, IsAnswered}
use twister_aws.Sqs.Requests.Answers.FormReplies.{handle_form-IsAnswered}
use twister_aws.Sqs.Requests.Answers.JsonReplies.{handle_amz_json-IsAnswered}

-- If the clock does not go back and a sleep of 200 milliseconds lasts at least that long, every SQS
-- request in either protocol is answered: a ReceiveMessage asks at most 102 times, whatever other
-- requests do to the queues meanwhile. No answer has more than ten messages.
pub handle_request-IsAnswered :
    (env : Env) (w : Waiting) (r : Request) (region : Text) (m : Manager)
    → IsClock w
    → IsAnswered (handle_request env w r region m)
unfolding handle_request
handle_request-IsAnswered env w r region m clock =
    let base = request_base_url r.tls r.forwarded_proto r.host in
    if_lem IsAnswered (is_amz_json1 r.content_type)
      (λ t. handle_amz_json-IsAnswered env w r.target r.body region base m clock)
      (λ f. handle_form-IsAnswered env w r.content_type r.form region base m clock)
