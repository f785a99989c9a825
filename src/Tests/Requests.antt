-- ===== src/Tests/Requests.antt =====
-- The theorems on SQS requests, applied to small requests.
use twister_aws.Base.{
  ◌+◌, ◌*◌, Text, true, false, codes, ◌≡◌, refl, none, some, [], ◌∷◌, arith, drop,
}
use twister_aws.Sqs.{Manager, is_valid_queue_name}
use twister_aws.Sqs.Requests.{Env, Waiting}
use twister_aws.Sqs.Requests.Urls.{make_queue_url, json_queue_name_from_url}
use twister_aws.Sqs.Requests.Urls.RoundTrip.{IsUrls, json_queue_name_from_url-make_queue_url}
use twister_aws.Sqs.Requests.Forms
use twister_aws.Sqs.Requests.Forms.{Form}
use twister_aws.Sqs.Requests.Json
use twister_aws.Sqs.Requests.Handle.{Request, handle_request}
use twister_aws.Sqs.Requests.Answers.{IsClock, IsAnswered}
use twister_aws.Sqs.Requests.Answers.All.{handle_request-IsAnswered}
use twister_aws.Sqs.Requests.Agreement.{body_of}
use twister_aws.Sqs.Requests.Agreement.Act.{BothAlike, act_alike}
use twister_aws.Tests.Data.{md5, us}

-- A server whose URLs all begin with `http://h`.
abbrev base : Text
base = codes "http://h"

abbrev env : Env
env = record {
  url_path = λ url. some (drop 8 url);
  md5 = md5;
  message_id = codes "1";
  handles = λ i. b'h' ∷ i ∷ [];
  written = true;
  hook = true;
}

abbrev sqs : Manager
sqs = record { root = codes "sqs"; files = [] }

-- A clock on which every attempt takes 300 milliseconds.
abbrev waiting : Waiting
waiting = record { start = 7; after = λ i. 7 + 300 * i; found = λ i. sqs }

waiting-IsClock : IsClock waiting
waiting-IsClock = record { slept = λ i. omega arith }

env-IsUrls : IsUrls env base
env-IsUrls = record { path_read = λ s h. refl }

valid : is_valid_queue_name (codes "jobs") ≡ true
unfolding is_valid_queue_name
valid = refl

json_queue_name_from_url-make_queue_url_example :
    json_queue_name_from_url env (make_queue_url base (codes "jobs")) ≡ some (codes "jobs")
json_queue_name_from_url-make_queue_url_example =
    json_queue_name_from_url-make_queue_url env base (codes "jobs") env-IsUrls valid

abbrev form : Form
form =
    (codes "Action", codes "ReceiveMessage" ∷ [])
    ∷ (codes "QueueUrl", codes "http://h/000000000000/jobs" ∷ [])
    ∷ (codes "WaitTimeSeconds", codes "3" ∷ [])
    ∷ []

abbrev request : Request
request = record {
  tls = false;
  forwarded_proto = [];
  host = codes "h";
  content_type = codes "application/x-www-form-urlencoded";
  target = [];
  form = some form;
  body = none;
}

handle_request-IsAnswered_example : IsAnswered (handle_request env waiting request us sqs)
handle_request-IsAnswered_example =
    handle_request-IsAnswered env waiting request us sqs waiting-IsClock

act_alike_example :
    BothAlike
      (Forms.form_act env waiting form (codes "ReceiveMessage") us base sqs)
      (Json.json_act env waiting (some (body_of form)) (codes "ReceiveMessage") us base sqs)
act_alike_example = act_alike env waiting form (codes "ReceiveMessage") us base sqs
