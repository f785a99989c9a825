-- ===== src/Sqs/Requests/Json.antt =====
-- The JSON protocol: handleAmzJSON and its handlers of internal/sqs/json.go. A body is what
-- json.Unmarshal reads into the struct of the operation, or none where it fails; a text that is not
-- sent is empty.
use twister_aws.Base.{
  Text, codes, Bool, not, Option, none, some, [], ◌++◌, map, ◌==◌, if◌then◌else◌,
}
use twister_aws.Base.Int.{ℤ}
use twister_aws.Base.Strings.{trim_space, cut_byte, cut_last, has_prefix, to_lower}
use twister_aws.Region.{normalize_region, is_valid_region_segment}
use twister_aws.Sqs.{
  Manager, Error, ok, err, is_valid_queue_name, create_queue, queue_has, list_queues, send_message,
  delete_message, purge_queue,
}
use twister_aws.Sqs.Requests.{
  Env, Waiting, Reply, queue_url, queue_urls, sent, empty, failed, Answer, answer, map_manager_err,
  map_queue_err,
}
use twister_aws.Sqs.Requests.Urls.{make_queue_url, json_queue_name_from_url}
use twister_aws.Sqs.Requests.Polling.{poll, attempts, max_of, wait_of}

-- The fields of jCreateQueue, jGetQueueUrl, jListQueues, jSendMessage, jReceiveMessage,
-- jDeleteMessage and jPurgeQueue.
pub record Body : Type 0 where
  pub queue_name : Text
  pub queue_name_prefix : Text
  pub queue_url : Text
  pub message_body : Text
  pub receipt_handle : Text
  pub max_number_of_messages : Option ℤ
  pub wait_time_seconds : Option ℤ
  pub visibility_timeout : Option ℤ

-- What follows a `#`, or else the last dot.
unfoldable pub parse_amz_target_op : Text → Text
parse_amz_target_op target =
    let s = trim_space target in
    if s == [] then [] else elim (cut_byte b'#' s) [
      | some p ↦ p.1
      | none ↦ elim (cut_last b'.' s) [ some p ↦ p.1 | none ↦ [] ]
    ]

abbrev pub fails : Text → Reply
fails name = failed 400 (codes "com.amazonaws.sqs#" ++ name)

abbrev pub malformed : Reply
malformed = fails (codes "MalformedInput")

abbrev pub missing_parameter : Reply
missing_parameter = fails (codes "MissingParameter")

abbrev pub invalid_parameter : Reply
invalid_parameter = fails (codes "InvalidParameter")

-- mapManagerErrJSON
abbrev pub json_err : Error → Reply
json_err =
    map_manager_err (codes "com.amazonaws.sqs#InvalidParameter")
      (codes "com.amazonaws.sqs#ServiceFailure")

-- The same after the test for ErrQueueNotFound.
abbrev pub json_queue_err : Error → Reply
json_queue_err =
    map_queue_err (codes "com.amazonaws.sqs#QueueDoesNotExist")
      (codes "com.amazonaws.sqs#InvalidParameter") (codes "com.amazonaws.sqs#ServiceFailure")

unfoldable pub json_create_queue : Env → Body → (region base : Text) → Manager → Answer
json_create_queue env body region base m =
    if body.queue_name == []
    then answer missing_parameter m
    else if not (is_valid_queue_name body.queue_name)
    then answer invalid_parameter m
    else elim (create_queue env.written region body.queue_name m) [
      | err e ↦ answer (json_err e) m
      | ok m' ↦ answer (queue_url (make_queue_url base body.queue_name)) m'
    ]

unfoldable pub json_get_queue_url : Body → (region base : Text) → Manager → Answer
json_get_queue_url body region base m =
    if body.queue_name == []
    then answer missing_parameter m
    else elim (queue_has region body.queue_name m) [
      | err e ↦ answer (json_err e) m
      | ok here ↦
          if not here
          then answer (fails (codes "QueueDoesNotExist")) m
          else answer (queue_url (make_queue_url base body.queue_name)) m
    ]

-- A body that cannot be read counts as one without a prefix.
unfoldable pub json_list_queues : Option Body → (region base : Text) → Manager → Answer
json_list_queues body region base m =
    let prefix : Text = elim body [ none ↦ [] | some b ↦ b.queue_name_prefix ] in
    elim (list_queues region prefix m) [
      | err e ↦ answer (json_err e) m
      | ok names ↦ answer (queue_urls (map (make_queue_url base) names)) m
    ]

unfoldable pub json_send_message : Env → Body → (region : Text) → Manager → Answer
json_send_message env body region m =
    if body.message_body == []
    then answer missing_parameter m
    else if body.queue_url == []
    then answer missing_parameter m
    else elim (json_queue_name_from_url env body.queue_url) [
      | none ↦ answer invalid_parameter m
      | some name ↦
          elim (send_message env.md5 env.written env.message_id region name body.message_body m) [
            | err e ↦ answer (json_queue_err e) m
            | ok (mid, md5b, m') ↦ answer (sent mid md5b) m'
          ]
    ]

unfoldable pub json_receive_message :
    Env → Waiting → Body → (region : Text) → Manager → Option Answer
json_receive_message env w body region m =
    if body.queue_url == []
    then some (answer missing_parameter m)
    else elim (json_queue_name_from_url env body.queue_url) [
      | none ↦ some (answer invalid_parameter m)
      | some name ↦
          poll env w json_queue_err
            (record {
              region = region;
              name = name;
              max = max_of body.max_number_of_messages;
              visibility = body.visibility_timeout;
              wait = wait_of body.wait_time_seconds;
            })
            attempts 0 m
    ]

unfoldable pub json_delete_message : Env → Body → (region : Text) → Manager → Answer
json_delete_message env body region m =
    if body.queue_url == []
    then answer missing_parameter m
    else if body.receipt_handle == []
    then answer missing_parameter m
    else elim (json_queue_name_from_url env body.queue_url) [
      | none ↦ answer invalid_parameter m
      | some name ↦ elim (delete_message region name m) [
        | err e ↦ answer (json_queue_err e) m
        | ok u ↦ answer empty m
      ]
    ]

unfoldable pub json_purge_queue : Env → Body → (region : Text) → Manager → Answer
json_purge_queue env body region m =
    if body.queue_url == []
    then answer missing_parameter m
    else elim (json_queue_name_from_url env body.queue_url) [
      | none ↦ answer invalid_parameter m
      | some name ↦ elim (purge_queue env.written region name m) [
        | err e ↦ answer (json_queue_err e) m
        | ok m' ↦ answer empty m'
      ]
    ]

-- A body that has to be readable.
unfoldable pub with_body : Option Body → Manager → (Body → Answer) → Answer
with_body none m f = answer malformed m
with_body (some body) m f = f body

-- The switch on the operation.
unfoldable pub json_act :
    Env → Waiting → Option Body → (op region base : Text) → Manager → Option Answer
json_act env w body op region base m =
    if op == codes "CreateQueue"
    then some (with_body body m λ b. json_create_queue env b region base m)
    else if op == codes "GetQueueUrl"
    then some (with_body body m λ b. json_get_queue_url b region base m)
    else if op == codes "ListQueues"
    then some (json_list_queues body region base m)
    else if op == codes "SendMessage"
    then some (with_body body m λ b. json_send_message env b region m)
    else if op == codes "ReceiveMessage"
    then elim body [
      | none ↦ some (answer malformed m)
      | some b ↦ json_receive_message env w b region m
    ]
    else if op == codes "DeleteMessage"
    then some (with_body body m λ b. json_delete_message env b region m)
    else if op == codes "PurgeQueue"
    then some (with_body body m λ b. json_purge_queue env b region m)
    else some (answer (fails (codes "InvalidAction")) m)

unfoldable pub handle_amz_json :
    Env → Waiting → (target : Text) → Option Body → (region base : Text) → Manager → Option Answer
handle_amz_json env w target body region base m =
    let op = parse_amz_target_op target in
    let r = normalize_region region in
    if op == []
    then some (answer (fails (codes "MissingAction")) m)
    else if not (is_valid_region_segment r)
    then some (answer invalid_parameter m)
    else json_act env w body op r base m

unfoldable pub is_amz_json1 : Text → Bool
is_amz_json1 content_type =
    has_prefix (to_lower (trim_space content_type)) (codes "application/x-amz-json-1.0")
