-- ===== src/Sqs/Requests/Forms.antt =====
-- The Query API: Handle and its handlers of internal/sqs/handler.go. A form is what url.ParseQuery
-- gives. The poll of receiveMessage is limited to `attempts`; it gives none if they are not enough.
use twister_aws.Base.{
  Text, Map, codes, not, ◌&&◌, Option, none, some, List, [], map, ◌==◌, get_first, has_key,
  if◌then◌else◌,
}
use twister_aws.Base.Int.{ℤ, pos}
use twister_aws.Base.Numbers.{atoi}
use twister_aws.Base.Strings.{trim_space, to_lower, has_prefix}
use twister_aws.Region.{normalize_region, is_valid_region_segment}
use twister_aws.Sqs.{
  Manager, Error, ok, err, is_valid_queue_name, create_queue, queue_has, list_queues, send_message,
  delete_message, purge_queue,
}
use twister_aws.Sqs.Requests.{
  Env, Waiting, Reply, queue_url, queue_urls, sent, empty, failed, Answer, answer, map_manager_err,
  map_queue_err,
}
use twister_aws.Sqs.Requests.Urls.{make_queue_url, parse_queue_name_from_queue_url, unescaped}
use twister_aws.Sqs.Requests.Polling.{poll, attempts, max_of, wait_of}

abbrev pub Form : Type 0
Form = Map (List Text)

abbrev pub invalid : Reply
invalid = failed 400 (codes "InvalidParameter")

-- mapManagerErr
abbrev pub form_err : Error → Reply
form_err = map_manager_err (codes "InvalidParameter") (codes "ServiceFailure")

-- The same after the test for ErrQueueNotFound.
abbrev pub form_queue_err : Error → Reply
form_queue_err =
    map_queue_err (codes "AWS.SimpleQueueService.NonExistentQueue") (codes "InvalidParameter")
      (codes "ServiceFailure")

unfoldable pub form_create_queue : Env → Form → (region base : Text) → Manager → Answer
form_create_queue env q region base m =
    let name = get_first (codes "QueueName") q in
    if name == []
    then answer invalid m
    else if not (is_valid_queue_name name)
    then answer invalid m
    else elim (create_queue env.written region name m) [
      | err e ↦ answer (form_err e) m
      | ok m' ↦ answer (queue_url (make_queue_url base name)) m'
    ]

unfoldable pub form_get_queue_url : Form → (region base : Text) → Manager → Answer
form_get_queue_url q region base m =
    let name = get_first (codes "QueueName") q in
    if name == [] then answer invalid m else elim (queue_has region name m) [
      | err e ↦ answer (form_err e) m
      | ok here ↦
          if not here
          then answer (failed 400 (codes "AWS.SimpleQueueService.NonExistentQueue")) m
          else answer (queue_url (make_queue_url base name)) m
    ]

unfoldable pub form_list_queues : Form → (region base : Text) → Manager → Answer
form_list_queues q region base m =
    elim (list_queues region (get_first (codes "QueueNamePrefix") q) m) [
      | err e ↦ answer (form_err e) m
      | ok names ↦ answer (queue_urls (map (make_queue_url base) names)) m
    ]

unfoldable pub form_send_message : Env → Form → (region : Text) → Manager → Answer
form_send_message env q region m =
    let body = get_first (codes "MessageBody") q in
    let url = get_first (codes "QueueUrl") q in
    if body == []
    then answer invalid m
    else if url == []
    then answer invalid m
    else elim (parse_queue_name_from_queue_url env url) [
      | none ↦ answer invalid m
      | some segment ↦
          let name = unescaped segment in
          if not (is_valid_queue_name name)
          then answer invalid m
          else elim (send_message env.md5 env.written env.message_id region name body m) [
            | err e ↦ answer (form_queue_err e) m
            | ok (mid, md5b, m') ↦ answer (sent mid md5b) m'
          ]
    ]

-- strconv.Atoi where it gives no error.
unfoldable pub number_at : Text → Form → Option ℤ
number_at key q = let s = get_first key q in if s == [] then none else atoi s

-- visPtr
unfoldable pub visibility_of : Form → Option ℤ
visibility_of q =
    let key = codes "VisibilityTimeout" in
    if has_key key q
    then (if get_first key q == [] then some (pos 0) else number_at key q)
    else none

unfoldable pub form_receive_message :
    Env → Waiting → Form → (region : Text) → Manager → Option Answer
form_receive_message env w q region m =
    let url = get_first (codes "QueueUrl") q in
    if url == [] then some (answer invalid m) else elim (parse_queue_name_from_queue_url env url) [
      | none ↦ some (answer invalid m)
      | some segment ↦
          let name = unescaped segment in
          if not (is_valid_queue_name name)
          then some (answer invalid m)
          else poll env w form_queue_err
              (record {
                region = region;
                name = name;
                max = max_of (number_at (codes "MaxNumberOfMessages") q);
                visibility = visibility_of q;
                wait = wait_of (number_at (codes "WaitTimeSeconds") q);
              })
              attempts 0 m
    ]

-- The two handlers that leave the check of the name to Manager.
unfoldable pub form_delete_message : Env → Form → (region : Text) → Manager → Answer
form_delete_message env q region m =
    let url = get_first (codes "QueueUrl") q in
    if url == []
    then answer invalid m
    else if get_first (codes "ReceiptHandle") q == []
    then answer invalid m
    else elim (parse_queue_name_from_queue_url env url) [
      | none ↦ answer invalid m
      | some segment ↦ elim (delete_message region (unescaped segment) m) [
        | err e ↦ answer (form_queue_err e) m
        | ok u ↦ answer empty m
      ]
    ]

unfoldable pub form_purge_queue : Env → Form → (region : Text) → Manager → Answer
form_purge_queue env q region m =
    let url = get_first (codes "QueueUrl") q in
    if url == [] then answer invalid m else elim (parse_queue_name_from_queue_url env url) [
      | none ↦ answer invalid m
      | some segment ↦ elim (purge_queue env.written region (unescaped segment) m) [
        | err e ↦ answer (form_queue_err e) m
        | ok m' ↦ answer empty m'
      ]
    ]

-- The switch on the action.
unfoldable pub form_act :
    Env → Waiting → Form → (action region base : Text) → Manager → Option Answer
form_act env w q action region base m =
    if action == codes "CreateQueue"
    then some (form_create_queue env q region base m)
    else if action == codes "GetQueueUrl"
    then some (form_get_queue_url q region base m)
    else if action == codes "ListQueues"
    then some (form_list_queues q region base m)
    else if action == codes "SendMessage"
    then some (form_send_message env q region m)
    else if action == codes "ReceiveMessage"
    then form_receive_message env w q region m
    else if action == codes "DeleteMessage"
    then some (form_delete_message env q region m)
    else if action == codes "PurgeQueue"
    then some (form_purge_queue env q region m)
    else if action == []
    then some (answer invalid m)
    else some (answer (failed 400 (codes "InvalidAction")) m)

-- Handle behind the test for the JSON protocol; the form is none where it cannot be parsed.
unfoldable pub handle_form :
    Env
    → Waiting
    → (content_type : Text) → Option Form
    → (region base : Text) → Manager
    → Option Answer
handle_form env w content_type form region base m =
    if not
      (has_prefix (to_lower (trim_space content_type)) (codes "application/x-www-form-urlencoded"))
    then some (answer (failed 400 (codes "InvalidParameterValue")) m)
    else elim form [
      | none ↦ some (answer (failed 400 (codes "MalformedQueryString")) m)
      | some q ↦
          let version = get_first (codes "Version") q in
          let r = normalize_region region in
          if not (version == []) && not (version == codes "2012-11-05")
          then some (answer invalid m)
          else if not (is_valid_region_segment r)
          then some (answer invalid m)
          else form_act env w q (trim_space (get_first (codes "Action") q)) r base m
    ]
