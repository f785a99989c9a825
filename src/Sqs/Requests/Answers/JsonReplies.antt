-- ===== src/Sqs/Requests/Answers/JsonReplies.antt =====
-- Every JSON request is answered, with ten messages at most: internal/sqs/json.go.
use twister_aws.Base.{
  Text, codes, refl, not, Option, none, some, [], ◌==◌, if_lem, option_lem, arith,
}
use twister_aws.Region.{normalize_region, is_valid_region_segment}
use twister_aws.Sqs.{
  Manager, Error, result_lem, is_valid_queue_name, create_queue, queue_has, list_queues,
  send_message, delete_message, purge_queue,
}
use twister_aws.Sqs.Requests.{Env, Waiting, Answer, answer}
use twister_aws.Sqs.Requests.Polling.{attempts}
use twister_aws.Sqs.Requests.Answers.{
  IsClock, IsAnswered, answered, IsFew, plain, map_manager_err_few, map_queue_err_few,
  wait_of_short, poll-IsAnswered,
}
use twister_aws.Sqs.Requests.Urls.{json_queue_name_from_url}
use twister_aws.Sqs.Requests.Json
use twister_aws.Sqs.Requests.Json.{
  Body, parse_amz_target_op, json_err, json_queue_err, json_create_queue, json_get_queue_url,
  json_list_queues, json_send_message, json_receive_message, json_delete_message, json_purge_queue,
  with_body, handle_amz_json,
}

json_fault : (m : Manager) (e : Error) → IsFew (answer (json_err e) m)
json_fault m e = record { few = map_manager_err_few _ _ e }

json_queue_fault : (m : Manager) (e : Error) → IsFew (answer (json_queue_err e) m)
json_queue_fault m e = record { few = map_queue_err_few _ _ _ e }

json_create_queue-IsFew :
    (env : Env) (body : Body) (region base : Text) (m : Manager)
    → IsFew (json_create_queue env body region base m)
unfolding json_create_queue
json_create_queue-IsFew env body region base m =
    if_lem IsFew (body.queue_name == []) (λ t. plain _ refl)
      λ f.
        if_lem IsFew (not (is_valid_queue_name body.queue_name)) (λ t. plain _ refl)
          λ f.
            result_lem IsFew (create_queue env.written region body.queue_name m)
              (λ a e. plain _ refl) (λ e h. json_fault m e)

json_get_queue_url-IsFew :
    (body : Body) (region base : Text) (m : Manager) → IsFew (json_get_queue_url body region base m)
unfolding json_get_queue_url
json_get_queue_url-IsFew body region base m =
    if_lem IsFew (body.queue_name == []) (λ t. plain _ refl)
      λ f.
        result_lem IsFew (queue_has region body.queue_name m)
          (λ here e. if_lem IsFew (not here) (λ t. plain _ refl) (λ f. plain _ refl))
          (λ e h. json_fault m e)

json_list_queues-IsFew :
    (body : Option Body) (region base : Text) (m : Manager)
    → IsFew (json_list_queues body region base m)
unfolding json_list_queues
json_list_queues-IsFew body region base m =
    result_lem IsFew (list_queues region (elim body [ none ↦ [] | some b ↦ b.queue_name_prefix ]) m)
      (λ a e. plain _ refl) (λ e h. json_fault m e)

json_send_message-IsFew :
    (env : Env) (body : Body) (region : Text) (m : Manager)
    → IsFew (json_send_message env body region m)
unfolding json_send_message
json_send_message-IsFew env body region m =
    if_lem IsFew (body.message_body == []) (λ t. plain _ refl)
      λ f.
        if_lem IsFew (body.queue_url == []) (λ t. plain _ refl)
          λ f.
            option_lem IsFew (json_queue_name_from_url env body.queue_url) (λ e. plain _ refl)
              λ name e.
                result_lem IsFew
                  (send_message env.md5 env.written env.message_id region name body.message_body m)
                  (λ a e. plain _ refl) (λ e h. json_queue_fault m e)

json_delete_message-IsFew :
    (env : Env) (body : Body) (region : Text) (m : Manager)
    → IsFew (json_delete_message env body region m)
unfolding json_delete_message
json_delete_message-IsFew env body region m =
    if_lem IsFew (body.queue_url == []) (λ t. plain _ refl)
      λ f.
        if_lem IsFew (body.receipt_handle == []) (λ t. plain _ refl)
          λ f.
            option_lem IsFew (json_queue_name_from_url env body.queue_url) (λ e. plain _ refl)
              λ name e.
                result_lem IsFew (delete_message region name m) (λ a e. plain _ refl)
                  (λ e h. json_queue_fault m e)

json_purge_queue-IsFew :
    (env : Env) (body : Body) (region : Text) (m : Manager)
    → IsFew (json_purge_queue env body region m)
unfolding json_purge_queue
json_purge_queue-IsFew env body region m =
    if_lem IsFew (body.queue_url == []) (λ t. plain _ refl)
      λ f.
        option_lem IsFew (json_queue_name_from_url env body.queue_url) (λ e. plain _ refl)
          λ name e.
            result_lem IsFew (purge_queue env.written region name m) (λ a e. plain _ refl)
              (λ e h. json_queue_fault m e)

json_receive_message-IsAnswered :
    (env : Env) (w : Waiting) (body : Body) (region : Text) (m : Manager)
    → IsClock w
    → IsAnswered (json_receive_message env w body region m)
unfolding json_receive_message
json_receive_message-IsAnswered env w body region m clock =
    if_lem IsAnswered (body.queue_url == []) (λ t. answered _ (omega arith))
      λ f.
        option_lem IsAnswered (json_queue_name_from_url env body.queue_url)
          (λ e. answered _ (omega arith))
          λ name e.
            poll-IsAnswered env w json_queue_err _ attempts 0 m (map_queue_err_few _ _ _) clock
              (wait_of_short body.wait_time_seconds) (omega arith) (omega arith)

with_body-IsAnswered :
    (body : Option Body) (m : Manager) (f : Body → Answer)
    → ((b : Body) → IsFew (f b))
    → IsAnswered (some (with_body body m f))
unfolding with_body
with_body-IsAnswered none m f h = answered _ (omega arith)
with_body-IsAnswered (some b) m f h = answered _ (h b).few

act-IsAnswered :
    (env : Env) (w : Waiting) (body : Option Body) (op region base : Text) (m : Manager)
    → IsClock w
    → IsAnswered (Json.json_act env w body op region base m)
unfolding Json.json_act
act-IsAnswered env w body op region base m clock =
    if_lem IsAnswered (op == codes "CreateQueue")
      (λ t. with_body-IsAnswered body m _ (λ b. json_create_queue-IsFew env b region base m))
      λ f1.
        if_lem IsAnswered (op == codes "GetQueueUrl")
          (λ t. with_body-IsAnswered body m _ (λ b. json_get_queue_url-IsFew b region base m))
          λ f2.
            if_lem IsAnswered (op == codes "ListQueues")
              (λ t. answered _ (json_list_queues-IsFew body region base m).few)
              λ f3.
                if_lem IsAnswered (op == codes "SendMessage")
                  (λ t. with_body-IsAnswered body m _ (λ b. json_send_message-IsFew env b region m))
                  λ f4.
                    if_lem IsAnswered (op == codes "ReceiveMessage")
                      (λ t.
                        option_lem IsAnswered body (λ e. answered _ (omega arith))
                          (λ b e. json_receive_message-IsAnswered env w b region m clock))
                      λ f5.
                        if_lem IsAnswered (op == codes "DeleteMessage")
                          (λ t.
                            with_body-IsAnswered body m _
                              (λ b. json_delete_message-IsFew env b region m))
                          λ f6.
                            if_lem IsAnswered (op == codes "PurgeQueue")
                              (λ t.
                                with_body-IsAnswered body m _
                                  (λ b. json_purge_queue-IsFew env b region m))
                              λ f7. answered _ (omega arith)

pub handle_amz_json-IsAnswered :
    (env : Env) (w : Waiting) (target : Text) (body : Option Body) (region base : Text)
    (m : Manager)
    → IsClock w
    → IsAnswered (handle_amz_json env w target body region base m)
unfolding handle_amz_json
handle_amz_json-IsAnswered env w target body region base m clock =
    if_lem IsAnswered (parse_amz_target_op target == []) (λ t. answered _ (omega arith))
      λ f.
        if_lem IsAnswered (not (is_valid_region_segment (normalize_region region)))
          (λ t. answered _ (omega arith)) λ g. act-IsAnswered env w body _ _ base m clock
