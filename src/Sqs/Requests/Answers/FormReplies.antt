-- ===== src/Sqs/Requests/Answers/FormReplies.antt =====
-- Every form is answered, with ten messages at most: internal/sqs/handler.go.
use twister_aws.Base.{
  Text, codes, refl, not, Option, some, [], ◌==◌, get_first, if_lem, option_lem, arith,
}
use twister_aws.Base.{◌&&◌}
use twister_aws.Base.Strings.{has_prefix, to_lower, trim_space}
use twister_aws.Region.{normalize_region, is_valid_region_segment}
use twister_aws.Sqs.{
  Manager, Error, result_lem, is_valid_queue_name, create_queue, queue_has, list_queues,
  send_message, delete_message, purge_queue,
}
use twister_aws.Sqs.Requests.{Env, Waiting, Answer, answer}
use twister_aws.Sqs.Requests.Polling.{attempts}
use twister_aws.Sqs.Requests.Answers.{
  IsClock, IsAnswered, answered, IsFew, plain, map_manager_err_few, map_queue_err_few,
  wait_of_short, poll-IsAnswered,
}
use twister_aws.Sqs.Requests.Urls.{parse_queue_name_from_queue_url, unescaped}
use twister_aws.Sqs.Requests.Forms
use twister_aws.Sqs.Requests.Forms.{
  Form, form_err, form_queue_err, form_create_queue, form_get_queue_url, form_list_queues,
  form_send_message, form_receive_message, form_delete_message, form_purge_queue, number_at,
  handle_form,
}

form_fault : (m : Manager) (e : Error) → IsFew (answer (form_err e) m)
form_fault m e = record { few = map_manager_err_few _ _ e }

form_queue_fault : (m : Manager) (e : Error) → IsFew (answer (form_queue_err e) m)
form_queue_fault m e = record { few = map_queue_err_few _ _ _ e }

few_given : (a : Answer) → IsFew a → IsAnswered (some a)
few_given a h = answered a h.few

form_create_queue-IsFew :
    (env : Env) (q : Form) (region base : Text) (m : Manager)
    → IsFew (form_create_queue env q region base m)
unfolding form_create_queue
form_create_queue-IsFew env q region base m =
    if_lem IsFew (get_first (codes "QueueName") q == []) (λ t. plain _ refl)
      λ f.
        if_lem IsFew (not (is_valid_queue_name (get_first (codes "QueueName") q)))
          (λ t. plain _ refl)
          λ f.
            result_lem IsFew (create_queue env.written region (get_first (codes "QueueName") q) m)
              (λ a e. plain _ refl) (λ e h. form_fault m e)

form_get_queue_url-IsFew :
    (q : Form) (region base : Text) (m : Manager) → IsFew (form_get_queue_url q region base m)
unfolding form_get_queue_url
form_get_queue_url-IsFew q region base m =
    if_lem IsFew (get_first (codes "QueueName") q == []) (λ t. plain _ refl)
      λ f.
        result_lem IsFew (queue_has region (get_first (codes "QueueName") q) m)
          (λ here e. if_lem IsFew (not here) (λ t. plain _ refl) (λ f. plain _ refl))
          (λ e h. form_fault m e)

form_list_queues-IsFew :
    (q : Form) (region base : Text) (m : Manager) → IsFew (form_list_queues q region base m)
unfolding form_list_queues
form_list_queues-IsFew q region base m =
    result_lem IsFew (list_queues region (get_first (codes "QueueNamePrefix") q) m)
      (λ a e. plain _ refl) (λ e h. form_fault m e)

form_send_message-IsFew :
    (env : Env) (q : Form) (region : Text) (m : Manager) → IsFew (form_send_message env q region m)
unfolding form_send_message
form_send_message-IsFew env q region m =
    if_lem IsFew (get_first (codes "MessageBody") q == []) (λ t. plain _ refl)
      λ f.
        if_lem IsFew (get_first (codes "QueueUrl") q == []) (λ t. plain _ refl)
          λ f.
            option_lem IsFew (parse_queue_name_from_queue_url env (get_first (codes "QueueUrl") q))
              (λ e. plain _ refl)
              λ segment e.
                if_lem IsFew (not (is_valid_queue_name (unescaped segment))) (λ t. plain _ refl)
                  λ f.
                    result_lem IsFew
                      (send_message env.md5 env.written env.message_id region (unescaped segment)
                        (get_first (codes "MessageBody") q) m)
                      (λ a e. plain _ refl) (λ e h. form_queue_fault m e)

form_delete_message-IsFew :
    (env : Env) (q : Form) (region : Text) (m : Manager)
    → IsFew (form_delete_message env q region m)
unfolding form_delete_message
form_delete_message-IsFew env q region m =
    if_lem IsFew (get_first (codes "QueueUrl") q == []) (λ t. plain _ refl)
      λ f.
        if_lem IsFew (get_first (codes "ReceiptHandle") q == []) (λ t. plain _ refl)
          λ f.
            option_lem IsFew (parse_queue_name_from_queue_url env (get_first (codes "QueueUrl") q))
              (λ e. plain _ refl)
              λ segment e.
                result_lem IsFew (delete_message region (unescaped segment) m) (λ a e. plain _ refl)
                  (λ e h. form_queue_fault m e)

form_purge_queue-IsFew :
    (env : Env) (q : Form) (region : Text) (m : Manager) → IsFew (form_purge_queue env q region m)
unfolding form_purge_queue
form_purge_queue-IsFew env q region m =
    if_lem IsFew (get_first (codes "QueueUrl") q == []) (λ t. plain _ refl)
      λ f.
        option_lem IsFew (parse_queue_name_from_queue_url env (get_first (codes "QueueUrl") q))
          (λ e. plain _ refl)
          λ segment e.
            result_lem IsFew (purge_queue env.written region (unescaped segment) m)
              (λ a e. plain _ refl) (λ e h. form_queue_fault m e)

form_receive_message-IsAnswered :
    (env : Env) (w : Waiting) (q : Form) (region : Text) (m : Manager)
    → IsClock w
    → IsAnswered (form_receive_message env w q region m)
unfolding form_receive_message
form_receive_message-IsAnswered env w q region m clock =
    if_lem IsAnswered (get_first (codes "QueueUrl") q == []) (λ t. answered _ (omega arith))
      λ f.
        option_lem IsAnswered (parse_queue_name_from_queue_url env (get_first (codes "QueueUrl") q))
          (λ e. answered _ (omega arith))
          λ segment e.
            if_lem IsAnswered (not (is_valid_queue_name (unescaped segment)))
              (λ t. answered _ (omega arith))
              λ g.
                poll-IsAnswered env w form_queue_err _ attempts 0 m (map_queue_err_few _ _ _) clock
                  (wait_of_short (number_at (codes "WaitTimeSeconds") q)) (omega arith)
                  (omega arith)

act-IsAnswered :
    (env : Env) (w : Waiting) (q : Form) (action region base : Text) (m : Manager)
    → IsClock w
    → IsAnswered (Forms.form_act env w q action region base m)
unfolding Forms.form_act
act-IsAnswered env w q action region base m clock =
    if_lem IsAnswered (action == codes "CreateQueue")
      (λ t. few_given _ (form_create_queue-IsFew env q region base m))
      λ f1.
        if_lem IsAnswered (action == codes "GetQueueUrl")
          (λ t. few_given _ (form_get_queue_url-IsFew q region base m))
          λ f2.
            if_lem IsAnswered (action == codes "ListQueues")
              (λ t. few_given _ (form_list_queues-IsFew q region base m))
              λ f3.
                if_lem IsAnswered (action == codes "SendMessage")
                  (λ t. few_given _ (form_send_message-IsFew env q region m))
                  λ f4.
                    if_lem IsAnswered (action == codes "ReceiveMessage")
                      (λ t. form_receive_message-IsAnswered env w q region m clock)
                      λ f5.
                        if_lem IsAnswered (action == codes "DeleteMessage")
                          (λ t. few_given _ (form_delete_message-IsFew env q region m))
                          λ f6.
                            if_lem IsAnswered (action == codes "PurgeQueue")
                              (λ t. few_given _ (form_purge_queue-IsFew env q region m))
                              λ f7.
                                if_lem IsAnswered (action == []) (λ t. answered _ (omega arith))
                                  (λ f8. answered _ (omega arith))

pub handle_form-IsAnswered :
    (env : Env) (w : Waiting) (content_type : Text) (form : Option Form) (region base : Text)
    (m : Manager)
    → IsClock w
    → IsAnswered (handle_form env w content_type form region base m)
unfolding handle_form
handle_form-IsAnswered env w content_type form region base m clock =
    if_lem IsAnswered
      (not (
        has_prefix (to_lower (trim_space content_type))
          (codes "application/x-www-form-urlencoded")))
      (λ t. answered _ (omega arith))
      λ f.
        option_lem IsAnswered form (λ e. answered _ (omega arith))
          λ q e.
            if_lem IsAnswered
              (not (get_first (codes "Version") q == [])
                && not (get_first (codes "Version") q == codes "2012-11-05"))
              (λ t. answered _ (omega arith))
              λ g.
                if_lem IsAnswered (not (is_valid_region_segment (normalize_region region)))
                  (λ t. answered _ (omega arith)) λ h. act-IsAnswered env w q _ _ base m clock
