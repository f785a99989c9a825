-- ===== src/Sqs/Requests/Agreement/Act.antt =====
-- The two protocols of internal/sqs/handler.go and json.go agree on every operation.
use twister_aws.Base.{
  ℕ, zero, suc, Text, codes, refl, Bool, true, false, Option, none, some, [], ◌==◌, get_first,
  length, ltb, Bool-cases, Option-cases, inl, inr, if_lem, if◌then◌else◌,
}
use twister_aws.Sqs.{Manager, Error, Result, ok, err, is_valid_queue_name, receive_message}
use twister_aws.Sqs.Requests.{Env, Waiting, Answer, answer}
use twister_aws.Sqs.Requests.Urls.{parse_queue_name_from_queue_url, unescaped}
use twister_aws.Sqs.Requests.Polling.{Asked, poll, is_over, attempts}
use twister_aws.Sqs.Requests.Forms
use twister_aws.Sqs.Requests.Forms.{
  Form, form_err, form_queue_err, form_create_queue, form_get_queue_url, form_list_queues,
  form_send_message, form_receive_message, form_delete_message, form_purge_queue, number_at,
  visibility_of,
}
use twister_aws.Sqs.Requests.Json
use twister_aws.Sqs.Requests.Json.{
  Body, json_err, json_queue_err, json_create_queue, json_get_queue_url, json_list_queues,
  json_send_message, json_receive_message, json_delete_message, json_purge_queue, with_body,
}
use twister_aws.Sqs.Requests.Agreement.{
  AreAlike, Alike, body_of, same, both_fail, queue_fault_alike, create_alike, url_alike, list_alike,
  name_of_segment, no_name, purge_alike, delete_alike, send_alike,
}

-- Both give no answer, or both give answers that are alike.
pub data BothAlike : Option Answer → Option Answer → Type 0 where
  neither : BothAlike none none
  both : {a b : Answer} → AreAlike a b → BothAlike (some a) (some b)

if_both :
    (b : Bool) {x y u v : Option Answer}
    → BothAlike x u
    → BothAlike y v
    → BothAlike (if b then x else y) (if b then u else v)
if_both true h k = h
if_both false h k = k

result_both :
    {A : Type 0} (o : Result A) {f f' : A → Option Answer} {g g' : Error → Option Answer}
    → ((a : A) → BothAlike (f a) (f' a))
    → ((e : Error) → BothAlike (g e) (g' e))
    → BothAlike (elim o [ ok a ↦ f a | err e ↦ g e ]) (elim o [ ok a ↦ f' a | err e ↦ g' e ])
result_both (ok a) h k = h a
result_both (err e) h k = k e

poll_alike :
    (env : Env) (w : Waiting) (a : Asked) (fuel i : ℕ) (m : Manager)
    → BothAlike (poll env w form_queue_err a fuel i m) (poll env w json_queue_err a fuel i m)
unfolding poll Alike
poll_alike env w a zero i m = neither
poll_alike env w a (suc fuel) i m =
    result_both
      (receive_message env.md5 env.handles env.written env.hook a.region a.name a.max a.visibility
        m)
      (λ r. if_both (ltb 0 (length r.out)) (both (same _ refl)) (
        if_both (is_over w a i) (both (same _ refl))
          (poll_alike env w a fuel (suc i) (w.found (suc i)))))
      (λ e. both (queue_fault_alike m e))

receive_alike :
    (env : Env) (w : Waiting) (q : Form) (region : Text) (m : Manager)
    → BothAlike
        (form_receive_message env w q region m)
        (json_receive_message env w (body_of q) region m)
unfolding form_receive_message json_receive_message
receive_alike env w q region m =
    let url = get_first (codes "QueueUrl") q in
    if_both (url == []) (both (both_fail 400 _ _ m))
      (elim (Option-cases (parse_queue_name_from_queue_url env url)) [
        | inl e ↦ rw (e, no_name env url e) (both (both_fail 400 _ _ m))
        | inr (segment, e) ↦
            rw (e, name_of_segment env url segment e)
              (elim (Bool-cases (is_valid_queue_name (unescaped segment))) [
                | inl v ↦ rw v (poll_alike env w _ attempts 0 m)
                | inr v ↦ rw v (both (both_fail 400 _ _ m))
              ])
      ])

-- The two protocols agree. For every operation, with the form's fields as the fields of the JSON body,
-- both answer, or poll on, together; their answers leave the same queues, call DequeueHook with the same
-- messages, and have equal replies or errors of the same status.
pub act_alike :
    (env : Env) (w : Waiting) (q : Form) (op region base : Text) (m : Manager)
    → BothAlike
        (Forms.form_act env w q op region base m)
        (Json.json_act env w (some (body_of q)) op region base m)
unfolding Forms.form_act Json.json_act with_body
act_alike env w q op region base m =
    if_both (op == codes "CreateQueue") (both (create_alike env q region base m)) (
      if_both (op == codes "GetQueueUrl") (both (url_alike q region base m)) (
        if_both (op == codes "ListQueues") (both (list_alike q region base m)) (
          if_both (op == codes "SendMessage") (both (send_alike env q region m)) (
            if_both (op == codes "ReceiveMessage") (receive_alike env w q region m) (
              if_both (op == codes "DeleteMessage") (both (delete_alike env q region m)) (
                if_both (op == codes "PurgeQueue") (both (purge_alike env q region m)) (
                  if_lem (λ x. BothAlike x (some (answer (Json.fails (codes "InvalidAction")) m)))
                    (op == []) (λ t. both (both_fail 400 _ _ m))
                    (λ f. both (both_fail 400 _ _ m)))))))))
