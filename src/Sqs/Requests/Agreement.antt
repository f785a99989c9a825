-- ===== src/Sqs/Requests/Agreement.antt =====
-- The two protocols of internal/sqs/handler.go and json.go do the same to the queues.
pub mod Act
use twister_aws.Base.{
  ℕ, zero, suc, Text, codes, ◌≡◌, refl, sym, ap, ◌⊎◌, Bool, true, false, not, Option, none, some,
  List, [], ◌∷◌, ◌++◌, ◌==◌, get_first, length, ltb, Bool-cases, Option-cases, inl, inr, if_lem,
  option_lem, arith, if◌then◌else◌, map,
}
use twister_aws.Base.Int.{ℤ}
use twister_aws.Region.{normalize_region, is_valid_region_segment}
use twister_aws.Base.Strings.{split}
use twister_aws.Sqs.{
  Manager, Error, Result, ok, err, Result-cases, invalid_region, invalid_queue_name, empty_root,
  queue_not_found, not_decoded, disk, is_valid_queue_name, queue_path, ◌>>=◌, create_queue,
  queue_has, list_queues, send_message, receive_message, delete_message, purge_queue,
}
use twister_aws.Sqs.Requests.{
  Env, Waiting, Reply, failed, received, queue_url, Answer, answer, map_manager_err, map_queue_err,
}
use twister_aws.Sqs.Requests.Urls.{
  make_queue_url, trim_slashes, last_segment, parse_queue_name_from_queue_url,
  json_queue_name_from_url, unescaped,
}
use twister_aws.Sqs.Requests.Polling.{Asked, poll, is_over, attempts, max_of, wait_of}
use twister_aws.Sqs.Requests.Forms
use twister_aws.Sqs.Requests.Forms.{
  Form, form_err, form_queue_err, form_create_queue, form_get_queue_url, form_list_queues,
  form_send_message, form_receive_message, form_delete_message, form_purge_queue, number_at,
  visibility_of,
}
use twister_aws.Sqs.Requests.Json
use twister_aws.Sqs.Requests.Json.{
  Body, json_err, json_queue_err, json_create_queue, json_get_queue_url, json_list_queues,
  json_send_message, json_receive_message, json_delete_message, json_purge_queue, with_body,
}

-- The JSON body with the fields of a form.
abbrev pub body_of : Form → Body
body_of q = record {
  queue_name = get_first (codes "QueueName") q;
  queue_name_prefix = get_first (codes "QueueNamePrefix") q;
  queue_url = get_first (codes "QueueUrl") q;
  message_body = get_first (codes "MessageBody") q;
  receipt_handle = get_first (codes "ReceiptHandle") q;
  max_number_of_messages = number_at (codes "MaxNumberOfMessages") q;
  wait_time_seconds = number_at (codes "WaitTimeSeconds") q;
  visibility_timeout = visibility_of q;
}

-- Two replies are the same, or both are errors of one status.
unfoldable pub Alike : Reply → Reply → Type 0
Alike (failed s c) (failed t d) = s ≡ t
Alike r t = r ≡ t

-- Two answers leave the same queues, call DequeueHook with the same messages, and are alike.
pub record AreAlike (a b : Answer) : Type 0 where
  pub replies : Alike a.reply b.reply
  pub managers : a.manager ≡ b.manager
  pub hooks : a.hooked ≡ b.hooked

-- The answer of a test on which both branches are alike.
if_alike :
    (b : Bool) {x y u v : Answer}
    → AreAlike x u
    → AreAlike y v
    → AreAlike (if b then x else y) (if b then u else v)
if_alike true h k = h
if_alike false h k = k

result_alike {ℓ} :
    {A : Type ℓ} (o : Result A) {f f' : A → Answer} {g g' : Error → Answer}
    → ((a : A) → AreAlike (f a) (f' a))
    → ((e : Error) → AreAlike (g e) (g' e))
    → AreAlike (elim o [ ok a ↦ f a | err e ↦ g e ]) (elim o [ ok a ↦ f' a | err e ↦ g' e ])
result_alike (ok a) h k = h a
result_alike (err e) h k = k e

pub same : (a : Answer) → Alike a.reply a.reply → AreAlike a a
same a h = record { replies = h; managers = refl; hooks = refl }

pub both_fail :
    (status : ℕ) (c d : Text) (m : Manager)
    → AreAlike (answer (failed status c) m) (answer (failed status d) m)
unfolding Alike
both_fail status c d m = record { replies = refl; managers = refl; hooks = refl }

fault_alike : (m : Manager) (e : Error) → AreAlike (answer (form_err e) m) (answer (json_err e) m)
unfolding map_manager_err
fault_alike m invalid_region = both_fail 400 _ _ m
fault_alike m invalid_queue_name = both_fail 400 _ _ m
fault_alike m empty_root = both_fail 500 _ _ m
fault_alike m queue_not_found = both_fail 500 _ _ m
fault_alike m not_decoded = both_fail 500 _ _ m
fault_alike m disk = both_fail 500 _ _ m

pub queue_fault_alike :
    (m : Manager) (e : Error) → AreAlike (answer (form_queue_err e) m) (answer (json_queue_err e) m)
unfolding map_queue_err map_manager_err
queue_fault_alike m invalid_region = both_fail 400 _ _ m
queue_fault_alike m invalid_queue_name = both_fail 400 _ _ m
queue_fault_alike m empty_root = both_fail 500 _ _ m
queue_fault_alike m queue_not_found = both_fail 400 _ _ m
queue_fault_alike m not_decoded = both_fail 500 _ _ m
queue_fault_alike m disk = both_fail 500 _ _ m

pub create_alike :
    (env : Env) (q : Form) (region base : Text) (m : Manager)
    → AreAlike
        (form_create_queue env q region base m)
        (json_create_queue env (body_of q) region base m)
unfolding form_create_queue json_create_queue Alike
create_alike env q region base m =
    let name = get_first (codes "QueueName") q in
    (if_alike (name == []) (both_fail 400 _ _ m) (
      if_alike (not (is_valid_queue_name name)) (both_fail 400 _ _ m) (
        result_alike (create_queue env.written region name m) (λ m'. same _ refl) (fault_alike m))))

pub url_alike :
    (q : Form) (region base : Text) (m : Manager)
    → AreAlike (form_get_queue_url q region base m) (json_get_queue_url (body_of q) region base m)
unfolding form_get_queue_url json_get_queue_url Alike
url_alike q region base m =
    let name = get_first (codes "QueueName") q in
    (if_alike (name == []) (both_fail 400 _ _ m) (
      result_alike (queue_has region name m)
        (λ here. if_alike (not here) (both_fail 400 _ _ m) (same _ refl)) (fault_alike m)))

pub list_alike :
    (q : Form) (region base : Text) (m : Manager)
    → AreAlike
        (form_list_queues q region base m)
        (json_list_queues (some (body_of q)) region base m)
unfolding form_list_queues json_list_queues Alike
list_alike q region base m =
    (result_alike (list_queues region (get_first (codes "QueueNamePrefix") q) m)
      (λ names. same _ refl) (fault_alike m))

-- The JSON protocol checks the name that the form protocol reads.
pub name_of_segment :
    (env : Env) (url segment : Text)
    → parse_queue_name_from_queue_url env url ≡ some segment
    → json_queue_name_from_url env url
      ≡ (if not (is_valid_queue_name (unescaped segment)) then none else some (unescaped segment))
unfolding parse_queue_name_from_queue_url json_queue_name_from_url
name_of_segment env url segment h = elim (Option-cases (env.url_path url)) [
  | inl e ↦ absurd (ground (arith, e))
  | inr (path, e) ↦
      let last : last_segment (split (trim_slashes path) b'/') ≡ segment = ground (arith, e) in
      rw (e, last) refl
]

pub no_name :
    (env : Env) (url : Text)
    → parse_queue_name_from_queue_url env url ≡ none
    → json_queue_name_from_url env url ≡ none
unfolding parse_queue_name_from_queue_url json_queue_name_from_url
no_name env url h = elim (Option-cases (env.url_path url)) [
  | inl e ↦ rw e refl
  | inr (path, e) ↦ absurd (ground (arith, e))
]

-- A name that is not valid is an error of the manager with the status of a wrong parameter.
invalid_name :
    (region name : Text) (m : Manager)
    → is_valid_queue_name name ≡ false
    → (queue_path region name m ≡ err invalid_region)
      ⊎ (queue_path region name m ≡ err invalid_queue_name)
unfolding queue_path
invalid_name region name m h =
    elim (Bool-cases (is_valid_region_segment (normalize_region region))) [
      | inl e ↦ inr (ground (arith, e, h))
      | inr e ↦ inl (ground (arith, e))
    ]

-- An operation that begins with the path of the queue, against the JSON protocol's own refusal.
refused_alike :
    {A : Type 0} (region name : Text) (m : Manager) (f : Text → Result A) (g : A → Answer)
    → is_valid_queue_name name ≡ false
    → AreAlike
        (elim (queue_path region name m >>= f) [ ok a ↦ g a | err e ↦ answer (form_queue_err e) m ])
        (answer Json.invalid_parameter m)
unfolding map_queue_err map_manager_err
refused_alike region name m f g h = elim (invalid_name region name m h) [
  | inl e ↦ rw e (both_fail 400 _ _ m)
  | inr e ↦ rw e (both_fail 400 _ _ m)
]

-- The two protocols' ways from a URL to a name: whatever they do with a valid name alike, is alike.
named_alike :
    (env : Env) (url : Text) (m : Manager) (f : Text → Answer) (g : Text → Answer)
    → ((name : Text) → is_valid_queue_name name ≡ true → AreAlike (f name) (g name))
    → ((name : Text)
        → is_valid_queue_name name ≡ false
        → AreAlike (f name) (answer Json.invalid_parameter m))
    → AreAlike
        (elim (parse_queue_name_from_queue_url env url) [
          | none ↦ answer Forms.invalid m
          | some segment ↦ f (unescaped segment)
        ])
        (elim (json_queue_name_from_url env url) [
          | none ↦ answer Json.invalid_parameter m
          | some name ↦ g name
        ])
named_alike env url m f g h k = elim (Option-cases (parse_queue_name_from_queue_url env url)) [
  | inl e ↦ rw (e, no_name env url e) (both_fail 400 _ _ m)
  | inr (segment, e) ↦
      rw (e, name_of_segment env url segment e)
        (elim (Bool-cases (is_valid_queue_name (unescaped segment))) [
          | inl v ↦ rw v (h (unescaped segment) v)
          | inr v ↦ rw v (k (unescaped segment) v)
        ])
]

pub purge_alike :
    (env : Env) (q : Form) (region : Text) (m : Manager)
    → AreAlike (form_purge_queue env q region m) (json_purge_queue env (body_of q) region m)
unfolding form_purge_queue json_purge_queue Alike purge_queue
purge_alike env q region m = if_alike (get_first (codes "QueueUrl") q == []) (both_fail 400 _ _ m) (
    named_alike env (get_first (codes "QueueUrl") q) m _ _
      (λ name v.
        result_alike (purge_queue env.written region name m) (λ m'. same _ refl)
          (queue_fault_alike m))
      (λ name v. refused_alike region name m _ _ v))

pub delete_alike :
    (env : Env) (q : Form) (region : Text) (m : Manager)
    → AreAlike (form_delete_message env q region m) (json_delete_message env (body_of q) region m)
unfolding form_delete_message json_delete_message Alike delete_message
delete_alike env q region m =
    if_alike (get_first (codes "QueueUrl") q == []) (both_fail 400 _ _ m) (
      if_alike (get_first (codes "ReceiptHandle") q == []) (both_fail 400 _ _ m) (
        named_alike env (get_first (codes "QueueUrl") q) m _ _
          (λ name v.
            result_alike (delete_message region name m) (λ u. same _ refl) (queue_fault_alike m))
          (λ name v. refused_alike region name m _ _ v)))

-- The handlers that check the name in both protocols.
checked_alike :
    (env : Env) (url : Text) (m : Manager) (f g : Text → Answer)
    → ((name : Text) → AreAlike (f name) (g name))
    → AreAlike
        (elim (parse_queue_name_from_queue_url env url) [
          | none ↦ answer Forms.invalid m
          | some segment ↦
              if not (is_valid_queue_name (unescaped segment))
              then answer Forms.invalid m
              else f (unescaped segment)
        ])
        (elim (json_queue_name_from_url env url) [
          | none ↦ answer Json.invalid_parameter m
          | some name ↦ g name
        ])
checked_alike env url m f g h =
    named_alike env url m
      (λ name. if not (is_valid_queue_name name) then answer Forms.invalid m else f name) g
      (λ name v. rw v (h name)) (λ name v. rw v (both_fail 400 _ _ m))

pub send_alike :
    (env : Env) (q : Form) (region : Text) (m : Manager)
    → AreAlike (form_send_message env q region m) (json_send_message env (body_of q) region m)
unfolding form_send_message json_send_message Alike
send_alike env q region m =
    if_alike (get_first (codes "MessageBody") q == []) (both_fail 400 _ _ m) (
      if_alike (get_first (codes "QueueUrl") q == []) (both_fail 400 _ _ m) (
        checked_alike env (get_first (codes "QueueUrl") q) m _ _ (λ name.
          result_alike
            (send_message env.md5 env.written env.message_id region name
              (get_first (codes "MessageBody") q) m)
            (λ a. same _ refl) (queue_fault_alike m))))
