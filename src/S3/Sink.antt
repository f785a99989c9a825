-- ===== src/S3/Sink.antt =====
-- The events of S3 in the queues of SQS: sqsSink of cmd/twister/main.go, and the calls of it by
-- fireObjectCreated. The text of an event is json.Marshal's; the messages of a call have random ids.
pub mod Delivery
use twister_aws.Base.{ℕ, suc, Text, Bool, Option, List, [], ◌∷◌}
use twister_aws.Base.Results.{ok, err, ◌>>=◌}
use twister_aws.S3.Notify.{Event}
use twister_aws.Sqs
use twister_aws.Sqs.{send_message}

unfoldable pub enqueue_s3_event :
    (md5 : Text → Text)
    → Bool
    → (id sqs_region queue_name body : Text) → Sqs.Manager
    → Sqs.Result Sqs.Manager
enqueue_s3_event md5 written id sqs_region queue_name body q = do
  sent ← send_message md5 written id sqs_region queue_name body q
  ok sent.2

-- The calls for the events, one after another; an error is dropped.
unfoldable pub deliver :
    (md5 : Text → Text)
    → Bool
    → (ids : ℕ → Text) → (to_json : Event → Text) → ℕ
    → List Event
    → Sqs.Manager
    → Sqs.Manager
deliver md5 written ids to_json i [] q = q
deliver md5 written ids to_json i (e ∷ es) q =
    elim (enqueue_s3_event md5 written (ids i) e.sqs_region e.queue_name (to_json e) q) [
      | err fault ↦ deliver md5 written ids to_json (suc i) es q
      | ok after ↦ deliver md5 written ids to_json (suc i) es after
    ]
