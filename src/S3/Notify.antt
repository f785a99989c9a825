-- ===== src/S3/Notify.antt =====
-- The notifications of a bucket: internal/s3buckets/bucket_notify.go and s3event.go. The body of a request
-- stands for what it decodes to; an event, for its JSON.
use twister_aws.Base.{
  ℕ, Text, codes, Bool, true, false, not, ◌&&◌, ◌||◌, Option, none, some, List, [], ◌∷◌, ◌++◌, ◌==◌,
  lookup, insert, if◌then◌else◌,
}
use twister_aws.Base.Files.{missing, broken, holds}
use twister_aws.Base.Results.{ok, err, ◌>>=◌}
use twister_aws.Base.Strings.{trim_space, split, join, to_lower, has_prefix}
use twister_aws.Region.{normalize_region, is_valid_region_segment}
use twister_aws.S3.{
  Manager, QueueNotification, Result, invalid_region, invalid_bucket_name, other,
  is_valid_bucket_name,
}

-- The path below Root/.s3-notifications.
unfoldable pub notification_file_path : (region bucket : Text) → Manager → Result Text
notification_file_path region bucket m =
    let r = normalize_region region in
    if not (is_valid_region_segment r)
    then err invalid_region
    else if not (is_valid_bucket_name bucket)
    then err invalid_bucket_name
    else if m.root == []
    then err other
    else ok (r ++ b'/' ∷ (bucket ++ codes ".json"))

unfoldable pub load_notification_config : (path : Text) → Manager → Result (List QueueNotification)
load_notification_config p m = elim (lookup p m.notifications) [
  | none ↦ ok []
  | some missing ↦ ok []
  | some broken ↦ err other
  | some (holds configs) ↦ ok configs
]

unfoldable pub save_notification_config :
    Bool → (path : Text) → List QueueNotification → Manager → Result Manager
save_notification_config written p configs m =
    if written
    then ok (record m { notifications = insert p (holds configs) m.notifications })
    else err other

unfoldable pub event_matches_object_put : List Text → Bool
event_matches_object_put [] = false
event_matches_object_put (e ∷ es) =
    let t = trim_space e in
    let rest = event_matches_object_put es in
    if (t == codes "s3:ObjectCreated:*") || (t == codes "s3:ObjectCreated:Put") then true else rest

-- The region and the name of the queue; the name may hold colons.
unfoldable pub parse_sqs_queue_arn : Text → Option (Text × Text)
parse_sqs_queue_arn arn = elim (split (trim_space arn) b':') [
  | scheme ∷ partition ∷ service ∷ region ∷ account ∷ name ∷ names ↦
      if (scheme == codes "arn") && ((partition == codes "aws") && (service == codes "sqs"))
      then some (region, join (name ∷ names) (codes ":"))
      else none
  | _ ↦ none
]

-- The record of the event, and the queue that it is for.
pub record Event : Type 0 where
  pub sqs_region : Text
  pub queue_name : Text
  pub aws_region : Text
  pub event_time : Text
  pub configuration_id : Text
  pub bucket : Text
  pub bucket_arn : Text
  pub key : Text
  pub size : ℕ
  pub etag : Text

unfoldable pub build_object_created_event :
    (sqs_region queue_name now bucket_region bucket key : Text)
    → ℕ
    → (etag configuration_id : Text) → Event
build_object_created_event sqs_region queue_name now bucket_region bucket key size etag
      configuration_id =
    record {
      sqs_region = sqs_region;
      queue_name = queue_name;
      aws_region = bucket_region;
      event_time = now;
      configuration_id = configuration_id;
      bucket = bucket;
      bucket_arn = codes "arn:aws:s3:::" ++ bucket;
      key = key;
      size = size;
      etag = etag;
    }

-- The loop of fireObjectCreated.
unfoldable pub events_for :
    (now bucket_region bucket key : Text) → ℕ → (etag : Text) → List QueueNotification → List Event
events_for now bucket_region bucket key size etag [] = []
events_for now bucket_region bucket key size etag (q ∷ qs) =
    let rest = events_for now bucket_region bucket key size etag qs in
    if not (event_matches_object_put q.events)
    then rest
    else elim (parse_sqs_queue_arn q.queue_arn) [
      | none ↦ rest
      | some to ↦
          build_object_created_event to.0 to.1 now bucket_region bucket key size etag q.id ∷ rest
    ]

-- The events that are handed to the sink, in their order; its errors are dropped.
unfoldable pub fire_object_created :
    (now bucket_region bucket key : Text) → ℕ → (etag : Text) → Manager → List Event
fire_object_created now bucket_region bucket key size etag m =
    if not m.has_events
    then []
    else elim (notification_file_path bucket_region bucket m >>= λ p.
        load_notification_config p m) [
          | err e ↦ []
          | ok configs ↦ events_for now bucket_region bucket key size etag configs
        ]

-- What a body decodes to: as a JSON object, whether it has the key QueueConfigurations; in the shape of
-- AWS, in the shape of the file, and as XML.
pub record NotificationBody : Type 0 where
  pub is_blank : Bool
  pub is_aws : Option Bool
  pub as_aws : Option (List QueueNotification)
  pub as_file : Option (List QueueNotification)
  pub as_xml : Option (List QueueNotification)

unfoldable pub parse_notification_json : NotificationBody → Option (List QueueNotification)
parse_notification_json body =
    if body.is_blank
    then some []
    else elim body.is_aws [ none ↦ none | some aws ↦ if aws then body.as_aws else body.as_file ]

-- The configuration of a request, by its content type.
unfoldable pub notification_of :
    (content_type : Text) → NotificationBody → Option (List QueueNotification)
notification_of content_type body =
    if has_prefix (to_lower content_type) (codes "application/json")
    then parse_notification_json body
    else if body.is_blank
    then some []
    else body.as_xml
