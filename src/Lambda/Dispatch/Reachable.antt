-- ===== src/Lambda/Dispatch/Reachable.antt =====
-- What the calls of the Lambda service keep: internal/lambda/service.go.
use twister_aws.Base.{
  Text, codes, ◌≡◌, Bool, true, Option, none, some, List, [], ◌==◌, if_lem, option_lem,
  if◌then◌else◌,
}
use twister_aws.Base.Files.{missing}
use twister_aws.Base.Strings.{trim_space}
use twister_aws.Base.Results.{ok, result_lem}
use twister_aws.Lambda.{EventSourceMapping}
use twister_aws.Lambda.Registry.{Registry, get}
use twister_aws.Lambda.Mappings.{load, add_event_source_mapping, delete_by_uuid}
use twister_aws.Lambda.Mappings.Laws.{
  HasDistinct, are_distinct, missing-HasDistinct, add_event_source_mapping-HasDistinct,
  delete_by_uuid-HasDistinct,
}
use twister_aws.Lambda.Handlers.{Reply, deref_string}
use twister_aws.Lambda.Events.{
  Service, CreateMappingReq, mapping_of, create_mapping_for, parse_sqs_resource_from_arn,
  handle_create_event_source_mapping, handle_delete_event_source_mapping,
}
use twister_aws.Lambda.Dispatch.{Surroundings, Body, with_registry, handle_lambda}

-- What the calls make of a registry and no file of mappings.
pub data IsReachable : Service → Type 0 where
  start : (registry : Registry) → IsReachable (record { registry = registry; events = missing })
  called :
      (w : Surroundings) (op : Text) (body : Body) (s : Service)
      → IsReachable s
      → IsReachable (handle_lambda w op body s).1

-- The mappings after a call are distinct.
record Keeps (done : Reply × Service) : Type 0 where
  after : HasDistinct done.1.events

same : (reply : Reply) (s : Service) → HasDistinct s.events → Keeps (reply, s)
same reply s d = record { after = d }

create_mapping_for-Keeps :
    (written : Bool) (random arn name : Text) (req : CreateMappingReq) (s : Service)
    → HasDistinct s.events
    → Keeps (create_mapping_for written random arn name req s)
unfolding create_mapping_for
create_mapping_for-Keeps written random arn name req s d =
    let row = mapping_of random arn name req in
    result_lem Keeps (get name s.registry)
      (λ c e.
        option_lem Keeps c (λ n. same _ s d)
          λ config o.
            result_lem Keeps (add_event_source_mapping written row s.events)
              (λ after h. record {
                after = add_event_source_mapping-HasDistinct written row s.events after d h;
              })
              (λ x h. same _ s d))
      (λ x e. same _ s d)

handle_create_event_source_mapping-Keeps :
    (written : Bool) (random : Text) (req : Option CreateMappingReq) (s : Service)
    → HasDistinct s.events
    → Keeps (handle_create_event_source_mapping written random req s)
unfolding handle_create_event_source_mapping
handle_create_event_source_mapping-Keeps written random none s d = same _ s d
handle_create_event_source_mapping-Keeps written random (some req) s d =
    option_lem Keeps req.event_source_arn (λ n. same _ s d)
      λ asked e.
        option_lem Keeps req.function_name (λ n. same _ s d)
          λ name f.
            option_lem Keeps (parse_sqs_resource_from_arn (trim_space asked)) (λ n. same _ s d)
              λ queue g. create_mapping_for-Keeps written random (trim_space asked) name req s d

handle_delete_event_source_mapping-Keeps :
    (written : Bool) (uuid : Option Text) (of_url : Text) (s : Service)
    → HasDistinct s.events
    → Keeps (handle_delete_event_source_mapping written uuid of_url s)
unfolding handle_delete_event_source_mapping
handle_delete_event_source_mapping-Keeps written uuid of_url s d =
    let in_body = trim_space (deref_string uuid) in
    let id = if in_body == [] then trim_space of_url else in_body in
    if_lem Keeps (id == []) (λ t. same _ s d)
      λ f.
        result_lem Keeps (delete_by_uuid written id s.events)
          (λ after h. record { after = delete_by_uuid-HasDistinct written id s.events after d h })
          (λ x h. same _ s d)

with_registry-Keeps :
    (done : Reply × Registry) (s : Service) → HasDistinct s.events → Keeps (with_registry done s)
unfolding with_registry
with_registry-Keeps done s d = record { after = d }

handle_lambda-Keeps :
    (w : Surroundings) (op : Text) (body : Body) (s : Service)
    → HasDistinct s.events
    → Keeps (handle_lambda w op body s)
unfolding handle_lambda
handle_lambda-Keeps w op body s d =
    if_lem Keeps (op == codes "CreateFunction") (λ t. with_registry-Keeps _ s d)
      λ f1.
        if_lem Keeps (op == codes "Invoke") (λ t. same _ s d)
          λ f2.
            if_lem Keeps (op == codes "GetFunction") (λ t. same _ s d)
              λ f3.
                if_lem Keeps (op == codes "DeleteFunction") (λ t. with_registry-Keeps _ s d)
                  λ f4.
                    if_lem Keeps (op == codes "ListFunctions") (λ t. same _ s d)
                      λ f5.
                        if_lem Keeps (op == codes "CreateEventSourceMapping")
                          (λ t.
                            handle_create_event_source_mapping-Keeps w.written w.random
                              body.create_mapping s d)
                          λ f6.
                            if_lem Keeps (op == codes "DeleteEventSourceMapping")
                              (λ t.
                                handle_delete_event_source_mapping-Keeps w.written body.uuid
                                  w.of_url s d)
                              λ f7.
                                if_lem Keeps (op == codes "ListEventSourceMappings")
                                  (λ t. same _ s d) λ f8. same _ s d

IsReachable-HasDistinct : (s : Service) → IsReachable s → HasDistinct s.events
IsReachable-HasDistinct _ (start registry) = missing-HasDistinct
IsReachable-HasDistinct _ (called w op body s r) =
    (handle_lambda-Keeps w op body s (IsReachable-HasDistinct s r)).after

-- Whatever calls the Lambda service has answered, from no file of mappings on, no two rows of the file have the
-- same event source ARN, as a text.
pub IsReachable-are_distinct :
    (s : Service) (rows : List EventSourceMapping)
    → IsReachable s
    → load s.events ≡ ok rows
    → are_distinct rows ≡ true
IsReachable-are_distinct s rows r l = (IsReachable-HasDistinct s r).distinct rows l
