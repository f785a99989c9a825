-- ===== src/Lambda/Events.antt =====
-- The calls on event source mappings: internal/lambda/service.go.
use twister_aws.Base.{
  ℕ, Text, codes, Bool, not, Option, none, some, List, [], ◌∷◌, ◌++◌, ◌==◌, ◌+◌, ◌%◌, zero, suc,
  take, drop, if◌then◌else◌,
}
use twister_aws.Base.Int.{ℤ, pos}
use twister_aws.Base.Results.{ok, err}
use twister_aws.Base.Strings.{trim_space, has_prefix, trim_prefix, split_n, hex_encode}
use twister_aws.Lambda.{EventSourceMapping}
use twister_aws.Lambda.Registry.{Registry, get}
use twister_aws.Lambda.Mappings.{
  MappingFile, add_event_source_mapping, delete_by_uuid, list_event_source_mappings,
}
use twister_aws.Lambda.Docker.{is_positive}
use twister_aws.Lambda.Handlers.{Reply, refused, no_content, mapping, mappings, deref_string}

pub record Service : Type 0 where
  pub registry : Registry
  pub events : MappingFile

pub record CreateMappingReq : Type 0 where
  pub event_source_arn : Option Text
  pub function_name : Option Text
  pub batch_size : Option ℤ
  pub enabled : Option Bool

-- The region and the name of the queue of an ARN.
unfoldable pub parse_sqs_resource_from_arn : Text → Option (Text × Text)
parse_sqs_resource_from_arn arn =
    let t = trim_space arn in
    if not (has_prefix t (codes "arn:aws:sqs:"))
    then none
    else elim (split_n b':' (trim_prefix t (codes "arn:aws:sqs:")) 3) [
      | [] ↦ none
      | region ∷ rest ↦ elim rest [
        | [] ↦ none
        | account ∷ names ↦ elim names [ [] ↦ none | name ∷ more ↦ some (region, name) ]
      ]
    ]

-- The byte at an index, changed.
unfoldable pub map_at : ℕ → (ℕ → ℕ) → List ℕ → List ℕ
map_at i f [] = []
map_at zero f (c ∷ s) = f c ∷ s
map_at (suc i) f (c ∷ s) = c ∷ map_at i f s

-- Of sixteen random bytes: (b & 0x0f) | 0x40 is b % 16 + 64, and (b & 0x3f) | 0x80 is b % 64 + 128.
unfoldable pub new_uuid_v4 : (random : Text) → Text
new_uuid_v4 random =
    let b = map_at 8 (λ c. c % 64 + 128) (map_at 6 (λ c. c % 16 + 64) random) in
    hex_encode (take 4 b)
    ++ b'-'
      ∷ (hex_encode (take 2 (drop 4 b))
          ++ b'-'
            ∷ (hex_encode (take 2 (drop 6 b))
                ++ b'-'
                  ∷ (hex_encode (take 2 (drop 8 b)) ++ b'-' ∷ hex_encode (take 6 (drop 10 b)))))

-- The row that a request asks for.
unfoldable pub mapping_of :
    (random arn function_name : Text) → CreateMappingReq → EventSourceMapping
mapping_of random arn function_name req = record {
  uuid = new_uuid_v4 random;
  event_source_arn = arn;
  function_name = function_name;
  state = elim req.enabled [
    | none ↦ codes "Enabled"
    | some on ↦ if on then codes "Enabled" else codes "Disabled"
  ];
  batch_size = elim req.batch_size [ none ↦ pos 1 | some n ↦ if is_positive n then n else pos 1 ];
}

-- From the check of the function on.
unfoldable pub create_mapping_for :
    Bool → (random arn function_name : Text) → CreateMappingReq → Service → Reply × Service
create_mapping_for written random arn function_name req s = elim (get function_name s.registry) [
  | err e ↦ (refused 500 (codes "ServiceException"), s)
  | ok none ↦ (refused 404 (codes "ResourceNotFoundException"), s)
  | ok (some c) ↦
      let row = mapping_of random arn function_name req in
      elim (add_event_source_mapping written row s.events) [
        | err e ↦ (refused 400 (codes "ResourceConflictException"), s)
        | ok after ↦ (mapping row, record s { events = after })
      ]
]

unfoldable pub handle_create_event_source_mapping :
    Bool → (random : Text) → Option CreateMappingReq → Service → Reply × Service
handle_create_event_source_mapping written random none s =
    (refused 400 (codes "InvalidParameterValueException"), s)
handle_create_event_source_mapping written random (some req) s = elim req.event_source_arn [
  | none ↦ (refused 400 (codes "InvalidParameterValueException"), s)
  | some asked ↦ elim req.function_name [
    | none ↦ (refused 400 (codes "InvalidParameterValueException"), s)
    | some name ↦ elim (parse_sqs_resource_from_arn (trim_space asked)) [
      | none ↦ (refused 400 (codes "InvalidParameterValueException"), s)
      | some queue ↦ create_mapping_for written random (trim_space asked) name req s
    ]
  ]
]

-- `of_url` is the UUID of the URL's query.
unfoldable pub handle_delete_event_source_mapping :
    Bool → (uuid : Option Text) → (of_url : Text) → Service → Reply × Service
handle_delete_event_source_mapping written uuid of_url s =
    let in_body = trim_space (deref_string uuid) in
    let id = if in_body == [] then trim_space of_url else in_body in
    if id == []
    then (refused 400 (codes "InvalidParameterValueException"), s)
    else elim (delete_by_uuid written id s.events) [
      | err e ↦ (refused 404 (codes "ResourceNotFoundException"), s)
      | ok after ↦ (no_content, record s { events = after })
    ]

unfoldable pub handle_list_event_source_mappings : Service → Reply
handle_list_event_source_mappings s = elim (list_event_source_mappings s.events) [
  | err e ↦ refused 500 (codes "ServiceException")
  | ok rows ↦ mappings rows
]
