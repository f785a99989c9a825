-- ===== src/Tests/Functions.antt =====
-- The theorems on functions and mappings, applied to one function and two queues.
use twister_aws.Base.{Text, codes, ◌≡◌, refl, true, none, some, List, [], ◌∷◌, ◌==◌, lookup}
use twister_aws.Base.Files.{missing}
use twister_aws.Base.Int.{pos, negsuc}
use twister_aws.Base.Results.{ok}
use twister_aws.Base.Strings.{
  trim_space, trim_left, trim_right, is_space, has_prefix, trim_prefix, split_n, cut_byte,
  hex_encode, hex_digit,
}
use twister_aws.Lambda.{FunctionConfig, EventSourceMapping}
use twister_aws.Lambda.Registry.{
  Registry, config, is_name_byte, all_name_bytes, is_function_name, function_path, read_config, get,
  put,
}
use twister_aws.Lambda.Registry.Laws.{IsPut, put-IsPut}
use twister_aws.Lambda.Mappings.{
  load, save, has_arn, with_defaults, add_row, add_event_source_mapping,
}
use twister_aws.Lambda.Mappings.Laws.{are_distinct}
use twister_aws.Lambda.Docker.{is_positive}
use twister_aws.Lambda.Handlers.{deref_string}
use twister_aws.Lambda.Events.{
  Service, parse_sqs_resource_from_arn, map_at, new_uuid_v4, mapping_of, create_mapping_for,
  handle_create_event_source_mapping,
}
use twister_aws.Lambda.Dispatch.{Surroundings, Body, handle_lambda}
use twister_aws.Lambda.Dispatch.Reachable.{start, called, IsReachable-are_distinct}

abbrev resize : FunctionConfig
resize = record {
  function_name = codes "resize";
  region = codes "eu";
  image_uri = codes "img";
  handler = [];
  timeout = pos 1000;
  memory_size = negsuc 4;
  package_type = [];
  runtime = [];
  role = [];
  architectures = [];
}

abbrev disk_root : Registry
disk_root = record { root = codes "d"; files = [] }

put-IsPut_example : IsPut true resize disk_root (put true resize disk_root)
put-IsPut_example = put-IsPut true resize disk_root

abbrev surroundings : Surroundings
surroundings = record {
  written = true;
  docker = none;
  message = λ e. [];
  random = 0 ∷ 1 ∷ 2 ∷ 3 ∷ 4 ∷ 5 ∷ 255 ∷ 7 ∷ 255 ∷ 9 ∷ 10 ∷ 11 ∷ 12 ∷ 13 ∷ 14 ∷ 15 ∷ [];
  region = codes "eu";
  of_url = [];
}

abbrev asks_for : Text → Body
asks_for arn = record {
  create_function = none;
  invoke = none;
  name = none;
  create_mapping = some (record {
    event_source_arn = some arn;
    function_name = some (codes "resize");
    batch_size = none;
    enabled = none;
  });
  uuid = none;
}

abbrev at_first : Service
at_first = record {
  registry = record { root = codes "d"; files = (codes "resize.json", config resize) ∷ [] };
  events = missing;
}

abbrev after_one : Service
after_one =
    (handle_lambda surroundings (codes "CreateEventSourceMapping")
      (asks_for (codes "arn:aws:sqs:eu:0:a")) at_first).1

abbrev after_two : Service
after_two =
    (handle_lambda surroundings (codes "CreateEventSourceMapping")
      (asks_for (codes "arn:aws:sqs:eu:0:b")) after_one).1

abbrev row_for : Text → EventSourceMapping
row_for arn = record {
  uuid = codes "00010203-0405-4f07-bf09-0a0b0c0d0e0f";
  event_source_arn = arn;
  function_name = codes "resize";
  state = codes "Enabled";
  batch_size = pos 1;
}

abbrev two_rows : List EventSourceMapping
two_rows = row_for (codes "arn:aws:sqs:eu:0:a") ∷ row_for (codes "arn:aws:sqs:eu:0:b") ∷ []

loads_two : load after_two.events ≡ ok two_rows
unfolding handle_lambda handle_create_event_source_mapping create_mapping_for
    parse_sqs_resource_from_arn mapping_of new_uuid_v4 map_at hex_encode hex_digit get function_path
    read_config is_function_name all_name_bytes is_name_byte lookup add_event_source_mapping add_row
    save load has_arn with_defaults trim_space trim_left trim_right is_space has_prefix trim_prefix
    split_n cut_byte ◌==◌ is_positive deref_string
loads_two = refl

IsReachable-are_distinct_example : are_distinct two_rows ≡ true
IsReachable-are_distinct_example =
    IsReachable-are_distinct after_two two_rows
      (called surroundings (codes "CreateEventSourceMapping")
        (asks_for (codes "arn:aws:sqs:eu:0:b")) after_one
        (called surroundings (codes "CreateEventSourceMapping")
          (asks_for (codes "arn:aws:sqs:eu:0:a")) at_first (start at_first.registry)))
      loads_two
