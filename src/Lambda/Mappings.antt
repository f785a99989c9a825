-- ===== src/Lambda/Mappings.antt =====
-- The event source mappings: internal/lambda/event_source.go.
pub mod Laws
use twister_aws.Base.{
  ℕ, Text, Map, codes, Bool, true, false, not, ◌&&◌, ◌||◌, Option, none, some, List, [], ◌∷◌, ◌++◌,
  ◌==◌, length, eqb, if◌then◌else◌,
}
use twister_aws.Base.Int.{ℤ, pos, negsuc}
use twister_aws.Base.Files.{File, missing, broken, holds}
use twister_aws.Base.Results.{ok, err, ◌>>=◌}
use twister_aws.Base.Strings.{trim_space, to_lower, has_prefix, cut_last}
use twister_aws.Region.{normalize_region}
use twister_aws.Lambda.{
  EventSourceMapping, Fault, Result, unreadable, disk, fields_required, mapping_exists, empty_uuid,
  no_such_mapping,
}

-- The file of the mappings.
abbrev pub MappingFile : Type 0
MappingFile = File (List EventSourceMapping)

unfoldable pub load : MappingFile → Result (List EventSourceMapping)
load missing = ok []
load broken = err unreadable
load (holds rows) = ok rows

unfoldable pub save : Bool → List EventSourceMapping → Result MappingFile
save written rows = if written then ok (holds rows) else err disk

unfoldable pub arn_last_segment : Text → Text
arn_last_segment arn = let t = trim_space arn in elim (cut_last b':' t) [ none ↦ t | some p ↦ p.1 ]

-- The loop of FindFunctionForSQS; the empty text if no mapping fits.
unfoldable pub find_row : (want_arn queue_name : Text) → List EventSourceMapping → Text
find_row want_arn queue_name [] = []
find_row want_arn queue_name (row ∷ rows) =
    let rest = find_row want_arn queue_name rows in
    if to_lower row.state == codes "disabled"
    then rest
    else if not (has_prefix row.event_source_arn want_arn)
    then rest
    else if arn_last_segment row.event_source_arn == queue_name
    then row.function_name
    else rest

unfoldable pub find_function_for_sqs : (region queue_name : Text) → MappingFile → Result Text
find_function_for_sqs region queue_name file = do
  rows ← load file
  ok (find_row (codes "arn:aws:sqs:" ++ (normalize_region region ++ codes ":")) queue_name rows)

-- The fields that AddEventSourceMapping fills in.
unfoldable pub with_defaults : EventSourceMapping → EventSourceMapping
with_defaults m = record m {
  state = if m.state == [] then codes "Enabled" else m.state;
  batch_size = elim m.batch_size [ pos n ↦ if eqb n 0 then pos 1 else pos n | negsuc n ↦ negsuc n ];
}

unfoldable pub has_arn : Text → List EventSourceMapping → Bool
has_arn arn [] = false
has_arn arn (row ∷ rows) = row.event_source_arn == arn || has_arn arn rows

-- From the loop of AddEventSourceMapping on.
unfoldable pub add_row : Bool → EventSourceMapping → List EventSourceMapping → Result MappingFile
add_row written m rows =
    if has_arn m.event_source_arn rows
    then err mapping_exists
    else save written (rows ++ with_defaults m ∷ [])

unfoldable pub add_event_source_mapping :
    Bool → EventSourceMapping → MappingFile → Result MappingFile
add_event_source_mapping written m file =
    if (m.function_name == []) || (m.event_source_arn == [])
    then err fields_required
    else do rows ← load file; add_row written m rows

-- The loop of DeleteByUUID.
unfoldable pub without : Text → List EventSourceMapping → List EventSourceMapping
without uuid [] = []
without uuid (row ∷ rows) =
    let rest = without uuid rows in if not (row.uuid == uuid) then row ∷ rest else rest

-- From the loop of DeleteByUUID on.
unfoldable pub delete_row : Bool → Text → List EventSourceMapping → Result MappingFile
delete_row written uuid rows =
    if eqb (length (without uuid rows)) (length rows)
    then err no_such_mapping
    else save written (without uuid rows)

unfoldable pub delete_by_uuid : Bool → Text → MappingFile → Result MappingFile
delete_by_uuid written uuid file =
    if uuid == [] then err empty_uuid else do rows ← load file; delete_row written uuid rows

unfoldable pub list_event_source_mappings : MappingFile → Result (List EventSourceMapping)
list_event_source_mappings file = load file
