-- ===== src/S3.antt =====
-- S3: internal/s3buckets. Files has what the package asks of the file system, Buckets is store.go, Objects
-- object.go, Listing list.go, Notify bucket_notify.go and s3event.go, and Rest http.go.
pub mod Files
pub mod Notify
pub mod Buckets
pub mod Objects
pub mod Listing
pub mod Rest
pub mod Sink
pub mod Paths
use twister_aws.Base.{
  ℕ, Text, Map, codes, Bool, true, false, not, ◌&&◌, ◌||◌, Option, none, some, List, [], ◌∷◌, ◌++◌,
  ◌==◌, eqb, ltb, length, if◌then◌else◌,
}
use twister_aws.Base.Files.{File}
use twister_aws.Base.Results
use twister_aws.Base.Results.{ok, err}
use twister_aws.Base.Strings.{after_first, split}
use twister_aws.Region.{normalize_region, is_valid_region_segment, is_lower_or_digit}

pub data Fault : Type 0 where
  invalid_bucket_name invalid_object_key invalid_region bucket_already_exists no_such_bucket : Fault
  bucket_not_empty no_such_key invalid_list_continuation : Fault
  -- an error that is none of the package's own
  other : Fault

abbrev pub Result {ℓ} : Type ℓ → Type ℓ
Result = Results.Result Fault

pub data Node : Type 0 where
  dir : Node
  file : (content : Text) → Node

pub record QueueNotification : Type 0 where
  pub id : Text
  pub queue_arn : Text
  pub events : List Text

-- The directories and files by their paths below Root, and the notifications by the paths of their files
-- below Root/.s3-notifications. The name of a region has no dot in front, so the two do not meet.
pub record Manager : Type 0 where
  pub root : Text
  pub nodes : Map Node
  pub notifications : Map (File (List QueueNotification))
  pub has_events : Bool

-- [a-z0-9.-]*[a-z0-9]$
unfoldable pub matches_bucket_tail : Text → Bool
matches_bucket_tail [] = false
matches_bucket_tail (c ∷ []) = is_lower_or_digit c
matches_bucket_tail (c ∷ d ∷ s) =
    (is_lower_or_digit c || (eqb c b'.' || eqb c b'-')) && matches_bucket_tail (d ∷ s)

-- ^[a-z0-9][a-z0-9.-]*[a-z0-9]$
unfoldable pub matches_bucket_name : Text → Bool
matches_bucket_name [] = false
matches_bucket_name (c ∷ s) = is_lower_or_digit c && matches_bucket_tail s

unfoldable pub is_valid_bucket_name : Text → Bool
is_valid_bucket_name s =
    if ltb (length s) 3 || ltb 63 (length s)
    then false
    else elim (after_first s (codes "..")) [ some rest ↦ false | none ↦ matches_bucket_name s ]

-- The path below Root.
unfoldable pub bucket_path : (region name : Text) → Text
bucket_path region name = normalize_region region ++ b'/' ∷ name

unfoldable pub is_segment : Text → Bool
is_segment p = not (p == []) && (not (p == codes ".") && not (p == codes ".."))

unfoldable pub are_segments : List Text → Bool
are_segments [] = true
are_segments (p ∷ ps) = is_segment p && are_segments ps

unfoldable pub validate_object_key : Text → Bool
validate_object_key key = not (key == []) && are_segments (split key b'/')

unfoldable pub object_path : (region bucket key : Text) → Manager → Result Text
object_path region bucket key m =
    if not (is_valid_region_segment (normalize_region region))
    then err invalid_region
    else if not (is_valid_bucket_name bucket)
    then err invalid_bucket_name
    else if not (validate_object_key key)
    then err invalid_object_key
    else if m.root == []
    then err other
    else ok (bucket_path region bucket ++ b'/' ∷ key)
