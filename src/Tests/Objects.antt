-- ===== src/Tests/Objects.antt =====
-- The theorems on S3, applied to a bucket of two objects and a queue.
use twister_aws.Base.{
  ℕ, suc, ◌<◌, ◌^◌, Text, codes, ◌≡◌, ◌↔◌, refl, true, false, none, some, List, [], ◌∷◌, ◌++◌, ◌==◌,
  lookup, length, lt_text, arith,
}
use twister_aws.Base.Int.{pos}
use twister_aws.Base.Results.{ok}
use twister_aws.Base.Sort.{sort}
use twister_aws.Base.Strings.{
  to_lower, trim_space, trim_left, trim_right, is_space, split, add_head, after_first, has_prefix,
  hex_encode,
}
use twister_aws.Region.{
  normalize_region, is_valid_region_segment, matches_region_segment, matches_tail,
  is_lower_or_digit, is_lower,
}
use twister_aws.S3.{
  Manager, dir, file, is_valid_bucket_name, matches_bucket_name, matches_bucket_tail,
  validate_object_key, are_segments, is_segment, bucket_path, object_path,
}
use twister_aws.S3.Files.{Disk, stat}
use twister_aws.S3.Notify.{Event}
use twister_aws.S3.Buckets.{check_bucket}
use twister_aws.S3.Objects.{check_there, put_object, get_object_file}
use twister_aws.S3.Objects.Keeps.{KeepsObjects}
use twister_aws.S3.Objects.Put.{IsPut, put_object-IsPut}
use twister_aws.S3.Listing.{
  ListedObject, Page, list_objects_v2, list_page, page_from, start_of, clamp_keys,
  collect_object_keys, key_of, rows_of, row_at, row_of, quoted,
}
use twister_aws.S3.Listing.Listed.{is_listed}
use twister_aws.S3.Listing.Whole.{list_objects_v2_iff}
use twister_aws.S3.Listing.Pages.{all_pages, all_pages_lem}
use twister_aws.S3.Rest.{Request, Host, handle_s3_rest}
use twister_aws.S3.Rest.Safety.{is_written, handle_s3_rest-KeepsObjects}
use twister_aws.S3.Sink.{deliver}
use twister_aws.S3.Sink.Delivery.{sent_to, deliver_lem}
use twister_aws.Sqs
use twister_aws.Sqs.{StoredMsg, messages}
use twister_aws.Tests.Data.{md5}

abbrev disk : Disk
disk = record { usable = λ p. true; cut = λ p c. none; modified = λ p. pos 0 }

abbrev eu_region : Text
eu_region = codes "eu"

abbrev box : Text
box = codes "box"

abbrev store : Manager
store = record {
  root = codes "d";
  nodes =
      (codes "eu", dir)
      ∷ (codes "eu/box", dir)
      ∷ (codes "eu/box/b", file (codes "y"))
      ∷ (codes "eu/box/a", file (codes "x"))
      ∷ [];
  notifications = [];
  has_events = true;
}

abbrev host : Host
host = record { md5 = md5; disk = disk; written = true; now = codes "t" }

abbrev deletes : Request
deletes = record {
  method = codes "DELETE";
  path = codes "/box/a";
  query = [];
  content_type = [];
  put_body = [];
  notification = record {
    is_blank = true;
    is_aws = none;
    as_aws = none;
    as_file = none;
    as_xml = none;
  };
}

handle_s3_rest-KeepsObjects_example :
    KeepsObjects disk store
      (handle_s3_rest host eu_region deletes store).2
      (is_written eu_region deletes store)
handle_s3_rest-KeepsObjects_example = handle_s3_rest-KeepsObjects host eu_region deletes store

put_object-IsPut_example :
    IsPut md5 disk
      (codes "t")
      eu_region
      box
      (codes "c")
      (codes "z")
      store
      (put_object md5 disk (codes "t") eu_region box (codes "c") (codes "z") store)
put_object-IsPut_example =
    put_object-IsPut md5 disk (codes "t") eu_region box (codes "c") (codes "z") store

abbrev listed_object : Text → Text → ListedObject
listed_object key content = record {
  key = key;
  last_modified = pos 0;
  size = length content;
  etag = quoted (hex_encode (md5 content));
}

abbrev two_objects : List ListedObject
two_objects = listed_object (codes "a") (codes "x") ∷ listed_object (codes "b") (codes "y") ∷ []

abbrev box_keys : List Text
box_keys = sort (collect_object_keys (codes "eu/box" ++ b'/' ∷ []) [] store.nodes)

box_path : check_bucket eu_region box store ≡ ok (codes "eu/box")
unfolding check_bucket normalize_region to_lower trim_space trim_left trim_right is_space
    is_valid_region_segment matches_region_segment matches_tail is_lower_or_digit is_lower
    is_valid_bucket_name matches_bucket_name matches_bucket_tail after_first has_prefix bucket_path
    ◌==◌
box_path = refl

box_there : check_there true (stat disk (codes "eu/box") store.nodes) ≡ ok tt
unfolding check_there stat lookup ◌==◌
box_there = refl

few_keys : length box_keys < 2 ^ 63
unfolding sort collect_object_keys key_of has_prefix ◌==◌ lt_text
few_keys = omega arith

lists : rows_of md5 disk eu_region box box_keys store ≡ ok two_objects
unfolding sort collect_object_keys key_of has_prefix ◌==◌ rows_of row_of row_at object_path
    normalize_region to_lower trim_space trim_left trim_right is_space is_valid_region_segment
    matches_region_segment matches_tail is_lower_or_digit is_lower is_valid_bucket_name
    matches_bucket_name matches_bucket_tail after_first bucket_path validate_object_key are_segments
    is_segment split add_head stat lookup lt_text
lists = refl

all_pages_lem_example :
    all_pages md5 disk eu_region box store (suc (length box_keys)) [] (pos 1) [] ≡ ok two_objects
all_pages_lem_example =
    all_pages_lem md5 disk eu_region box store [] (pos 1) (codes "eu/box") two_objects box_path
      box_there few_keys lists

abbrev box_page : Page
box_page = record { objects = two_objects; is_truncated = false; next = [] }

box_listed : list_objects_v2 md5 disk eu_region box [] (pos 0) [] store ≡ ok box_page
unfolding list_objects_v2 list_page page_from start_of clamp_keys check_bucket check_there sort
    collect_object_keys key_of has_prefix ◌==◌ rows_of row_of row_at object_path normalize_region
    to_lower trim_space trim_left trim_right is_space is_valid_region_segment matches_region_segment
    matches_tail is_lower_or_digit is_lower is_valid_bucket_name matches_bucket_name
    matches_bucket_tail after_first bucket_path validate_object_key are_segments is_segment split
    add_head stat lookup lt_text
box_listed = refl

list_objects_v2_iff_example : (is_listed (codes "a") two_objects ≡ true) ↔ (
    (has_prefix (codes "a") [] ≡ true)
    × ((got : Text × Text) × (get_object_file disk eu_region box (codes "a") store ≡ ok got)))
list_objects_v2_iff_example =
    list_objects_v2_iff md5 disk eu_region box store [] (pos 0) box_page (codes "a") box_listed refl

-- A queue that holds one message, and an event for it.
abbrev waiting : List StoredMsg
waiting = record { id = codes "0"; body = codes "old" } ∷ []

abbrev queues : Sqs.Manager
queues = record { root = codes "q"; files = (codes "eu/jobs.json", messages waiting) ∷ [] }

abbrev event : Event
event = record {
  sqs_region = eu_region;
  queue_name = codes "jobs";
  aws_region = eu_region;
  event_time = codes "t";
  configuration_id = [];
  bucket = box;
  bucket_arn = codes "arn:aws:s3:::box";
  key = codes "c";
  size = 1;
  etag = [];
}

abbrev numbered : ℕ → Text
numbered i = i ∷ []

jobs_there : lookup (codes "eu/jobs.json") queues.files ≡ some (messages waiting)
unfolding lookup ◌==◌
jobs_there = refl

deliver_lem_example :
    lookup
      (codes "eu/jobs.json")
      (deliver md5 true numbered (λ e. e.key) 0 (event ∷ []) queues).files
    ≡ some (
        messages (
          waiting
          ++ sent_to md5 numbered (λ e. e.key) (codes "eu/jobs.json") 0 (event ∷ []) queues))
deliver_lem_example =
    deliver_lem md5 numbered (λ e. e.key) (codes "eu/jobs.json") waiting 0 (event ∷ []) queues
      jobs_there
