-- ===== src/S3/Buckets.antt =====
-- Buckets: internal/s3buckets/store.go.
pub mod Keeps
use twister_aws.Base.{
  ℕ, Text, Map, codes, Bool, true, false, not, Option, none, some, List, [], ◌∷◌, ◌++◌, ◌==◌,
  remove, if◌then◌else◌,
}
use twister_aws.Base.Results.{ok, err, ◌>>=◌}
use twister_aws.Region.{normalize_region, is_valid_region_segment}
use twister_aws.S3.{
  Manager, dir, file, Node, Result, invalid_region, invalid_bucket_name, bucket_already_exists,
  no_such_bucket, bucket_not_empty, other, is_valid_bucket_name, bucket_path,
}
use twister_aws.S3.Files.{
  Disk, Stat, found, absent, unknown, stat, make_dir, Removal, remove_path, removed, not_there,
  not_empty, not_removed,
}
use twister_aws.S3.Notify.{notification_file_path}

-- The checks that the calls on a bucket begin with.
unfoldable pub check_bucket : (region name : Text) → Manager → Result Text
check_bucket region name m =
    if not (is_valid_region_segment (normalize_region region))
    then err invalid_region
    else if not (is_valid_bucket_name name)
    then err invalid_bucket_name
    else if m.root == []
    then err other
    else ok (bucket_path region name)

-- From the look at the bucket on.
unfoldable pub make_bucket : Disk → (path : Text) → Manager → Stat → Result (Unit {0}) × Manager
make_bucket disk p m (found dir) = (err bucket_already_exists, m)
make_bucket disk p m (found (file content)) = (err other, m)
make_bucket disk p m unknown = (err other, m)
make_bucket disk p m absent = elim (make_dir disk p m.nodes) [
  | none ↦ (err other, m)
  | some made ↦ (ok tt, record m { nodes = made })
]

-- The directory of the region is made first, and stays.
unfoldable pub create_bucket : Disk → (region name : Text) → Manager → Result (Unit {0}) × Manager
create_bucket disk region name m = elim (check_bucket region name m) [
  | err e ↦ (err e, m)
  | ok p ↦ elim (make_dir disk (normalize_region region) m.nodes) [
    | none ↦ (err other, m)
    | some made ↦ make_bucket disk p (record m { nodes = made }) (stat disk p made)
  ]
]

-- The file of the notifications goes with the bucket; an error there is dropped.
unfoldable pub drop_notifications : Bool → (region name : Text) → Manager → Manager
drop_notifications written region name m = elim (notification_file_path region name m) [
  | err e ↦ m
  | ok p ↦ if written then record m { notifications = remove p m.notifications } else m
]

-- From the removal of the directory on.
unfoldable pub after_removal : Bool → (region name : Text) → Manager → Removal → Result Manager
after_removal written region name m (removed nodes) =
    ok (drop_notifications written region name (record m { nodes = nodes }))
after_removal written region name m not_empty = err bucket_not_empty
after_removal written region name m not_there = err other
after_removal written region name m not_removed = err other

-- From the look at the bucket on.
unfoldable pub delete_found :
    Disk → Bool → (region name path : Text) → Manager → Stat → Result Manager
delete_found disk written region name p m absent = err no_such_bucket
delete_found disk written region name p m unknown = err other
delete_found disk written region name p m (found (file content)) = err other
delete_found disk written region name p m (found dir) =
    after_removal written region name m (remove_path disk p m.nodes)

unfoldable pub delete_bucket : Disk → Bool → (region name : Text) → Manager → Result Manager
delete_bucket disk written region name m = do
  p ← check_bucket region name m
  delete_found disk written region name p m (stat disk p m.nodes)
