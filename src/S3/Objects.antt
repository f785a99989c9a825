-- ===== src/S3/Objects.antt =====
-- Objects: internal/s3buckets/object.go.
pub mod Keeps
pub mod Put
pub mod Remove
use twister_aws.Base.{
  ℕ, Text, Map, codes, Bool, true, false, not, Option, none, some, List, [], ◌∷◌, ◌++◌, ◌==◌,
  length, if◌then◌else◌,
}
use twister_aws.Base.Results.{ok, err, ◌>>=◌}
use twister_aws.Base.Strings.{hex_encode}
use twister_aws.S3.{
  Manager, dir, file, Node, Result, invalid_object_key, no_such_bucket, no_such_key, other,
  bucket_path, object_path,
}
use twister_aws.S3.Files.{
  Disk, Stat, found, absent, unknown, stat, parents, make_dirs, write_file, Removal, remove_path,
  removed, not_there, not_empty, not_removed,
}
use twister_aws.S3.Notify.{Event, fire_object_created}

-- A bucket whose directory is there; `any` lets a file pass, as GET and DELETE do.
unfoldable pub check_there : (any : Bool) → Stat → Result (Unit {0})
check_there any absent = err no_such_bucket
check_there any unknown = err other
check_there any (found dir) = ok tt
check_there any (found (file content)) = if any then ok tt else err other

-- From the directories on: the ETag, the events and the manager after.
unfoldable pub put_file :
    (md5 : Text → Text)
    → Disk
    → (now region bucket key content path : Text) → Manager
    → Result Text × List Event × Manager
put_file md5 disk now region bucket key content p m =
    let made = make_dirs disk (parents p) m.nodes in
    if not made.0
    then (err other, [], record m { nodes = made.1 })
    else let wrote = write_file disk p content made.1 in
      let after : Manager = record m { nodes = wrote.1 } in
      let etag = hex_encode (md5 content) in
      if not wrote.0
      then (err other, [], after)
      else (ok etag, fire_object_created now region bucket key (length content) etag after, after)

unfoldable pub put_object :
    (md5 : Text → Text)
    → Disk
    → (now region bucket key content : Text) → Manager
    → Result Text × List Event × Manager
put_object md5 disk now region bucket key content m = elim (object_path region bucket key m) [
  | err e ↦ (err e, [], m)
  | ok p ↦ elim (check_there false (stat disk (bucket_path region bucket) m.nodes)) [
    | err e ↦ (err e, [], m)
    | ok there ↦ put_file md5 disk now region bucket key content p m
  ]
]

-- From the stat of the object's file on.
unfoldable pub read_stat : (path : Text) → Stat → Result (Text × Text)
read_stat p absent = err no_such_key
read_stat p unknown = err other
read_stat p (found dir) = err invalid_object_key
read_stat p (found (file content)) = ok (p, content)

-- The path and the content of the file.
unfoldable pub get_object_file : Disk → (region bucket key : Text) → Manager → Result (Text × Text)
get_object_file disk region bucket key m = do
  there ← check_there true (stat disk (bucket_path region bucket) m.nodes)
  p ← object_path region bucket key m
  read_stat p (stat disk p m.nodes)

-- From the removal of the file on.
unfoldable pub object_removed : Manager → Removal → Result Manager
object_removed m (removed nodes) = ok (record m { nodes = nodes })
object_removed m not_there = err no_such_key
object_removed m not_empty = err other
object_removed m not_removed = err other

unfoldable pub delete_object : Disk → (region bucket key : Text) → Manager → Result Manager
delete_object disk region bucket key m = do
  there ← check_there true (stat disk (bucket_path region bucket) m.nodes)
  p ← object_path region bucket key m
  object_removed m (remove_path disk p m.nodes)
