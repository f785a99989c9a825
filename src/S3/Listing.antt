-- ===== src/S3/Listing.antt =====
-- The listing of a bucket in pages: internal/s3buckets/list.go.
pub mod Tokens
pub mod Pages
pub mod Listed
pub mod Whole
use twister_aws.Base.{
  ℕ, Text, Map, codes, Bool, true, false, not, ◌&&◌, ◌||◌, Option, none, some, List, [], ◌∷◌, ◌++◌,
  ◌+◌, ◌-◌, ◌==◌, eqb, ltb, length, take, drop, if◌then◌else◌,
}
use twister_aws.Base.Int.{ℤ, pos, negsuc}
use twister_aws.Base.Numbers.{atoi, decimal}
use twister_aws.Base.Results.{ok, err, ◌>>=◌}
use twister_aws.Base.Sort.{sort}
use twister_aws.Base.Strings.{has_prefix, hex_encode}
use twister_aws.S3.{
  Manager, dir, file, Node, Result, no_such_bucket, invalid_list_continuation, other, object_path,
}
use twister_aws.S3.Files.{Disk, Stat, found, absent, unknown, stat}
use twister_aws.S3.Buckets.{check_bucket}
use twister_aws.S3.Objects.{check_there}

pub record ListedObject : Type 0 where
  pub key : Text
  pub last_modified : ℤ
  pub size : ℕ
  pub etag : Text

pub record Page : Type 0 where
  pub objects : List ListedObject
  pub is_truncated : Bool
  pub next : Text

-- The key of a path below the directory of a bucket, which ends with a slash.
unfoldable pub key_of : (root path : Text) → Text
key_of root path = drop (length root) path

-- The order is that of the map and not of the walk; it is sorted next. Where a file stands for the bucket,
-- filepath.Rel gives a dot.
unfoldable pub collect_object_keys : (root prefix : Text) → Map Node → List Text
collect_object_keys root prefix [] = []
collect_object_keys root prefix ((path, dir) ∷ nodes) = collect_object_keys root prefix nodes
collect_object_keys root prefix ((path, file content) ∷ nodes) =
    let rest = collect_object_keys root prefix nodes in
    if path ++ b'/' ∷ [] == root
    then (if has_prefix (codes ".") prefix then codes "." ∷ rest else rest)
    else if not (has_prefix path root)
    then rest
    else if has_prefix (key_of root path) prefix
    then key_of root path ∷ rest
    else rest

unfoldable pub clamp_keys : ℤ → ℕ
clamp_keys (negsuc n) = 1000
clamp_keys (pos n) = if eqb n 0 then 1000 else if ltb 1000 n then 1000 else n

-- The offset that a token stands for, in a list of `total` keys.
unfoldable pub start_of : (token : Text) → (total : ℕ) → Result ℕ
start_of [] total = ok 0
start_of (c ∷ s) total = elim (atoi (c ∷ s)) [
  | none ↦ err invalid_list_continuation
  | some (negsuc n) ↦ err invalid_list_continuation
  | some (pos n) ↦ ok (if ltb total n then total else n)
]

-- fmt's %q of hexadecimal digits.
unfoldable pub quoted : Text → Text
quoted s = b'"' ∷ (s ++ b'"' ∷ [])

-- The row of a key, if it still has a file.
unfoldable pub row_at :
    (md5 : Text → Text) → Disk → (path key : Text) → Stat → Result (List ListedObject)
row_at md5 disk p key absent = ok []
row_at md5 disk p key unknown = err other
row_at md5 disk p key (found dir) = ok []
row_at md5 disk p key (found (file content)) = ok (
    record {
      key = key;
      last_modified = disk.modified p;
      size = length content;
      etag = quoted (hex_encode (md5 content));
    }
    ∷ [])

unfoldable pub row_of :
    (md5 : Text → Text) → Disk → (path key : Text) → Map Node → Result (List ListedObject)
row_of md5 disk p key nodes = row_at md5 disk p key (stat disk p nodes)

unfoldable pub rows_of :
    (md5 : Text → Text)
    → Disk
    → (region bucket : Text) → List Text
    → Manager
    → Result (List ListedObject)
rows_of md5 disk region bucket [] m = ok []
rows_of md5 disk region bucket (key ∷ keys) m = do
  p ← object_path region bucket key m
  row ← row_of md5 disk p key m.nodes
  rows ← rows_of md5 disk region bucket keys m
  ok (row ++ rows)

-- The page of the sorted keys from an offset on.
unfoldable pub page_from :
    (md5 : Text → Text)
    → Disk
    → (region bucket : Text) → (max start : ℕ) → List Text
    → Manager
    → Result Page
page_from md5 disk region bucket max start keys m =
    let end = if ltb (length keys) (start + max) then length keys else start + max in
    rows_of md5 disk region bucket (take (end - start) (drop start keys)) m >>= λ rows. ok (record {
      objects = rows;
      is_truncated = ltb end (length keys);
      next = if ltb end (length keys) then decimal end else [];
    })

-- From the sort on.
unfoldable pub list_page :
    (md5 : Text → Text)
    → Disk
    → (region bucket : Text) → (max_keys : ℤ) → (token : Text) → (keys : List Text) → Manager
    → Result Page
list_page md5 disk region bucket max_keys token keys m = do
  start ← start_of token (length keys)
  page_from md5 disk region bucket (clamp_keys max_keys) start keys m

unfoldable pub list_objects_v2 :
    (md5 : Text → Text)
    → Disk
    → (region bucket prefix : Text) → (max_keys : ℤ) → (token : Text) → Manager
    → Result Page
list_objects_v2 md5 disk region bucket prefix max_keys token m = do
  p ← check_bucket region bucket m
  there ← check_there true (stat disk p m.nodes)
  list_page md5 disk region bucket max_keys token
      (sort (collect_object_keys (p ++ b'/' ∷ []) prefix m.nodes)) m
