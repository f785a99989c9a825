-- ===== src/S3/Rest.antt =====
-- The requests of S3: internal/s3buckets/http.go and the two handlers of bucket_notify.go.
pub mod Safety
use twister_aws.Base.{
  ℕ, Text, Map, codes, Bool, true, false, not, ◌&&◌, ◌||◌, Option, none, some, List, [], ◌∷◌, ◌++◌,
  ◌==◌, eqb, ltb, has_key, get_first, if◌then◌else◌,
}
use twister_aws.Base.Int.{ℤ, pos, negsuc}
use twister_aws.Base.Numbers.{atoi}
use twister_aws.Base.Results.{ok, err, ◌>>=◌}
use twister_aws.Base.Strings.{split, join, has_suffix, hex_encode}
use twister_aws.S3.{
  Manager, QueueNotification, Fault, invalid_bucket_name, invalid_object_key, invalid_region,
  bucket_already_exists, no_such_bucket, bucket_not_empty, no_such_key, invalid_list_continuation,
  other, bucket_path, is_segment, validate_object_key,
}
use twister_aws.S3.Files.{Disk, stat}
use twister_aws.S3.Notify.{
  Event, NotificationBody, notification_file_path, load_notification_config,
  save_notification_config, notification_of,
}
use twister_aws.S3.Buckets.{create_bucket, delete_bucket}
use twister_aws.S3.Objects.{check_there, put_object, get_object_file, delete_object}
use twister_aws.S3.Listing.{Page, list_objects_v2, quoted}

pub record Request : Type 0 where
  pub method : Text
  pub path : Text
  pub query : Map (List Text)
  pub content_type : Text
  pub put_body : Text
  pub notification : NotificationBody

pub data Reply : Type 0 where
  rest_error : (status : ℕ) (code : Text) → Reply
  done : (status : ℕ) → Reply
  -- the answer to the PUT of an object
  stored : (etag : Text) → Reply
  -- http.ServeFile, and its redirect to the directory of an index.html
  serves : (etag content : Text) → Reply
  redirected : (etag : Text) → Reply
  listed : (prefix : Text) (max_keys : ℤ) → Page → Reply
  configured : List QueueNotification → Reply

-- What the parts that are not the program's do.
pub record Host : Type 0 where
  pub md5 : Text → Text
  pub disk : Disk
  pub written : Bool
  pub now : Text

unfoldable pub trim_slashes_left : Text → Text
trim_slashes_left [] = []
trim_slashes_left (c ∷ s) = let rest = trim_slashes_left s in if eqb c b'/' then rest else c ∷ s

unfoldable pub trim_slashes_right : Text → Text
trim_slashes_right [] = []
trim_slashes_right (c ∷ s) =
    let rest = trim_slashes_right s in if eqb c b'/' && (rest == []) then [] else c ∷ rest

-- The bucket and the key, which is empty if there is none.
unfoldable pub parse_s3_path : Text → Option (Text × Text)
parse_s3_path [] = none
parse_s3_path (c ∷ s) =
    if not (eqb c b'/')
    then none
    else elim (split (trim_slashes_right (trim_slashes_left (c ∷ s))) b'/') [
      | [] ↦ none
      | bucket ∷ parts ↦ if not (is_segment bucket) then none else elim parts [
        | [] ↦ some (bucket, [])
        | part ∷ more ↦
            if validate_object_key (join (part ∷ more) (codes "/"))
            then some (bucket, join (part ∷ more) (codes "/"))
            else none
      ]
    ]

unfoldable pub create_error : Fault → Reply
create_error invalid_region = rest_error 400 (codes "InvalidRequest")
create_error invalid_bucket_name = rest_error 400 (codes "InvalidBucketName")
create_error bucket_already_exists = rest_error 409 (codes "BucketAlreadyOwnedByYou")
create_error _ = rest_error 500 (codes "InternalError")

unfoldable pub delete_error : Fault → Reply
delete_error invalid_region = rest_error 400 (codes "InvalidRequest")
delete_error invalid_bucket_name = rest_error 400 (codes "InvalidBucketName")
delete_error no_such_bucket = rest_error 404 (codes "NoSuchBucket")
delete_error bucket_not_empty = rest_error 409 (codes "BucketNotEmpty")
delete_error _ = rest_error 500 (codes "InternalError")

unfoldable pub put_error : Fault → Reply
put_error invalid_region = rest_error 400 (codes "InvalidRequest")
put_error invalid_bucket_name = rest_error 400 (codes "InvalidRequest")
put_error invalid_object_key = rest_error 400 (codes "InvalidRequest")
put_error no_such_bucket = rest_error 404 (codes "NoSuchBucket")
put_error _ = rest_error 500 (codes "InternalError")

-- Of GET and DELETE.
unfoldable pub object_error : Fault → Reply
object_error no_such_key = rest_error 404 (codes "NoSuchKey")
object_error e = put_error e

unfoldable pub list_error : Fault → Reply
list_error no_such_bucket = rest_error 404 (codes "NoSuchBucket")
list_error invalid_region = rest_error 400 (codes "InvalidRequest")
list_error invalid_bucket_name = rest_error 400 (codes "InvalidRequest")
list_error invalid_list_continuation = rest_error 400 (codes "InvalidArgument")
list_error _ = rest_error 500 (codes "InternalError")

-- The error of the look at the bucket of a notification.
unfoldable pub there_error : Fault → Reply
there_error no_such_bucket = rest_error 404 (codes "NoSuchBucket")
there_error _ = rest_error 500 (codes "InternalError")

unfoldable pub put_bucket_notification :
    Host → (region bucket : Text) → Request → Manager → Reply × Manager
put_bucket_notification host region bucket r m =
    elim (check_there true (stat host.disk (bucket_path region bucket) m.nodes)) [
      | err e ↦ (there_error e, m)
      | ok there ↦ elim (notification_file_path region bucket m) [
        | err e ↦ (rest_error 400 (codes "InvalidRequest"), m)
        | ok p ↦ elim (notification_of r.content_type r.notification) [
          | none ↦ (rest_error 400 (codes "InvalidArgument"), m)
          | some configs ↦ elim (save_notification_config host.written p configs m) [
            | err e ↦ (rest_error 500 (codes "InternalError"), m)
            | ok after ↦ (done 200, after)
          ]
        ]
      ]
    ]

unfoldable pub get_bucket_notification : Host → (region bucket : Text) → Manager → Reply
get_bucket_notification host region bucket m = elim (notification_file_path region bucket m) [
  | err e ↦ rest_error 400 (codes "InvalidRequest")
  | ok p ↦ elim (check_there true (stat host.disk (bucket_path region bucket) m.nodes)) [
    | err e ↦ there_error e
    | ok there ↦ elim (load_notification_config p m) [
      | err e ↦ rest_error 500 (codes "InternalError")
      | ok configs ↦ configured configs
    ]
  ]
]

-- The page size of a query: a number that is not positive, or is none, is left out.
unfoldable pub max_keys_of : Map (List Text) → ℤ
max_keys_of q = elim (atoi (get_first (codes "max-keys") q)) [
  | none ↦ pos 1000
  | some (negsuc n) ↦ pos 1000
  | some (pos n) ↦ if eqb n 0 || ltb 1000 n then pos 1000 else pos n
]

unfoldable pub list_bucket : Host → (region bucket : Text) → Map (List Text) → Manager → Reply
list_bucket host region bucket q m =
    let prefix = get_first (codes "prefix") q in
    elim (list_objects_v2 host.md5 host.disk region bucket prefix (max_keys_of q)
      (get_first (codes "continuation-token") q) m) [
        | err e ↦ list_error e
        | ok page ↦ listed prefix (max_keys_of q) page
      ]

unfoldable pub put_request :
    Host → (region bucket key : Text) → Request → Manager → Reply × List Event × Manager
put_request host region bucket key r m =
    if key == []
    then (if has_key (codes "notification") r.query
        then (let to = put_bucket_notification host region bucket r m in (to.0, [], to.1))
        else (let to = create_bucket host.disk region bucket m in
            elim to.0 [ err e ↦ (create_error e, [], to.1) | ok made ↦ (done 200, [], to.1) ]))
    else (let to = put_object host.md5 host.disk host.now region bucket key r.put_body m in
        elim to.0 [
          | err e ↦ (put_error e, to.1, to.2)
          | ok etag ↦ (stored (quoted etag), to.1, to.2)
        ])

unfoldable pub delete_request : Host → (region bucket key : Text) → Manager → Reply × Manager
delete_request host region bucket key m =
    if key == []
    then elim (delete_bucket host.disk host.written region bucket m) [
      | err e ↦ (delete_error e, m)
      | ok after ↦ (done 204, after)
    ]
    else elim (delete_object host.disk region bucket key m) [
      | err e ↦ (object_error e, m)
      | ok after ↦ (done 204, after)
    ]

-- GET, and HEAD.
unfoldable pub get_request : Host → (region bucket key : Text) → Request → Manager → Reply
get_request host region bucket key r m =
    if key == []
    then (if has_key (codes "notification") r.query
        then (if r.method == codes "GET"
            then get_bucket_notification host region bucket m
            else rest_error 405 (codes "MethodNotAllowed"))
        else if (r.method == codes "GET") && (get_first (codes "list-type") r.query == codes "2")
        then list_bucket host region bucket r.query m
        else rest_error 501 (codes "NotImplemented"))
    else elim (get_object_file host.disk region bucket key m) [
      | err e ↦ object_error e
      | ok file ↦
          let etag = quoted (hex_encode (host.md5 file.1)) in
          if has_suffix r.path (codes "/index.html") then redirected etag else serves etag file.1
    ]

unfoldable pub handle_s3_rest :
    Host → (region : Text) → Request → Manager → Reply × List Event × Manager
handle_s3_rest host region r m = elim (parse_s3_path r.path) [
  | none ↦ (rest_error 400 (codes "InvalidRequest"), [], m)
  | some to ↦
      if r.method == codes "PUT"
      then put_request host region to.0 to.1 r m
      else if r.method == codes "DELETE"
      then (let after = delete_request host region to.0 to.1 m in (after.0, [], after.1))
      else if (r.method == codes "GET") || (r.method == codes "HEAD")
      then (get_request host region to.0 to.1 r m, [], m)
      else (done 405, [], m)
]
