-- ===== src/S3/Rest/Safety.antt =====
-- Which objects a request of S3 may change: internal/s3buckets/http.go.
use twister_aws.Base.{
  Text, codes, ◌≡◌, refl, subst, ◌∙◌, Bool, true, false, ◌&&◌, ◌||◌, none, some, List, [], ◌==◌,
  insert, has_key, if_lem, option_lem, arith,
}
use twister_aws.Base.Results.{ok, err, result_lem}
use twister_aws.Base.Files.{holds}
use twister_aws.S3.{Manager, QueueNotification, Result, bucket_path, object_path}
use twister_aws.S3.Files.{Disk, stat}
use twister_aws.S3.Notify.{Event, notification_file_path, notification_of, save_notification_config}
use twister_aws.S3.Buckets.{create_bucket, delete_bucket}
use twister_aws.S3.Objects.{check_there, put_object, delete_object}
use twister_aws.S3.Objects.Keeps.{KeepsObjects}
use twister_aws.S3.Objects.Put.{IsPut, refused, cut_short, stored, put_object-IsPut}
use twister_aws.S3.Rest.{
  Request, Host, Reply, parse_s3_path, put_bucket_notification, put_request, delete_request,
  handle_s3_rest,
}
use twister_aws.S3.Objects.Remove.{fewer, same-KeepsObjects, get_notifications, delete_object-Keeps}
use twister_aws.S3.Buckets.Keeps.{delete_bucket-Keeps, create_bucket-Keeps}

-- Whether a request writes the object whose file is at a path: it is the PUT or the DELETE of that object.
unfoldable pub is_written : (region : Text) → Request → Manager → (path : Text) → Bool
is_written region r m q = elim (parse_s3_path r.path) [
  | none ↦ false
  | some to ↦ elim (object_path region to.0 to.1 m) [
    | err e ↦ false
    | ok p ↦ ((r.method == codes "PUT") || (r.method == codes "DELETE")) && (p == q)
  ]
]

put_object-Keeps :
    (md5 : Text → Text) (disk : Disk) (now region bucket key content : Text) (m : Manager)
    (n : Text → Bool) (done : Result Text × List Event × Manager)
    → ((p : Text)
        → object_path region bucket key m ≡ ok p
        → (q : Text) → n q ≡ false
        → (p == q) ≡ false)
    → IsPut md5 disk now region bucket key content m done
    → KeepsObjects disk m done.2 n
put_object-Keeps md5 disk now region bucket key content m n _ named (refused e after keeps _) =
    fewer disk m after (λ q. false) n (λ q h. refl) keeps
put_object-Keeps md5 disk now region bucket key content m n _ named
      (cut_short k p after path got keeps _) =
    fewer disk m after (λ q. p == q) n (named p path) keeps
put_object-Keeps md5 disk now region bucket key content m n _ named
      (stored p after path got keeps _) =
    fewer disk m after (λ q. p == q) n (named p path) keeps

save-Keeps :
    (disk : Disk) (written : Bool) (p : Text) (configs : List QueueNotification) (m after : Manager)
    (n : Text → Bool)
    → save_notification_config written p configs m ≡ ok after
    → KeepsObjects disk m after n
unfolding save_notification_config
save-Keeps disk true p configs m after n h =
    let e : record m { notifications = insert p (holds configs) m.notifications } ≡ after = cc in
    subst (λ x. KeepsObjects disk m x n) e
      (record {
        kept = λ r b k q c apart got.
            get_notifications disk r b k m (insert p (holds configs) m.notifications) ∙ got;
      })
save-Keeps disk false p configs m after n h = ground arith

put_bucket_notification-Keeps :
    (host : Host) (region bucket : Text) (r : Request) (m : Manager) (n : Text → Bool)
    → KeepsObjects host.disk m (put_bucket_notification host region bucket r m).1 n
unfolding put_bucket_notification
put_bucket_notification-Keeps host region bucket r m n =
    let P : Reply × Manager → Type 0 = λ done. KeepsObjects host.disk m done.1 n in
    let same = same-KeepsObjects host.disk m n in
    result_lem P (check_there true (stat host.disk (bucket_path region bucket) m.nodes))
      (λ t there.
        result_lem P (notification_file_path region bucket m)
          (λ p path.
            option_lem P (notification_of r.content_type r.notification) (λ e. same)
              λ configs e.
                result_lem P (save_notification_config host.written p configs m)
                  (λ after wrote. save-Keeps host.disk host.written p configs m after n wrote)
                  (λ x e. same))
          (λ x e. same))
      (λ x e. same)

-- Which requests name an object.
Named : (region bucket key : Text) → Manager → (Text → Bool) → Type 0
Named region bucket key m n =
    (p : Text)
    → object_path region bucket key m ≡ ok p
    → (q : Text) → n q ≡ false
    → (p == q) ≡ false

put_request-Keeps :
    (host : Host) (region bucket key : Text) (r : Request) (m : Manager) (n : Text → Bool)
    → Named region bucket key m n
    → KeepsObjects host.disk m (put_request host region bucket key r m).2 n
unfolding put_request Named
put_request-Keeps host region bucket key r m n named =
    let P : Reply × List Event × Manager → Type 0 = λ done. KeepsObjects host.disk m done.2 n in
    let made = create_bucket host.disk region bucket m in
    let put = put_object host.md5 host.disk host.now region bucket key r.put_body m in
    let made_keeps =
      fewer host.disk m made.1 (λ q. false) n (λ q h. refl)
        (create_bucket-Keeps host.disk region bucket m) in
    let put_keeps =
      put_object-Keeps host.md5 host.disk host.now region bucket key r.put_body m n put named
        (put_object-IsPut host.md5 host.disk host.now region bucket key r.put_body m) in
    if_lem P (key == [])
      (λ t.
        if_lem P (has_key (codes "notification") r.query)
          (λ u. put_bucket_notification-Keeps host region bucket r m n)
          (λ f. result_lem P made.0 (λ x e. made_keeps) (λ x e. made_keeps)))
      (λ f. result_lem P put.0 (λ x e. put_keeps) (λ x e. put_keeps))

delete_request-Keeps :
    (host : Host) (region bucket key : Text) (m : Manager) (n : Text → Bool)
    → Named region bucket key m n
    → KeepsObjects host.disk m (delete_request host region bucket key m).1 n
unfolding delete_request Named
delete_request-Keeps host region bucket key m n named =
    let P : Reply × Manager → Type 0 = λ done. KeepsObjects host.disk m done.1 n in
    let same = same-KeepsObjects host.disk m n in
    if_lem P (key == [])
      (λ t.
        result_lem P (delete_bucket host.disk host.written region bucket m)
          (λ after h.
            fewer host.disk m after (λ q. false) n (λ q x. refl)
              (delete_bucket-Keeps host.disk host.written region bucket m after h))
          (λ x e. same))
      (λ f.
        result_lem P (delete_object host.disk region bucket key m)
          (λ after h. delete_object-Keeps host.disk region bucket key m after n named h)
          (λ x e. same))

is_written-Named :
    (region : Text) (r : Request) (m : Manager) (to : Text × Text)
    → parse_s3_path r.path ≡ some to
    → ((r.method == codes "PUT") || (r.method == codes "DELETE")) ≡ true
    → Named region to.0 to.1 m (is_written region r m)
unfolding is_written Named
is_written-Named region r m to parsed writes p path q apart =
    ground (arith, parsed, writes, path, apart)

-- Whatever a request of S3 is answered, every object that could be read before it can be read after it, with
-- the same content, but for the object that the request writes: the one of a PUT or a DELETE with its key. That
-- holds for the requests on buckets too, and for those that fail half-way.
pub handle_s3_rest-KeepsObjects :
    (host : Host) (region : Text) (r : Request) (m : Manager)
    → KeepsObjects host.disk m (handle_s3_rest host region r m).2 (is_written region r m)
unfolding handle_s3_rest
handle_s3_rest-KeepsObjects host region r m =
    let n = is_written region r m in
    let P : Reply × List Event × Manager → Type 0 = λ done. KeepsObjects host.disk m done.2 n in
    let same = same-KeepsObjects host.disk m n in
    option_lem P (parse_s3_path r.path) (λ e. same)
      λ to parsed.
        if_lem P (r.method == codes "PUT")
          (λ t.
            put_request-Keeps host region to.0 to.1 r m n
              (is_written-Named region r m to parsed (ground (arith, t))))
          λ f.
            if_lem P (r.method == codes "DELETE")
              (λ t.
                delete_request-Keeps host region to.0 to.1 m n
                  (is_written-Named region r m to parsed (ground (arith, t))))
              λ g.
                if_lem P ((r.method == codes "GET") || (r.method == codes "HEAD")) (λ t. same)
                  (λ h. same)
