-- ===== src/S3/Buckets/Keeps.antt =====
-- The calls on buckets keep all objects: internal/s3buckets/store.go.
use twister_aws.Base.{
  Text, Map, ◌≡◌, refl, sym, subst, ◌∙◌, Bool, true, false, remove, eq_of_ne, if_lem, option_lem,
  arith,
}
use twister_aws.Base.Results.{ok, bind_ok, result_lem}
use twister_aws.Region.{normalize_region, is_valid_region_segment}
use twister_aws.S3.{Manager, Node, dir, file, Result, is_valid_bucket_name, bucket_path}
use twister_aws.S3.Files.{
  Disk, Stat, found, absent, unknown, stat, make_dir, remove_path, Removal, removed, not_there,
  not_empty, not_removed,
}
use twister_aws.S3.Notify.{notification_file_path}
use twister_aws.S3.Buckets.{
  check_bucket, make_bucket, create_bucket, drop_notifications, after_removal, delete_found,
  delete_bucket,
}
use twister_aws.S3.Objects.Keeps.{KeepsObjects, made-KeepsObjects, make_dir-Keeps, get_file_elim}
use twister_aws.S3.Paths.{object_not_bucket}
use twister_aws.S3.Objects.Remove.{
  same-KeepsObjects, remove_path-IsRemoval, dir_bare, removal-KeepsObjects, get_notifications,
  keeps_trans,
}

drop_notifications-Keeps :
    (disk : Disk) (written : Bool) (region name : Text) (m : Manager) (n : Text → Bool)
    → KeepsObjects disk m (drop_notifications written region name m) n
unfolding drop_notifications
drop_notifications-Keeps disk written region name m n =
    let P : Manager → Type 0 = λ after. KeepsObjects disk m after n in
    result_lem P (notification_file_path region name m)
      (λ p path.
        if_lem P written
          (λ t. record {
            kept = λ r b k q c apart got.
                get_notifications disk r b k m (remove p m.notifications) ∙ got;
          })
          (λ f. same-KeepsObjects disk m n))
      (λ e h. same-KeepsObjects disk m n)

pub check_bucket_lem :
    (region name p : Text) (m : Manager)
    → check_bucket region name m ≡ ok p
    → (is_valid_region_segment (normalize_region region) ≡ true)
      × (is_valid_bucket_name name ≡ true)
      × (p ≡ bucket_path region name)
unfolding check_bucket
check_bucket_lem region name p m h = (ground arith, ground arith, ground arith)

after_removal-Keeps :
    (disk : Disk) (written : Bool) (region name : Text) (m after : Manager) (n : Text → Bool)
    (r : Removal)
    → ((nodes : Map Node) → r ≡ removed nodes → KeepsObjects disk m (record m { nodes = nodes }) n)
    → after_removal written region name m r ≡ ok after
    → KeepsObjects disk m after n
unfolding after_removal
after_removal-Keeps disk written region name m after n (removed nodes) keeps h =
    let e : drop_notifications written region name (record m { nodes = nodes }) ≡ after = cc in
    subst (λ x. KeepsObjects disk m x n) e
      (keeps_trans disk m (record m { nodes = nodes }) _ n (keeps nodes refl)
        (drop_notifications-Keeps disk written region name (record m { nodes = nodes }) n))
after_removal-Keeps disk written region name m after n not_empty keeps h = ground arith
after_removal-Keeps disk written region name m after n not_there keeps h = ground arith
after_removal-Keeps disk written region name m after n not_removed keeps h = ground arith

-- The bucket of a DELETE has nothing below it.
bucket_removal-Keeps :
    (disk : Disk) (region name : Text) (m : Manager) (nodes : Map Node)
    → is_valid_region_segment (normalize_region region) ≡ true
    → is_valid_bucket_name name ≡ true
    → stat disk (bucket_path region name) m.nodes ≡ found dir
    → remove_path disk (bucket_path region name) m.nodes ≡ removed nodes
    → KeepsObjects disk m (record m { nodes = nodes }) (λ q. false)
bucket_removal-Keeps disk region name m nodes valid named at h =
    let p = bucket_path region name in
    let is = remove_path-IsRemoval disk p m.nodes nodes h in
    let bare = dir_bare disk p m.nodes nodes at is in
    let keeps =
      removal-KeepsObjects disk p m nodes is
        (λ r b k q path child e. absurd (ground (arith, bare, child))) in
    record {
      kept = λ r b k q c apart got. get_file_elim disk r b k q c m got λ node there path file_there.
          keeps.kept r b k q c
            (eq_of_ne p q (λ e. object_not_bucket r region b name k q m path valid named (sym e)))
            got;
    }

delete_found-Keeps :
    (disk : Disk) (written : Bool) (region name : Text) (m after : Manager) (s : Stat)
    → is_valid_region_segment (normalize_region region) ≡ true
    → is_valid_bucket_name name ≡ true
    → stat disk (bucket_path region name) m.nodes ≡ s
    → delete_found disk written region name (bucket_path region name) m s ≡ ok after
    → KeepsObjects disk m after (λ q. false)
unfolding delete_found
delete_found-Keeps disk written region name m after absent valid named at h = ground arith
delete_found-Keeps disk written region name m after unknown valid named at h = ground arith
delete_found-Keeps disk written region name m after (found (file content)) valid named at h =
    ground arith
delete_found-Keeps disk written region name m after (found dir) valid named at h =
    after_removal-Keeps disk written region name m after (λ q. false)
      (remove_path disk (bucket_path region name) m.nodes)
      (λ nodes e. bucket_removal-Keeps disk region name m nodes valid named at e) h

pub delete_bucket-Keeps :
    (disk : Disk) (written : Bool) (region name : Text) (m after : Manager)
    → delete_bucket disk written region name m ≡ ok after
    → KeepsObjects disk m after (λ q. false)
unfolding delete_bucket
delete_bucket-Keeps disk written region name m after h =
    bind_ok (check_bucket region name m) _ h λ p checked rest.
      let c = check_bucket_lem region name p m checked in
      delete_found-Keeps disk written region name m after
        (stat disk (bucket_path region name) m.nodes) c.0 c.1 refl
        (subst (λ x. delete_found disk written region name x m (stat disk x m.nodes) ≡ ok after) c.2
          rest)

make_bucket-Keeps :
    (disk : Disk) (p : Text) (m : Manager) (s : Stat)
    → KeepsObjects disk m (make_bucket disk p m s).1 (λ q. false)
unfolding make_bucket
make_bucket-Keeps disk p m (found dir) = same-KeepsObjects disk m (λ q. false)
make_bucket-Keeps disk p m (found (file content)) = same-KeepsObjects disk m (λ q. false)
make_bucket-Keeps disk p m unknown = same-KeepsObjects disk m (λ q. false)
make_bucket-Keeps disk p m absent =
    option_lem {B = Result (Unit {0}) × Manager} (λ done. KeepsObjects disk m done.1 (λ q. false))
      (make_dir disk p m.nodes) (λ e. same-KeepsObjects disk m (λ q. false))
      (λ made e. made-KeepsObjects disk m made (make_dir-Keeps disk p m.nodes made e))

pub create_bucket-Keeps :
    (disk : Disk) (region name : Text) (m : Manager)
    → KeepsObjects disk m (create_bucket disk region name m).1 (λ q. false)
unfolding create_bucket
create_bucket-Keeps disk region name m =
    let P : Result (Unit {0}) × Manager → Type 0 =
      λ done. KeepsObjects disk m done.1 (λ q. false) in
    let same = same-KeepsObjects disk m (λ q. false) in
    result_lem P (check_bucket region name m)
      (λ p checked.
        option_lem P (make_dir disk (normalize_region region) m.nodes) (λ e. same)
          λ made e.
            let m' : Manager = record m { nodes = made } in
            keeps_trans disk m m' _ (λ q. false)
              (made-KeepsObjects disk m made
                (make_dir-Keeps disk (normalize_region region) m.nodes made e))
              (make_bucket-Keeps disk p m' (stat disk p made)))
      (λ e h. same)
