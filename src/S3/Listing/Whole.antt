-- ===== src/S3/Listing/Whole.antt =====
-- A listing in one page against the objects that can be read: internal/s3buckets/list.go and object.go.
use twister_aws.Base.{
  ℕ, ◌+◌, ◌-◌, Text, ◌≡◌, ◌↔◌, refl, sym, ap, subst, ◌∙◌, true, false, some, List, [], ◌∷◌, ◌++◌,
  append_assoc, lookup, length, take, drop, ltb, arith, if◌then◌else◌,
}
use twister_aws.Base.Int.{ℤ}
use twister_aws.Base.Results.{ok, bind_ok}
use twister_aws.Base.Sort.{sort, elem, elem-sort}
use twister_aws.Base.Strings.{has_prefix}
use twister_aws.S3.{Manager, file, bucket_path}
use twister_aws.S3.Files.{Disk, stat}
use twister_aws.S3.Buckets.{check_bucket}
use twister_aws.S3.Buckets.Keeps.{check_bucket_lem}
use twister_aws.S3.Objects.{check_there, get_object_file}
use twister_aws.S3.Objects.Keeps.{there_found, stat-found, get_file_elim}
use twister_aws.S3.Paths.{object_path-IsPathOf}
use twister_aws.S3.Listing.{
  Page, collect_object_keys, start_of, rows_of, clamp_keys, page_from, list_page, list_objects_v2,
}
use twister_aws.S3.Listing.Listed.{
  is_listed, collect_file, collect_prefix, listed_object, object_listed,
}

take-length {ℓ} : {A : Type ℓ} (xs : List A) → take (length xs) xs ≡ xs
take-length [] = refl
take-length (x ∷ xs) = ap (λ ys. x ∷ ys) (take-length xs)

minus_zero : (n : ℕ) → n - 0 ≡ n
minus_zero n = omega arith

module _ (md5 : Text → Text) (disk : Disk) (region bucket : Text) (m : Manager) where
  -- A first page that is not truncated has the rows of all keys.
  page_from_whole :
      (max : ℕ) (keys : List Text) (page : Page)
      → page_from md5 disk region bucket max 0 keys m ≡ ok page
      → page.is_truncated ≡ false
      → rows_of md5 disk region bucket keys m ≡ ok page.objects
  unfolding page_from
  page_from_whole max keys page h whole =
      let end = if ltb (length keys) (0 + max) then length keys else 0 + max in
      bind_ok (rows_of md5 disk region bucket (take (end - 0) (drop 0 keys)) m) _ h
        λ rows listed rest.
          let t : ltb end (length keys) ≡ page.is_truncated = cc in
          let o : rows ≡ page.objects = cc in
          let e : end ≡ length keys = ground (arith, t, whole) in
          let same : take (end - 0) keys ≡ keys =
            ap (λ n. take n keys) (minus_zero end ∙ e) ∙ take-length keys in
          subst (λ ks. rows_of md5 disk region bucket ks m ≡ ok page.objects) same
            (listed ∙ ap (λ r. ok r) o)

  list_whole :
      (prefix : Text) (max_keys : ℤ) (page : Page)
      → list_objects_v2 md5 disk region bucket prefix max_keys [] m ≡ ok page
      → page.is_truncated ≡ false
      → (check_bucket region bucket m ≡ ok (bucket_path region bucket))
        × (check_there true (stat disk (bucket_path region bucket) m.nodes) ≡ ok tt)
        × (rows_of md5 disk region bucket
              (sort (collect_object_keys (bucket_path region bucket ++ b'/' ∷ []) prefix m.nodes))
              m
            ≡ ok page.objects)
  unfolding list_objects_v2 list_page start_of
  list_whole prefix max_keys page h whole =
      bind_ok (check_bucket region bucket m) _ h λ p checked h₁.
        bind_ok (check_there true (stat disk p m.nodes)) _ h₁ λ t there h₂.
          let c = check_bucket_lem region bucket p m checked in
          let root = bucket_path region bucket in
          (
            checked ∙ ap (λ x. ok x) c.2,
            subst (λ x. check_there true (stat disk x m.nodes) ≡ ok tt) c.2 there,
            subst
                (λ x.
                  rows_of md5 disk region bucket
                    (sort (collect_object_keys (x ++ b'/' ∷ []) prefix m.nodes)) m
                  ≡ ok page.objects)
                c.2
                (page_from_whole (clamp_keys max_keys)
                  (sort (collect_object_keys (p ++ b'/' ∷ []) prefix m.nodes)) page h₂ whole),
          )

  -- An object that can be read is among the keys, if it has the prefix.
  readable_collected :
      (prefix key q content : Text)
      → has_prefix key prefix ≡ true
      → get_object_file disk region bucket key m ≡ ok (q, content)
      → elem key
          (sort (collect_object_keys (bucket_path region bucket ++ b'/' ∷ []) prefix m.nodes))
        ≡ true
  readable_collected prefix key q content starts got =
      get_file_elim disk region bucket key q content m got λ node there path at.
        let root = bucket_path region bucket ++ b'/' ∷ [] in
        let is = object_path-IsPathOf region bucket key q m path in
        let e : q ≡ root ++ key =
          is.path ∙ sym (append_assoc (bucket_path region bucket) (b'/' ∷ []) key) in
        let file_there = (stat-found disk q m.nodes (file content) at).1 in
        elem-sort key (collect_object_keys root prefix m.nodes)
        ∙ collect_file root prefix key content m.nodes
            (subst (λ x. lookup x m.nodes ≡ some (file content)) e file_there) starts

  -- A listing from the start that is not truncated shows a key if and only if the key has the prefix and a GET
  -- of the object finds its file.
  pub list_objects_v2_iff :
      (prefix : Text) (max_keys : ℤ) (page : Page) (key : Text)
      → list_objects_v2 md5 disk region bucket prefix max_keys [] m ≡ ok page
      → page.is_truncated ≡ false
      → (is_listed key page.objects ≡ true) ↔ (
          (has_prefix key prefix ≡ true)
          × ((got : Text × Text) × (get_object_file disk region bucket key m ≡ ok got)))
  list_objects_v2_iff prefix max_keys page key h whole =
      let w = list_whole prefix max_keys page h whole in
      let root = bucket_path region bucket ++ b'/' ∷ [] in
      let keys = sort (collect_object_keys root prefix m.nodes) in
      let b = there_found (stat disk (bucket_path region bucket) m.nodes) w.1 in
      (
        λ l.
            let r = listed_object md5 disk region bucket m keys page.objects key b.0 b.1 w.2 l in
            (
              collect_prefix root prefix key m.nodes
                  (sym (elem-sort key (collect_object_keys root prefix m.nodes)) ∙ r.0),
              r.1,
            ),
        λ r.
            object_listed md5 disk region bucket m keys page.objects key r.1.0.0 r.1.0.1 w.2
              (readable_collected prefix key r.1.0.0 r.1.0.1 r.0 r.1.1) r.1.1,
      )
