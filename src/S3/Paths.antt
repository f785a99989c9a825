-- ===== src/S3/Paths.antt =====
-- The file of an object: one path for each region, bucket and key, below the directory of the bucket
-- (internal/s3buckets/object.go).
use twister_aws.Base.{
  Text, ◌≡◌, ◌≢◌, ◌↔◌, refl, sym, subst, ◌∙◌, true, Lacks, [], ◌∷◌, ◌++◌, append_assoc, arith,
}
use twister_aws.Base.Results.{ok}
use twister_aws.Base.Strings.{has_prefix}
use twister_aws.Base.Strings.Laws.{append_at_inj, has_prefix-append}
use twister_aws.Region.{normalize_region, is_valid_region_segment, is_lower_or_digit}
use twister_aws.Region.Laws.{is_valid_region_segment-Lacks}
use twister_aws.S3.{
  Manager, matches_bucket_tail, matches_bucket_name, is_valid_bucket_name, validate_object_key,
  bucket_path, object_path,
}

matches_bucket_tail-Lacks : (s : Text) → matches_bucket_tail s ≡ true → Lacks b'/' s
unfolding matches_bucket_tail is_lower_or_digit
matches_bucket_tail-Lacks [] h = tt
matches_bucket_tail-Lacks (c ∷ []) h = (ground arith, tt)
matches_bucket_tail-Lacks (c ∷ d ∷ s) h =
    (ground arith, matches_bucket_tail-Lacks (d ∷ s) (ground arith))

matches_bucket_name-Lacks : (s : Text) → matches_bucket_name s ≡ true → Lacks b'/' s
unfolding matches_bucket_name is_lower_or_digit
matches_bucket_name-Lacks [] h = tt
matches_bucket_name-Lacks (c ∷ s) h = (ground arith, matches_bucket_tail-Lacks s (ground arith))

is_valid_bucket_name-Lacks : (s : Text) → is_valid_bucket_name s ≡ true → Lacks b'/' s
unfolding is_valid_bucket_name
is_valid_bucket_name-Lacks s h = matches_bucket_name-Lacks s (ground arith)

-- What a path that is given out says of its region, its bucket and its key.
pub record IsPathOf (region bucket key p : Text) : Type 0 where
  pub region_valid : is_valid_region_segment (normalize_region region) ≡ true
  pub bucket_valid : is_valid_bucket_name bucket ≡ true
  pub key_valid : validate_object_key key ≡ true
  pub path : p ≡ bucket_path region bucket ++ b'/' ∷ key

pub object_path-IsPathOf :
    (region bucket key p : Text) (m : Manager)
    → object_path region bucket key m ≡ ok p
    → IsPathOf region bucket key p
unfolding object_path
object_path-IsPathOf region bucket key p m h = record {
  region_valid = ground arith;
  bucket_valid = ground arith;
  key_valid = ground arith;
  path = ground arith;
}

path_shape :
    (region bucket key : Text)
    → bucket_path region bucket ++ b'/' ∷ key
      ≡ normalize_region region ++ b'/' ∷ (bucket ++ b'/' ∷ key)
unfolding bucket_path
path_shape region bucket key = append_assoc (normalize_region region) (b'/' ∷ bucket) (b'/' ∷ key)

-- Two objects share a file exactly when their normalised regions, their buckets and their keys agree.
pub object_path_iff :
    (r q n k x y p p' : Text) (m m' : Manager)
    → object_path r n x m ≡ ok p
    → object_path q k y m' ≡ ok p'
    → (p ≡ p') ↔ ((normalize_region r ≡ normalize_region q) × (n ≡ k) × (x ≡ y))
object_path_iff r q n k x y p p' m m' h h' =
    let a = object_path-IsPathOf r n x p m h in
    let b = object_path-IsPathOf q k y p' m' h' in
    let left = a.path ∙ path_shape r n x in
    let right = b.path ∙ path_shape q k y in
    (
      λ e.
          let outer =
            append_at_inj b'/' (normalize_region r) (normalize_region q) (n ++ b'/' ∷ x)
              (k ++ b'/' ∷ y) (is_valid_region_segment-Lacks (normalize_region r) a.region_valid)
              (is_valid_region_segment-Lacks (normalize_region q) b.region_valid)
              (sym left ∙ (e ∙ right)) in
          let inner =
            append_at_inj b'/' n k x y (is_valid_bucket_name-Lacks n a.bucket_valid)
              (is_valid_bucket_name-Lacks k b.bucket_valid) outer.1 in
          (outer.0, inner.0, inner.1),
      λ e. left ∙ (cc (e.0, e.1, e.2) ∙ sym right),
    )

has_one : (s t : Text) → ¬ Lacks b'/' (s ++ b'/' ∷ t)
has_one [] t h = h.0 refl
has_one (c ∷ s) t h = has_one s t h.1

-- The directory of a bucket is no object's file.
pub object_not_bucket :
    (r q n k x p : Text) (m : Manager)
    → object_path r n x m ≡ ok p
    → is_valid_region_segment (normalize_region q) ≡ true
    → is_valid_bucket_name k ≡ true
    → p ≢ bucket_path q k
unfolding bucket_path
object_not_bucket r q n k x p m h region bucket e =
    let a = object_path-IsPathOf r n x p m h in
    let both =
      append_at_inj b'/' (normalize_region r) (normalize_region q) (n ++ b'/' ∷ x) k
        (is_valid_region_segment-Lacks (normalize_region r) a.region_valid)
        (is_valid_region_segment-Lacks (normalize_region q) region)
        (sym (a.path ∙ path_shape r n x) ∙ e) in
    has_one n x (subst (λ t. Lacks b'/' t) (sym both.1) (is_valid_bucket_name-Lacks k bucket))

-- An object's file is below the directory of its bucket.
pub object_below_bucket :
    (region bucket key p : Text) (m : Manager)
    → object_path region bucket key m ≡ ok p
    → has_prefix p (bucket_path region bucket ++ b'/' ∷ []) ≡ true
object_below_bucket region bucket key p m h =
    let is = object_path-IsPathOf region bucket key p m h in
    rw (is.path, sym (append_assoc (bucket_path region bucket) (b'/' ∷ []) key))
      (has_prefix-append (bucket_path region bucket ++ b'/' ∷ []) key)
