-- ===== src/Sqs/Paths.antt =====
-- The file of a queue: one path for each region and name.
use twister_aws.Base.{Text, codes, ◌≡◌, ◌↔◌, true, Lacks, [], ◌∷◌, ◌++◌, arith}
use mathlib.Core.List.{append_cancel_right}
use twister_aws.Base.Strings.Laws.{append_at_inj}
use twister_aws.Region.{normalize_region, is_valid_region_segment}
use twister_aws.Region.Laws.{is_valid_region_segment-Lacks}
use twister_aws.Sqs.{Manager, ok, all_queue_bytes, is_valid_queue_name, file_of, queue_path}

all_queue_bytes-Lacks : (s : Text) → all_queue_bytes s ≡ true → Lacks b'/' s
unfolding all_queue_bytes
all_queue_bytes-Lacks [] h = tt
all_queue_bytes-Lacks (c ∷ s) h = (ground arith, all_queue_bytes-Lacks s (ground arith))

is_valid_queue_name-Lacks : (s : Text) → is_valid_queue_name s ≡ true → Lacks b'/' s
unfolding is_valid_queue_name
is_valid_queue_name-Lacks s h = all_queue_bytes-Lacks s (ground arith)

-- What a path that is given out says of its region and its name.
record IsPathOf (region name p : Text) : Type 0 where
  pub region_valid : is_valid_region_segment (normalize_region region) ≡ true
  pub name_valid : is_valid_queue_name name ≡ true
  pub path : p ≡ file_of (normalize_region region) name

queue_path-IsPathOf :
    (region name p : Text) (m : Manager) → queue_path region name m ≡ ok p → IsPathOf region name p
unfolding queue_path
queue_path-IsPathOf region name p m h = record {
  region_valid = ground arith;
  name_valid = ground arith;
  path = ground arith;
}

-- Two queues share a file exactly when their normalised regions and their names agree.
pub queue_path_iff :
    (r q n k p p' : Text) (m m' : Manager)
    → queue_path r n m ≡ ok p
    → queue_path q k m' ≡ ok p'
    → (p ≡ p') ↔ ((normalize_region r ≡ normalize_region q) × (n ≡ k))
queue_path_iff r q n k p p' m m' h h' =
    let a = queue_path-IsPathOf r n p m h in
    let b = queue_path-IsPathOf q k p' m' h' in
    (
      λ e.
          let both =
            append_at_inj b'/' (normalize_region r) (normalize_region q) (n ++ codes ".json")
              (k ++ codes ".json")
              (is_valid_region_segment-Lacks (normalize_region r) a.region_valid)
              (is_valid_region_segment-Lacks (normalize_region q) b.region_valid)
              (cc (a.path, b.path, e)) in
          (both.0, append_cancel_right n k (codes ".json") both.1),
      λ e. cc (a.path, b.path, e.0, e.1),
    )
