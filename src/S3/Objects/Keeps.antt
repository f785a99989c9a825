-- ===== src/S3/Objects/Keeps.antt =====
-- What it takes for the objects of S3 to stay: internal/s3buckets/object.go.
use twister_aws.Base.{
  Text, Map, ◌≡◌, refl, subst, ap, ◌∙◌, Bool, true, false, some, List, [], ◌∷◌, lookup,
  lookup-insert, eq_iff, option_lem, arith,
}
use twister_aws.Base.Results.{ok, bind_ok, then_ok}
use twister_aws.S3.{Manager, Node, dir, file, bucket_path, object_path}
use twister_aws.S3.Files.{Disk, Stat, found, absent, unknown, stat, make_dir, make_dirs}
use twister_aws.S3.Objects.{check_there, read_stat, get_object_file}

-- Nothing that was there is gone or changed.
pub record Keeps (before after : Map Node) : Type 0 where
  pub kept : (q : Text) (node : Node) → lookup q before ≡ some node → lookup q after ≡ some node

pub make_dir-Keeps :
    (disk : Disk) (p : Text) (nodes made : Map Node)
    → make_dir disk p nodes ≡ some made
    → Keeps nodes made
unfolding make_dir
make_dir-Keeps disk p nodes made h = record {
  kept = λ q node there.
      let inserted = lookup-insert p q dir nodes in ground (arith, h, there, inserted, eq_iff p q);
}

pub make_dirs-Keeps :
    (disk : Disk) (ps : List Text) (nodes : Map Node) → Keeps nodes (make_dirs disk ps nodes).1
unfolding make_dirs
make_dirs-Keeps disk [] nodes = record { kept = λ q node h. h }
make_dirs-Keeps disk (p ∷ ps) nodes =
    option_lem {B = Bool × Map Node} (λ r. Keeps nodes r.1) (make_dir disk p nodes)
      (λ e. record { kept = λ q node h. h })
      λ made e.
        let one = make_dir-Keeps disk p nodes made e in
        let rest = make_dirs-Keeps disk ps made in
        record { kept = λ q node h. rest.kept q node (one.kept q node h) }

pub stat-found :
    (disk : Disk) (q : Text) (nodes : Map Node) (node : Node)
    → stat disk q nodes ≡ found node
    → (disk.usable q ≡ true) × (lookup q nodes ≡ some node)
unfolding stat
stat-found disk q nodes node h = ground (arith, h)

pub found_of :
    (disk : Disk) (q : Text) (nodes : Map Node) (node : Node)
    → disk.usable q ≡ true
    → lookup q nodes ≡ some node
    → stat disk q nodes ≡ found node
unfolding stat
found_of disk q nodes node usable there = rw (usable, there) refl

pub there_found : (s : Stat) → check_there true s ≡ ok tt → (node : Node) × (s ≡ found node)
unfolding check_there
there_found absent h = ground arith
there_found unknown h = ground arith
there_found (found node) h = (node, refl)

pub dir_found : (s : Stat) → check_there false s ≡ ok tt → (node : Node) × (s ≡ found node)
unfolding check_there
dir_found absent h = ground arith
dir_found unknown h = ground arith
dir_found (found dir) h = (dir, refl)
dir_found (found (file content)) h = ground arith

pub found_there : (node : Node) → check_there true (found node) ≡ ok tt
unfolding check_there
found_there dir = refl
found_there (file content) = refl

pub object_path_nodes :
    (region bucket key : Text) (m : Manager) (nodes : Map Node)
    → object_path region bucket key (record m { nodes = nodes }) ≡ object_path region bucket key m
unfolding object_path
object_path_nodes region bucket key m nodes = refl

-- Every object that could be read before can be read after, but for paths that are named.
pub record KeepsObjects (disk : Disk) (before after : Manager) (named : Text → Bool) : Type 0 where
  pub kept :
      (region bucket key q content : Text)
      → named q ≡ false
      → get_object_file disk region bucket key before ≡ ok (q, content)
      → get_object_file disk region bucket key after ≡ ok (q, content)

read_stat_lem :
    (p q content : Text) (s : Stat)
    → read_stat p s ≡ ok (q, content)
    → (p ≡ q) × (s ≡ found (file content))
unfolding read_stat
read_stat_lem p q content absent h = ground arith
read_stat_lem p q content unknown h = ground arith
read_stat_lem p q content (found dir) h = ground arith
read_stat_lem p q content (found (file old)) h = ground (arith, h)

read_stat_file : (p content : Text) → read_stat p (found (file content)) ≡ ok (p, content)
unfolding read_stat
read_stat_file p content = refl

-- From the file on.
pub get_file_lem :
    (disk : Disk) (region bucket key q content : Text) (m : Manager) (node : Node)
    → stat disk (bucket_path region bucket) m.nodes ≡ found node
    → object_path region bucket key m ≡ ok q
    → stat disk q m.nodes ≡ found (file content)
    → get_object_file disk region bucket key m ≡ ok (q, content)
unfolding get_object_file
get_file_lem disk region bucket key q content m node there path at =
    then_ok _ _ (ap (check_there true) there ∙ found_there node)
      (then_ok _ _ path (ap (read_stat q) at ∙ read_stat_file q content))

pub get_file_elim {κ} :
    {P : Type κ} (disk : Disk) (region bucket key q content : Text) (m : Manager)
    → get_object_file disk region bucket key m ≡ ok (q, content)
    → ((node : Node)
        → stat disk (bucket_path region bucket) m.nodes ≡ found node
        → object_path region bucket key m ≡ ok q
        → stat disk q m.nodes ≡ found (file content)
        → P)
    → P
unfolding get_object_file
get_file_elim disk region bucket key q content m h k =
    bind_ok (check_there true (stat disk (bucket_path region bucket) m.nodes)) _ h λ t there h₁.
      bind_ok (object_path region bucket key m) _ h₁ λ p path h₂.
        let b = there_found (stat disk (bucket_path region bucket) m.nodes) there in
        let read = read_stat_lem p q content (stat disk p m.nodes) h₂ in
        k b.0 b.1 (path ∙ ap (λ x. ok x) read.0)
          (subst (λ x. stat disk x m.nodes ≡ found (file content)) read.0 read.1)

-- Keeping the nodes, but for one path, keeps the objects.
pub objects_of_nodes :
    (disk : Disk) (m : Manager) (nodes : Map Node) (named : Text → Bool)
    → ((q : Text) (node : Node)
        → named q ≡ false
        → lookup q m.nodes ≡ some node
        → lookup q nodes ≡ some node)
    → ((region bucket key q content : Text) (node : Node)
        → object_path region bucket key m ≡ ok q
        → lookup q m.nodes ≡ some (file content)
        → lookup (bucket_path region bucket) m.nodes ≡ some node
        → (now : Node) × (lookup (bucket_path region bucket) nodes ≡ some now))
    → KeepsObjects disk m (record m { nodes = nodes }) named
objects_of_nodes disk m nodes named kept there = record {
  kept = λ region bucket key q content apart h.
      let after : Manager = record m { nodes = nodes } in
      get_file_elim disk region bucket key q content m h λ node bucket_there path at.
        let b = stat-found disk (bucket_path region bucket) m.nodes node bucket_there in
        let f = stat-found disk q m.nodes (file content) at in
        let still = there region bucket key q content node path f.1 b.1 in
        get_file_lem disk region bucket key q content after still.0
          (found_of disk (bucket_path region bucket) nodes still.0 b.0 still.1)
          (object_path_nodes region bucket key m nodes ∙ path)
          (found_of disk q nodes (file content) f.0 (kept q (file content) apart f.1));
}

pub made-KeepsObjects :
    (disk : Disk) (m : Manager) (nodes : Map Node)
    → Keeps m.nodes nodes
    → KeepsObjects disk m (record m { nodes = nodes }) (λ q. false)
made-KeepsObjects disk m nodes k =
    objects_of_nodes disk m nodes (λ q. false) (λ q node apart h. k.kept q node h)
      (λ region bucket key q content node path at h.
        (node, k.kept (bucket_path region bucket) node h))
