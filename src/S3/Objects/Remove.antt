-- ===== src/S3/Objects/Remove.antt =====
-- Which objects a removal takes away: internal/s3buckets/object.go.
use twister_aws.Base.{
  Text, Map, ◌≡◌, ◌≢◌, refl, sym, subst, Bool, true, false, some, List, [], ◌∷◌, ◌++◌, ◌==◌, lookup,
  remove, lookup-remove, eq_iff, Bool-cases, ◌⊎◌, inl, inr, arith,
}
use twister_aws.Base.Results.{ok, bind_ok}
use twister_aws.Base.Strings.{has_prefix}
use twister_aws.Base.Files.{File}
use twister_aws.S3.{Manager, QueueNotification, Node, dir, file, bucket_path, object_path}
use twister_aws.S3.Files.{
  Disk, Stat, found, absent, unknown, stat, remove_found, remove_path, Removal, removed, not_there,
  not_empty, not_removed, has_child,
}
use twister_aws.S3.Objects.{check_there, get_object_file, object_removed, delete_object}
use twister_aws.S3.Objects.Keeps.{KeepsObjects, objects_of_nodes, stat-found}
use twister_aws.S3.Paths.{object_path-IsPathOf, object_not_bucket, object_below_bucket}

pub fewer :
    (disk : Disk) (m after : Manager) (n n' : Text → Bool)
    → ((q : Text) → n' q ≡ false → n q ≡ false)
    → KeepsObjects disk m after n
    → KeepsObjects disk m after n'
fewer disk m after n n' h k = record {
  kept =
      λ region bucket key q content apart got. k.kept region bucket key q content (h q apart) got;
}

pub same-KeepsObjects : (disk : Disk) (m : Manager) (n : Text → Bool) → KeepsObjects disk m m n
same-KeepsObjects disk m n = record { kept = λ region bucket key q content apart got. got }

-- A path that has a node, below a directory, makes it one that is not empty.
has_child_of :
    (p q : Text) (node : Node) (nodes : Map Node)
    → has_prefix q (p ++ b'/' ∷ []) ≡ true
    → lookup q nodes ≡ some node
    → has_child p nodes ≡ true
unfolding has_child lookup
has_child_of p q node [] below h = ground arith
has_child_of p q node (entry ∷ nodes) below h = elim (Bool-cases (entry.0 == q)) [
  | inl t ↦ let e = (eq_iff entry.0 q).0 t in ground (arith, e, below)
  | inr f ↦
      let rest = has_child_of p q node nodes below (ground (arith, f, h)) in ground (arith, rest)
]

-- What a removal takes away: one path, which is a file or has nothing below it.
pub record IsRemoval (p : Text) (nodes after : Map Node) : Type 0 where
  pub result : after ≡ remove p nodes
  pub bare :
      (has_child p nodes ≡ false) ⊎ ((content : Text) × (lookup p nodes ≡ some (file content)))

remove_found-IsRemoval :
    (disk : Disk) (p : Text) (nodes after : Map Node) (s : Stat)
    → stat disk p nodes ≡ s
    → remove_found p nodes s ≡ removed after
    → IsRemoval p nodes after
unfolding remove_found
remove_found-IsRemoval disk p nodes after absent at h = ground (arith, h)
remove_found-IsRemoval disk p nodes after unknown at h = ground (arith, h)
remove_found-IsRemoval disk p nodes after (found dir) at h = elim (Bool-cases (has_child p nodes)) [
  | inl t ↦ absurd (ground (arith, t, h))
  | inr f ↦ record { result = ground (arith, f, h); bare = inl f }
]
remove_found-IsRemoval disk p nodes after (found (file content)) at h = record {
  result = ground (arith, h);
  bare = inr (content, (stat-found disk p nodes (file content) at).1);
}

pub remove_path-IsRemoval :
    (disk : Disk) (p : Text) (nodes after : Map Node)
    → remove_path disk p nodes ≡ removed after
    → IsRemoval p nodes after
unfolding remove_path
remove_path-IsRemoval disk p nodes after h =
    remove_found-IsRemoval disk p nodes after (stat disk p nodes) refl h

pub dir_bare :
    (disk : Disk) (p : Text) (nodes after : Map Node)
    → stat disk p nodes ≡ found dir
    → IsRemoval p nodes after
    → has_child p nodes ≡ false
dir_bare disk p nodes after at is = elim is.bare [
  | inl f ↦ f
  | inr (content, there) ↦ let d = (stat-found disk p nodes dir at).1 in ground (arith, d, there)
]

-- A removal at a path that no bucket with objects has keeps all other objects.
pub removal-KeepsObjects :
    (disk : Disk) (p : Text) (m : Manager) (after : Map Node)
    → IsRemoval p m.nodes after
    → ((region bucket key q : Text)
        → object_path region bucket key m ≡ ok q
        → has_child p m.nodes ≡ true
        → p ≢ bucket_path region bucket)
    → KeepsObjects disk m (record m { nodes = after }) (λ q. p == q)
removal-KeepsObjects disk p m after is apart =
    subst (λ ns. KeepsObjects disk m (record m { nodes = ns }) (λ q. p == q)) (sym is.result)
      (objects_of_nodes disk m (remove p m.nodes) (λ q. p == q)
        (λ q node differ h. rw (lookup-remove p q m.nodes, differ) h)
        (λ region bucket key q content node path at there.
          elim (Bool-cases (p == bucket_path region bucket)) [
            | inr f ↦ (node, rw (lookup-remove p (bucket_path region bucket) m.nodes, f) there)
            | inl t ↦
                let e = (eq_iff p (bucket_path region bucket)).0 t in
                let below =
                  subst (λ b. has_prefix q (b ++ b'/' ∷ []) ≡ true) (sym e)
                    (object_below_bucket region bucket key q m path) in
                absurd (
                  apart region bucket key q path (has_child_of p q (file content) m.nodes below at)
                    e)
          ]))

-- What is no node and not the root has no part in reading objects.
pub get_notifications :
    (disk : Disk) (region bucket key : Text) (m : Manager) (x : Map (File (List QueueNotification)))
    → get_object_file disk region bucket key (record m { notifications = x })
      ≡ get_object_file disk region bucket key m
unfolding get_object_file object_path
get_notifications disk region bucket key m x = refl

pub keeps_trans :
    (disk : Disk) (m m' after : Manager) (n : Text → Bool)
    → KeepsObjects disk m m' n
    → KeepsObjects disk m' after n
    → KeepsObjects disk m after n
keeps_trans disk m m' after n h k = record {
  kept = λ r b x q c apart got. k.kept r b x q c apart (h.kept r b x q c apart got);
}

object_removed-Keeps :
    (disk : Disk) (p : Text) (m after : Manager) (n : Text → Bool) (r : Removal)
    → ((nodes : Map Node) → r ≡ removed nodes → KeepsObjects disk m (record m { nodes = nodes }) n)
    → object_removed m r ≡ ok after
    → KeepsObjects disk m after n
unfolding object_removed
object_removed-Keeps disk p m after n (removed nodes) keeps h =
    let e : record m { nodes = nodes } ≡ after = cc in
    subst (λ x. KeepsObjects disk m x n) e (keeps nodes refl)
object_removed-Keeps disk p m after n not_empty keeps h = ground arith
object_removed-Keeps disk p m after n not_there keeps h = ground arith
object_removed-Keeps disk p m after n not_removed keeps h = ground arith

-- The object of a DELETE, with its path.
pub delete_object-Keeps :
    (disk : Disk) (region bucket key : Text) (m after : Manager) (n : Text → Bool)
    → ((p : Text)
        → object_path region bucket key m ≡ ok p
        → (q : Text) → n q ≡ false
        → (p == q) ≡ false)
    → delete_object disk region bucket key m ≡ ok after
    → KeepsObjects disk m after n
unfolding delete_object
delete_object-Keeps disk region bucket key m after n named h =
    bind_ok (check_there true (stat disk (bucket_path region bucket) m.nodes)) _ h λ t there h₁.
      bind_ok (object_path region bucket key m) _ h₁ λ p path rest.
        object_removed-Keeps disk p m after n (remove_path disk p m.nodes)
          (λ nodes e.
            fewer disk m _ (λ q. p == q) n (named p path)
              (removal-KeepsObjects disk p m nodes (remove_path-IsRemoval disk p m.nodes nodes e)
                (λ r b k q below child same.
                  let other = object_path-IsPathOf r b k q m below in
                  object_not_bucket region r bucket b key p m path other.region_valid
                    other.bucket_valid same)))
          rest
