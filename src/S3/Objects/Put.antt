-- ===== src/S3/Objects/Put.antt =====
-- What the PUT of an object leaves: internal/s3buckets/object.go.
use twister_aws.Base.{
  ℕ, take, Bool, Option, none, if◌then◌else◌, Text, Map, ◌≡◌, refl, ◌∙◌, true, false, not, some,
  List, [], ◌==◌, length, lookup, insert, lookup-insert, eq_refl, if_lem, option_lem, Bool-cases,
  inl, inr,
}
use twister_aws.Base.Results.{ok, err, result_lem}
use twister_aws.Base.Strings.{hex_encode}
use twister_aws.S3.{Manager, Node, dir, file, Fault, Result, other, bucket_path, object_path}
use twister_aws.S3.Files.{Disk, stat, parents, make_dirs, fill_file, write_file}
use twister_aws.S3.Objects.Keeps.{
  KeepsObjects, Keeps, make_dirs-Keeps, stat-found, found_of, object_path_nodes, get_file_lem,
  objects_of_nodes, made-KeepsObjects, dir_found,
}
use twister_aws.S3.Notify.{Event, fire_object_created}
use twister_aws.S3.Objects.{check_there, put_file, put_object, get_object_file}

-- What a write of a file makes of the nodes: nothing, a part of the content, or the content.
data IsWritten (disk : Disk) (p content : Text) (nodes : Map Node) : Bool × Map Node → Type 0 where
  untouched : IsWritten disk p content nodes (false, nodes)
  in_part :
      (n : ℕ)
      → disk.usable p ≡ true
      → IsWritten disk p content nodes (false, insert p (file (take n content)) nodes)
  whole :
      disk.usable p ≡ true → IsWritten disk p content nodes (true, insert p (file content) nodes)

fill_file-IsWritten :
    (disk : Disk) (p content : Text) (nodes : Map Node)
    → disk.usable p ≡ true
    → IsWritten disk p content nodes (fill_file disk p content nodes)
unfolding fill_file
fill_file-IsWritten disk p content nodes usable =
    option_lem {B = Bool × Map Node} (IsWritten disk p content nodes) (disk.cut p content)
      (λ e. whole usable) (λ n e. in_part n usable)

write_file-IsWritten :
    (disk : Disk) (p content : Text) (nodes : Map Node)
    → IsWritten disk p content nodes (write_file disk p content nodes)
unfolding write_file
write_file-IsWritten disk p content nodes = go (lookup p nodes)
  where
    P : Bool × Map Node → Type 0
    P = IsWritten disk p content nodes

    usable_or_not : P (if disk.usable p then fill_file disk p content nodes else (false, nodes))
    usable_or_not =
        if_lem P (disk.usable p) (fill_file-IsWritten disk p content nodes) (λ f. untouched)

    go :
        (o : Option Node)
        → P (elim o as (λ x. Bool × Map Node) [
          | some dir ↦ (false, nodes)
          | some (file old) ↦
              if disk.usable p then fill_file disk p content nodes else (false, nodes)
          | none ↦ if disk.usable p then fill_file disk p content nodes else (false, nodes)
        ])
    go none = usable_or_not
    go (some dir) = untouched
    go (some (file old)) = usable_or_not

-- The PUT of an object. One that is refused before the file is opened keeps every object; one whose write
-- fails on the way leaves a front part of the content, and keeps all others; and a success stores the
-- object and keeps all others.
pub data IsPut (md5 : Text → Text) (disk : Disk) (now region bucket key content : Text)
    (m : Manager) : Result Text × List Event × Manager → Type 0 where
  refused :
      (e : Fault) (after : Manager)
      → KeepsObjects disk m after (λ q. false)
      → after.notifications ≡ m.notifications
      → IsPut md5 disk now region bucket key content m (err e, [], after)
  cut_short :
      (n : ℕ) (p : Text) (after : Manager)
      → object_path region bucket key m ≡ ok p
      → get_object_file disk region bucket key after ≡ ok (p, take n content)
      → KeepsObjects disk m after (λ q. p == q)
      → after.notifications ≡ m.notifications
      → IsPut md5 disk now region bucket key content m (err other, [], after)
  stored :
      (p : Text) (after : Manager)
      → object_path region bucket key m ≡ ok p
      → get_object_file disk region bucket key after ≡ ok (p, content)
      → KeepsObjects disk m after (λ q. p == q)
      → after.notifications ≡ m.notifications
      → IsPut md5 disk now region bucket key content m (
        ok (hex_encode (md5 content)),
        fire_object_created now region bucket key (length content) (hex_encode (md5 content)) after,
        after,
      )

-- What the write of a file keeps.
insert_kept :
    (p q content : Text) (node : Node) (nodes : Map Node)
    → (p == q) ≡ false
    → lookup q nodes ≡ some node
    → lookup q (insert p (file content) nodes) ≡ some node
insert_kept p q content node nodes apart h = rw (lookup-insert p q (file content) nodes, apart) h

insert_there :
    (p b content : Text) (node : Node) (nodes : Map Node)
    → lookup b nodes ≡ some node
    → (now : Node) × (lookup b (insert p (file content) nodes) ≡ some now)
insert_there p b content node nodes h = elim (Bool-cases (p == b)) [
  | inl t ↦ (file content, rw (lookup-insert p b (file content) nodes, t) refl)
  | inr f ↦ (node, rw (lookup-insert p b (file content) nodes, f) h)
]

-- What holds once the file of an object has this content: it is read, and all other objects are kept.
record HasFile (disk : Disk) (region bucket key content p : Text) (m after : Manager) : Type 0 where
  read : get_object_file disk region bucket key after ≡ ok (p, content)
  keeps : KeepsObjects disk m after (λ q. p == q)

insert-HasFile :
    (disk : Disk) (region bucket key content p : Text) (m : Manager) (made : Map Node)
    → object_path region bucket key m ≡ ok p
    → check_there false (stat disk (bucket_path region bucket) m.nodes) ≡ ok tt
    → disk.usable p ≡ true
    → Keeps m.nodes made
    → HasFile disk region bucket key content p m (record m { nodes = insert p (file content) made })
insert-HasFile disk region bucket key content p m made path there usable k =
    let nodes = insert p (file content) made in
    let after : Manager = record m { nodes = nodes } in
    let b = dir_found (stat disk (bucket_path region bucket) m.nodes) there in
    let was = stat-found disk (bucket_path region bucket) m.nodes b.0 b.1 in
    let is =
      insert_there p (bucket_path region bucket) content b.0 made
        (k.kept (bucket_path region bucket) b.0 was.1) in
    let here : lookup p nodes ≡ some (file content) =
      rw (lookup-insert p p (file content) made, eq_refl p) refl in
    record {
      read =
          get_file_lem disk region bucket key p content after is.0
            (found_of disk (bucket_path region bucket) nodes is.0 was.0 is.1)
            (object_path_nodes region bucket key m nodes ∙ path)
            (found_of disk p nodes (file content) usable here);
      keeps =
          objects_of_nodes disk m nodes (λ q. p == q)
            (λ q node apart h. insert_kept p q content node made apart (k.kept q node h))
            (λ r b x q c node path at h.
              insert_there p (bucket_path r b) content node made (k.kept (bucket_path r b) node h));
    }

-- The end of a PUT, by what the write has made.
end_put :
    (md5 : Text → Text) (disk : Disk) (now region bucket key content p : Text) (m : Manager)
    (made : Map Node) (wrote : Bool × Map Node)
    → object_path region bucket key m ≡ ok p
    → check_there false (stat disk (bucket_path region bucket) m.nodes) ≡ ok tt
    → Keeps m.nodes made
    → IsWritten disk p content made wrote
    → IsPut md5 disk now region bucket key content m (
        if not wrote.0 then (err other, [], record m { nodes = wrote.1 }) else (
          ok (hex_encode (md5 content)),
          fire_object_created now region bucket key
              (length content)
              (hex_encode (md5 content))
              (record m { nodes = wrote.1 }),
          record m { nodes = wrote.1 },
        ))
end_put md5 disk now region bucket key content p m made _ path there k untouched =
    refused other _ (made-KeepsObjects disk m made k) refl
end_put md5 disk now region bucket key content p m made _ path there k (in_part n usable) =
    let h = insert-HasFile disk region bucket key (take n content) p m made path there usable k in
    cut_short n p _ path h.read h.keeps refl
end_put md5 disk now region bucket key content p m made _ path there k (whole usable) =
    let h = insert-HasFile disk region bucket key content p m made path there usable k in
    stored p _ path h.read h.keeps refl

put_file-IsPut :
    (md5 : Text → Text) (disk : Disk) (now region bucket key content p : Text) (m : Manager)
    → object_path region bucket key m ≡ ok p
    → check_there false (stat disk (bucket_path region bucket) m.nodes) ≡ ok tt
    → IsPut md5 disk now region bucket key content m
        (put_file md5 disk now region bucket key content p m)
unfolding put_file
put_file-IsPut md5 disk now region bucket key content p m path there =
    let P : Result Text × List Event × Manager → Type 0 =
      IsPut md5 disk now region bucket key content m in
    let made = make_dirs disk (parents p) m.nodes in
    let k = make_dirs-Keeps disk (parents p) m.nodes in
    if_lem P (not made.0) (λ t. refused other _ (made-KeepsObjects disk m made.1 k) refl)
      λ f.
        end_put md5 disk now region bucket key content p m made.1 (write_file disk p content made.1)
          path there k (write_file-IsWritten disk p content made.1)

-- A PUT ends in one of three ways, and the notifications never change. It fails before the file of the object
-- is opened, and then every object that could be read is kept. Or its write of the file fails on the way:
-- GetObjectFile of the object then gives a front part of the content, every other object that could be
-- read is kept, and there is no event. Or it succeeds and answers with the digest of the content: GetObjectFile
-- of the object then gives the content, every other object that could be read is kept, and the events are
-- those of the bucket's notifications.
pub put_object-IsPut :
    (md5 : Text → Text) (disk : Disk) (now region bucket key content : Text) (m : Manager)
    → IsPut md5 disk now region bucket key content m
        (put_object md5 disk now region bucket key content m)
unfolding put_object
put_object-IsPut md5 disk now region bucket key content m =
    let P : Result Text × List Event × Manager → Type 0 =
      IsPut md5 disk now region bucket key content m in
    let same : KeepsObjects disk m m (λ q. false) = record { kept = λ r b k q c apart h. h } in
    result_lem P (object_path region bucket key m)
      (λ p path.
        result_lem P (check_there false (stat disk (bucket_path region bucket) m.nodes))
          (λ t there. put_file-IsPut md5 disk now region bucket key content p m path there)
          (λ e h. refused e m same refl))
      (λ e h. refused e m same refl)
