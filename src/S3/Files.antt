-- ===== src/S3/Files.antt =====
-- What internal/s3buckets asks of the file system: os.Stat, os.MkdirAll, os.WriteFile, os.Remove. A path
-- that the system does not let be used gives an error that is none of the package's own.
use twister_aws.Base.{
  ℕ, take, Text, Map, Bool, true, false, not, Option, none, some, List, [], ◌∷◌, ◌++◌, eqb, map,
  lookup, insert, remove, if◌then◌else◌,
}
use twister_aws.Base.Int.{ℤ}
use twister_aws.Base.Strings.{has_prefix}
use twister_aws.S3.{Node, dir, file}

-- Which paths can be used, how many bytes of a content a write gets into the file at a path before it fails
-- (none where it does not fail), and when a file was changed.
pub record Disk : Type 0 where
  pub usable : Text → Bool
  pub cut : (path content : Text) → Option ℕ
  pub modified : Text → ℤ

pub data Stat : Type 0 where
  found : Node → Stat
  absent unknown : Stat

-- The directories above a path, the outermost first.
unfoldable pub parents : Text → List Text
parents [] = []
parents (c ∷ s) = let rest = map (λ p. c ∷ p) (parents s) in if eqb c b'/' then [] ∷ rest else rest

unfoldable pub is_file : Text → Map Node → Bool
is_file p nodes = elim (lookup p nodes) [
  | none ↦ false
  | some dir ↦ false
  | some (file content) ↦ true
]

unfoldable pub has_file : List Text → Map Node → Bool
has_file [] nodes = false
has_file (p ∷ ps) nodes = let rest = has_file ps nodes in if is_file p nodes then true else rest

-- Below a file nothing is absent: the error is ENOTDIR.
unfoldable pub stat : Disk → Text → Map Node → Stat
stat disk p nodes = if not (disk.usable p) then unknown else elim (lookup p nodes) [
  | some node ↦ found node
  | none ↦ if has_file (parents p) nodes then unknown else absent
]

unfoldable pub make_dir : Disk → Text → Map Node → Option (Map Node)
make_dir disk p nodes = elim (lookup p nodes) [
  | some dir ↦ some nodes
  | some (file content) ↦ none
  | none ↦ if disk.usable p then some (insert p dir nodes) else none
]

-- Each directory of the list, in its order: whether all are there, and those that were made stay.
unfoldable pub make_dirs : Disk → List Text → Map Node → Bool × Map Node
make_dirs disk [] nodes = (true, nodes)
make_dirs disk (p ∷ ps) nodes = elim (make_dir disk p nodes) [
  | none ↦ (false, nodes)
  | some made ↦ make_dirs disk ps made
]

-- The file is emptied, then written.
unfoldable pub fill_file : Disk → (path content : Text) → Map Node → Bool × Map Node
fill_file disk p content nodes = elim (disk.cut p content) [
  | none ↦ (true, insert p (file content) nodes)
  | some n ↦ (false, insert p (file (take n content)) nodes)
]

-- In a directory that is there: whether the whole file was written, and the nodes after. A write that fails on
-- the way leaves a front part of the content and nothing of the old one.
unfoldable pub write_file : Disk → (path content : Text) → Map Node → Bool × Map Node
write_file disk p content nodes = elim (lookup p nodes) [
  | some dir ↦ (false, nodes)
  | some (file old) ↦ if disk.usable p then fill_file disk p content nodes else (false, nodes)
  | none ↦ if disk.usable p then fill_file disk p content nodes else (false, nodes)
]

pub data Removal : Type 0 where
  removed : Map Node → Removal
  not_there not_empty not_removed : Removal

unfoldable pub has_child : Text → Map Node → Bool
has_child p [] = false
has_child p (entry ∷ nodes) =
    let rest = has_child p nodes in if has_prefix entry.0 (p ++ b'/' ∷ []) then true else rest

-- From the look at the path on.
unfoldable pub remove_found : Text → Map Node → Stat → Removal
remove_found p nodes unknown = not_removed
remove_found p nodes absent = not_there
remove_found p nodes (found dir) = if has_child p nodes then not_empty else removed (remove p nodes)
remove_found p nodes (found (file content)) = removed (remove p nodes)

unfoldable pub remove_path : Disk → Text → Map Node → Removal
remove_path disk p nodes = remove_found p nodes (stat disk p nodes)
