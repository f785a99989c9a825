-- ===== src/Lambda/Registry.antt =====
-- The functions on disk: internal/lambda/registry.go. The files are those of the directory functions, by
-- their names.
pub mod Laws
use twister_aws.Base.{
  ℕ, Text, Map, codes, Bool, true, false, not, ◌&&◌, ◌||◌, Option, none, some, List, [], ◌∷◌, ◌++◌,
  ◌==◌, lookup, insert, remove, keys, leb, ltb, eqb, length, take, drop, is_nil, ◌-◌, if◌then◌else◌,
}
use twister_aws.Base.Int.{ℤ, pos, negsuc}
use twister_aws.Base.Results.{ok, err, ◌>>=◌}
use twister_aws.Base.Sort.{sort}
use twister_aws.Base.Strings.{trim_space, has_suffix}
use twister_aws.Lambda.{
  FunctionConfig, Fault, Result, name_required, invalid_name, image_required, empty_root,
  unreadable, disk,
}

-- What a file decodes to.
pub data ConfigFile : Type 0 where
  config : FunctionConfig → ConfigFile
  garbage : ConfigFile

pub record Registry : Type 0 where
  pub root : Text
  pub files : Map ConfigFile

-- [a-zA-Z0-9-_]
unfoldable pub is_name_byte : ℕ → Bool
is_name_byte c =
    (leb b'a' c && leb c b'z')
    || ((leb b'A' c && leb c b'Z') || ((leb b'0' c && leb c b'9') || (eqb c b'-' || eqb c b'_')))

unfoldable pub all_name_bytes : Text → Bool
all_name_bytes [] = true
all_name_bytes (c ∷ s) = is_name_byte c && all_name_bytes s

-- ^[a-zA-Z0-9-_]{1,64}$
unfoldable pub is_function_name : Text → Bool
is_function_name s = not (is_nil s) && (leb (length s) 64 && all_name_bytes s)

-- The name of the file below Root/functions.
unfoldable pub function_path : Text → Registry → Result Text
function_path name r =
    if r.root == []
    then err empty_root
    else if not (is_function_name name)
    then err invalid_name
    else ok (name ++ codes ".json")

-- A number that is not positive is the default, and one above the limit is the limit.
unfoldable pub clamp : (standard limit : ℕ) → ℤ → ℤ
clamp standard limit (negsuc n) = pos standard
clamp standard limit (pos n) =
    if eqb n 0 then pos standard else if ltb limit n then pos limit else pos n

-- The fields that Put fills in.
unfoldable pub fill : FunctionConfig → FunctionConfig
fill cfg = record cfg {
  timeout = clamp 30 900 cfg.timeout;
  memory_size = clamp 128 10240 cfg.memory_size;
  package_type =
      if (cfg.package_type == []) && not (cfg.image_uri == [])
      then codes "Image"
      else cfg.package_type;
}

-- The configuration as it is stored, and the registry after it.
unfoldable pub put : Bool → FunctionConfig → Registry → Result (FunctionConfig × Registry)
put written cfg r =
    if cfg.function_name == []
    then err name_required
    else if not (is_function_name cfg.function_name)
    then err invalid_name
    else if trim_space cfg.image_uri == []
    then err image_required
    else do
      p ← function_path cfg.function_name r
      if written
          then ok (fill cfg, record r { files = insert p (config (fill cfg)) r.files })
          else err disk

-- What Get makes of the file.
unfoldable pub read_config : Option ConfigFile → Result (Option FunctionConfig)
read_config none = ok none
read_config (some garbage) = err unreadable
read_config (some (config c)) = ok (some c)

unfoldable pub get : Text → Registry → Result (Option FunctionConfig)
get name r = do p ← function_path name r; read_config (lookup p r.files)

-- A file that is not there is no error.
unfoldable pub delete : Bool → Text → Registry → Result Registry
delete removed name r = do
  p ← function_path name r
  elim (lookup p r.files) [
    | none ↦ ok r
    | some f ↦ if removed then ok (record r { files = remove p r.files }) else err disk
  ]

-- The loop of List.
unfoldable pub names_of : List Text → List Text
names_of [] = []
names_of (entry ∷ es) =
    let rest = names_of es in
    let n = take (length entry - 5) entry in
    if not (has_suffix entry (codes ".json"))
    then rest
    else if is_function_name n
    then n ∷ rest
    else rest

-- os.ReadDir sorts the entries.
unfoldable pub list_functions : Registry → Result (List Text)
list_functions r = if r.root == [] then err empty_root else ok (names_of (sort (keys r.files)))
