-- ===== src/ParamStore.antt =====
-- The parameter store in memory: internal/paramstore/store.go.
pub mod Arn
pub mod Lookup
pub mod Files
use twister_aws.Base.{
  ℕ, suc, zero, Text, Map, codes, Bool, true, false, not, ◌&&◌, ◌||◌, Option, none, some, List, [],
  ◌∷◌, ◌++◌, ◌==◌, lookup, insert, length, drop, if◌then◌else◌,
}
use twister_aws.Base.Int.{ℤ, pos, is_positive, eqb_ℤ, zero_time}
use twister_aws.Base.Strings.{trim_space, has_prefix, trim_prefix, split_n, equal_fold}
use twister_aws.Region.{normalize_region}

pub record ParameterRecord : Type 0 where
  pub region : Text
  pub name : Text
  pub kind : Text
  pub value : Text
  pub version : ℤ
  pub last_modified : ℤ

pub record Store : Type 0 where
  pub by_key : Map ParameterRecord

abbrev pub new_store : Store
new_store = record { by_key = [] }

-- The name is not trimmed, unlike that of a secret.
unfoldable pub region_name_key : Text → Text → Text
region_name_key region name = normalize_region region ++ 0 ∷ name

-- The copy that putLocked stores: an empty type is String, a version below 1 is 1, and a zero date
-- is the clock's reading.
unfoldable pub fill_defaults : ℤ → ParameterRecord → ParameterRecord
fill_defaults now r = record {
  region = normalize_region r.region;
  name = r.name;
  kind = if r.kind == [] then codes "String" else r.kind;
  value = r.value;
  version = if is_positive r.version then r.version else pos 1;
  last_modified = if eqb_ℤ r.last_modified zero_time then now else r.last_modified;
}

-- putLocked, which the exported Put calls under the lock
unfoldable pub put : ℤ → ParameterRecord → Store → Store
put now rec s =
    if trim_space rec.name == []
    then s
    else let cp = fill_defaults now rec in
      record { by_key = insert (region_name_key cp.region cp.name) cp s.by_key }

-- getLocked
unfoldable pub get : Text → Text → Store → Option ParameterRecord
get region name s = lookup (region_name_key region name) s.by_key

unfoldable pub of_resource : Text → Text → Text → Text × Text
of_resource id arn_region res =
    if not (has_prefix res (codes "parameter/"))
    then (id, arn_region)
    else let tail = trim_prefix res (codes "parameter/") in
      let name =
        if not (tail == []) && not (has_prefix tail (codes "/")) then b'/' ∷ tail else tail in
      if name == [] then (id, arn_region) else (name, arn_region)

-- the parts of strings.SplitN(id, ":", 6): all six are there, or the id is no ARN of a parameter
unfoldable pub of_parts : Text → List Text → Text × Text
unfolding of_resource
of_parts id (scheme ∷ partition ∷ service ∷ region ∷ account ∷ res ∷ []) =
    if partition == codes "aws" && service == codes "ssm"
    then of_resource id region res
    else (id, [])
of_parts id _ = (id, [])

-- The name, and the region of an ARN.
unfoldable pub name_and_region_from_id : Text → Text × Text
unfolding of_parts
name_and_region_from_id raw =
    let id = trim_space raw in
    if has_prefix id (codes "arn:") then of_parts id (split_n b':' id 6) else (id, [])

unfoldable pub lookup_parsed : Text × Text → Text → Store → Option ParameterRecord
lookup_parsed (name, arn_region) region s =
    if name == []
    then none
    else if not (arn_region == [])
        && not (equal_fold (normalize_region arn_region) (normalize_region region))
    then none
    else get (normalize_region region) name s

unfoldable pub lookup_in_region : Text → Text → Store → Option ParameterRecord
unfolding lookup_parsed
lookup_in_region id region s = lookup_parsed (name_and_region_from_id id) region s

unfoldable pub count : Store → ℕ
count s = length s.by_key

unfoldable pub synthesize_parameter_arn : Text → Text → Text
synthesize_parameter_arn region name =
    codes "arn:aws:ssm:"
    ++ (normalize_region region
        ++ (codes ":000000000000:parameter"
            ++ (if has_prefix name (codes "/") then name else b'/' ∷ name)))
