-- ===== src/SecretStore.antt =====
-- The secret store in memory: internal/secretstore/store.go. The hash is a parameter, since its
-- digests are only compared and printed.
pub mod Lookup
pub mod Arn
pub mod Files
use twister_aws.Base.{
  ℕ, ◌-◌, Text, Map, codes, Bool, true, false, not, ◌&&◌, ◌||◌, Option, none, some, List, [], ◌∷◌,
  ◌++◌, ◌==◌, lookup, insert, leb, ltb, eqb, length, take, is_nil, if◌then◌else◌,
}
use twister_aws.Base.Int.{ℤ, pos}
use twister_aws.Base.Strings.{
  to_lower, to_upper, trim_space, has_prefix, after_first, cut_last, hex_encode, all_hex,
}
use twister_aws.Region.{default_region, normalize_region}

pub record SecretRecord : Type 0 where
  pub region : Text
  pub name : Text
  pub secret_string : Text
  pub created_date : ℤ
  pub version_id : Text

pub record Store : Type 0 where
  pub by_key : Map SecretRecord

abbrev pub new_store : Store
new_store = record { by_key = [] }

unfoldable pub region_storage_key : Text → Text → Text
region_storage_key region name = normalize_region region ++ 0 ∷ trim_space name

-- putLocked, which the exported Put calls under the lock
unfoldable pub put : SecretRecord → Store → Store
put rec s =
    if trim_space rec.name == []
    then s
    else let cp = record rec { region = normalize_region rec.region } in
      record { by_key = insert (region_storage_key cp.region cp.name) cp s.by_key }

-- name-suffix, where the suffix is eight hexadecimal digits
unfoldable pub drop_suffix : Text → Text
drop_suffix id = elim (cut_last b'-' id) [
  | none ↦ id
  | some p ↦ if not (is_nil p.0) && (eqb (length p.1) 8 && all_hex p.1) then p.0 else id
]

-- what stands behind :secret: in an ARN
unfoldable pub resource_of_arn : Text → Text
resource_of_arn id = elim (after_first (codes ":secret:") id) [ none ↦ id | some rest ↦ rest ]

unfoldable pub parse_name_from_secret_id : Text → Text
unfolding drop_suffix resource_of_arn
parse_name_from_secret_id id =
    drop_suffix (if has_prefix id (codes "arn:") then resource_of_arn id else id)

unfoldable pub lookup_in_region : Text → Text → Store → Option SecretRecord
lookup_in_region id region s =
    let name = parse_name_from_secret_id id in
    if name == [] then none else lookup (region_storage_key region name) s.by_key

-- Lookup
unfoldable pub lookup_default : Text → Store → Option SecretRecord
lookup_default id s = lookup_in_region id default_region s

unfoldable pub count : Store → ℕ
count s = length s.by_key

-- secretNameExistsAnyRegionLocked
unfoldable pub has_name : Text → Map SecretRecord → Bool
has_name want [] = false
has_name want ((k, rec) ∷ m) = trim_space rec.name == want || has_name want m

unfoldable pub name_exists_any_region : Text → Store → Bool
unfolding has_name
name_exists_any_region name s =
    let want = trim_space name in if want == [] then false else has_name want s.by_key

module _ (sha256 : Text → Text) where
  unfoldable pub default_version_id : Text → Text
  default_version_id name = to_upper (hex_encode (take 16 (sha256 (name ++ codes "-version"))))

  unfoldable pub arn_suffix : Text → Text
  arn_suffix name = to_lower (hex_encode (take 4 (sha256 name)))

  unfoldable pub synthesize_arn : Text → Text → Text
  synthesize_arn region name =
      codes "arn:aws:secretsmanager:"
      ++ (region ++ (codes ":000000000000:secret:" ++ (name ++ b'-' ∷ arn_suffix name)))

  -- 2020-01-02T03:04:05Z
  abbrev demo_date : ℤ
  demo_date = pos 1577934245000000000

  abbrev demo_secret : SecretRecord
  demo_secret = record {
    region = default_region;
    name = codes "my-test-secret";
    secret_string = codes "{\"username\":\"demo\",\"password\":\"local-mock\"}";
    created_date = demo_date;
    version_id = default_version_id (codes "my-test-secret");
  }

  abbrev other_secret : ℤ → SecretRecord
  other_secret hour_ago = record {
    region = default_region;
    name = codes "other-secret";
    secret_string = codes "plain-string-secret";
    created_date = hour_ago;
    version_id = default_version_id (codes "other-secret");
  }

  unfoldable pub seed : SecretRecord → Store → Store
  seed rec s = if name_exists_any_region rec.name s then s else put rec s

  -- The argument is the clock's reading less an hour.
  unfoldable pub seed_defaults : ℤ → Store → Store
  unfolding seed
  seed_defaults hour_ago s = seed (other_secret hour_ago) (seed demo_secret s)
