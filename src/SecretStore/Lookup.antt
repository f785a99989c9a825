-- ===== src/SecretStore/Lookup.antt =====
-- `put` and `lookup_in_region` against a map from (region, name), and the key that joins the two.
use twister_aws.Base.{
  Text, ◌≡◌, refl, ◌≢◌, ◌↔◌, some, Lacks, ◌==◌, eq_iff, eq_of_ne, lookup-insert, arith,
  if◌then◌else◌, ◌&&◌, [],
}
use twister_aws.Base.Strings.{trim_space}
use twister_aws.Base.Strings.Laws.{append_at_inj}
use twister_aws.Region.{normalize_region}
use twister_aws.Region.Laws.{normalize_region_idem, normalize_region-Lacks}
use twister_aws.SecretStore.{
  SecretRecord, Store, region_storage_key, put, lookup_in_region, parse_name_from_secret_id,
}

-- Two pairs share a storage key exactly when the normalised regions and the trimmed names agree,
-- for regions that hold no NUL byte.
pub region_storage_key_iff :
    (r q n m : Text)
    → Lacks 0 r
    → Lacks 0 q
    → (region_storage_key r n ≡ region_storage_key q m)
      ↔ ((normalize_region r ≡ normalize_region q) × (trim_space n ≡ trim_space m))
unfolding region_storage_key
region_storage_key_iff r q n m hr hq = (
  append_at_inj 0 (normalize_region r) (normalize_region q) (trim_space n) (trim_space m)
      (normalize_region-Lacks r hr) (normalize_region-Lacks q hq),
  λ e. cc (e.0, e.1),
)

pub region_storage_key-normalize_region :
    (r n : Text) → region_storage_key (normalize_region r) n ≡ region_storage_key r n
unfolding region_storage_key
region_storage_key-normalize_region r n = cc (normalize_region_idem r)

same_key :
    (r q n m : Text)
    → Lacks 0 r
    → Lacks 0 q
    → (region_storage_key r n == region_storage_key q m)
      ≡ (normalize_region r == normalize_region q && trim_space n == trim_space m)
same_key r q n m hr hq = ground (
  arith,
  eq_iff (region_storage_key r n) (region_storage_key q m),
  eq_iff (normalize_region r) (normalize_region q),
  eq_iff (trim_space n) (trim_space m),
  region_storage_key_iff r q n m hr hq,
)

-- Storing a record, then looking an id up: the record with its region normalised, if the id names
-- it in its region; what was there before, in every other case. The stored name is not blank, the name that is
-- asked for is not empty, and
-- the regions hold no NUL byte.
pub lookup_in_region-put :
    (rec : SecretRecord) (s : Store) (id region : Text)
    → trim_space rec.name ≢ []
    → Lacks 0 rec.region
    → Lacks 0 region
    → parse_name_from_secret_id id ≢ []
    → lookup_in_region id region (put rec s) ≡ (
        if normalize_region rec.region == normalize_region region
          && trim_space rec.name == trim_space (parse_name_from_secret_id id)
        then some (record rec { region = normalize_region rec.region })
        else lookup_in_region id region s)
unfolding put lookup_in_region
lookup_in_region-put rec s id region named hr hq asked =
    let name = parse_name_from_secret_id id in
    rw
      (
        eq_of_ne (trim_space rec.name) [] named,
        eq_of_ne name [] asked,
        lookup-insert,
        region_storage_key-normalize_region,
        same_key rec.region region rec.name name hr hq,
      )
      refl
