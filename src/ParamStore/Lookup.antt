-- ===== src/ParamStore/Lookup.antt =====
-- `put` and `lookup_in_region` of the parameter store.
use twister_aws.Base.{
  Text, ◌≡◌, ◌≢◌, ◌↔◌, refl, none, some, Lacks, ◌==◌, eq_iff, eq_of_ne, lookup-insert, arith,
  if◌then◌else◌, ◌&&◌, true, [], ◌∷◌, lookup, Bool-cases, inl, inr,
}
use twister_aws.Base.Strings.{trim_space, equal_fold}
use twister_aws.Base.Strings.Laws.{append_at_inj}
use mathlib.Core.Path.{subst}
use twister_aws.Base.Int.{ℤ, is_positive}
use twister_aws.Region.{normalize_region}
use twister_aws.Region.Laws.{
  normalize_region_idem, normalize_region-ne-nil, normalize_region-Lacks, to_lower-normalize_region,
}
use twister_aws.ParamStore.{
  ParameterRecord, Store, region_name_key, fill_defaults, put, get, name_and_region_from_id,
  lookup_parsed, lookup_in_region, synthesize_parameter_arn,
}
use twister_aws.ParamStore.Arn.{IsBare, name_and_region_from_id-synthesize_parameter_arn}

region_name_key_iff :
    (r q n m : Text)
    → Lacks 0 r
    → Lacks 0 q
    → (region_name_key r n ≡ region_name_key q m)
      ↔ ((normalize_region r ≡ normalize_region q) × (n ≡ m))
unfolding region_name_key
region_name_key_iff r q n m hr hq = (
  append_at_inj 0 (normalize_region r) (normalize_region q) n m (normalize_region-Lacks r hr)
      (normalize_region-Lacks q hq),
  λ e. cc (e.0, e.1),
)

same_key :
    (r q n m : Text)
    → Lacks 0 r
    → Lacks 0 q
    → (region_name_key r n == region_name_key q m)
      ≡ (normalize_region r == normalize_region q && n == m)
same_key r q n m hr hq = ground (
  arith,
  eq_iff (region_name_key r n) (region_name_key q m),
  eq_iff (normalize_region r) (normalize_region q),
  eq_iff n m,
  region_name_key_iff r q n m hr hq,
)

pub region_name_key-normalize_region :
    (r n : Text) → region_name_key (normalize_region r) n ≡ region_name_key r n
unfolding region_name_key
region_name_key-normalize_region r n = cc (normalize_region_idem r)

-- Storing a parameter, then reading a region and a name: the record with its defaults, if both
-- agree, the regions up to normalising and the names as they are; what was there before, in every
-- other case. The stored name is not blank, and the regions hold no NUL byte.
pub get-put :
    (now : ℤ) (rec : ParameterRecord) (s : Store) (region name : Text)
    → trim_space rec.name ≢ []
    → Lacks 0 rec.region
    → Lacks 0 region
    → get region name (put now rec s) ≡ (
        if normalize_region rec.region == normalize_region region && rec.name == name
        then some (fill_defaults now rec)
        else get region name s)
unfolding put get fill_defaults
get-put now rec s region name named hr hq =
    rw
      (
        eq_of_ne (trim_space rec.name) [] named,
        lookup-insert,
        region_name_key-normalize_region,
        same_key rec.region region rec.name name hr hq,
      )
      refl

-- The ARN of a parameter of one region finds nothing in another region, whatever is stored.
-- The name is a path: behind its slash it is not empty, has no further slash in front and no blanks
-- at the ends; the region has no colon.
pub lookup_in_region_elsewhere :
    (r q rest : Text) (s : Store)
    → IsBare rest
    → Lacks b':' (normalize_region r)
    → normalize_region r ≢ normalize_region q
    → lookup_in_region (synthesize_parameter_arn r (b'/' ∷ rest)) q s ≡ none
unfolding lookup_in_region equal_fold
lookup_in_region_elsewhere r q rest s bare colonless other =
    rw
      (
        (name_and_region_from_id-synthesize_parameter_arn r rest bare colonless).0,
        eq_of_ne (b'/' ∷ rest) [] (cc),
        eq_of_ne (normalize_region r) [] (normalize_region-ne-nil r),
        normalize_region_idem r,
        to_lower-normalize_region r,
        to_lower-normalize_region q,
        eq_of_ne (normalize_region r) (normalize_region q) other,
      )
      refl

-- Every stored version is at least 1.
abbrev pub HasVersions : Store → Type 0
HasVersions s =
    (k : Text) (r : ParameterRecord) → lookup k s.by_key ≡ some r → is_positive r.version ≡ true

fill_defaults-is_positive :
    (now : ℤ) (r : ParameterRecord) → is_positive (fill_defaults now r).version ≡ true
unfolding fill_defaults
fill_defaults-is_positive now r = ground arith

-- Storing a parameter, whatever its version, keeps all versions at least 1.
pub put-HasVersions :
    (now : ℤ) (rec : ParameterRecord) (s : Store) → HasVersions s → HasVersions (put now rec s)
unfolding put
put-HasVersions now rec s h k r e =
    let cp = fill_defaults now rec in
    let key = region_name_key cp.region cp.name in
    elim (Bool-cases (trim_space rec.name == [])) [
      | inl b ↦ h k r (rw b at e)
      | inr b ↦
          let e' = rw (b, lookup-insert key k cp s.by_key) at e in
          elim (Bool-cases (key == k)) [
            | inl c ↦
                let same : cp ≡ r = cc (rw c at e') in
                subst (λ (q : ParameterRecord). is_positive q.version ≡ true) same
                  (fill_defaults-is_positive now rec)
            | inr c ↦ h k r (rw c at e')
          ]
    ]

pub lookup_in_region-HasVersions :
    (id region : Text) (s : Store) (r : ParameterRecord)
    → HasVersions s
    → lookup_in_region id region s ≡ some r
    → is_positive r.version ≡ true
unfolding lookup_in_region lookup_parsed get
lookup_in_region-HasVersions id region s r h e =
    ground
      (arith, h (region_name_key (normalize_region region) (name_and_region_from_id id).0) r, e)

-- What a lookup finds is in the map.
pub lookup_in_region-lookup :
    (id region : Text) (s : Store) (r : ParameterRecord)
    → lookup_in_region id region s ≡ some r
    → (k : Text) × (lookup k s.by_key ≡ some r)
unfolding lookup_in_region lookup_parsed get
lookup_in_region-lookup id region s r e =
    (region_name_key (normalize_region region) (name_and_region_from_id id).0, ground (arith, e))
