-- ===== src/ParamStore/Files/Validity.antt =====
-- Valid stores of parameters, and the upsert of a record.
use twister_aws.Base.{
  insert-ne-nil, Text, Map, ◌≡◌, ◌≢◌, refl, sym, subst, true, false, none, some, List, [], ◌==◌,
  lookup, lookup-insert, eq_iff, eq_refl, eq_of_ne, arith, if◌then◌else◌, Bool-cases, inl, inr,
  is_nil,
}
use mathlib.Core.Path.{subst₂}
use twister_aws.Base.Int.{ℤ}
use twister_aws.Base.Dates.{Dates}
use twister_aws.Base.Files.{File}
use twister_aws.Base.Sort.Table.{IsStored}
use twister_aws.Base.Strings.{trim_space}
use twister_aws.SecretStore.Files.{Row}
use twister_aws.ParamStore.{ParameterRecord, Store, get, put, fill_defaults, region_name_key}
use twister_aws.ParamStore.Lookup.{region_name_key-normalize_region}
use twister_aws.ParamStore.Files.{Numbers, write_parameters_csv, upsert_persist}
use twister_aws.ParamStore.Files.Rows.{IsStorable, fill_defaults_storable, put-insert}

-- Every record is storable, and under its own key.
pub record IsValid (m : Map ParameterRecord) : Type 0 where
  pub storable : (k : Text) (r : ParameterRecord) → lookup k m ≡ some r → IsStorable r
  pub keyed :
      (k : Text) (r : ParameterRecord) → lookup k m ≡ some r → region_name_key r.region r.name ≡ k

lookup-put :
    (now : ℤ) (r : ParameterRecord) (s : Store) (j : Text)
    → IsStorable (fill_defaults now r)
    → lookup j (put now r s).by_key ≡ (
        if region_name_key (fill_defaults now r).region (fill_defaults now r).name == j
        then some (fill_defaults now r)
        else lookup j s.by_key)
lookup-put now r s j h = rw (put-insert now r s h) (
    lookup-insert (region_name_key (fill_defaults now r).region (fill_defaults now r).name) j
      (fill_defaults now r) s.by_key)

lookup-put_storable :
    (now : ℤ) (r : ParameterRecord) (s : Store) (j : Text)
    → IsStorable r
    → lookup j (put now r s).by_key
      ≡ (if region_name_key r.region r.name == j then some r else lookup j s.by_key)
lookup-put_storable now r s j h =
    let e = fill_defaults_storable now r h in
    subst
      (λ cp.
        lookup j (put now r s).by_key
        ≡ (if region_name_key cp.region cp.name == j then some cp else lookup j s.by_key))
      e (lookup-put now r s j (subst IsStorable (sym e) h))

pub valid-IsStored :
    (now : ℤ) (m : Map ParameterRecord) → IsValid m → IsStored (put now) (λ s. s.by_key) m
valid-IsStored now m h = record {
  stored = λ k r s j e.
      subst (λ x. lookup j (put now r s).by_key ≡ (if x == j then some r else lookup j s.by_key))
        (h.keyed k r e) (lookup-put_storable now r s j (h.storable k r e));
}

-- A store that is valid stays so.
pub put-IsValid :
    (now : ℤ) (r : ParameterRecord) (s : Store)
    → IsStorable (fill_defaults now r)
    → IsValid s.by_key
    → IsValid (put now r s).by_key
put-IsValid now r s st h =
    let cp = fill_defaults now r in
    let key = region_name_key cp.region cp.name in
    let P : ParameterRecord → Text → Type 0 =
      λ q k. IsStorable q × (region_name_key q.region q.name ≡ k) in
    let all : (k : Text) (q : ParameterRecord) → lookup k (put now r s).by_key ≡ some q → P q k =
      λ k q e. elim (Bool-cases (key == k)) [
        | inl t ↦
            let same : cp ≡ q = cc (rw t at (lookup-put now r s k st), e) in
            subst₂ P same ((eq_iff key k).0 t) (st, refl)
        | inr f ↦
            let old : lookup k s.by_key ≡ some q = cc (rw f at (lookup-put now r s k st), e) in
            (h.storable k q old, h.keyed k q old)
      ] in
    record { storable = λ k q e. (all k q e).0; keyed = λ k q e. (all k q e).1 }

pub upsert_persist_lem :
    (dates : Dates) (numbers : Numbers) (path : Text) (now : ℤ) (rec : ParameterRecord) (s : Store)
    (file : File (List Row))
    → trim_space rec.name ≢ []
    → trim_space path ≢ []
    → upsert_persist dates numbers true path now rec s file
      ≡ (none, put now rec s, (write_parameters_csv dates numbers true (put now rec s) file).1)
unfolding upsert_persist write_parameters_csv
upsert_persist_lem dates numbers path now rec s file h pathed =
    ground (arith, eq_of_ne (trim_space rec.name) [] h, eq_of_ne (trim_space path) [] pathed)

pub put-ne-nil :
    (now : ℤ) (r : ParameterRecord) (s : Store)
    → IsStorable (fill_defaults now r)
    → is_nil (put now r s).by_key ≡ false
put-ne-nil now r s h = rw (put-insert now r s h) (
    insert-ne-nil (region_name_key (fill_defaults now r).region (fill_defaults now r).name)
      (fill_defaults now r) s.by_key)

pub get-put_same :
    (now : ℤ) (r : ParameterRecord) (s : Store)
    → IsStorable (fill_defaults now r)
    → get r.region r.name (put now r s) ≡ some (fill_defaults now r)
unfolding get
get-put_same now r s h =
    let cp = fill_defaults now r in
    let key = region_name_key cp.region cp.name in
    let e : key ≡ region_name_key r.region r.name =
      unfold fill_defaults in region_name_key-normalize_region r.region r.name in
    let there : lookup key (put now r s).by_key ≡ some cp =
      rw (lookup-put now r s key h, eq_refl key) refl in
    subst (λ k. lookup k (put now r s).by_key ≡ some cp) e there
