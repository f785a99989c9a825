-- ===== src/SecretStore/Files/Validity.antt =====
-- Valid stores of secrets, the upsert of a record, and what is written for a valid store.
use twister_aws.Base.{
  insert-ne-nil, Text, Map, ◌≡◌, ◌≢◌, refl, ap, true, false, none, some, List, [], ◌∷◌, ◌==◌,
  lookup, insert, keys, lookup-insert, eq_iff, eq_refl, eq_of_ne, if◌then◌else◌, arith, Bool-cases,
  inl, inr,
}
use mathlib.Core.Path.{subst₂}
use twister_aws.Base.Dates.{Dates}
use twister_aws.Base.Files.{File, holds}
use twister_aws.Base.Sort.{sort}
use twister_aws.Base.Strings.{trim_space}
use twister_aws.Region.{normalize_region}
use twister_aws.Region.Laws.{normalize_region_idem}
use twister_aws.SecretStore.{SecretRecord, Store, put, region_storage_key}
use twister_aws.SecretStore.Lookup.{region_storage_key-normalize_region}
use twister_aws.SecretStore.Files.Rows.{IsStorable}
use twister_aws.SecretStore.Files.{
  disk, Row, csv_header, row_of, rows_of, write_secrets_csv, upsert_persist,
}

-- Every record is storable, in normal form, and under its own key.
pub record IsValid (m : Map SecretRecord) : Type 0 where
  pub storable : (k : Text) (r : SecretRecord) → lookup k m ≡ some r → IsStorable r
  pub normal :
      (k : Text) (r : SecretRecord) → lookup k m ≡ some r → normalize_region r.region ≡ r.region
  pub keyed :
      (k : Text) (r : SecretRecord) → lookup k m ≡ some r → region_storage_key r.region r.name ≡ k

abbrev in_normal_form : SecretRecord → SecretRecord
in_normal_form r = record r { region = normalize_region r.region }

put-insert :
    (r : SecretRecord) (s : Store)
    → IsStorable r
    → (put r s).by_key ≡ insert (region_storage_key r.region r.name) (in_normal_form r) s.by_key
unfolding put
put-insert r s h =
    rw
      (
        h.name_trimmed,
        eq_of_ne r.name [] h.named,
        region_storage_key-normalize_region r.region r.name,
      )
      refl

pub lookup-put :
    (r : SecretRecord) (s : Store) (j : Text)
    → IsStorable r
    → lookup j (put r s).by_key ≡ (
        if region_storage_key r.region r.name == j
        then some (in_normal_form r)
        else lookup j s.by_key)
lookup-put r s j h =
    rw (put-insert r s h)
      (lookup-insert (region_storage_key r.region r.name) j (in_normal_form r) s.by_key)

pub lookup-put_normal :
    (r : SecretRecord) (s : Store) (j k : Text)
    → IsStorable r
    → normalize_region r.region ≡ r.region
    → region_storage_key r.region r.name ≡ k
    → lookup j (put r s).by_key ≡ (if k == j then some r else lookup j s.by_key)
lookup-put_normal r s j k h e key = rw (lookup-put r s j h, e, key) refl

pub put-ne-nil : (r : SecretRecord) (s : Store) → IsStorable r → (put r s).by_key ≢ []
unfolding lookup
put-ne-nil r s h e = ground (
  arith,
  ap (lookup (region_storage_key r.region r.name)) e,
  lookup-put r s (region_storage_key r.region r.name) h,
  eq_refl (region_storage_key r.region r.name),
)

module _ (r : SecretRecord) (s : Store) (st : IsStorable r) (h : IsValid s.by_key) where
  abbrev Stored : SecretRecord → Text → Type 0
  Stored q k =
      IsStorable q
      × (normalize_region q.region ≡ q.region)
      × (region_storage_key q.region q.name ≡ k)

  stored_self : Stored (in_normal_form r) (region_storage_key r.region r.name)
  stored_self = (
    record {
      name_trimmed = st.name_trimmed;
      named = st.named;
      filled = st.filled;
      version_trimmed = st.version_trimmed;
      versioned = st.versioned;
      dated = st.dated;
      name_kept = st.name_kept;
      region_kept = rw (normalize_region_idem r.region) st.region_kept;
      secret_kept = st.secret_kept;
      version_kept = st.version_kept;
    },
    normalize_region_idem r.region,
    region_storage_key-normalize_region r.region r.name,
  )

  pub stored : (k : Text) (q : SecretRecord) → lookup k (put r s).by_key ≡ some q → Stored q k
  stored k q e = elim (Bool-cases (region_storage_key r.region r.name == k)) [
    | inl b ↦
        let same : in_normal_form r ≡ q = cc (rw b at (lookup-put r s k st), e) in
        let key = (eq_iff (region_storage_key r.region r.name) k).0 b in
        subst₂ Stored same key stored_self
    | inr b ↦
        let old : lookup k s.by_key ≡ some q = cc (rw b at (lookup-put r s k st), e) in
        (h.storable k q old, h.normal k q old, h.keyed k q old)
  ]

  pub put-IsValid : IsValid (put r s).by_key
  put-IsValid = record {
    storable = λ k q e. (stored k q e).0;
    normal = λ k q e. (stored k q e).1;
    keyed = λ k q e. (stored k q e).2;
  }

module _ (dates : Dates) (m : Map SecretRecord) (k : Text) (ks : List Text) where
  pub rows_of-none : lookup k m ≡ none → rows_of dates m (k ∷ ks) ≡ rows_of dates m ks
  unfolding rows_of
  rows_of-none e = rw (e, rows_of) refl

  pub rows_of-some :
      (r : SecretRecord)
      → lookup k m ≡ some r
      → rows_of dates m (k ∷ ks) ≡ row_of dates r ∷ rows_of dates m ks
  unfolding rows_of
  rows_of-some r e = rw (e, rows_of) refl

write_secrets_csv-none :
    (dates : Dates) (s : Store) (file : File (List Row))
    → (write_secrets_csv dates true s file).0 ≡ none
unfolding write_secrets_csv
write_secrets_csv-none dates s file = ground arith

pub upsert_persist_lem :
    (dates : Dates) (path : Text) (rec : SecretRecord) (s : Store) (file : File (List Row))
    → trim_space rec.name ≢ []
    → trim_space path ≢ []
    → upsert_persist dates true path rec s file
      ≡ (none, put rec s, (write_secrets_csv dates true (put rec s) file).1)
unfolding upsert_persist
upsert_persist_lem dates path rec s file h pathed =
    rw
      (
        eq_of_ne (trim_space rec.name) [] h,
        eq_of_ne (trim_space path) [] pathed,
        write_secrets_csv-none dates (put rec s) file,
      )
      refl

-- Where the file is not replaced the store keeps the record all the same.
pub upsert_persist_failed :
    (dates : Dates) (path : Text) (rec : SecretRecord) (s : Store) (file : File (List Row))
    → trim_space rec.name ≢ []
    → trim_space path ≢ []
    → upsert_persist dates false path rec s file ≡ (some disk, put rec s, file)
unfolding upsert_persist write_secrets_csv put
upsert_persist_failed dates path rec s file h pathed = ground (
  arith,
  eq_of_ne (trim_space rec.name) [] h,
  eq_of_ne (trim_space path) [] pathed,
  insert-ne-nil (region_storage_key (normalize_region rec.region) rec.name) (in_normal_form rec)
      s.by_key,
)

pub write_secrets_csv_filled :
    (dates : Dates) (s : Store) (file : File (List Row))
    → s.by_key ≢ []
    → (write_secrets_csv dates true s file).1
      ≡ holds (csv_header ∷ rows_of dates s.by_key (sort (keys s.by_key)))
unfolding write_secrets_csv
write_secrets_csv_filled dates s file h = ground arith
