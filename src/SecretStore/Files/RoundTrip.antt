-- ===== src/SecretStore/Files/RoundTrip.antt =====
-- What the CSV file of secrets holds after a write, and what a load gives back.
use twister_aws.Base.{
  ℕ, Text, Map, ◌≡◌, ◌≢◌, refl, ap, true, none, some, List, [], ◌∷◌, lookup, keys, eq_refl,
  if◌then◌else◌, Option-cases, inl, inr, is_nil,
}
use twister_aws.Base.Int.{ℤ}
use twister_aws.Base.Dates.{Dates, IsDates}
use twister_aws.Base.Files.{File, holds}
use twister_aws.Base.Sort.{sort}
use twister_aws.Base.Sort.Table.{add_all, IsStored, lookup-add_all_sorted}
use twister_aws.Base.Strings.{trim_space}
use twister_aws.Region.{normalize_region}
use twister_aws.SecretStore.{SecretRecord, Store, new_store, put, region_storage_key}
use twister_aws.SecretStore.Files.Rows.{IsStorable, header, map_column_index_lem, load_row-row_of}
use twister_aws.SecretStore.Files.{
  Row, csv_header, row_of, rows_of, load_row, load_rows, load_secrets_csv,
  default_secret_column_header, write_secrets_csv, upsert_persist,
}
use twister_aws.SecretStore.Files.Validity.{
  IsValid, lookup-put, lookup-put_normal, put-IsValid, put-ne-nil, rows_of-none, rows_of-some,
  upsert_persist_lem, write_secrets_csv_filled,
}

valid-IsStored : (m : Map SecretRecord) → IsValid m → IsStored put (λ s. s.by_key) m
valid-IsStored m h = record {
  stored =
      λ k r s j e. lookup-put_normal r s j k (h.storable k r e) (h.normal k r e) (h.keyed k r e);
}

module _ (sha256 : Text → Text) (dates : Dates) (laws : IsDates dates) where
  load_rows_step :
      (now : ℤ) (row : Row) (rows : List Row) (s : Store)
      → load_rows sha256 dates header now (row ∷ rows) s
        ≡ load_rows sha256 dates header now rows (load_row sha256 dates header now row s)
  unfolding load_rows
  load_rows_step now row rows s = refl

  -- Loading the rows of a valid map is storing its records one after another.
  load_rows-rows_of :
      (now : ℤ) (m : Map SecretRecord) (ks : List Text) (s : Store)
      → IsValid m
      → load_rows sha256 dates header now (rows_of dates m ks) s
        ≡ add_all put (λ s. s.by_key) m ks s
  unfolding add_all
  load_rows-rows_of now m [] s h = unfold load_rows rows_of in refl
  load_rows-rows_of now m (k ∷ ks) s h = elim (Option-cases (lookup k m)) [
    | inl e ↦ rw (rows_of-none dates m k ks e, e) (load_rows-rows_of now m ks s h)
    | inr (r, e) ↦
        rw
          (
            rows_of-some dates m k ks r e,
            load_rows_step now (row_of dates r) (rows_of dates m ks) s,
            load_row-row_of sha256 dates laws now r s (h.storable k r e) (h.normal k r e),
            e,
          )
          (load_rows-rows_of now m ks (put r s) h)
  ]

  load_secrets_csv_written :
      (now : ℤ) (rows : List Row) (s : Store)
      → load_secrets_csv sha256 dates (holds (csv_header ∷ rows)) now s
        ≡ (none, load_rows sha256 dates header now rows s)
  unfolding load_secrets_csv
  load_secrets_csv_written now rows s =
      ap
        (λ (h : Map ℕ).
          if is_nil h
          then (none, load_rows sha256 dates default_secret_column_header now (csv_header ∷ rows) s)
          else (none, load_rows sha256 dates h now rows s))
        map_column_index_lem

  -- Loading the file that was written for a valid store gives a store with the same lookups.
  load_secrets_csv-write_secrets_csv :
      (now : ℤ) (s : Store) (file : File (List Row)) (j : Text)
      → IsValid s.by_key
      → s.by_key ≢ []
      → lookup j
          (load_secrets_csv sha256 dates
            (write_secrets_csv dates true s file).1
            now
            new_store).1.by_key
        ≡ lookup j s.by_key
  unfolding lookup
  load_secrets_csv-write_secrets_csv now s file j h filled =
      let ks = sort (keys s.by_key) in
      rw
        (
          write_secrets_csv_filled dates s file filled,
          load_secrets_csv_written now (rows_of dates s.by_key ks) new_store,
          load_rows-rows_of now s.by_key ks new_store h,
        )
        (lookup-add_all_sorted put (λ s. s.by_key) s.by_key new_store j (valid-IsStored s.by_key h)
          refl)

  -- Upserting a storable record into a valid store, with a CSV path and a file system that works,
  -- and dates of the years 0 to 9999 that are read back as they were printed:
  -- there is no error, the store in memory is valid again, and a load of the file that was written
  -- into an empty store has the same lookups as the store in memory, the new record included. A
  -- storable record has a name and a version id without blanks at the ends, a secret that is not
  -- blank, a date of those years, and no CR LF; a valid store has storable records under their own keys.
  pub load_secrets_csv-upsert_persist :
      (now : ℤ) (path : Text) (rec : SecretRecord) (s : Store) (file : File (List Row))
      → IsValid s.by_key
      → IsStorable rec
      → trim_space path ≢ []
      → let (e, s', file') = upsert_persist dates true path rec s file in
        (e ≡ none)
        × IsValid s'.by_key
        × (lookup (region_storage_key rec.region rec.name) s'.by_key
            ≡ some (record rec { region = normalize_region rec.region }))
        × ((j : Text)
            → lookup j (load_secrets_csv sha256 dates file' now new_store).1.by_key
              ≡ lookup j s'.by_key)
  load_secrets_csv-upsert_persist now path rec s file h st pathed =
      rw (upsert_persist_lem dates path rec s file (rw st.name_trimmed st.named) pathed) (
        refl,
        put-IsValid rec s st h,
        rw (lookup-put rec s (region_storage_key rec.region rec.name) st, eq_refl) refl,
        λ j.
            load_secrets_csv-write_secrets_csv now (put rec s) file j (put-IsValid rec s st h)
              (put-ne-nil rec s st),
      )
