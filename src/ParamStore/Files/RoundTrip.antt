-- ===== src/ParamStore/Files/RoundTrip.antt =====
-- What the CSV file of parameters holds after a write, and what a load gives back.
use twister_aws.Base.{
  ℕ, Text, Map, ◌≡◌, ◌≢◌, refl, subst, ap, true, false, none, some, List, [], ◌∷◌, lookup, keys,
  if◌then◌else◌, Option-cases, inl, inr, is_nil,
}
use twister_aws.Base.Int.{ℤ}
use twister_aws.Base.Dates.{Dates, IsDates}
use twister_aws.Base.Files.{File, holds}
use twister_aws.Base.Sort.{sort}
use twister_aws.Base.Sort.Table.{add_all, lookup-add_all_sorted}
use twister_aws.Base.Strings.{trim_space}
use twister_aws.SecretStore.Files.{Row}
use twister_aws.ParamStore.{
  ParameterRecord, Store, get, new_store, put, fill_defaults, region_name_key,
}
use twister_aws.ParamStore.Files.{
  Numbers, IsNumbers, csv_header, row_of, rows_of, load_row, load_rows, load_parameters_csv,
  default_param_column_header, write_parameters_csv, upsert_persist, then_json, reload_from_files,
}
use twister_aws.ParamStore.Files.Rows.{IsStorable, header, map_column_index_lem, load_row-row_of}
use twister_aws.ParamStore.Files.Validity.{
  IsValid, valid-IsStored, put-IsValid, upsert_persist_lem, put-ne-nil, get-put_same,
}

module _ (dates : Dates) (numbers : Numbers) (dated : IsDates dates)
    (numbered : IsNumbers numbers) where
  rows_of-none :
      (m : Map ParameterRecord) (k : Text) (ks : List Text)
      → lookup k m ≡ none
      → rows_of dates numbers m (k ∷ ks) ≡ rows_of dates numbers m ks
  unfolding rows_of
  rows_of-none m k ks e = rw (e, rows_of) refl

  rows_of-some :
      (m : Map ParameterRecord) (k : Text) (ks : List Text) (r : ParameterRecord)
      → lookup k m ≡ some r
      → rows_of dates numbers m (k ∷ ks) ≡ row_of dates numbers r ∷ rows_of dates numbers m ks
  unfolding rows_of
  rows_of-some m k ks r e = rw (e, rows_of) refl

  load_rows_step :
      (now : ℤ) (row : Row) (rows : List Row) (s : Store)
      → load_rows dates numbers header now (row ∷ rows) s
        ≡ load_rows dates numbers header now rows (load_row dates numbers header now row s)
  unfolding load_rows
  load_rows_step now row rows s = refl

  -- Loading the rows of a valid map is storing its records one after another.
  load_rows-rows_of :
      (now : ℤ) (m : Map ParameterRecord) (ks : List Text) (s : Store)
      → IsValid m
      → load_rows dates numbers header now (rows_of dates numbers m ks) s
        ≡ add_all (put now) (λ s. s.by_key) m ks s
  unfolding add_all
  load_rows-rows_of now m [] s h = unfold load_rows rows_of in refl
  load_rows-rows_of now m (k ∷ ks) s h = elim (Option-cases (lookup k m)) [
    | inl e ↦ rw (rows_of-none m k ks e, e) (load_rows-rows_of now m ks s h)
    | inr (r, e) ↦
        rw
          (
            rows_of-some m k ks r e,
            load_rows_step now (row_of dates numbers r) (rows_of dates numbers m ks) s,
            load_row-row_of dates numbers dated numbered now r s (h.storable k r e),
            e,
          )
          (load_rows-rows_of now m ks (put now r s) h)
  ]

  load_parameters_csv_written :
      (now : ℤ) (rows : List Row) (s : Store)
      → load_parameters_csv dates numbers (holds (csv_header ∷ rows)) now s
        ≡ (none, load_rows dates numbers header now rows s)
  unfolding load_parameters_csv
  load_parameters_csv_written now rows s =
      ap
        (λ (h : Map ℕ).
          if is_nil h
          then (none, load_rows dates numbers default_param_column_header now (csv_header ∷ rows) s)
          else (none, load_rows dates numbers h now rows s))
        map_column_index_lem

  write_parameters_csv_filled :
      (s : Store) (file : File (List Row))
      → is_nil s.by_key ≡ false
      → write_parameters_csv dates numbers true s file
        ≡ (none, holds (csv_header ∷ rows_of dates numbers s.by_key (sort (keys s.by_key))))
  unfolding write_parameters_csv
  write_parameters_csv_filled s file filled = rw filled refl

  -- Loading the file that was written for a valid store gives a store with the same lookups.
  load_parameters_csv-write_parameters_csv :
      (now : ℤ) (s : Store) (file : File (List Row)) (j : Text)
      → IsValid s.by_key
      → is_nil s.by_key ≡ false
      → lookup j
          (load_parameters_csv dates numbers
            (write_parameters_csv dates numbers true s file).1
            now
            new_store).1.by_key
        ≡ lookup j s.by_key
  load_parameters_csv-write_parameters_csv now s file j h filled =
      let ks = sort (keys s.by_key) in
      rw
        (
          write_parameters_csv_filled s file filled,
          load_parameters_csv_written now (rows_of dates numbers s.by_key ks) new_store,
          load_rows-rows_of now s.by_key ks new_store h,
        )
        (lookup-add_all_sorted (put now) (λ s. s.by_key) s.by_key new_store j
          (valid-IsStored now s.by_key h) refl)

  -- A reload from the CSV file alone.
  reload_lem :
      (later : ℤ) (rows : List Row)
      → reload_from_files dates numbers (some (holds (csv_header ∷ rows))) none later
        ≡ (none, (load_parameters_csv dates numbers (holds (csv_header ∷ rows)) later new_store).1)
  unfolding reload_from_files then_json
  reload_lem later rows = rw (load_parameters_csv_written later rows new_store) refl

  pub reload_written :
      (later : ℤ) (s : Store) (file : File (List Row))
      → IsValid s.by_key
      → is_nil s.by_key ≡ false
      → let (e, t) =
          reload_from_files dates numbers
            (some (write_parameters_csv dates numbers true s file).1)
            none
            later in
        (e ≡ none) × ((region name : Text) → get region name t ≡ get region name s)
  unfolding get
  reload_written later s file h filled =
      rw
        (
          write_parameters_csv_filled s file filled,
          reload_lem later (rows_of dates numbers s.by_key (sort (keys s.by_key))),
        )
        (
          refl,
          λ region name.
              subst
                (λ f.
                  lookup (region_name_key region name)
                    (load_parameters_csv dates numbers f later new_store).1.by_key
                  ≡ lookup (region_name_key region name) s.by_key)
                (ap (λ x. x.1) (write_parameters_csv_filled s file filled))
                (load_parameters_csv-write_parameters_csv later s file (region_name_key region name)
                  h filled),
        )

  -- Upserting a record into a valid store, with a CSV path and a file system that works, and dates of the years
  -- 0 to 9999 and 64-bit numbers that are read back as they were printed: there is no error, the store in memory is valid again, a
  -- read of the record's region and name gives its copy with the defaults, and a reload at any later time from
  -- the file that was written, without a JSON file, has no error and gives a store in which every region and
  -- name has the same parameter as in memory. The copy is storable: its name and type are not empty and have no
  -- blanks at the ends, its version is positive and has 64 bits, its date is of those years and not the
  -- zero time, and nothing holds CR LF. A valid
  -- store has storable records under their own keys.
  pub reload_from_files-upsert_persist :
      (now later : ℤ) (path : Text) (rec : ParameterRecord) (s : Store) (file : File (List Row))
      → IsValid s.by_key
      → IsStorable (fill_defaults now rec)
      → trim_space path ≢ []
      → let (e, s', file') = upsert_persist dates numbers true path now rec s file in
        let (e', t) = reload_from_files dates numbers (some file') none later in
        (e ≡ none)
        × IsValid s'.by_key
        × (get rec.region rec.name s' ≡ some (fill_defaults now rec))
        × (e' ≡ none)
        × ((region name : Text) → get region name t ≡ get region name s')
  reload_from_files-upsert_persist now later path rec s file h st pathed =
      let s' = put now rec s in
      let valid = put-IsValid now rec s st h in
      let again = reload_written later s' file valid (put-ne-nil now rec s st) in
      let name_trimmed : trim_space rec.name ≡ rec.name = unfold fill_defaults in st.name_trimmed in
      let named : rec.name ≢ [] = unfold fill_defaults in st.named in
      rw (upsert_persist_lem dates numbers path now rec s file (rw name_trimmed named) pathed)
        (refl, valid, get-put_same now rec s st, again.0, again.1)
