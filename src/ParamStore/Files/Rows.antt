-- ===== src/ParamStore/Files/Rows.antt =====
-- A row of the CSV file of parameters: each record that a row can carry is loaded as it was.
use twister_aws.Base.{
  ℕ, Map, codes, ◌≡◌, ◌≢◌, refl, ◌∙◌, true, false, [], ◌∷◌, ◌==◌, lookup, insert, eq_of_ne,
}
use twister_aws.Base.Int.{ℤ, is_positive, eqb_ℤ, zero_time, is_int64}
use twister_aws.Base.Dates.{Dates, IsDates, is_date}
use twister_aws.Base.Strings.{to_lower, trim_space, read_back}
use twister_aws.Region.{normalize_region}
use twister_aws.Region.Laws.{normalize_region-trim_space}
use twister_aws.SecretStore.Files.{get_col}
use twister_aws.ParamStore.{ParameterRecord, Store, put, fill_defaults, region_name_key}
use twister_aws.ParamStore.Files.{
  Numbers, IsNumbers, csv_header, map_column_index, row_of, load_row, version_of, modified_of,
}

-- The records that a row can carry: what PutParameter and LoadParametersCSV store.
pub record IsStorable (r : ParameterRecord) : Type 0 where
  pub normal : normalize_region r.region ≡ r.region
  pub name_trimmed : trim_space r.name ≡ r.name
  pub named : r.name ≢ []
  pub kind_trimmed : trim_space r.kind ≡ r.kind
  pub typed : r.kind ≢ []
  pub numbered : is_positive r.version ≡ true
  pub sized : is_int64 r.version ≡ true
  pub dated : eqb_ℤ r.last_modified zero_time ≡ false
  pub in_range : is_date r.last_modified ≡ true
  -- nothing holds CR LF
  pub region_kept : read_back r.region ≡ r.region
  pub name_kept : read_back r.name ≡ r.name
  pub kind_kept : read_back r.kind ≡ r.kind
  pub value_kept : read_back r.value ≡ r.value

abbrev pub header : Map ℕ
header =
    (codes "name", 0)
    ∷ (codes "region", 1)
    ∷ (codes "value", 2)
    ∷ (codes "type", 3)
    ∷ (codes "version", 4)
    ∷ (codes "lastmodified", 5)
    ∷ []

pub map_column_index_lem : map_column_index csv_header ≡ header
unfolding map_column_index to_lower trim_space insert lookup ◌==◌
map_column_index_lem = refl

-- A storable record is complete.
pub fill_defaults_storable :
    (now : ℤ) (r : ParameterRecord) → IsStorable r → fill_defaults now r ≡ r
unfolding fill_defaults
fill_defaults_storable now r h = rw (h.normal, eq_of_ne r.kind [] h.typed, h.numbered, h.dated) refl

-- A record whose copy with the defaults is storable is stored as that copy.
pub put-insert :
    (now : ℤ) (r : ParameterRecord) (s : Store)
    → IsStorable (fill_defaults now r)
    → (put now r s).by_key
      ≡ insert
          (region_name_key (fill_defaults now r).region (fill_defaults now r).name)
          (fill_defaults now r)
          s.by_key
unfolding put fill_defaults
put-insert now r s h =
    let e : trim_space r.name ≡ r.name = h.name_trimmed in rw (e, eq_of_ne r.name [] h.named) refl

module _ (dates : Dates) (numbers : Numbers) (r : ParameterRecord) where
  get_name : get_col (row_of dates numbers r) header (codes "name") ≡ read_back r.name
  unfolding get_col row_of lookup ◌==◌ to_lower
  get_name = refl

  get_region : get_col (row_of dates numbers r) header (codes "region") ≡ read_back r.region
  unfolding get_col row_of lookup ◌==◌ to_lower
  get_region = refl

  get_value : get_col (row_of dates numbers r) header (codes "value") ≡ read_back r.value
  unfolding get_col row_of lookup ◌==◌ to_lower
  get_value = refl

  get_type : get_col (row_of dates numbers r) header (codes "type") ≡ read_back r.kind
  unfolding get_col row_of lookup ◌==◌ to_lower
  get_type = refl

  get_version :
      get_col (row_of dates numbers r) header (codes "version")
      ≡ read_back (numbers.format r.version)
  unfolding get_col row_of lookup ◌==◌ to_lower
  get_version = refl

  get_date :
      get_col (row_of dates numbers r) header (codes "lastModified")
      ≡ read_back (dates.format r.last_modified)
  unfolding get_col row_of lookup ◌==◌ to_lower
  get_date = refl

version_of-format :
    (numbers : Numbers) (dates : Dates)
    → IsNumbers numbers
    → (z : ℤ) → is_positive z ≡ true
    → is_int64 z ≡ true
    → version_of dates numbers (numbers.format z) ≡ z
unfolding version_of
version_of-format numbers dates laws z h k =
    rw (eq_of_ne (numbers.format z) [] (laws.format-ne-nil z), laws.atoi-format z k, h) refl

modified_of-format :
    (dates : Dates)
    → IsDates dates
    → (now t : ℤ) → is_date t ≡ true
    → modified_of dates now (dates.format t) ≡ t
unfolding modified_of
modified_of-format dates laws now t h =
    rw (eq_of_ne (dates.format t) [] (laws.format-ne-nil t), laws.parse-format t h) refl

module _ (dates : Dates) (numbers : Numbers) (dated : IsDates dates)
    (numbered : IsNumbers numbers) where
  -- The row of a storable record is loaded as that record.
  pub load_row-row_of :
      (now : ℤ) (r : ParameterRecord) (s : Store)
      → IsStorable r
      → load_row dates numbers header now (row_of dates numbers r) s ≡ put now r s
  unfolding load_row
  load_row-row_of now r s h =
      rw
        (
          get_name dates numbers r ∙ h.name_kept,
          get_type dates numbers r ∙ h.kind_kept,
          get_region dates numbers r ∙ h.region_kept,
          get_value dates numbers r ∙ h.value_kept,
          get_version dates numbers r ∙ numbered.format-kept r.version,
          get_date dates numbers r ∙ dated.format-kept r.last_modified,
          version_of-format numbers dates numbered r.version h.numbered h.sized,
          modified_of-format dates dated now r.last_modified h.in_range,
          h.name_trimmed,
          eq_of_ne r.name [] h.named,
          h.kind_trimmed,
          eq_of_ne r.kind [] h.typed,
          normalize_region-trim_space r.region,
          h.normal,
        )
        refl
