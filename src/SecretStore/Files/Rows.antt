-- ===== src/SecretStore/Files/Rows.antt =====
-- A row of the CSV file of secrets: each record that a row can carry is loaded as it was.
use twister_aws.Base.{
  ℕ, Text, Map, codes, ◌≡◌, ◌≢◌, refl, true, ◌∙◌, [], ◌∷◌, ◌==◌, lookup, insert, eq_iff, eq_of_ne,
  arith,
}
use twister_aws.Base.Int.{ℤ}
use twister_aws.Base.Dates.{Dates, IsDates, is_date}
use twister_aws.Base.Strings.{to_lower, trim_space, read_back}
use twister_aws.Region.{normalize_region}
use twister_aws.Region.Laws.{normalize_region-trim_space}
use twister_aws.SecretStore.{SecretRecord, Store, put}
use twister_aws.SecretStore.Files.{
  Row, get_col, get_col_or, created_of, csv_header, map_column_index, row_of, load_row,
}

-- The records that a row can carry: what CreateSecret and LoadSecretsCSV store.
pub record IsStorable (r : SecretRecord) : Type 0 where
  pub name_trimmed : trim_space r.name ≡ r.name
  pub named : r.name ≢ []
  pub filled : trim_space r.secret_string ≢ []
  pub version_trimmed : trim_space r.version_id ≡ r.version_id
  pub versioned : r.version_id ≢ []
  pub dated : is_date r.created_date ≡ true
  -- nothing holds CR LF
  pub name_kept : read_back r.name ≡ r.name
  pub region_kept : read_back (normalize_region r.region) ≡ normalize_region r.region
  pub secret_kept : read_back r.secret_string ≡ r.secret_string
  pub version_kept : read_back r.version_id ≡ r.version_id

abbrev pub header : Map ℕ
header =
    (codes "name", 0)
    ∷ (codes "region", 1)
    ∷ (codes "secretstring", 2)
    ∷ (codes "createddate", 3)
    ∷ (codes "versionid", 4)
    ∷ []

pub map_column_index_lem : map_column_index csv_header ≡ header
unfolding map_column_index to_lower trim_space insert lookup ◌==◌
map_column_index_lem = refl

module _ (dates : Dates) (r : SecretRecord) where
  get_name : get_col (row_of dates r) header (codes "name") ≡ read_back r.name
  unfolding get_col row_of lookup ◌==◌ to_lower
  get_name = refl

  get_region : get_col (row_of dates r) header (codes "region") ≡ read_back r.region
  unfolding get_col row_of lookup ◌==◌ to_lower
  get_region = refl

  get_secret : get_col (row_of dates r) header (codes "secretstring") ≡ read_back r.secret_string
  unfolding get_col row_of lookup ◌==◌ to_lower
  get_secret = refl

  get_date :
      get_col (row_of dates r) header (codes "createddate")
      ≡ read_back (dates.format r.created_date)
  unfolding get_col row_of lookup ◌==◌ to_lower
  get_date = refl

  get_version : get_col (row_of dates r) header (codes "versionid") ≡ read_back r.version_id
  unfolding get_col row_of lookup ◌==◌ to_lower
  get_version = refl

get_col_or_first :
    (row : Row) (h : Map ℕ) (a b v : Text) → get_col row h a ≡ v → v ≢ [] → get_col_or row h a b ≡ v
unfolding get_col_or
get_col_or_first row h a b v e ne = ground (arith, eq_iff (get_col row h a) [])

ne-nil_of_trim : (s : Text) → trim_space s ≢ [] → s ≢ []
unfolding trim_space
ne-nil_of_trim [] h = h
ne-nil_of_trim (c ∷ s) h = cc

created_of-format :
    (dates : Dates)
    → IsDates dates
    → (now t : ℤ) → is_date t ≡ true
    → created_of dates now (dates.format t) ≡ t
unfolding created_of
created_of-format dates laws now t h =
    rw
      (
        laws.format-trimmed t,
        eq_of_ne (dates.format t) [] (laws.format-ne-nil t),
        laws.parse-format t h,
      )
      refl

module _ (sha256 : Text → Text) (dates : Dates) (laws : IsDates dates) where
  -- The row of a storable record in normal form is loaded as that record.
  pub load_row-row_of :
      (now : ℤ) (r : SecretRecord) (s : Store)
      → IsStorable r
      → normalize_region r.region ≡ r.region
      → load_row sha256 dates header now (row_of dates r) s ≡ put r s
  unfolding load_row
  load_row-row_of now r s h e =
      let row = row_of dates r in
      let region_kept : read_back r.region ≡ r.region = cc (h.region_kept, e) in
      rw
        (
          get_name dates r ∙ h.name_kept,
          get_col_or_first row header (codes "secretstring") (codes "secret_string") r.secret_string
              (get_secret dates r ∙ h.secret_kept) (ne-nil_of_trim r.secret_string h.filled),
          get_col_or_first row header (codes "createddate") (codes "created_date")
              (dates.format r.created_date) (get_date dates r ∙ laws.format-kept r.created_date)
              (laws.format-ne-nil r.created_date),
          get_col_or_first row header (codes "versionid") (codes "version_id") r.version_id
              (get_version dates r ∙ h.version_kept) h.versioned,
          get_region dates r ∙ region_kept,
          created_of-format dates laws now r.created_date h.dated,
          h.name_trimmed,
          eq_of_ne r.name [] h.named,
          eq_of_ne (trim_space r.secret_string) [] h.filled,
          h.version_trimmed,
          eq_of_ne r.version_id [] h.versioned,
          h.version_trimmed,
          normalize_region-trim_space r.region,
          e,
        )
        refl
