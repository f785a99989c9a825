-- ===== src/ParamStore/Files.antt =====
-- The files of the parameter store: internal/paramstore/csv.go, persist.go, reload.go, and
-- LoadParametersJSON of store.go. getCol and the loop of mapColumnIndex are those of
-- internal/secretstore/csv.go, word for word. One reading of the clock stands for those of a load.
pub mod Rows
pub mod Validity
pub mod RoundTrip
use twister_aws.Base.{
  ℕ, Text, Map, codes, Bool, true, not, Option, none, some, List, [], ◌∷◌, map, ◌==◌, ◌≡◌, ◌≢◌,
  lookup, keys, ltb, length, is_nil, if◌then◌else◌,
}
use twister_aws.Base.Int.{ℤ, pos, is_positive, eqb_ℤ, zero_time, is_int64}
use twister_aws.Base.Dates.{Dates}
use twister_aws.Base.Files.{File, missing, broken, holds, LoadError, not_exist, not_readable}
use twister_aws.Base.Sort.{sort}
use twister_aws.Base.Strings.{trim_space, read_back}
use twister_aws.Region.{normalize_region}
use twister_aws.SecretStore.Files.{
  Row, get_col, index_columns, has_column, PersistError, name_required, path_empty, disk, RawDate,
  absent, malformed, seconds, text,
}
use twister_aws.ParamStore.{ParameterRecord, Store, new_store, put}

abbrev pub default_param_column_header : Map ℕ
default_param_column_header =
    (codes "name", 0)
    ∷ (codes "value", 1)
    ∷ (codes "region", 2)
    ∷ (codes "type", 3)
    ∷ (codes "version", 4)
    ∷ (codes "lastmodified", 5)
    ∷ []

unfoldable pub map_column_index : Row → Map ℕ
unfolding index_columns has_column
map_column_index row =
    if ltb (length row) 2
    then []
    else let m = index_columns row 0 [] in
      if not (has_column (codes "name") m)
      then []
      else if not (has_column (codes "value") m)
      then []
      else m

-- strconv.Atoi and fmt.Sprintf("%d") of a version.
pub record Numbers : Type 0 where
  pub atoi : Text → Option ℤ
  pub format : ℤ → Text

pub record IsNumbers (n : Numbers) : Type 0 where
  pub atoi-format : (z : ℤ) → is_int64 z ≡ true → n.atoi (n.format z) ≡ some z
  pub format-ne-nil : (z : ℤ) → n.format z ≢ []
  pub format-kept : (z : ℤ) → read_back (n.format z) ≡ n.format z

pub record FileEntry : Type 0 where
  pub name : Text
  pub region : Text
  pub value : Text
  pub kind : Text
  pub version : ℤ
  pub last_modified : RawDate

module _ (dates : Dates) where
  unfoldable pub modified_of : ℤ → Text → ℤ
  modified_of now raw = if raw == [] then now else elim (dates.parse_rfc3339 raw) [
    | some t ↦ t
    | none ↦ elim (dates.parse_rfc3339_nano raw) [ some t ↦ t | none ↦ now ]
  ]

  -- A date that cannot be read is Go's zero time.
  unfoldable pub raw_modified : RawDate → ℤ
  raw_modified absent = zero_time
  raw_modified malformed = zero_time
  raw_modified (seconds t) = t
  raw_modified (text s) = elim (dates.parse_rfc3339 s) [ some t ↦ t | none ↦ zero_time ]

  -- One round of the loop of LoadParametersJSON.
  unfoldable pub load_entry : ℤ → FileEntry → Store → Store
  unfolding raw_modified
  load_entry now e s =
      if e.name == []
      then s
      else let mod_time = raw_modified e.last_modified in
        put now
          (record {
            region = normalize_region e.region;
            name = e.name;
            kind = if e.kind == [] then codes "String" else e.kind;
            value = e.value;
            version = if is_positive e.version then e.version else pos 1;
            last_modified = if eqb_ℤ mod_time zero_time then now else mod_time;
          })
          s

  unfoldable pub load_entries : ℤ → List FileEntry → Store → Store
  unfolding load_entry
  load_entries now [] s = s
  load_entries now (e ∷ es) s = load_entries now es (load_entry now e s)

  unfoldable pub load_parameters_json : File (List FileEntry) → ℤ → Store → Option LoadError × Store
  unfolding load_entries
  load_parameters_json missing now s = (some not_exist, s)
  load_parameters_json broken now s = (some not_readable, s)
  load_parameters_json (holds es) now s = (none, load_entries now es s)

-- A missing file is no error.
unfoldable pub forgive : Option LoadError × Store → Option LoadError × Store
forgive (some not_exist, t) = (none, t)
forgive (e, t) = (e, t)

module _ (dates : Dates) (numbers : Numbers) where
  unfoldable pub version_of : Text → ℤ
  version_of v =
      if v == []
      then pos 1
      else elim (numbers.atoi v) [ some n ↦ if is_positive n then n else pos 1 | none ↦ pos 1 ]

  -- One round of the loop of LoadParametersCSV.
  unfoldable pub load_row : Map ℕ → ℤ → Row → Store → Store
  load_row header now row s =
      let name = trim_space (get_col row header (codes "name")) in
      let rtype = trim_space (get_col row header (codes "type")) in
      if name == []
      then s
      else put now
          (record {
            region = normalize_region (trim_space (get_col row header (codes "region")));
            name = name;
            kind = if rtype == [] then codes "String" else rtype;
            value = get_col row header (codes "value");
            version = version_of (get_col row header (codes "version"));
            last_modified = modified_of dates now (get_col row header (codes "lastModified"));
          })
          s

  unfoldable pub load_rows : Map ℕ → ℤ → List Row → Store → Store
  load_rows header now [] s = s
  load_rows header now (row ∷ rows) s = load_rows header now rows (load_row header now row s)

  unfoldable pub load_parameters_csv : File (List Row) → ℤ → Store → Option LoadError × Store
  load_parameters_csv missing now s = (some not_exist, s)
  load_parameters_csv broken now s = (some not_readable, s)
  load_parameters_csv (holds []) now s = (none, s)
  load_parameters_csv (holds (first ∷ rows)) now s =
      let header = map_column_index first in
      if is_nil header
      then (none, load_rows default_param_column_header now (first ∷ rows) s)
      else (none, load_rows header now rows s)

  -- ReloadFromFiles: an empty path, which is `none`, is skipped, and a missing file is ignored.
  unfoldable pub then_json :
      Option (File (List FileEntry)) → ℤ → Option LoadError × Store → Option LoadError × Store
  unfolding forgive
  then_json json now (some not_readable, s) = (some not_readable, s)
  then_json none now (e, s) = (none, s)
  then_json (some file) now (e, s) = forgive (load_parameters_json dates file now s)

  unfoldable pub reload_from_files :
      Option (File (List Row)) → Option (File (List FileEntry)) → ℤ → Option LoadError × Store
  unfolding then_json
  reload_from_files none json now = then_json json now (none, new_store)
  reload_from_files (some csv) json now = then_json json now (load_parameters_csv csv now new_store)

  unfoldable pub row_of : ParameterRecord → Row
  row_of r = map read_back (
      r.name
      ∷ r.region
      ∷ r.value
      ∷ r.kind
      ∷ numbers.format r.version
      ∷ dates.format r.last_modified
      ∷ [])

  -- the loop over the sorted keys
  unfoldable pub rows_of : Map ParameterRecord → List Text → List Row
  unfolding row_of
  rows_of m [] = []
  rows_of m (k ∷ ks) =
      let rest = rows_of m ks in elim (lookup k m) [ none ↦ rest | some r ↦ row_of r ∷ rest ]

abbrev pub csv_header : Row
csv_header =
    codes "name"
    ∷ codes "region"
    ∷ codes "value"
    ∷ codes "type"
    ∷ codes "version"
    ∷ codes "lastModified"
    ∷ []

module _ (dates : Dates) (numbers : Numbers) where
  -- `ok` tells whether the file system lets the file be replaced.
  unfoldable pub write_parameters_csv :
      Bool → Store → File (List Row) → Option PersistError × File (List Row)
  write_parameters_csv ok s file =
      if is_nil s.by_key
      then (none, file)
      else if ok
      then (none, holds (csv_header ∷ rows_of dates numbers s.by_key (sort (keys s.by_key))))
      else (some disk, file)

  unfoldable pub upsert_persist :
      Bool
      → Text
      → ℤ
      → ParameterRecord
      → Store
      → File (List Row)
      → Option PersistError × Store × File (List Row)
  upsert_persist ok csv_path now rec s file =
      if trim_space rec.name == []
      then (some name_required, s, file)
      else let s' = put now rec s in
        if trim_space csv_path == []
        then (some path_empty, s', file)
        else let (e, file') = write_parameters_csv ok s' file in (e, s', file')
