-- ===== src/SecretStore/Files.antt =====
-- The files of the secret store: internal/secretstore/csv.go, persist.go, reload.go, and
-- LoadSecretsJSON of store.go. A CSV file is the rows that encoding/csv reads from
-- it, so that a row is written as it will be read back. One reading of the clock stands for those of a load.
pub mod Rows
pub mod Validity
pub mod RoundTrip
use twister_aws.Base.{
  ℕ, suc, zero, ◌+◌, Text, Map, codes, Bool, true, false, not, ◌&&◌, ◌||◌, Option, none, some, List,
  [], ◌∷◌, ◌++◌, map, ◌==◌, lookup, insert, keys, ltb, length, get_elem?, is_nil, if◌then◌else◌,
}
use twister_aws.Base.Int.{ℤ}
use twister_aws.Base.Dates.{Dates}
use twister_aws.Base.Files.{File, missing, broken, holds, LoadError, not_exist, not_readable}
use twister_aws.Base.Sort.{sort}
use twister_aws.Base.Strings.{to_lower, trim_space, read_back}
use twister_aws.Region.{normalize_region}
use twister_aws.SecretStore.{SecretRecord, Store, new_store, put, default_version_id, seed_defaults}

abbrev pub Row : Type 0
Row = List Text

-- getCol: the empty text where the column or the cell is missing
unfoldable pub get_col : Row → Map ℕ → Text → Text
get_col row header key = elim (lookup (to_lower key) header) [
  | none ↦ []
  | some i ↦ elim (get_elem? row i) [ none ↦ [] | some cell ↦ cell ]
]

abbrev pub default_secret_column_header : Map ℕ
default_secret_column_header =
    (codes "name", 0)
    ∷ (codes "secretstring", 1)
    ∷ (codes "createddate", 2)
    ∷ (codes "versionid", 3)
    ∷ (codes "region", 4)
    ∷ []

-- the loop of mapColumnIndex from column `i` on
unfoldable pub index_columns : Row → ℕ → Map ℕ → Map ℕ
index_columns [] i m = m
index_columns (c ∷ row) i m =
    let k = to_lower (trim_space c) in
    index_columns row (suc i) (if k == [] then m else insert k i m)

unfoldable pub has_column : Text → Map ℕ → Bool
has_column k m = elim (lookup k m) [ none ↦ false | some i ↦ true ]

-- The empty map stands for Go's nil: the row is no header.
unfoldable pub map_column_index : Row → Map ℕ
unfolding index_columns has_column
map_column_index row =
    if ltb (length row) 2
    then []
    else let m = index_columns row 0 [] in
      if has_column (codes "name") m
        && (has_column (codes "secretstring") m || has_column (codes "secret_string") m)
      then m
      else []

-- the cell of a column that has two spellings
unfoldable pub get_col_or : Row → Map ℕ → Text → Text → Text
unfolding get_col
get_col_or row header a b =
    let v = get_col row header a in if v == [] then get_col row header b else v

abbrev pub csv_header : Row
csv_header =
    codes "name"
    ∷ codes "region"
    ∷ codes "secretString"
    ∷ codes "createdDate"
    ∷ codes "versionId"
    ∷ []

pub data RawDate : Type 0 where
  absent malformed : RawDate
  -- a number of seconds, as an instant
  seconds : ℤ → RawDate
  text : Text → RawDate

pub record FileEntry : Type 0 where
  pub name : Text
  pub region : Text
  pub secret_string : Text
  pub created_date : RawDate
  pub version_id : Text

pub data PersistError : Type 0 where
  name_required path_empty disk : PersistError

module _ (dates : Dates) where
  unfoldable pub created_of : ℤ → Text → ℤ
  created_of now raw =
      let t = trim_space raw in
      if t == [] then now else elim (dates.parse_rfc3339 t) [
        | some d ↦ d
        | none ↦ elim (dates.parse_seconds t) [ some d ↦ d | none ↦ now ]
      ]

  unfoldable pub parse_created_date : ℤ → RawDate → Option ℤ
  parse_created_date now absent = some now
  parse_created_date now malformed = none
  parse_created_date now (seconds t) = some t
  parse_created_date now (text t) = dates.parse_rfc3339 t

module _ (sha256 : Text → Text) (dates : Dates) where
  -- One round of the loop of LoadSecretsCSV.
  unfoldable pub load_row : Map ℕ → ℤ → Row → Store → Store
  load_row header now row s =
      let name = get_col row header (codes "name") in
      let ss = get_col_or row header (codes "secretstring") (codes "secret_string") in
      let raw_date = get_col_or row header (codes "createddate") (codes "created_date") in
      let vid = get_col_or row header (codes "versionid") (codes "version_id") in
      if trim_space name == []
      then s
      else if trim_space ss == []
      then s
      else put
          (record {
            region = normalize_region (trim_space (get_col row header (codes "region")));
            name = trim_space name;
            secret_string = ss;
            created_date = created_of dates now raw_date;
            version_id =
                trim_space (if trim_space vid == [] then default_version_id sha256 name else vid);
          })
          s

  unfoldable pub load_rows : Map ℕ → ℤ → List Row → Store → Store
  unfolding load_row
  load_rows header now [] s = s
  load_rows header now (row ∷ rows) s = load_rows header now rows (load_row header now row s)

  unfoldable pub load_secrets_csv : File (List Row) → ℤ → Store → Option LoadError × Store
  unfolding load_rows map_column_index
  load_secrets_csv missing now s = (some not_exist, s)
  load_secrets_csv broken now s = (some not_readable, s)
  load_secrets_csv (holds []) now s = (none, s)
  load_secrets_csv (holds (first ∷ rows)) now s =
      let header = map_column_index first in
      if is_nil header
      then (none, load_rows default_secret_column_header now (first ∷ rows) s)
      else (none, load_rows header now rows s)

  -- One round of the loop of LoadSecretsJSON.
  unfoldable pub load_entry : ℤ → FileEntry → Store → Store
  unfolding parse_created_date
  load_entry now e s =
      if e.name == []
      then s
      else put
          (record {
            region = normalize_region e.region;
            name = e.name;
            secret_string = e.secret_string;
            created_date = elim (parse_created_date dates now e.created_date) [
              | none ↦ now
              | some t ↦ t
            ];
            version_id =
                if e.version_id == [] then default_version_id sha256 e.name else e.version_id;
          })
          s

  unfoldable pub load_entries : ℤ → List FileEntry → Store → Store
  unfolding load_entry
  load_entries now [] s = s
  load_entries now (e ∷ es) s = load_entries now es (load_entry now e s)

  unfoldable pub load_secrets_json : File (List FileEntry) → ℤ → Store → Option LoadError × Store
  unfolding load_entries
  load_secrets_json missing now s = (some not_exist, s)
  load_secrets_json broken now s = (some not_readable, s)
  load_secrets_json (holds es) now s = (none, load_entries now es s)

  -- A step of ReloadFromFiles: an empty path is skipped and a missing file is ignored.
  unfoldable pub then_seed : ℤ → Option LoadError × Store → Option LoadError × Store
  then_seed hour_ago (none, s) = (none, seed_defaults sha256 hour_ago s)
  then_seed hour_ago (some not_exist, s) = (none, seed_defaults sha256 hour_ago s)
  then_seed hour_ago (some not_readable, s) = (some not_readable, s)

  unfoldable pub then_json :
      Option (File (List FileEntry)) → ℤ → ℤ → Option LoadError × Store → Option LoadError × Store
  unfolding then_seed load_secrets_json
  then_json json now hour_ago (some not_readable, s) = (some not_readable, s)
  then_json none now hour_ago (e, s) = then_seed hour_ago (none, s)
  then_json (some file) now hour_ago (e, s) = then_seed hour_ago (load_secrets_json file now s)

  -- `none` for a path that is empty.
  unfoldable pub reload_from_files :
      Option (File (List Row)) → Option (File (List FileEntry)) → ℤ → ℤ → Option LoadError × Store
  unfolding then_json load_secrets_csv
  reload_from_files none json now hour_ago = then_json json now hour_ago (none, new_store)
  reload_from_files (some csv) json now hour_ago =
      then_json json now hour_ago (load_secrets_csv csv now new_store)

module _ (dates : Dates) where
  unfoldable pub row_of : SecretRecord → Row
  row_of r =
      map read_back
        (r.name ∷ r.region ∷ r.secret_string ∷ dates.format r.created_date ∷ r.version_id ∷ [])

  -- the loop over the sorted keys
  unfoldable pub rows_of : Map SecretRecord → List Text → List Row
  unfolding row_of
  rows_of m [] = []
  rows_of m (k ∷ ks) =
      let rest = rows_of m ks in elim (lookup k m) [ none ↦ rest | some r ↦ row_of r ∷ rest ]

  -- `ok` tells whether the file system lets the file be replaced.
  unfoldable pub write_secrets_csv :
      Bool → Store → File (List Row) → Option PersistError × File (List Row)
  unfolding rows_of
  write_secrets_csv ok s file =
      if is_nil s.by_key
      then (none, file)
      else if ok
      then (none, holds (csv_header ∷ rows_of s.by_key (sort (keys s.by_key))))
      else (some disk, file)

  -- The store is updated before the path is looked at, and stays so if the file is not written.
  unfoldable pub upsert_persist :
      Bool
      → Text
      → SecretRecord
      → Store
      → File (List Row)
      → Option PersistError × Store × File (List Row)
  upsert_persist ok csv_path rec s file =
      if trim_space rec.name == []
      then (some name_required, s, file)
      else let s' = put rec s in
        if trim_space csv_path == []
        then (some path_empty, s', file)
        else let (e, file') = write_secrets_csv ok s' file in (e, s', file')
