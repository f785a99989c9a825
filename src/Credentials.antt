-- ===== src/Credentials.antt =====
-- The allowed access keys: internal/credentials. `Provider` is Provider with a path; the file at that
-- path is an argument, as the rows that csv.Reader gives for it. A nil provider is left out.
pub mod RoundTrip
use twister_aws.Base.{
  ℕ, Text, Map, codes, Bool, true, false, not, ◌&&◌, ◌||◌, Option, none, some, List, [], ◌∷◌, ◌==◌,
  map, lookup, insert, keys, length, is_nil, if◌then◌else◌,
}
use twister_aws.Base.Files.{File, missing, broken, holds}
use twister_aws.Base.Results.{Result, ok, err}
use twister_aws.Base.Sort.{sort}
use twister_aws.Base.Strings.{trim_space, to_lower, read_back}
use twister_aws.Sigv4.{Request, Crypto, Refusal}
use twister_aws.Sigv4.Verify.{verify}

pub record Provider : Type 0 where
  pub access_to_secret : Map Text
  pub csv_path : Text

abbrev pub Row : Type 0
Row = List Text

abbrev pub CsvFile : Type 0
CsvFile = File (List Row)

-- Keys of blanks only are left out.
unfoldable pub normalize_allowlist : Map Text → Map Text
normalize_allowlist [] = []
normalize_allowlist (entry ∷ m) =
    let rest = normalize_allowlist m in if trim_space entry.0 == [] then rest else entry ∷ rest

-- NewProviderWithPath; NewProvider has no path.
unfoldable pub new_provider : Map Text → Text → Provider
new_provider allowlist csv_path = record {
  access_to_secret = normalize_allowlist allowlist;
  csv_path = csv_path;
}

-- One round of the loop of LoadCSV.
unfoldable pub load_row : Row → Map Text → Map Text
load_row (key ∷ secret ∷ cells) m =
    let ak = trim_space key in
    let sk = trim_space secret in if (ak == []) || (sk == []) then m else insert ak sk m
load_row _ m = m

unfoldable pub load_rows : List Row → Map Text → Map Text
load_rows [] m = m
load_rows (row ∷ rows) m = load_rows rows (load_row row m)

-- Whether a first row is a header.
unfoldable pub is_header : Row → Bool
is_header (first ∷ second ∷ cells) =
    let h = to_lower (trim_space first) in
    (h == codes "access_key_id") || (h == codes "access key id")
is_header _ = false

-- LoadCSV, on a file that can be read.
unfoldable pub load_csv : List Row → Map Text
load_csv [] = []
load_csv (row ∷ rows) = if is_header row then load_rows rows [] else load_rows (row ∷ rows) []

pub data Error : Type 0 where
  blank_key no_path not_readable disk : Error

unfoldable pub from_file : Text → CsvFile → Result Error Provider
from_file path missing = ok (new_provider [] path)
from_file path broken = err not_readable
from_file path (holds rows) = ok (new_provider (load_csv rows) path)

unfoldable pub is_empty : Provider → Bool
is_empty p = is_nil p.access_to_secret

unfoldable pub access_key_count : Provider → ℕ
access_key_count p = length p.access_to_secret

abbrev pub header : Row
header = codes "access_key_id" ∷ codes "secret_access_key" ∷ []

-- The loops over the sorted keys, with what csv.Reader gives back for each cell.
unfoldable pub rows_of : Map Text → List Text → List Row
rows_of m [] = []
rows_of m (k ∷ ks) =
    let rest = rows_of m ks in
    let secret : Text = elim (lookup k m) [ none ↦ [] | some s ↦ s ] in
    if k == [] then rest else (read_back k ∷ read_back secret ∷ []) ∷ rest

-- writeAllowlistCSV; `written` tells whether the file system lets the file be replaced.
unfoldable pub write_allowlist_csv : Bool → Map Text → CsvFile → Result Error CsvFile
write_allowlist_csv written allowlist file =
    if written then ok (holds (header ∷ rows_of allowlist (sort (keys allowlist)))) else err disk

-- The error, if there is one, and the provider and the file after it. The key is in memory before the
-- file is written, and stays there if it is not.
unfoldable pub add_access_key_and_persist :
    Bool
    → (access_key_id secret_access_key : Text) → Provider
    → CsvFile
    → Option Error × Provider × CsvFile
add_access_key_and_persist written ak sk p file =
    let p' = record p { access_to_secret = insert ak sk p.access_to_secret } in
    if (trim_space ak == []) || (trim_space sk == [])
    then (some blank_key, p, file)
    else if p.csv_path == []
    then (some no_path, p, file)
    else elim (write_allowlist_csv written p'.access_to_secret file) [
      | err e ↦ (some e, p', file)
      | ok file' ↦ (none, p', file')
    ]

unfoldable pub reload_from_file : Provider → CsvFile → Option Error × Provider
reload_from_file p file = if p.csv_path == [] then (some no_path, p) else elim file [
  | missing ↦ (none, record p { access_to_secret = [] })
  | broken ↦ (some not_readable, p)
  | holds rows ↦ (none, record p { access_to_secret = normalize_allowlist (load_csv rows) })
]

unfoldable pub verify_request :
    Crypto → Request → Text → ℕ → Provider → Result Refusal (Text × Text)
verify_request crypto r body now p = verify crypto r body p.access_to_secret now
