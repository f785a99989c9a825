-- ===== src/Iam.antt =====
-- Access keys: internal/iam/handler.go, on top of the provider of internal/credentials. A form is none
-- where url.ParseQuery fails; the random bytes are arguments, none where rand.Read fails.
pub mod Keys
use twister_aws.Base.{
  ℕ, ◌+◌, ◌-◌, ◌*◌, ◌/◌, ◌%◌, Text, Map, codes, Bool, false, not, ◌&&◌, Option, none, some, List,
  [], ◌∷◌, ◌++◌, ◌==◌, get_first, ltb, eqb, if◌then◌else◌,
}
use twister_aws.Base.Strings.{trim_space, to_lower, to_upper, has_prefix, hex_encode}
use twister_aws.Credentials.{Provider, CsvFile, add_access_key_and_persist}

pub data Reply : Type 0 where
  created : (access_key_id secret_access_key : Text) → Reply
  failed : (status : ℕ) (code : Text) → Reply

-- The bytes from crypto/rand for the id and for the secret.
pub record Random : Type 0 where
  pub for_id : Option Text
  pub for_secret : Option Text

unfoldable pub access_key_of : Text → Text
access_key_of b = codes "AKIA" ++ to_upper (hex_encode b)

-- The digits of base64.
unfoldable pub base64_digit : ℕ → ℕ
base64_digit d =
    if ltb d 26
    then b'A' + d
    else if ltb d 52
    then b'a' + (d - 26)
    else if ltb d 62
    then b'0' + (d - 52)
    else if eqb d 62
    then b'+'
    else b'/'

-- base64.RawStdEncoding.EncodeToString
unfoldable pub base64_raw : Text → Text
base64_raw [] = []
base64_raw (a ∷ []) = base64_digit (a / 4) ∷ base64_digit (a % 4 * 16) ∷ []
base64_raw (a ∷ b ∷ []) =
    base64_digit (a / 4) ∷ base64_digit (a % 4 * 16 + b / 16) ∷ base64_digit (b % 16 * 4) ∷ []
base64_raw (a ∷ b ∷ c ∷ s) =
    base64_digit (a / 4)
    ∷ base64_digit (a % 4 * 16 + b / 16)
    ∷ base64_digit (b % 16 * 4 + c / 64)
    ∷ base64_digit (c % 64)
    ∷ base64_raw s

-- newKeyPair
unfoldable pub new_key_pair : Random → Option (Text × Text)
new_key_pair random = elim random.for_id [
  | none ↦ none
  | some b ↦ elim random.for_secret [ none ↦ none | some c ↦ some (access_key_of b, base64_raw c) ]
]

abbrev service_failure : Reply
service_failure = failed 500 (codes "ServiceFailure")

unfoldable pub create_access_key : Bool → Random → Provider → CsvFile → Reply × Provider × CsvFile
create_access_key written random p file = elim (new_key_pair random) [
  | none ↦ (service_failure, p, file)
  | some pair ↦
      let (e, p', file') = add_access_key_and_persist written pair.0 pair.1 p file in
      ((elim e [ none ↦ created pair.0 pair.1 | some x ↦ service_failure ]), p', file')
]

unfoldable pub is_form_ct : Text → Bool
is_form_ct ct = has_prefix (to_lower ct) (codes "application/x-www-form-urlencoded")

unfoldable pub handle_iam :
    Bool
    → Random
    → (content_type : Text) → (form : Option (Map (List Text))) → Provider
    → CsvFile
    → Reply × Provider × CsvFile
handle_iam written random content_type form p file =
    if not (is_form_ct content_type)
    then (failed 400 (codes "InvalidParameterValue"), p, file)
    else elim form [
      | none ↦ (failed 400 (codes "MalformedQueryString"), p, file)
      | some q ↦
          let action = get_first (codes "Action") q in
          let version = get_first (codes "Version") q in
          if trim_space action == codes "CreateAccessKey"
          then (if not (version == []) && not (version == codes "2010-05-08")
              then (failed 400 (codes "InvalidInput"), p, file)
              else create_access_key written random p file)
          else if action == []
          then (failed 400 (codes "InvalidQueryParameter"), p, file)
          else (failed 400 (codes "InvalidAction"), p, file)
    ]

-- IsBootstrapCreateAccessKey
unfoldable pub is_bootstrap_create_access_key : Text → Option (Map (List Text)) → Bool
is_bootstrap_create_access_key content_type form =
    if not (is_form_ct content_type) then false else elim form [
      | none ↦ false
      | some q ↦ trim_space (get_first (codes "Action") q) == codes "CreateAccessKey"
    ]
