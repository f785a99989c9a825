-- ===== src/Sigv4/Verify.antt =====
-- Verify of internal/sigv4/verify.go, for given digests and a given time. It gives the region and the
-- service of the credential scope.
pub mod Sound
pub mod Complete
use twister_aws.Base.{
  get_first, ℕ, Text, Map, codes, Bool, true, false, not, ◌&&◌, ◌||◌, Option, none, some, List, [],
  ◌∷◌, ◌++◌, ◌==◌, lookup, length, eqb, take, map, ltb, if◌then◌else◌,
}
use twister_aws.Base.Results.{Result, ok, err, ◌>>=◌}
use twister_aws.Base.Sort.{sort}
use twister_aws.Base.Strings.{split, trim_space, to_lower, equal_fold, hex_encode, hex_decode}
use twister_aws.Sigv4.{
  Request, Crypto, Refusal, payload_mismatch, unknown_access_key, missing_date, date_not_of_scope,
  invalid_encoding, signature_mismatch,
}
use twister_aws.Sigv4.Query.{canonical_query}
use twister_aws.Sigv4.Clock.{verify_clock_skew}
use twister_aws.Sigv4.Fields.{
  Authorization, Scope, parse_authorization, parse_credential_scope, header_map, canonical_request,
  string_to_sign, scope_suffix,
}

abbrev pub unsigned_payload : Text
unsigned_payload = codes "UNSIGNED-PAYLOAD"

-- The secret of the access key, and the check of X-Amz-Date.
unfoldable pub secret_of : Map Text → Scope → Result Refusal Text
secret_of allowed_secrets scope = elim (lookup scope.access_key allowed_secrets) [
  | none ↦ err unknown_access_key
  | some secret ↦ ok secret
]

unfoldable pub check_date : Text → Text → ℕ → Result Refusal (Unit {0})
check_date amz_date date_stamp now =
    if amz_date == []
    then err missing_date
    else if ltb (length amz_date) 8 || not (take 8 amz_date == date_stamp)
    then err date_not_of_scope
    else verify_clock_skew amz_date now

-- The names of the signed headers, in lower case and sorted.
unfoldable pub signed_names : Text → List Text
signed_names field = sort (map (λ name. trim_space (to_lower name)) (split field b';'))

-- The canonical request of a request, for the signed headers and the payload hash.
unfoldable pub canonical_of : Request → Text → Text → Text
canonical_of r signed_headers payload_hash =
    canonical_request r.method (if r.escaped_path == [] then codes "/" else r.escaped_path)
      (canonical_query r.query) (signed_names signed_headers) (header_map r) payload_hash

unfoldable pub credential_scope : Scope → Text
credential_scope scope =
    scope.date_stamp ++ b'/' ∷ (scope.region ++ b'/' ∷ (scope.service ++ b'/' ∷ scope_suffix))

-- The signature as bytes: 32 of them, in hexadecimal.
unfoldable pub decode_signature : Text → Result Refusal Text
decode_signature signature = elim (hex_decode (to_lower signature)) [
  | none ↦ err invalid_encoding
  | some bytes ↦ if eqb (length bytes) 32 then ok bytes else err invalid_encoding
]

module _ (crypto : Crypto) where
  unfoldable pub sha256_hex : Text → Text
  sha256_hex bytes = hex_encode (crypto.sha256 bytes)

  unfoldable pub signing_key : Text → Text → Text → Text → Text
  signing_key secret_key date_stamp region service =
      let k = crypto.hmac_sha256 (codes "AWS4" ++ secret_key) date_stamp in
      let k = crypto.hmac_sha256 k region in
      let k = crypto.hmac_sha256 k service in crypto.hmac_sha256 k scope_suffix

  -- The payload hash that is signed, or the mismatch.
  unfoldable pub payload_hash_of : Text → Text → Result Refusal Text
  payload_hash_of client_hash body =
      if equal_fold client_hash unsigned_payload
      then ok unsigned_payload
      else if client_hash == []
      then ok (sha256_hex body)
      else if not (equal_fold (sha256_hex body) client_hash)
      then err payload_mismatch
      else ok (sha256_hex body)

  -- The signature that the secret gives for a request.
  unfoldable pub expected_signature : Request → Text → Scope → Text → Text → Text
  expected_signature r secret scope signed_headers payload_hash =
      crypto.hmac_sha256 (signing_key secret scope.date_stamp scope.region scope.service) (
        string_to_sign (get_first (codes "X-Amz-Date") r.header) (credential_scope scope)
          (sha256_hex (canonical_of r signed_headers payload_hash)))

  unfoldable pub verify : Request → Text → Map Text → ℕ → Result Refusal (Text × Text)
  verify r body allowed_secrets now = do
    payload_hash ←
        payload_hash_of (trim_space (get_first (codes "X-Amz-Content-Sha256") r.header)) body
    auth ← parse_authorization (get_first (codes "Authorization") r.header)
    scope ← parse_credential_scope auth.credential
    secret ← secret_of allowed_secrets scope
    _ ← check_date (get_first (codes "X-Amz-Date") r.header) scope.date_stamp now
    signature ← decode_signature auth.signature
    if signature == expected_signature r secret scope auth.signed_headers payload_hash
        then ok (scope.region, scope.service)
        else err signature_mismatch
