-- ===== src/Sigv4/Fields.antt =====
-- The parts of a signed request: parseAuthorization, parseCredentialScope, headerMap,
-- canonicalHeaders, canonicalRequest and stringToSign of internal/sigv4/verify.go.
pub mod Laws
pub mod Header
use twister_aws.Base.{
  get_first, Text, Map, codes, Bool, true, false, not, ◌&&◌, ◌||◌, Option, none, some, List, [],
  ◌∷◌, ◌++◌, ◌==◌, lookup, insert, length, eqb, if◌then◌else◌,
}
use twister_aws.Base.Results.{Result, ok, err}
use twister_aws.Base.Sort.{sort}
use twister_aws.Base.Strings.{split, join, fields, has_prefix, trim_prefix, trim_space, to_lower}
use twister_aws.Sigv4.{
  Request, Refusal, unsupported_scheme, malformed_authorization, invalid_scope,
  invalid_scope_fields, unsupported_service,
}

-- The results of parseAuthorization.
pub record Authorization : Type 0 where
  pub credential : Text
  pub signed_headers : Text
  pub signature : Text

abbrev pub scheme : Text
scheme = codes "AWS4-HMAC-SHA256"

-- The body of the loop over the parts.
unfoldable pub read_part : Text → Authorization → Authorization
read_part part a =
    let p = trim_space part in
    if has_prefix p (codes "Credential=")
    then record a { credential = trim_prefix p (codes "Credential=") }
    else if has_prefix p (codes "SignedHeaders=")
    then record a { signed_headers = trim_prefix p (codes "SignedHeaders=") }
    else if has_prefix p (codes "Signature=")
    then record a { signature = trim_prefix p (codes "Signature=") }
    else a

unfoldable pub read_parts : List Text → Authorization → Authorization
read_parts [] a = a
read_parts (part ∷ parts) a = read_parts parts (read_part part a)

unfoldable pub parse_authorization : Text → Result Refusal Authorization
parse_authorization auth =
    let rest = trim_space (trim_prefix auth (codes "AWS4-HMAC-SHA256 ")) in
    let a =
      read_parts (split rest b',')
        (record { credential = []; signed_headers = []; signature = [] }) in
    if not (has_prefix auth (codes "AWS4-HMAC-SHA256 "))
    then err unsupported_scheme
    else if (a.credential == []) || ((a.signed_headers == []) || (a.signature == []))
    then err malformed_authorization
    else ok a

unfoldable pub is_allowed_signing_service : Text → Bool
is_allowed_signing_service s =
    (s == codes "secretsmanager")
    || ((s == codes "iam")
        || ((s == codes "ssm")
            || ((s == codes "s3")
                || ((s == codes "sqs") || ((s == codes "lambda") || (s == codes "ec2"))))))

-- The results of parseCredentialScope.
pub record Scope : Type 0 where
  pub access_key : Text
  pub date_stamp : Text
  pub region : Text
  pub service : Text

abbrev pub scope_suffix : Text
scope_suffix = codes "aws4_request"

unfoldable pub check_scope : Scope → Text → Result Refusal Scope
check_scope scope suffix =
    if not (eqb (length scope.date_stamp) 8) || not (suffix == scope_suffix)
    then err invalid_scope_fields
    else if not (is_allowed_signing_service scope.service)
    then err unsupported_service
    else ok scope

-- A scope has exactly five parts.
unfoldable pub scope_of : List Text → Result Refusal Scope
scope_of (access_key ∷ date_stamp ∷ region ∷ service ∷ suffix ∷ []) =
    check_scope
      (record {
        access_key = access_key;
        date_stamp = date_stamp;
        region = region;
        service = service;
      })
      suffix
scope_of parts = err invalid_scope

unfoldable pub parse_credential_scope : Text → Result Refusal Scope
parse_credential_scope credential = scope_of (split credential b'/')

-- The loop of headerMap: the values of keys that agree but for case are joined.
unfoldable pub add_headers : Map (List Text) → Map (List Text) → Map (List Text)
add_headers [] m = m
add_headers (entry ∷ header) m =
    let key = to_lower entry.0 in
    let before : List Text = elim (lookup key m) [ none ↦ [] | some values ↦ values ] in
    add_headers header (insert key (before ++ entry.1) m)

unfoldable pub header_map : Request → Map (List Text)
header_map r =
    let m = add_headers r.header [] in
    let host = if r.host == [] then get_first (codes "Host") r.header else r.host in
    if host == [] then m else elim (lookup (codes "host") m) [
      | some values ↦ m
      | none ↦ insert (codes "host") (host ∷ []) m
    ]

unfoldable pub normalize_header_value : Text → Text
normalize_header_value v = join (fields v) (codes " ")

-- The loop of canonicalHeaders, over the sorted names.
unfoldable pub header_lines : List Text → Map (List Text) → Text
header_lines [] headers = []
header_lines (name ∷ names) headers =
    let values : List Text = elim (lookup name headers) [ none ↦ [] ∷ [] | some values ↦ values ] in
    name
    ++ b':'
      ∷ (normalize_header_value (join values (codes ",")) ++ b'\n' ∷ header_lines names headers)

unfoldable pub canonical_headers : List Text → Map (List Text) → Text
canonical_headers names headers = header_lines (sort names) headers

unfoldable pub canonical_request : Text → Text → Text → List Text → Map (List Text) → Text → Text
canonical_request method path query names headers payload_hash =
    join
      (method
        ∷ path
        ∷ query
        ∷ canonical_headers names headers
        ∷ join (sort names) (codes ";")
        ∷ payload_hash
        ∷ [])
      (b'\n' ∷ [])

unfoldable pub string_to_sign : Text → Text → Text → Text
string_to_sign amz_date credential_scope hashed_canonical =
    join (scheme ∷ amz_date ∷ credential_scope ∷ hashed_canonical ∷ []) (b'\n' ∷ [])
