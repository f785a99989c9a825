-- ===== src/Sigv4/Verify/Complete.antt =====
-- A request that a client signs with an allowed key: Verify of internal/sigv4/verify.go.
use twister_aws.Base.{
  get_first, ℕ, Text, Map, codes, ◌≡◌, ◌≢◌, refl, [], ◌∷◌, some, lookup, length, arith,
}
use twister_aws.Base.Results.{ok}
use twister_aws.Base.Strings.{trim_space, hex_encode}
use twister_aws.Base.Strings.Hex.{
  hex_decode-hex_encode, hex_encode-no_blank, hex_encode-Lacks, trim_space_no_blank,
}
use twister_aws.Sigv4.{Request, Crypto}
use twister_aws.Sigv4.Encoding.Laws.{Bytes}
use twister_aws.Sigv4.Fields.{Authorization, Scope}
use twister_aws.Sigv4.Fields.Laws.{IsScope}
use twister_aws.Sigv4.Fields.Header.{
  IsField, AreFields, authorization_header, parse_authorization-authorization_header,
}
use twister_aws.Sigv4.Verify.{expected_signature, verify}
use twister_aws.Sigv4.Verify.Sound.{IsFresh, IsPayload, IsSignature, verify_iff}

-- An HMAC with SHA-256 is 32 bytes.
pub record IsCrypto (crypto : Crypto) : Type 0 where
  pub mac_length : (key message : Text) → length (crypto.hmac_sha256 key message) ≡ 32
  pub mac_bytes : (key message : Text) → Bytes (crypto.hmac_sha256 key message)

hex_encode-ne : (s : Text) → length s ≡ 32 → hex_encode s ≢ []
unfolding hex_encode
hex_encode-ne [] h e = ground arith
hex_encode-ne (c ∷ s) h e = ground (arith, e)

signature-IsField : (s : Text) → length s ≡ 32 → Bytes s → IsField (hex_encode s)
signature-IsField s n h = record {
  filled = hex_encode-ne s n;
  trimmed = trim_space_no_blank (hex_encode s) (hex_encode-no_blank s h);
  whole = hex_encode-Lacks s h;
}

-- What the client does for a request: the scope and the names of the signed headers are fields of the
-- header Authorization, and its signature is that of the request.
pub record IsClient (crypto : Crypto) (r : Request) (scope : Scope) (secret payload_hash : Text)
    : Type 0 where
  pub credential : Text
  pub signed_headers : Text
  pub credential_scope : IsScope credential scope
  pub credential_field : IsField credential
  pub headers_field : IsField signed_headers
  pub header :
      get_first (codes "Authorization") r.header
      ≡ authorization_header (record {
        credential = credential;
        signed_headers = signed_headers;
        signature =
            hex_encode (expected_signature crypto r secret scope signed_headers payload_hash);
      })

-- Where HMACs have 32 bytes: a request whose Authorization header a client wrote for a scope, with the
-- signature that an allowed key's secret gives for the request, is accepted with the scope's region and
-- service, if its date is on the scope's day and at most 15 minutes from `now`, and the payload hash that
-- is signed is the right one for the body and the client's header.
pub verify_of_IsClient :
    (crypto : Crypto) (r : Request) (body : Text) (allowed : Map Text) (now : ℕ) (scope : Scope)
    (secret payload_hash : Text)
    → IsCrypto crypto
    → IsClient crypto r scope secret payload_hash
    → lookup scope.access_key allowed ≡ some secret
    → IsFresh (get_first (codes "X-Amz-Date") r.header) scope.date_stamp now
    → IsPayload crypto
        (trim_space (get_first (codes "X-Amz-Content-Sha256") r.header))
        body
        payload_hash
    → verify crypto r body allowed now ≡ ok (scope.region, scope.service)
unfolding expected_signature IsSignature
verify_of_IsClient crypto r body allowed now scope secret payload_hash sound client known fresh
      payload =
    let mac = expected_signature crypto r secret scope client.signed_headers payload_hash in
    let n : length mac ≡ 32 = sound.mac_length _ _ in
    let bytes : Bytes mac = sound.mac_bytes _ _ in
    let a : Authorization = record {
      credential = client.credential;
      signed_headers = client.signed_headers;
      signature = hex_encode mac;
    } in
    let fields : AreFields a = record {
      credential = client.credential_field;
      signed_headers = client.headers_field;
      signature = signature-IsField mac n bytes;
    } in
    (verify_iff crypto r body allowed now scope.region scope.service).1 (record {
      payload_hash = payload_hash;
      auth = a;
      scope = scope;
      secret = secret;
      payload = payload;
      auth_read = rw client.header (parse_authorization-authorization_header a fields);
      scope_read = client.credential_scope;
      known = known;
      fresh = fresh;
      signature = (hex_decode-hex_encode mac bytes, n);
      in_region = refl;
      for_service = refl;
    })
