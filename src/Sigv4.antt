-- ===== src/Sigv4.antt =====
-- Signature verification: internal/sigv4/canonical_query.go and verify.go. A request is what
-- net/http gives: `escaped_path` is r.URL.EscapedPath(), `query` is r.URL.Query(), and `header` and
-- `query` are maps in the order in which Go ranges over them. The digests are a parameter.
pub mod Encoding
pub mod Query
pub mod Clock
pub mod Fields
pub mod Verify
use twister_aws.Base.{Text, Map, List}

pub record Request : Type 0 where
  pub method : Text
  pub escaped_path : Text
  pub query : Map (List Text)
  pub header : Map (List Text)
  pub host : Text

-- Go's crypto/sha256 and crypto/hmac: the digest of bytes, and the code of a key and bytes.
pub record Crypto : Type 0 where
  pub sha256 : Text → Text
  pub hmac_sha256 : Text → Text → Text

-- The errors of Verify and of what it calls.
pub data Refusal : Type 0 where
  payload_mismatch unsupported_scheme malformed_authorization invalid_scope : Refusal
  invalid_scope_fields unsupported_service unknown_access_key missing_date : Refusal
  date_not_of_scope invalid_date outside_skew invalid_encoding signature_mismatch : Refusal
