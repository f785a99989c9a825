-- ===== src/Sigv4/Fields/Header.antt =====
-- parseAuthorization of internal/sigv4/verify.go, on the header that a client writes.
use twister_aws.Base.{
  Text, Lacks, All-append, codes, ◌≡◌, ◌≢◌, refl, subst, eq_of_ne, List, [], ◌∷◌, ◌++◌, arith,
  append_assoc,
}
use twister_aws.Base.Results.{ok}
use twister_aws.Base.Strings.{split, trim_space, trim_left, has_prefix, is_space}
use twister_aws.Base.Strings.Laws.{
  has_byte, has_byte-Lacks, split-append, split-Lacks, has_prefix-append, trim_prefix-append,
  trim_space_append,
}
use twister_aws.Sigv4.Fields.{Authorization, read_part, read_parts, parse_authorization}

-- A field that a client may write: not empty, without blanks at the ends, and without a comma.
pub record IsField (t : Text) : Type 0 where
  pub filled : t ≢ []
  pub trimmed : trim_space t ≡ t
  pub whole : Lacks b',' t

-- The header for three fields, in the order of AWS's clients.
unfoldable pub authorization_header : Authorization → Text
authorization_header a =
    codes "AWS4-HMAC-SHA256 Credential="
    ++ (a.credential
        ++ (codes ", SignedHeaders="
            ++ (a.signed_headers ++ (codes ", Signature=" ++ a.signature))))

trim_space_blank : (s : Text) → trim_space (b' ' ∷ s) ≡ trim_space s
unfolding trim_space trim_left is_space
trim_space_blank s = refl

read_credential :
    (t : Text) (a : Authorization)
    → IsField t
    → read_part (codes "Credential=" ++ t) a ≡ record a { credential = t }
unfolding read_part is_space
read_credential t a h =
    rw
      (
        trim_space_append b'C' (codes "redential=") t refl h.trimmed h.filled,
        has_prefix-append (codes "Credential=") t,
        trim_prefix-append (codes "Credential=") t,
        read_part,
      )
      refl

read_signed_headers :
    (t : Text) (a : Authorization)
    → IsField t
    → read_part (codes " SignedHeaders=" ++ t) a ≡ record a { signed_headers = t }
unfolding read_part is_space has_prefix
read_signed_headers t a h =
    rw
      (
        trim_space_blank (codes "SignedHeaders=" ++ t),
        trim_space_append b'S' (codes "ignedHeaders=") t refl h.trimmed h.filled,
        trim_prefix-append (codes "SignedHeaders=") t,
        read_part,
      )
      refl

read_signature :
    (t : Text) (a : Authorization)
    → IsField t
    → read_part (codes " Signature=" ++ t) a ≡ record a { signature = t }
unfolding read_part is_space has_prefix
read_signature t a h =
    rw
      (
        trim_space_blank (codes "Signature=" ++ t),
        trim_space_append b'S' (codes "ignature=") t refl h.trimmed h.filled,
        trim_prefix-append (codes "Signature=") t,
        read_part,
      )
      refl

-- The three parts of what follows the scheme.
parts_of : Authorization → List Text
parts_of a =
    (codes "Credential=" ++ a.credential)
    ∷ (codes " SignedHeaders=" ++ a.signed_headers)
    ∷ (codes " Signature=" ++ a.signature)
    ∷ []

rest_of : Authorization → Text
rest_of a =
    codes "Credential="
    ++ (a.credential
        ++ b','
          ∷ (codes " SignedHeaders="
              ++ (a.signed_headers ++ b',' ∷ (codes " Signature=" ++ a.signature))))

pub record AreFields (a : Authorization) : Type 0 where
  pub credential : IsField a.credential
  pub signed_headers : IsField a.signed_headers
  pub signature : IsField a.signature

split_rest : (a : Authorization) → AreFields a → split (rest_of a) b',' ≡ parts_of a
unfolding rest_of parts_of has_byte
split_rest a h =
    let c = codes "Credential=" ++ a.credential in
    let s = codes " SignedHeaders=" ++ a.signed_headers in
    let g = codes " Signature=" ++ a.signature in
    rw
      (
        split-append b',' c (s ++ b',' ∷ g) (
            All-append _ (codes "Credential=") a.credential
              (has_byte-Lacks b',' (codes "Credential=") refl) h.credential.whole),
        split-append b',' s g (
            All-append _ (codes " SignedHeaders=") a.signed_headers
              (has_byte-Lacks b',' (codes " SignedHeaders=") refl) h.signed_headers.whole),
        split-Lacks b',' g (
            All-append _ (codes " Signature=") a.signature
              (has_byte-Lacks b',' (codes " Signature=") refl) h.signature.whole),
      )
      refl

trim_rest : (a : Authorization) → AreFields a → trim_space (rest_of a) ≡ rest_of a
unfolding rest_of is_space
trim_rest a h =
    let front =
      codes "redential="
      ++ (a.credential
          ++ b','
            ∷ (codes " SignedHeaders=" ++ (a.signed_headers ++ b',' ∷ codes " Signature="))) in
    let front_end = codes ", SignedHeaders=" ++ (a.signed_headers ++ codes ", Signature=") in
    let same : b'C' ∷ (front ++ a.signature) ≡ rest_of a =
      rw
        (
          append_assoc a.credential front_end a.signature,
          append_assoc a.signed_headers (codes ", Signature=") a.signature,
        )
        refl in
    subst (λ t. trim_space t ≡ t) same
      (trim_space_append b'C' front a.signature refl h.signature.trimmed h.signature.filled)

read_all :
    (a : Authorization)
    → AreFields a
    → read_parts (parts_of a) (record { credential = []; signed_headers = []; signature = [] }) ≡ a
unfolding parts_of read_parts
read_all a h =
    rw
      (
        read_credential a.credential
            (record { credential = []; signed_headers = []; signature = [] }) h.credential,
        read_signed_headers a.signed_headers
            (record { credential = a.credential; signed_headers = []; signature = [] })
            h.signed_headers,
        read_signature a.signature
            (record {
              credential = a.credential;
              signed_headers = a.signed_headers;
              signature = [];
            })
            h.signature,
      )
      refl

header_of_rest :
    (a : Authorization) → codes "AWS4-HMAC-SHA256 " ++ rest_of a ≡ authorization_header a
unfolding rest_of authorization_header
header_of_rest a = refl

-- A header that a client writes from three fields is read as these fields.
pub parse_authorization-authorization_header :
    (a : Authorization) → AreFields a → parse_authorization (authorization_header a) ≡ ok a
unfolding parse_authorization
parse_authorization-authorization_header a h =
    let s = codes "AWS4-HMAC-SHA256 " in
    subst (λ t. parse_authorization t ≡ ok a) (header_of_rest a)
      (rw
        (
          has_prefix-append s (rest_of a),
          trim_prefix-append s (rest_of a),
          trim_rest a h,
          split_rest a h,
          read_all a h,
          parse_authorization,
        )
        (ground (
          arith,
          eq_of_ne a.credential [] h.credential.filled,
          eq_of_ne a.signed_headers [] h.signed_headers.filled,
          eq_of_ne a.signature [] h.signature.filled,
        )))
