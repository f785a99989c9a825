-- ===== src/Sigv4/Fields/Laws.antt =====
-- The credential scope and the authorization header, read back: internal/sigv4/verify.go.
use twister_aws.Base.{
  Text, Lacks, All, codes, true, ◌≡◌, refl, sym, ap, subst, ◌↔◌, List, [], ◌∷◌, ◌++◌, length, arith,
  eq_iff, eq_refl,
}
use twister_aws.Base.Results.{ok}
use twister_aws.Base.Strings.{split, join}
use twister_aws.Base.Strings.Laws.{
  has_byte, has_byte-Lacks, join-split, split-append, split-Lacks, split-All-Lacks,
}
use twister_aws.Sigv4.Fields.{
  Scope, scope_suffix, check_scope, scope_of, parse_credential_scope, is_allowed_signing_service,
}

-- A credential that is written as the five parts of a scope: a date of eight bytes, a service that
-- is served, and no slash inside a part.
pub record IsScope (credential : Text) (scope : Scope) : Type 0 where
  pub written :
      credential
      ≡ scope.access_key
        ++ b'/'
          ∷ (scope.date_stamp
              ++ b'/' ∷ (scope.region ++ b'/' ∷ (scope.service ++ b'/' ∷ scope_suffix)))
  pub key_whole : Lacks b'/' scope.access_key
  pub stamp_whole : Lacks b'/' scope.date_stamp
  pub region_whole : Lacks b'/' scope.region
  pub service_whole : Lacks b'/' scope.service
  pub stamp_length : length scope.date_stamp ≡ 8
  pub served : is_allowed_signing_service scope.service ≡ true

check_scope_ok :
    (scope : Scope) (suffix : Text) {s : Scope}
    → check_scope scope suffix ≡ ok s
    → (s ≡ scope)
      × ((suffix ≡ scope_suffix)
          × ((length scope.date_stamp ≡ 8) × (is_allowed_signing_service scope.service ≡ true)))
unfolding check_scope
check_scope_ok scope suffix h =
    (ground arith, (ground (arith, eq_iff suffix scope_suffix), (ground arith, ground arith)))

scope_of-IsScope :
    (parts : List Text) {scope : Scope}
    → All (Lacks b'/') parts
    → scope_of parts ≡ ok scope
    → IsScope (join parts (codes "/")) scope
unfolding scope_of join
scope_of-IsScope [] a h = ground arith
scope_of-IsScope (p1 ∷ []) a h = ground arith
scope_of-IsScope (p1 ∷ p2 ∷ []) a h = ground arith
scope_of-IsScope (p1 ∷ p2 ∷ p3 ∷ []) a h = ground arith
scope_of-IsScope (p1 ∷ p2 ∷ p3 ∷ p4 ∷ []) a h = ground arith
scope_of-IsScope (p1 ∷ p2 ∷ p3 ∷ p4 ∷ p5 ∷ []) a h =
    let scope : Scope = record { access_key = p1; date_stamp = p2; region = p3; service = p4 } in
    let (same, (suffix, (eight, served))) = check_scope_ok scope p5 h in
    subst (IsScope (join (p1 ∷ p2 ∷ p3 ∷ p4 ∷ p5 ∷ []) (codes "/"))) (sym same) (record {
      written = ap (λ t. p1 ++ b'/' ∷ (p2 ++ b'/' ∷ (p3 ++ b'/' ∷ (p4 ++ b'/' ∷ t)))) suffix;
      key_whole = a.0;
      stamp_whole = a.1.0;
      region_whole = a.1.1.0;
      service_whole = a.1.1.1.0;
      stamp_length = eight;
      served = served;
    })
scope_of-IsScope (p1 ∷ p2 ∷ p3 ∷ p4 ∷ p5 ∷ p6 ∷ ps) a h = ground arith

suffix_whole : Lacks b'/' scope_suffix
unfolding has_byte
suffix_whole = has_byte-Lacks b'/' scope_suffix refl

split_scope :
    (credential : Text) (scope : Scope)
    → IsScope credential scope
    → split credential b'/'
      ≡ scope.access_key ∷ scope.date_stamp ∷ scope.region ∷ scope.service ∷ scope_suffix ∷ []
split_scope credential scope h =
    let a = scope.access_key in
    let d = scope.date_stamp in
    let r = scope.region in
    let s = scope.service in
    let last : split scope_suffix b'/' ≡ scope_suffix ∷ [] =
      split-Lacks b'/' scope_suffix suffix_whole in
    rw
      (
        h.written,
        split-append b'/' a (d ++ b'/' ∷ (r ++ b'/' ∷ (s ++ b'/' ∷ scope_suffix))) h.key_whole,
        split-append b'/' d (r ++ b'/' ∷ (s ++ b'/' ∷ scope_suffix)) h.stamp_whole,
        split-append b'/' r (s ++ b'/' ∷ scope_suffix) h.region_whole,
        split-append b'/' s scope_suffix h.service_whole,
        last,
      )
      refl

check_scope_holds :
    (scope : Scope)
    → length scope.date_stamp ≡ 8
    → is_allowed_signing_service scope.service ≡ true
    → scope_of
        (scope.access_key ∷ scope.date_stamp ∷ scope.region ∷ scope.service ∷ scope_suffix ∷ [])
      ≡ ok scope
unfolding check_scope scope_of
check_scope_holds scope e f = ground (arith, e, f, eq_refl scope_suffix)

pub parse_credential_scope_iff :
    (credential : Text) (scope : Scope)
    → (parse_credential_scope credential ≡ ok scope) ↔ IsScope credential scope
unfolding parse_credential_scope
parse_credential_scope_iff credential scope = (forth, back)
  where
    forth : parse_credential_scope credential ≡ ok scope → IsScope credential scope
    forth h =
        subst (λ t. IsScope t scope) (join-split credential b'/')
          (scope_of-IsScope (split credential b'/') (split-All-Lacks b'/' credential) h)

    back : IsScope credential scope → parse_credential_scope credential ≡ ok scope
    back h = rw (split_scope credential scope h) (check_scope_holds scope h.stamp_length h.served)
