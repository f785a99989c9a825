-- ===== src/Sigv4/Verify/Sound.antt =====
-- What Verify of internal/sigv4/verify.go accepts.
use twister_aws.Base.{
  get_first, ℕ, ◌+◌, ◌≤◌, Text, Map, codes, ◌≡◌, refl, subst, ◌↔◌, ◌⊎◌, inl, inr, true, false, some,
  [], ◌==◌, lookup, length, take, arith, eq_refl, eq_iff, Bool-cases, Option-cases,
}
use twister_aws.Base.Results.{ok, bind_ok}
use twister_aws.Base.Strings.{trim_space, to_lower, equal_fold, hex_decode}
use twister_aws.Sigv4.{Request, Crypto}
use twister_aws.Sigv4.Clock.{parse_amz_date, verify_clock_skew, max_skew}
use twister_aws.Sigv4.Fields.{Authorization, Scope, parse_authorization, parse_credential_scope}
use twister_aws.Sigv4.Fields.Laws.{IsScope, parse_credential_scope_iff}
use twister_aws.Sigv4.Verify.{
  unsigned_payload, sha256_hex, payload_hash_of, secret_of, check_date, expected_signature,
  decode_signature, verify,
}

-- The time of a request and that of the check are at most 15 minutes apart, and the request's day
-- is the scope's.
pub record IsFresh (amz_date date_stamp : Text) (now : ℕ) : Type 0 where
  pub time : ℕ
  pub time_read : parse_amz_date amz_date ≡ some time
  pub not_old : now ≤ time + max_skew
  pub not_ahead : time ≤ now + max_skew
  pub day : take 8 amz_date ≡ date_stamp
  pub long : 8 ≤ length amz_date

check_date-IsFresh :
    (amz_date date_stamp : Text) (now : ℕ)
    → check_date amz_date date_stamp now ≡ ok tt
    → IsFresh amz_date date_stamp now
unfolding check_date verify_clock_skew
check_date-IsFresh amz_date date_stamp now h = elim (Option-cases (parse_amz_date amz_date)) [
  | inl e ↦ absurd (ground (arith, e))
  | inr (t, e) ↦ record {
    time = t;
    time_read = e;
    not_old = ground (arith, e);
    not_ahead = ground (arith, e);
    day = ground (arith, eq_iff (take 8 amz_date) date_stamp);
    long = ground arith;
  }
]

check_date_of_IsFresh :
    (amz_date date_stamp : Text) (now : ℕ)
    → IsFresh amz_date date_stamp now
    → check_date amz_date date_stamp now ≡ ok tt
unfolding check_date verify_clock_skew
check_date_of_IsFresh amz_date date_stamp now h = ground (
  arith,
  h.time_read,
  h.not_old,
  h.not_ahead,
  h.long,
  h.day,
  eq_iff amz_date [],
  eq_iff (take 8 amz_date) date_stamp,
)

-- The hash that is signed: none if the client says so, else the body's, and not against the client's.
unfoldable pub IsPayload : Crypto → Text → Text → Text → Type 0
IsPayload crypto client_hash body payload_hash =
    ((equal_fold client_hash unsigned_payload ≡ true) × (payload_hash ≡ unsigned_payload))
    ⊎ ((equal_fold client_hash unsigned_payload ≡ false)
        × (((client_hash ≡ []) ⊎ (equal_fold (sha256_hex crypto body) client_hash ≡ true))
            × (payload_hash ≡ sha256_hex crypto body)))

payload_hash_of_iff :
    (crypto : Crypto) (client_hash body payload_hash : Text)
    → (payload_hash_of crypto client_hash body ≡ ok payload_hash)
      ↔ IsPayload crypto client_hash body payload_hash
unfolding payload_hash_of IsPayload
payload_hash_of_iff crypto client_hash body payload_hash = (forth, back)
  where
    forth :
        payload_hash_of crypto client_hash body ≡ ok payload_hash
        → IsPayload crypto client_hash body payload_hash
    forth h = elim (Bool-cases (equal_fold client_hash unsigned_payload)) [
      | inl e ↦ inl (e, ground (arith, e))
      | inr e ↦ inr (
        e,
        (elim (Bool-cases (client_hash == [])) [
          | inl f ↦ (inl ((eq_iff client_hash []).0 f), ground (arith, e, f))
          | inr f ↦ (inr (ground (arith, e, f)), ground (arith, e, f))
        ]),
      )
    ]

    back :
        IsPayload crypto client_hash body payload_hash
        → payload_hash_of crypto client_hash body ≡ ok payload_hash
    back (inl (e, f)) = ground (arith, e, f)
    back (inr (e, (inl f, g))) = ground (arith, e, f, g, eq_iff client_hash [])
    back (inr (e, (inr f, g))) = ground (arith, e, f, g)

-- The signature is written as hexadecimal of the bytes, which are 32.
unfoldable pub IsSignature : Text → Text → Type 0
IsSignature written bytes = (hex_decode (to_lower written) ≡ some bytes) × (length bytes ≡ 32)

decode_signature_iff :
    (written bytes : Text) → (decode_signature written ≡ ok bytes) ↔ IsSignature written bytes
unfolding decode_signature IsSignature
decode_signature_iff written bytes = (forth, λ (e, f). ground (arith, e, f))
  where
    forth : decode_signature written ≡ ok bytes → IsSignature written bytes
    forth h = elim (Option-cases (hex_decode (to_lower written))) [
      | inl e ↦ absurd (ground (arith, e))
      | inr (t, e) ↦ (ground (arith, e), ground (arith, e))
    ]

secret_of_iff :
    (allowed : Map Text) (scope : Scope) (secret : Text)
    → (secret_of allowed scope ≡ ok secret) ↔ (lookup scope.access_key allowed ≡ some secret)
unfolding secret_of
secret_of_iff allowed scope secret = (forth, λ h. ground (arith, h))
  where
    forth : secret_of allowed scope ≡ ok secret → lookup scope.access_key allowed ≡ some secret
    forth h = elim (Option-cases (lookup scope.access_key allowed)) [
      | inl e ↦ absurd (ground (arith, e))
      | inr (t, e) ↦ ground (arith, e)
    ]

-- What a request, its body, the allowed keys and the time have to be for a region and a service.
pub record IsSigned (crypto : Crypto) (r : Request) (body : Text) (allowed : Map Text) (now : ℕ)
    (region service : Text) : Type 0 where
  pub payload_hash : Text
  pub auth : Authorization
  pub scope : Scope
  pub secret : Text
  pub payload :
      IsPayload crypto
        (trim_space (get_first (codes "X-Amz-Content-Sha256") r.header))
        body
        payload_hash
  pub auth_read : parse_authorization (get_first (codes "Authorization") r.header) ≡ ok auth
  pub scope_read : IsScope auth.credential scope
  pub known : lookup scope.access_key allowed ≡ some secret
  pub fresh : IsFresh (get_first (codes "X-Amz-Date") r.header) scope.date_stamp now
  pub signature :
      IsSignature auth.signature
        (expected_signature crypto r secret scope auth.signed_headers payload_hash)
  pub in_region : region ≡ scope.region
  pub for_service : service ≡ scope.service

-- Verify accepts a request with a region and a service exactly if: the Authorization header has a
-- credential, signed headers and a signature; the credential is an access key, a date of eight bytes,
-- the region, a service that is served and the suffix, joined by slashes; the access key is allowed; the
-- date of the request is on the scope's day and at most 15 minutes from `now`; the payload hash is the
-- body's, and the client's if it sends one, or the payload is declared unsigned; and the signature is, in
-- hexadecimal, the 32 bytes that the key's secret gives for the canonical request.
pub verify_iff :
    (crypto : Crypto) (r : Request) (body : Text) (allowed : Map Text) (now : ℕ)
    (region service : Text)
    → (verify crypto r body allowed now ≡ ok (region, service))
      ↔ IsSigned crypto r body allowed now region service
unfolding verify
verify_iff crypto r body allowed now region service = (forth, back)
  where
    forth :
        verify crypto r body allowed now ≡ ok (region, service)
        → IsSigned crypto r body allowed now region service
    forth h =
        bind_ok
          (payload_hash_of crypto (trim_space (get_first (codes "X-Amz-Content-Sha256") r.header))
            body)
          _ h
          λ payload_hash e1 h.
            bind_ok (parse_authorization (get_first (codes "Authorization") r.header)) _ h
              λ auth e2 h. bind_ok (parse_credential_scope auth.credential) _ h λ scope e3 h.
                bind_ok (secret_of allowed scope) _ h λ secret e4 h.
                  bind_ok
                    (check_date (get_first (codes "X-Amz-Date") r.header) scope.date_stamp now) _ h
                    λ u e5 h. bind_ok (decode_signature auth.signature) _ h λ signature e6 h.
                      record {
                        payload_hash = payload_hash;
                        auth = auth;
                        scope = scope;
                        secret = secret;
                        payload = (payload_hash_of_iff crypto _ body payload_hash).0 e1;
                        auth_read = e2;
                        scope_read = (parse_credential_scope_iff auth.credential scope).0 e3;
                        known = (secret_of_iff allowed scope secret).0 e4;
                        fresh = check_date-IsFresh _ scope.date_stamp now e5;
                        signature =
                            subst (IsSignature auth.signature)
                              ((eq_iff signature (
                                  expected_signature crypto r secret scope auth.signed_headers
                                    payload_hash)).0
                                (ground (arith, h)))
                              ((decode_signature_iff auth.signature signature).0 e6);
                        in_region = ground (arith, h);
                        for_service = ground (arith, h);
                      }

    back :
        IsSigned crypto r body allowed now region service
        → verify crypto r body allowed now ≡ ok (region, service)
    back s =
        rw
          (
            (payload_hash_of_iff crypto _ body s.payload_hash).1 s.payload,
            s.auth_read,
            (parse_credential_scope_iff s.auth.credential s.scope).1 s.scope_read,
            (secret_of_iff allowed s.scope s.secret).1 s.known,
            check_date_of_IsFresh _ s.scope.date_stamp now s.fresh,
            (decode_signature_iff s.auth.signature _).1 s.signature,
            eq_refl
                (expected_signature crypto r s.secret s.scope s.auth.signed_headers s.payload_hash),
            s.in_region,
            s.for_service,
          )
          refl
