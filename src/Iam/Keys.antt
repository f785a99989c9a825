-- ===== src/Iam/Keys.antt =====
-- The keys that internal/iam/handler.go hands out are accepted, at once and after a reload.
use twister_aws.Base.{
  ℕ, ◌<◌, Text, All, All-append, codes, ◌≡◌, ◌≢◌, refl, sym, ◌∙◌, subst, inl, inr, Bool, true,
  false, none, some, [], ◌∷◌, lookup, arith, Option-cases, length, ◌/◌, ◌%◌, ◌+◌, ◌*◌,
}
use twister_aws.Base.Results.{ok}
use twister_aws.Base.Strings.{is_space, trim_space, read_back, to_upper, hex_encode, hex_digit}
use twister_aws.Base.Strings.Hex.{trim_space_no_blank}
use twister_aws.Base.{get_first}
use twister_aws.Sigv4.{Request, Crypto}
use twister_aws.Sigv4.Fields.{Scope}
use twister_aws.Sigv4.Verify.Sound.{IsFresh, IsPayload}
use twister_aws.Sigv4.Verify.Complete.{IsCrypto, IsClient, verify_of_IsClient}
use twister_aws.Credentials.{
  Provider, CsvFile, add_access_key_and_persist, reload_from_file, verify_request,
}
use twister_aws.Credentials.RoundTrip.{IsKept, AreKept, reload_from_file-add_access_key_and_persist}
use twister_aws.Iam.{
  created, Random, access_key_of, base64_digit, base64_raw, new_key_pair, create_access_key,
}

-- A byte that is neither a blank nor a carriage return.
IsPlain : ℕ → Type 0
IsPlain c = (is_space c ≡ false) × (c ≢ 13)

base64_digit-IsPlain : (d : ℕ) → d < 64 → IsPlain (base64_digit d)
unfolding IsPlain base64_digit is_space
base64_digit-IsPlain d h = (ground arith, λ e. ground (arith, e))

base64_raw-All : (s : Text) → All (λ c. c < 256) s → All IsPlain (base64_raw s)
unfolding base64_raw
base64_raw-All [] h = tt
base64_raw-All (a ∷ []) h = (
  base64_digit-IsPlain (a / 4) (omega (arith, h.0)),
  (base64_digit-IsPlain (a % 4 * 16) (omega arith), tt),
)
base64_raw-All (a ∷ b ∷ []) h = (
  base64_digit-IsPlain (a / 4) (omega (arith, h.0)),
  (
    base64_digit-IsPlain (a % 4 * 16 + b / 16) (omega (arith, h.1.0)),
    (base64_digit-IsPlain (b % 16 * 4) (omega arith), tt),
  ),
)
base64_raw-All (a ∷ b ∷ c ∷ s) h = (
  base64_digit-IsPlain (a / 4) (omega (arith, h.0)),
  (
    base64_digit-IsPlain (a % 4 * 16 + b / 16) (omega (arith, h.1.0)),
    (
      base64_digit-IsPlain (b % 16 * 4 + c / 64) (omega (arith, h.1.1.0)),
      (base64_digit-IsPlain (c % 64) (omega arith), base64_raw-All s h.1.1.1),
    ),
  ),
)

upper_hex-All : (s : Text) → All (λ c. c < 256) s → All IsPlain (to_upper (hex_encode s))
unfolding to_upper hex_encode hex_digit IsPlain is_space
upper_hex-All [] h = tt
upper_hex-All (c ∷ s) h = (
  (ground (arith, h.0), λ e. ground (arith, e, h.0)),
  ((ground arith, λ e. ground (arith, e)), upper_hex-All s h.1),
)

read_back-Lacks : (s : Text) → All IsPlain s → read_back s ≡ s
unfolding read_back IsPlain
read_back-Lacks [] h = refl
read_back-Lacks (c ∷ []) h = refl
read_back-Lacks (c ∷ d ∷ s) h = rw (read_back-Lacks (d ∷ s) h.1, read_back) (ground (arith, h.0.1))

no_blanks : (s : Text) → All IsPlain s → All (λ c. is_space c ≡ false) s
unfolding IsPlain
no_blanks [] h = tt
no_blanks (c ∷ s) h = (h.0.0, no_blanks s h.1)

plain-IsKept : (s : Text) → s ≢ [] → All IsPlain s → IsKept s
plain-IsKept s ne h = record {
  filled = ne;
  trimmed = trim_space_no_blank s (no_blanks s h);
  kept = read_back-Lacks s h;
}

-- What crypto/rand gives for a key: 8 bytes for its id and 30 for its secret.
pub record IsRandom (random : Random) : Type 0 where
  pub id : Text
  pub secret : Text
  pub id_given : random.for_id ≡ some id
  pub secret_given : random.for_secret ≡ some secret
  pub id_length : length id ≡ 8
  pub secret_length : length secret ≡ 30
  pub id_bytes : All (λ c. c < 256) id
  pub secret_bytes : All (λ c. c < 256) secret

base64_raw-ne : (s : Text) → length s ≡ 30 → base64_raw s ≢ []
unfolding base64_raw
base64_raw-ne [] h e = ground arith
base64_raw-ne (a ∷ []) h e = ground (arith, e)
base64_raw-ne (a ∷ b ∷ []) h e = ground (arith, e)
base64_raw-ne (a ∷ b ∷ c ∷ s) h e = ground (arith, e)

access_key_of-IsKept : (b : Text) → All (λ c. c < 256) b → IsKept (access_key_of b)
unfolding access_key_of IsPlain is_space
access_key_of-IsKept b h =
    plain-IsKept _ (λ e. ground (arith, e))
      (All-append _ (codes "AKIA") (to_upper (hex_encode b))
        (
          (refl, λ e. ground (arith, e)),
          (
            (refl, λ e. ground (arith, e)),
            ((refl, λ e. ground (arith, e)), ((refl, λ e. ground (arith, e)), tt)),
          ),
        )
        (upper_hex-All b h))

base64_raw-IsKept : (b : Text) → length b ≡ 30 → All (λ c. c < 256) b → IsKept (base64_raw b)
base64_raw-IsKept b n h = plain-IsKept (base64_raw b) (base64_raw-ne b n) (base64_raw-All b h)

pair_given :
    (random : Random) (r : IsRandom random)
    → new_key_pair random ≡ some (access_key_of r.id, base64_raw r.secret)
unfolding new_key_pair
pair_given random r = rw (r.id_given, r.secret_given) refl

-- What a CreateAccessKey that answers a key has done.
added_key :
    (written : Bool) (random : Random) (p p' : Provider) (file file' : CsvFile) (ak sk : Text)
    → (r : IsRandom random) → create_access_key written random p file ≡ (created ak sk, p', file')
    → (access_key_of r.id ≡ ak)
      × ((base64_raw r.secret ≡ sk)
          × (add_access_key_and_persist written (access_key_of r.id) (base64_raw r.secret) p file
              ≡ (none, p', file')))
unfolding create_access_key
added_key written random p p' file file' ak sk r h =
    let add =
      add_access_key_and_persist written (access_key_of r.id) (base64_raw r.secret) p file in
    elim (Option-cases add.0) [
      | inl e ↦ (
        ground (arith, pair_given random r, e, h),
        (ground (arith, pair_given random r, e, h), ground (arith, pair_given random r, e, h)),
      )
      | inr (x, e) ↦ absurd (ground (arith, pair_given random r, e, h))
    ]

-- Where the provider's keys and secrets are not empty, have no blanks at the ends and no CR LF, where
-- HMACs have 32 bytes, and the file can be written: a key that CreateAccessKey answers is accepted, with
-- the scope's region and service, for a request that a client signs with the answered secret, on the
-- scope's day and at most 15 minutes from `now`, with the right payload hash; by the provider as it is
-- after CreateAccessKey, and by the provider reloaded from its file.
pub create_access_key-verify_request :
    (crypto : Crypto) (random : Random) (p p' : Provider) (file file' : CsvFile) (sk : Text)
    (r : Request) (body : Text) (now : ℕ) (scope : Scope) (payload_hash : Text)
    → IsRandom random
    → AreKept p.access_to_secret
    → create_access_key true random p file ≡ (created scope.access_key sk, p', file')
    → IsCrypto crypto
    → IsClient crypto r scope sk payload_hash
    → IsFresh (get_first (codes "X-Amz-Date") r.header) scope.date_stamp now
    → IsPayload crypto
        (trim_space (get_first (codes "X-Amz-Content-Sha256") r.header))
        body
        payload_hash
    → (verify_request crypto r body now p' ≡ ok (scope.region, scope.service))
      × (verify_request crypto r body now (reload_from_file p' file').1
          ≡ ok (scope.region, scope.service))
unfolding verify_request
create_access_key-verify_request crypto random p p' file file' sk r body now scope payload_hash
      bytes kept h sound client fresh payload =
    let (same_key, (same_secret, e)) =
      added_key true random p p' file file' scope.access_key sk bytes h in
    let key_kept : IsKept scope.access_key =
      subst IsKept same_key (access_key_of-IsKept bytes.id bytes.id_bytes) in
    let secret_kept : IsKept sk =
      subst IsKept same_secret
        (base64_raw-IsKept bytes.secret bytes.secret_length bytes.secret_bytes) in
    let added : add_access_key_and_persist true scope.access_key sk p file ≡ (none, p', file') =
      subst (λ t. add_access_key_and_persist true t sk p file ≡ (none, p', file')) same_key
        (subst
          (λ t.
            add_access_key_and_persist true (access_key_of bytes.id) t p file ≡ (none, p', file'))
          same_secret e) in
    let (_, reloaded, others) =
      reload_from_file-add_access_key_and_persist scope.access_key sk p p' file file' kept key_kept
        secret_kept added in
    let here : lookup scope.access_key p'.access_to_secret ≡ some sk =
      sym (others scope.access_key (λ b. key_kept.filled (sym key_kept.trimmed ∙ b))) ∙ reloaded in
    (
      verify_of_IsClient crypto r body p'.access_to_secret now scope sk payload_hash sound client
          here fresh payload,
      verify_of_IsClient crypto r body (reload_from_file p' file').1.access_to_secret now scope sk
          payload_hash sound client reloaded fresh payload,
    )
