-- ===== src/SecretStore/Arn.antt =====
-- The ARNs that the store prints, and how an id is read back.
use twister_aws.Base.{
  ℕ, suc, zero, ◌<◌, ◌/◌, ◌%◌, ◌*◌, Text, codes, ◌≡◌, refl, ◌≢◌, ap, ◌∙◌, Option, none, some, Lacks,
  All, arith, true, Bool-cases, inl, inr, [], ◌++◌, ◌∷◌, length, length-take, take,
}
use twister_aws.Base.Strings.{
  hex_encode, hex_digit, is_hex_digit, all_hex, to_lower, lower_byte, has_prefix, after_first,
  cut_last,
}
use twister_aws.Base.Strings.Laws.{cut_last-append}
use twister_aws.SecretStore.{
  drop_suffix, resource_of_arn, parse_name_from_secret_id, arn_suffix, synthesize_arn,
}

-- The texts that ParseNameFromSecretID takes for the suffix of an ARN.
pub record IsSuffix (t : Text) : Type 0 where
  pub size : length t ≡ 8
  pub digits : all_hex t ≡ true
  pub dashless : Lacks b'-' t

-- A name in front of a dash and eight hexadecimal digits loses them.
pub drop_suffix-append :
    (name t : Text) → name ≢ [] → IsSuffix t → drop_suffix (name ++ b'-' ∷ t) ≡ name
unfolding drop_suffix cut_last
drop_suffix-append [] t named h = absurd (named refl)
drop_suffix-append (c ∷ name) t named h =
    rw (cut_last-append b'-' (c ∷ name) t h.dashless) (ground (arith, h.size, h.digits))

hex_digit_facts :
    (d : ℕ)
    → d < 16
    → (is_hex_digit (lower_byte (hex_digit d)) ≡ true) × (lower_byte (hex_digit d) ≢ b'-')
unfolding hex_digit is_hex_digit lower_byte
hex_digit_facts d h = ground arith

abbrev HexFacts : Text → Type 0
HexFacts s =
    (length (to_lower (hex_encode s)) ≡ length s * 2)
    × (all_hex (to_lower (hex_encode s)) ≡ true)
    × Lacks b'-' (to_lower (hex_encode s))

hex_encode-HexFacts : (s : Text) → All (λ c. c < 256) s → HexFacts s
unfolding hex_encode to_lower all_hex
hex_encode-HexFacts [] h = (refl, refl, tt)
hex_encode-HexFacts (c ∷ s) h =
    let (size, digits, dashless) = hex_encode-HexFacts s h.1 in
    let (hi, hi') = hex_digit_facts (c / 16) (omega (arith, h.0)) in
    let (lo, lo') = hex_digit_facts (c % 16) (omega arith) in
    (omega arith, ground (arith, hi, lo, digits), (hi', (lo', dashless)))

-- What is relied on of SHA-256: its digest has 32 bytes.
pub record IsDigest (sha256 : Text → Text) : Type 0 where
  pub size : (s : Text) → length (sha256 s) ≡ 32
  pub bytes : (s : Text) → All (λ c. c < 256) (sha256 s)

take-All {κ} : (P : ℕ → Type κ) (n : ℕ) (s : Text) → All P s → All P (take n s)
take-All P zero s h = tt
take-All P (suc n) [] h = tt
take-All P (suc n) (c ∷ s) h = (h.0, take-All P n s h.1)

module _ (sha256 : Text → Text) (digest : IsDigest sha256) where
  arn_suffix-IsSuffix : (name : Text) → IsSuffix (arn_suffix sha256 name)
  unfolding arn_suffix
  arn_suffix-IsSuffix name =
      let (size, digits, dashless) =
        hex_encode-HexFacts (take 4 (sha256 name)) (take-All _ 4 _ (digest.bytes name)) in
      record {
        size = omega (arith, size, length-take 4 (sha256 name), digest.size name);
        digits = digits;
        dashless = dashless;
      }

after_first-skip :
    (c : ℕ) (s : Text)
    → c ≢ b':'
    → after_first (codes ":secret:") (c ∷ s) ≡ after_first (codes ":secret:") s
unfolding after_first has_prefix
after_first-skip c s h = ground arith

after_first-Lacks :
    (s rest : Text)
    → Lacks b':' s
    → after_first (codes ":secret:") (s ++ rest) ≡ after_first (codes ":secret:") rest
after_first-Lacks [] rest h = refl
after_first-Lacks (c ∷ s) rest h = after_first-skip c (s ++ rest) h.0 ∙ after_first-Lacks s rest h.1

-- A text that ends at its first `b` begins with the pattern `p ++ b` only if it is `p` up to there.
prefix_at :
    (b : ℕ) (s p x : Text)
    → Lacks b s
    → Lacks b p
    → has_prefix (s ++ b ∷ x) (p ++ b ∷ []) ≡ true
    → s ≡ p
unfolding has_prefix
prefix_at b [] [] x hs hp e = refl
prefix_at b [] (d ∷ p) x hs hp e = absurd (hp.0 (ground arith))
prefix_at b (c ∷ s) [] x hs hp e = absurd (hs.0 (ground arith))
prefix_at b (c ∷ s) (d ∷ p) x hs hp e = ground (arith, prefix_at b s p x hs.1 hp.1)

after_first-account :
    (rest : Text)
    → after_first (codes ":secret:") (codes ":000000000000:secret:" ++ rest) ≡ some rest
unfolding after_first has_prefix
after_first-account rest = refl

after_first-scheme :
    (rest : Text)
    → after_first (codes ":secret:") (codes "arn:aws:secretsmanager:" ++ rest)
      ≡ after_first (codes ":secret:") (b':' ∷ rest)
unfolding after_first has_prefix
after_first-scheme rest = refl

after_first-region :
    (region rest : Text)
    → Lacks b':' region
    → region ≢ codes "secret"
    → after_first (codes ":secret:") (b':' ∷ (region ++ b':' ∷ rest))
      ≡ after_first (codes ":secret:") (b':' ∷ rest)
after_first-region region rest h ne =
    elim (Bool-cases (has_prefix (region ++ b':' ∷ rest) (codes "secret:"))) [
      | inl e ↦ absurd (ne (prefix_at b':' region (codes "secret") rest h (omega arith) e))
      | inr e ↦ unfold after_first has_prefix in rw e (after_first-Lacks region (b':' ∷ rest) h)
    ]

module _ (sha256 : Text → Text) (digest : IsDigest sha256) where
  resource_of_arn-synthesize_arn :
      (region name : Text)
      → Lacks b':' region
      → region ≢ codes "secret"
      → resource_of_arn (synthesize_arn sha256 region name) ≡ name ++ b'-' ∷ arn_suffix sha256 name
  unfolding resource_of_arn synthesize_arn
  resource_of_arn-synthesize_arn region name h ne =
      let tail = name ++ b'-' ∷ arn_suffix sha256 name in
      let rest = codes "000000000000:secret:" ++ tail in
      ap (λ (o : Option Text). elim o [ none ↦ synthesize_arn sha256 region name | some t ↦ t ])
        (after_first-scheme (region ++ b':' ∷ rest)
          ∙ (after_first-region region rest h ne ∙ after_first-account tail))

  has_prefix-synthesize_arn :
      (region name : Text) → has_prefix (synthesize_arn sha256 region name) (codes "arn:") ≡ true
  unfolding synthesize_arn has_prefix
  has_prefix-synthesize_arn region name = refl

  -- The store reads the ARN that it prints for a name as that name, whatever the name holds, if
  -- the name is not empty and the region has no colon and is not the word "secret"; a digest has 32 bytes.
  pub parse_name_from_secret_id-synthesize_arn :
      (region name : Text)
      → Lacks b':' region
      → region ≢ codes "secret"
      → name ≢ []
      → parse_name_from_secret_id (synthesize_arn sha256 region name) ≡ name
  unfolding parse_name_from_secret_id
  parse_name_from_secret_id-synthesize_arn region name h ne named =
      rw (has_prefix-synthesize_arn region name, resource_of_arn-synthesize_arn region name h ne)
        (drop_suffix-append name (arn_suffix sha256 name) named
          (arn_suffix-IsSuffix sha256 digest name))
