-- ===== src/ParamStore/Arn.antt =====
-- The ARNs of parameters, and how they are read back.
use twister_aws.Base.{
  ℕ, suc, Text, codes, ◌≡◌, refl, ◌≢◌, Lacks, ◌==◌, eq_of_ne, true, false, [], ◌++◌, ◌∷◌,
  append_assoc,
}
use twister_aws.Base.Strings.{is_space, has_prefix, trim_space, cut_byte, split_n}
use twister_aws.Base.Strings.Laws.{
  cut_byte-append, trim_space_append, has_prefix-append, trim_prefix-append,
}
use twister_aws.Region.{normalize_region}
use twister_aws.ParamStore.{
  of_parts, of_resource, name_and_region_from_id, synthesize_parameter_arn,
}

split_n_cut :
    (b : ℕ) (s x : Text) (k : ℕ)
    → Lacks b s
    → split_n b (s ++ b ∷ x) (suc (suc k)) ≡ s ∷ split_n b x (suc k)
unfolding split_n
split_n_cut b s x k h = rw (cut_byte-append b s x h, split_n) refl

split_n_scheme :
    (t : Text)
    → split_n b':' (codes "arn:aws:ssm:" ++ t) 6
      ≡ codes "arn" ∷ codes "aws" ∷ codes "ssm" ∷ split_n b':' t 3
unfolding split_n cut_byte
split_n_scheme t = refl

split_n_account :
    (t : Text) → split_n b':' (codes "000000000000:" ++ t) 2 ≡ codes "000000000000" ∷ t ∷ []
unfolding split_n cut_byte
split_n_account t = refl

-- The ARN of a resource in a region without colon is read as the resource.
of_parts_arn :
    (id region res : Text)
    → Lacks b':' region
    → of_parts id
        (split_n b':' (codes "arn:aws:ssm:" ++ (region ++ (codes ":000000000000:" ++ res))) 6)
      ≡ of_resource id region res
of_parts_arn id region res h =
    rw
      (
        split_n_scheme (region ++ (codes ":000000000000:" ++ res)),
        split_n_cut b':' region (codes "000000000000:" ++ res) 1 h,
        split_n_account res,
      )
      (unfold of_parts ◌==◌ in refl)

has_prefix-scheme : (t : Text) → has_prefix (codes "arn:aws:ssm:" ++ t) (codes "arn:") ≡ true
unfolding has_prefix
has_prefix-scheme t = refl

a_not_space : is_space b'a' ≡ false
unfolding is_space
a_not_space = refl

p_not_space : is_space b'p' ≡ false
unfolding is_space
p_not_space = refl

-- A resource that is not blank at its end is read with the region.
name_and_region_from_id_arn :
    (region res : Text)
    → Lacks b':' region
    → trim_space res ≡ res
    → res ≢ []
    → let arn = codes "arn:aws:ssm:" ++ (region ++ (codes ":000000000000:" ++ res)) in
      name_and_region_from_id arn ≡ of_resource arn region res
unfolding name_and_region_from_id
name_and_region_from_id_arn region res h trimmed filled =
    let account = codes ":000000000000:" in
    let same : trim_space (codes "arn:aws:ssm:" ++ (region ++ (account ++ res)))
        ≡ codes "arn:aws:ssm:" ++ (region ++ (account ++ res)) =
      rw (← append_assoc region account res) (
        trim_space_append b'a' (codes "rn:aws:ssm:" ++ (region ++ account)) res a_not_space trimmed
          filled) in
    rw (same, has_prefix-scheme (region ++ (account ++ res))) (of_parts_arn _ region res h)

of_resource_bare :
    (id region rest : Text)
    → rest ≢ []
    → has_prefix rest (codes "/") ≡ false
    → of_resource id region (codes "parameter/" ++ rest) ≡ (b'/' ∷ rest, region)
unfolding of_resource
of_resource_bare id region rest filled bare =
    rw
      (
        has_prefix-append (codes "parameter/") rest,
        trim_prefix-append (codes "parameter/") rest,
        eq_of_ne rest [] filled,
        bare,
        eq_of_ne (b'/' ∷ rest) [] (cc),
      )
      refl

-- The conditions under which a parameter's ARN names it: the name behind a slash is not empty,
-- has no slash in front, and no blank at its end.
pub record IsBare (rest : Text) : Type 0 where
  pub filled : rest ≢ []
  pub slashless : has_prefix rest (codes "/") ≡ false
  pub trimmed : trim_space rest ≡ rest

synthesize_plain :
    (region rest : Text)
    → IsBare rest
    → synthesize_parameter_arn region rest
      ≡ codes "arn:aws:ssm:"
        ++ (normalize_region region ++ (codes ":000000000000:" ++ (codes "parameter/" ++ rest)))
unfolding synthesize_parameter_arn
synthesize_plain region rest h = rw (h.slashless) refl

module _ (region rest : Text) (h : IsBare rest)
    (colonless : Lacks b':' (normalize_region region)) where
  -- A name and the same name behind a slash have one ARN.
  same_arn : synthesize_parameter_arn region (b'/' ∷ rest) ≡ synthesize_parameter_arn region rest
  same_arn =
      unfold synthesize_parameter_arn in rw (h.slashless, has_prefix-append (codes "/") rest) refl

  read_plain :
      name_and_region_from_id (synthesize_parameter_arn region rest)
      ≡ (b'/' ∷ rest, normalize_region region)
  read_plain =
      rw
        (
          synthesize_plain region rest h,
          name_and_region_from_id_arn (normalize_region region) (codes "parameter/" ++ rest)
              colonless
              (trim_space_append b'p' (codes "arameter/") rest p_not_space h.trimmed h.filled) (cc),
        )
        (of_resource_bare _ (normalize_region region) rest h.filled h.slashless)

  -- The ARN of a name in path form is read back as the name and the normalised region. The ARN of
  -- a name without a slash in front is the same text, so it is read as the name behind a slash. Behind
  -- its slash the name is not empty, has no further slash in front and no blanks at the ends; the
  -- normalised region has no colon.
  pub name_and_region_from_id-synthesize_parameter_arn :
      (name_and_region_from_id (synthesize_parameter_arn region (b'/' ∷ rest))
        ≡ (b'/' ∷ rest, normalize_region region))
      × (name_and_region_from_id (synthesize_parameter_arn region rest)
          ≡ (b'/' ∷ rest, normalize_region region))
  name_and_region_from_id-synthesize_parameter_arn = (rw same_arn read_plain, read_plain)
