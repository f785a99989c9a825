-- ===== src/SecretsManager/Failures.antt =====
-- What a CreateSecret that fails leaves behind.
use twister_aws.Base.{
  codes, Lacks, Text, String, ◌≡◌, ◌≢◌, refl, ap, ◌∙◌, Bool, false, Option, none, some, arith, [],
}
use twister_aws.Base.Int.{ℤ}
use twister_aws.Base.Dates.{Dates}
use twister_aws.Base.Strings.{trim_space}
use twister_aws.Base.Strings.Laws.{trim_space_idem}
use twister_aws.Region.{normalize_region}
use twister_aws.SecretStore.{put, synthesize_arn}
use twister_aws.SecretStore.Arn.{IsDigest}
use twister_aws.SecretStore.Files.Validity.{upsert_persist_failed}
use twister_aws.SecretsManager.{
  Service, CreateSecretRequest, failed, secret, create_secret, get_secret_value, answer_created,
}
use twister_aws.SecretsManager.Behaviour.{IsAccepted, new_record, create_secret_lem, get_created}

module _ (sha256 : Text → Text) (dates : Dates) (ok : Bool) (now : ℤ) (vid : Text) (signed : Text)
    (s : Service) where
  -- A CreateSecret that is refused with status 400 changes neither the store nor the file.
  pub create_secret_refused :
      (req : Option CreateSecretRequest) (type : String)
      → (create_secret sha256 dates ok now vid req signed s).0 ≡ failed 400 type
      → (create_secret sha256 dates ok now vid req signed s).1 ≡ s
  unfolding create_secret answer_created
  create_secret_refused none type h = refl
  create_secret_refused (some req) type h = ground arith

create_secret_failed :
    (sha256 : Text → Text) (dates : Dates) (now : ℤ) (vid : Text) (req : CreateSecretRequest)
    (signed : Text) (s : Service)
    → IsAccepted req
    → trim_space s.secrets_csv ≢ []
    → create_secret sha256 dates false now vid (some req) signed s ≡ (
      failed 500 "InternalServiceError",
      record s { store = put (new_record now vid req signed) s.store },
    )
unfolding answer_created
create_secret_failed sha256 dates now vid req signed s h pathed =
    create_secret_lem now vid req signed sha256 dates false s h
    ∙ ap (answer_created sha256 (normalize_region signed) (trim_space req.name) vid s) (
        upsert_persist_failed dates s.secrets_csv (new_record now vid req signed) s.store s.file
          (rw trim_space_idem h.named) pathed)

-- An accepted CreateSecret, with a CSV path, whose file cannot be replaced is answered with a failure, and the
-- file is as it was. Yet GetSecretValue of the ARN that the secret would have had, in the signing region,
-- answers with the secret, as it does after a CreateSecret that succeeds. The region holds no NUL byte, and is normalised to a text
-- that has no colon and is not the word "secret"; a digest has 32 bytes.
pub create_secret_not_persisted :
    (sha256 : Text → Text) (digest : IsDigest sha256) (dates : Dates) (now : ℤ) (vid : Text)
    (req : CreateSecretRequest) (signed : Text) (s : Service)
    → IsAccepted req
    → trim_space s.secrets_csv ≢ []
    → Lacks 0 signed
    → Lacks b':' (normalize_region signed)
    → normalize_region signed ≢ codes "secret"
    → let arn = synthesize_arn sha256 (normalize_region signed) (trim_space req.name) in
      let (reply, s') = create_secret sha256 dates false now vid (some req) signed s in
      (reply ≡ failed 500 "InternalServiceError")
      × (s'.file ≡ s.file)
      × (get_secret_value sha256 (some arn) signed s'
          ≡ secret (record {
            arn = synthesize_arn sha256 signed (trim_space req.name);
            name = trim_space req.name;
            secret_string = req.secret_string;
            created_date = now;
            version_id = vid;
          }))
create_secret_not_persisted sha256 digest dates now vid req signed s h pathed no_nul colonless
      not_word =
    rw (create_secret_failed sha256 dates now vid req signed s h pathed) (
      refl,
      refl,
      get_created sha256 digest dates now vid req signed s h pathed no_nul _ refl colonless
          not_word,
    )
