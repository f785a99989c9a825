-- ===== src/SecretsManager/Behaviour.antt =====
-- GetSecretValue after CreateSecret.
use twister_aws.Base.{
  ℕ, Text, codes, ◌≡◌, ◌≢◌, refl, ap, ◌∙◌, Bool, true, false, none, some, Lacks, eq_of_ne, eq_refl,
  arith, [], ◌∷◌, ◌++◌, length, length-append,
}
use twister_aws.Base.Int.{ℤ}
use twister_aws.Base.Dates.{Dates}
use twister_aws.Base.Strings.{trim_space, has_prefix}
use twister_aws.Base.Strings.Laws.{trim_space_idem, trim_space-length}
use twister_aws.Region.{normalize_region}
use twister_aws.Region.Laws.{normalize_region_idem, normalize_region-Lacks}
use twister_aws.SecretStore.{
  Store, SecretRecord, put, lookup_in_region, synthesize_arn, parse_name_from_secret_id,
}
use twister_aws.SecretStore.Lookup.{lookup_in_region-put}
use twister_aws.SecretStore.Arn.{
  IsDigest, IsSuffix, drop_suffix-append, parse_name_from_secret_id-synthesize_arn,
}
use twister_aws.SecretStore.Files.{upsert_persist, write_secrets_csv}
use twister_aws.SecretStore.Files.Validity.{upsert_persist_lem}
use twister_aws.SecretsManager.{
  Service, CreateSecretRequest, Reply, secret, created, failed, get_secret_value, create_secret,
  answer_created,
}

-- The requests that CreateSecret accepts.
pub record IsAccepted (req : CreateSecretRequest) : Type 0 where
  pub named : trim_space req.name ≢ []
  pub filled : trim_space req.secret_string ≢ []

module _ (now : ℤ) (vid : Text) (req : CreateSecretRequest) (signed : Text) where
  -- What CreateSecret stores.
  abbrev pub new_record : SecretRecord
  new_record = record {
    region = normalize_region signed;
    name = trim_space req.name;
    secret_string = req.secret_string;
    created_date = now;
    version_id = vid;
  }

  pub create_secret_lem :
      (sha256 : Text → Text) (dates : Dates) (ok : Bool) (s : Service)
      → IsAccepted req
      → create_secret sha256 dates ok now vid (some req) signed s
        ≡ answer_created sha256
            (normalize_region signed)
            (trim_space req.name)
            vid
            s
            (upsert_persist dates ok s.secrets_csv new_record s.store s.file)
  unfolding create_secret
  create_secret_lem sha256 dates ok s h =
      rw
        (
          eq_of_ne (trim_space req.name) [] h.named,
          eq_of_ne (trim_space req.secret_string) [] h.filled,
        )
        refl

  create_secret_ok :
      (sha256 : Text → Text) (dates : Dates) (s : Service)
      → IsAccepted req
      → trim_space s.secrets_csv ≢ []
      → create_secret sha256 dates true now vid (some req) signed s ≡ (
        created
            (synthesize_arn sha256 (normalize_region signed) (trim_space req.name))
            (trim_space req.name)
            vid,
        record s {
          store = put new_record s.store;
          file = (write_secrets_csv dates true (put new_record s.store) s.file).1;
        },
      )
  unfolding answer_created
  create_secret_ok sha256 dates s h pathed =
      create_secret_lem sha256 dates true s h
      ∙ ap (answer_created sha256 (normalize_region signed) (trim_space req.name) vid s) (
          upsert_persist_lem dates s.secrets_csv new_record s.store s.file
            (rw trim_space_idem h.named) pathed)

parse_suffixed :
    (base t : Text)
    → IsSuffix t
    → base ≢ []
    → has_prefix (base ++ b'-' ∷ t) (codes "arn:") ≡ false
    → parse_name_from_secret_id (base ++ b'-' ∷ t) ≡ base
unfolding parse_name_from_secret_id
parse_suffixed base t suffix filled plain = rw plain (drop_suffix-append base t filled suffix)

trim_space-ne-append : (name base t : Text) → name ≡ base ++ b'-' ∷ t → name ≢ trim_space base
trim_space-ne-append name base t e same = absurd (
    omega (
      arith,
      trim_space-length base,
      ap (length {A = ℕ}) e,
      ap (length {A = ℕ}) same,
      length-append base (b'-' ∷ t),
    ))

-- A record that the lookup gives is what GetSecretValue answers with.
get_secret_value_found :
    (sha256 : Text → Text) (id region : Text) (s : Service) (rec : SecretRecord)
    → trim_space id ≢ []
    → lookup_in_region id region s.store ≡ some rec
    → get_secret_value sha256 (some id) region s
      ≡ secret (record {
        arn = synthesize_arn sha256 region rec.name;
        name = rec.name;
        secret_string = rec.secret_string;
        created_date = rec.created_date;
        version_id = rec.version_id;
      })
unfolding get_secret_value
get_secret_value_found sha256 id region s rec h e = rw (eq_of_ne (trim_space id) [] h, e) refl

get_secret_value_missing :
    (sha256 : Text → Text) (id region : Text) (s : Service)
    → lookup_in_region id region s.store ≡ none
    → trim_space id ≢ []
    → get_secret_value sha256 (some id) region s ≡ failed 400 "ResourceNotFoundException"
unfolding get_secret_value
get_secret_value_missing sha256 id region s e h = rw (eq_of_ne (trim_space id) [] h, e) refl

trim_space-synthesize_arn :
    (sha256 : Text → Text) (region name : Text)
    → trim_space (synthesize_arn sha256 region name) ≢ []
unfolding synthesize_arn trim_space
trim_space-synthesize_arn sha256 region name = ground arith

module _ (sha256 : Text → Text) (digest : IsDigest sha256) (dates : Dates) (now : ℤ) (vid : Text)
    (req : CreateSecretRequest) (signed : Text) (s : Service) (accepted : IsAccepted req)
    (pathed : trim_space s.secrets_csv ≢ []) (no_nul : Lacks 0 signed) where
  abbrev after : Service
  after = (create_secret sha256 dates true now vid (some req) signed s).1

  after_store : after.store ≡ put (new_record now vid req signed) s.store
  after_store =
      ap (λ (r : Reply × Service). r.1.store)
        (create_secret_ok now vid req signed sha256 dates s accepted pathed)

  twice_named : trim_space (trim_space req.name) ≢ []
  twice_named = rw trim_space_idem accepted.named

  -- A store with the new secret, looked up by an id that names it.
  lookup_created :
      (t : Store) (id : Text)
      → t ≡ put (new_record now vid req signed) s.store
      → parse_name_from_secret_id id ≡ trim_space req.name
      → lookup_in_region id signed t ≡ some (new_record now vid req signed)
  lookup_created t id there e =
      let rec = new_record now vid req signed in
      rw
        (
          there,
          lookup_in_region-put rec s.store id signed twice_named
              (normalize_region-Lacks signed no_nul) no_nul (rw e accepted.named),
          e,
          normalize_region_idem signed,
          trim_space_idem req.name,
          eq_refl (normalize_region signed),
          eq_refl (trim_space req.name),
        )
        refl

  -- What GetSecretValue answers by the ARN of the new secret, from a store that has it.
  pub get_created :
      (s' : Service)
      → s'.store ≡ put (new_record now vid req signed) s.store
      → Lacks b':' (normalize_region signed)
      → normalize_region signed ≢ codes "secret"
      → get_secret_value sha256
          (some (synthesize_arn sha256 (normalize_region signed) (trim_space req.name)))
          signed
          s'
        ≡ secret (record {
          arn = synthesize_arn sha256 signed (trim_space req.name);
          name = trim_space req.name;
          secret_string = req.secret_string;
          created_date = now;
          version_id = vid;
        })
  get_created s' there colonless not_word =
      let name = trim_space req.name in
      let region = normalize_region signed in
      let arn = synthesize_arn sha256 region name in
      get_secret_value_found sha256 arn signed s' (new_record now vid req signed)
        (trim_space-synthesize_arn sha256 region name)
        (lookup_created s'.store arn there (
          parse_name_from_secret_id-synthesize_arn sha256 digest region name colonless not_word
            accepted.named))

  -- CreateSecret of an accepted request, with a CSV path and a file system that works, answers
  -- with an ARN, and GetSecretValue of that ARN in the signing region answers with the secret that
  -- was created. The region holds no NUL byte, and is normalised to a text that has no colon and
  -- is not the word "secret"; a digest has 32 bytes.
  pub get_secret_value-create_secret :
      Lacks b':' (normalize_region signed)
      → normalize_region signed ≢ codes "secret"
      → let name = trim_space req.name in
        let arn = synthesize_arn sha256 (normalize_region signed) name in
        let (reply, s') = create_secret sha256 dates true now vid (some req) signed s in
        (reply ≡ created arn name vid)
        × (get_secret_value sha256 (some arn) signed s'
            ≡ secret (record {
              arn = synthesize_arn sha256 signed name;
              name = name;
              secret_string = req.secret_string;
              created_date = now;
              version_id = vid;
            }))
  get_secret_value-create_secret colonless not_word =
      let name = trim_space req.name in
      let region = normalize_region signed in
      let arn = synthesize_arn sha256 region name in
      (
        ap (λ (r : Reply × Service). r.0)
            (create_secret_ok now vid req signed sha256 dates s accepted pathed),
        get_created after after_store colonless not_word,
      )

  -- A secret whose name ends in a dash and eight hexadecimal digits is not found by that name: if
  -- the part before the dash has no secret in the region, GetSecretValue of the very name that
  -- CreateSecret was given answers that there is no such secret. The request is accepted, there is
  -- a CSV path and a file system that works, the name is no ARN, and the region holds no NUL byte.
  pub get_secret_value_suffixed :
      (base t : Text)
      → trim_space req.name ≡ base ++ b'-' ∷ t
      → IsSuffix t
      → base ≢ []
      → has_prefix (base ++ b'-' ∷ t) (codes "arn:") ≡ false
      → lookup_in_region (base ++ b'-' ∷ t) signed s.store ≡ none
      → get_secret_value sha256 (some (base ++ b'-' ∷ t)) signed after
        ≡ failed 400 "ResourceNotFoundException"
  get_secret_value_suffixed base t named suffix filled plain absent =
      let rec = new_record now vid req signed in
      let id = base ++ b'-' ∷ t in
      let e = parse_suffixed base t suffix filled plain in
      let other = trim_space-ne-append (trim_space req.name) base t (named) in
      get_secret_value_missing sha256 id signed after
        (rw
          (
            after_store,
            lookup_in_region-put rec s.store id signed twice_named
                (normalize_region-Lacks signed no_nul) no_nul (rw e filled),
            e,
            trim_space_idem req.name,
            eq_of_ne (trim_space req.name) (trim_space base) other,
          )
          (ground (arith, absent)))
        (rw (← named, trim_space_idem req.name) accepted.named)
