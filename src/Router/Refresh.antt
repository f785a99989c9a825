-- ===== src/Router/Refresh.antt =====
-- The reload of every store: internal/awsserver/refresh.go. A part that is not set is none, and so is a
-- file whose path is empty.
use twister_aws.Base.{ℕ, Text, codes, not, ◌&&◌, Option, none, some, List, ◌==◌, if◌then◌else◌}
use twister_aws.Base.Int.{ℤ}
use twister_aws.Base.Dates.{Dates}
use twister_aws.Base.Files.{File}
use twister_aws.Credentials.{Provider, CsvFile, reload_from_file, access_key_count}
use twister_aws.SecretStore
use twister_aws.SecretStore.Files.{Row}
use twister_aws.ParamStore
use twister_aws.Ec2.{World, load}

-- What Refresher reloads.
pub record Refresher : Type 0 where
  pub provider : Provider
  pub secrets : SecretStore.Store
  pub parameters : Option ParamStore.Store
  pub ec2 : Option World

-- The files that a reload reads.
pub record Sources : Type 0 where
  pub credentials : CsvFile
  pub secrets_csv : Option (File (List Row))
  pub secrets_json : Option (File (List SecretStore.Files.FileEntry))
  pub parameters_csv : Option (File (List Row))
  pub parameters_json : Option (File (List ParamStore.Files.FileEntry))

pub data Refreshed : Type 0 where
  not_reloaded : (status : ℕ) → Refreshed
  reloaded : (access_keys secrets parameters : ℕ) → Refreshed

-- RefreshResponse.
unfoldable pub refresh_response : Refresher → Refreshed
refresh_response rf =
    reloaded (access_key_count rf.provider) (SecretStore.count rf.secrets)
      (elim rf.parameters [ none ↦ 0 | some s ↦ ParamStore.count s ])

-- From the reload of EC2 on.
unfoldable pub refresh_ec2 : Refresher → Refreshed × Refresher
refresh_ec2 rf = elim rf.ec2 [
  | none ↦ (refresh_response rf, rf)
  | some w ↦
      let after = load w in
      let rf' = record rf { ec2 = some after.1 } in
      if after.0 then (refresh_response rf', rf') else (not_reloaded 500, rf')
]

module _ (sha256 : Text → Text) (dates : Dates) (numbers : ParamStore.Files.Numbers) where
  -- From the reload of the parameters on.
  unfoldable pub refresh_parameters : Sources → (now : ℤ) → Refresher → Refreshed × Refresher
  refresh_parameters on now rf = elim rf.parameters [
    | none ↦ refresh_ec2 rf
    | some s ↦
        let after =
          ParamStore.Files.reload_from_files dates numbers on.parameters_csv on.parameters_json
            now in
        let rf' = record rf { parameters = some after.1 } in
        elim after.0 [ none ↦ refresh_ec2 rf' | some e ↦ (not_reloaded 500, rf') ]
  ]

  -- From the reload of the secrets on.
  unfoldable pub refresh_secrets : Sources → (now hour_ago : ℤ) → Refresher → Refreshed × Refresher
  refresh_secrets on now hour_ago rf =
      let after =
        SecretStore.Files.reload_from_files sha256 dates on.secrets_csv on.secrets_json now
          hour_ago in
      let rf' = record rf { secrets = after.1 } in
      elim after.0 [ none ↦ refresh_parameters on now rf' | some e ↦ (not_reloaded 500, rf') ]

  unfoldable pub refresh :
      (method : Text) → Sources → (now hour_ago : ℤ) → Refresher → Refreshed × Refresher
  refresh method on now hour_ago rf =
      if not (method == codes "GET") && not (method == codes "POST")
      then (not_reloaded 405, rf)
      else let after = reload_from_file rf.provider on.credentials in
        let rf' = record rf { provider = after.1 } in
        elim after.0 [
          | none ↦ refresh_secrets on now hour_ago rf'
          | some e ↦ (not_reloaded 500, rf')
        ]
