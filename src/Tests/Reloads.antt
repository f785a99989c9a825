-- ===== src/Tests/Reloads.antt =====
-- Runs on parameters that are written to the CSV file and loaded again.
use twister_aws.Base.{
  eq_iff, subst, Text, codes, ◌≡◌, refl, true, none, some, [], ◌==◌, lookup, arith,
}
use twister_aws.Base.Strings.{read_back, to_lower, trim_space}
use twister_aws.Base.Int.{pos}
use twister_aws.Base.Files.{missing}
use twister_aws.Region.{normalize_region}
use twister_aws.ParamStore.{ParameterRecord, get, fill_defaults, region_name_key}
use twister_aws.ParamStore.Files.{upsert_persist, reload_from_files}
use twister_aws.ParamStore.Files.Rows.{IsStorable}
use twister_aws.ParamStore.Files.Validity.{IsValid}
use twister_aws.ParamStore.Files.RoundTrip.{reload_from_files-upsert_persist}
use twister_aws.Ssm.{stored, get_parameter, put_parameter, next_version}
use twister_aws.Ssm.Behaviour.{existing}
use twister_aws.Tests.Data.{dates, numbers, dates-IsDates, numbers-IsNumbers, us, eu}
use twister_aws.Base.{Option}
use twister_aws.Ssm.{GetParameterRequest}
use twister_aws.Ssm.Reloads.{IsKept, get_parameter-reload_from_files}
use twister_aws.Tests.Parameters.{
  room, flag, old, holding, us_normal, csv_path, accepted, request, free,
}

abbrev another : ParameterRecord
another = record {
  region = eu;
  name = flag;
  kind = [];
  value = codes "on";
  version = pos 0;
  last_modified = pos 4;
}

old-IsStorable : IsStorable old
unfolding read_back trim_space
old-IsStorable = record {
  normal = us_normal;
  name_trimmed = refl;
  named = cc;
  kind_trimmed = refl;
  typed = cc;
  numbered = refl;
  sized = refl;
  dated = refl;
  in_range = refl;
  region_kept = refl;
  name_kept = refl;
  kind_kept = refl;
  value_kept = refl;
}

another-IsStorable : IsStorable (fill_defaults (pos 9) another)
unfolding fill_defaults read_back trim_space normalize_region to_lower ◌==◌
another-IsStorable = record {
  normal = refl;
  name_trimmed = refl;
  named = cc;
  kind_trimmed = refl;
  typed = cc;
  numbered = refl;
  sized = refl;
  dated = refl;
  in_range = refl;
  region_kept = refl;
  name_kept = refl;
  kind_kept = refl;
  value_kept = refl;
}

held :
    (k : Text) (r : ParameterRecord)
    → lookup k holding.store.by_key ≡ some r
    → (region_name_key us flag ≡ k) × (old ≡ r)
unfolding lookup
held k r e = (ground (arith, e, eq_iff (region_name_key us flag) k), ground (arith, e))

holding-IsValid : IsValid holding.store.by_key
holding-IsValid = record {
  storable = λ k r e. subst IsStorable (held k r e).1 old-IsStorable;
  keyed = λ k r e. subst (λ q. region_name_key q.region q.name ≡ k) (held k r e).1 (held k r e).0;
}

reload_from_files-upsert_persist_example :
    let (e, s', file') =
      upsert_persist dates numbers true
        (codes "parameters.csv")
        (pos 9)
        another
        holding.store
        missing in
    let (e', t) = reload_from_files dates numbers (some file') none (pos 12) in
    (e ≡ none)
    × IsValid s'.by_key
    × (get eu flag s' ≡ some (fill_defaults (pos 9) another))
    × (e' ≡ none)
    × ((region name : Text) → get region name t ≡ get region name s')
reload_from_files-upsert_persist_example =
    reload_from_files-upsert_persist dates numbers dates-IsDates numbers-IsNumbers (pos 9) (pos 12)
      (codes "parameters.csv") another holding.store missing holding-IsValid another-IsStorable
      csv_path

kept : IsKept (request true) us
unfolding read_back normalize_region to_lower trim_space ◌==◌
kept = record { region_kept = refl; name_kept = refl; value_kept = refl }

get_parameter-reload_from_files_example :
    let (reply, s') = put_parameter dates numbers true (pos 9) (some (request true)) us holding in
    let (e, t) = reload_from_files dates numbers (some s'.file) none (pos 12) in
    (reply ≡ stored (next_version (existing dates numbers (pos 9) (request true) us holding)))
    × IsValid s'.store.by_key
    × (e ≡ none)
    × ((asked : Option GetParameterRequest) (region : Text)
        → get_parameter asked region (record s' { store = t }) ≡ get_parameter asked region s')
get_parameter-reload_from_files_example =
    get_parameter-reload_from_files dates numbers (pos 9) (request true) us holding (pos 12)
      dates-IsDates numbers-IsNumbers (accepted (codes "on") true) kept free holding-IsValid
      csv_path refl refl room
