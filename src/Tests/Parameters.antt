-- ===== src/Tests/Parameters.antt =====
-- Runs on parameters.
use twister_aws.Base.{
  ◌+◌, Text, codes, ◌≡◌, ◌≢◌, refl, Bool, true, false, none, some, [], ◌∷◌, ◌==◌, lookup, arith,
  Lacks, inl, eq_of_eq,
}
use twister_aws.Base.Strings.{to_lower, trim_space, has_prefix}
use twister_aws.Base.Int.{pos}
use twister_aws.Base.Files.{missing}
use twister_aws.Region.{normalize_region}
use twister_aws.ParamStore.{
  ParameterRecord, get, lookup_in_region, name_and_region_from_id, synthesize_parameter_arn,
  region_name_key,
}
use twister_aws.ParamStore.Arn.{IsBare, name_and_region_from_id-synthesize_parameter_arn}
use twister_aws.ParamStore.Lookup.{lookup_in_region_elsewhere, HasVersions}
use twister_aws.Ssm.{Service, PutParameterRequest, failed, put_parameter, is_taken}
use twister_aws.Ssm.Behaviour.{IsAccepted, existing, has_room, lookup_in_region_plain}
use twister_aws.Ssm.Versions.{put_all, version_at, version_at-put_all}
use twister_aws.Tests.Data.{dates, numbers, us, eu}

abbrev pub flag : Text
flag = codes "/app/flag"

abbrev pub old : ParameterRecord
old = record {
  region = us;
  name = flag;
  kind = codes "String";
  value = codes "off";
  version = pos 3;
  last_modified = pos 5;
}

abbrev pub holding : Service
holding = record {
  store = record { by_key = (region_name_key us flag, old) ∷ [] };
  parameters_csv = codes "parameters.csv";
  file = missing;
}

us-Lacks : Lacks 0 us
us-Lacks = omega arith

pub us_normal : normalize_region us ≡ us
unfolding normalize_region to_lower trim_space ◌==◌
us_normal = refl

eu_normal : normalize_region eu ≡ eu
unfolding normalize_region to_lower trim_space ◌==◌
eu_normal = refl

pub csv_path : trim_space (codes "parameters.csv") ≢ []
unfolding trim_space
csv_path = cc

holding-HasVersions : HasVersions holding.store
unfolding lookup
holding-HasVersions k r e = ground arith

pub accepted :
    (value : Text) (overwrite : Bool)
    → IsAccepted (record { name = flag; value = value; kind = []; overwrite = overwrite })
unfolding trim_space has_prefix ◌==◌
accepted value overwrite = record { named = cc; plain = refl; typed = inl refl }

flag_trimmed : trim_space flag ≡ flag
unfolding trim_space
flag_trimmed = refl

flag_filled : trim_space flag ≢ []
flag_filled = rw flag_trimmed (cc)

flag_plain : has_prefix (trim_space flag) (codes "arn:") ≡ false
unfolding trim_space has_prefix
flag_plain = refl

found : lookup_in_region flag us holding.store ≡ some old
found =
    rw (lookup_in_region_plain flag us holding.store flag_filled flag_plain)
      (unfold get lookup region_name_key normalize_region to_lower trim_space ◌==◌ in refl)

found_again : lookup_in_region (trim_space flag) (normalize_region us) holding.store ≡ some old
found_again = rw (flag_trimmed, us_normal) found

abbrev bare : Text
bare = codes "app/flag"

bare-IsBare : IsBare bare
unfolding has_prefix trim_space
bare-IsBare = record { filled = cc; slashless = refl; trimmed = refl }

us_colonless : Lacks b':' (normalize_region us)
us_colonless = rw us_normal (omega arith)

name_and_region_from_id-synthesize_parameter_arn_example :
    (name_and_region_from_id (synthesize_parameter_arn us flag) ≡ (flag, normalize_region us))
    × (name_and_region_from_id (synthesize_parameter_arn us bare) ≡ (flag, normalize_region us))
name_and_region_from_id-synthesize_parameter_arn_example =
    name_and_region_from_id-synthesize_parameter_arn us bare bare-IsBare us_colonless

us-ne-eu : us ≢ eu
unfolding ◌==◌
us-ne-eu e = ground (arith, eq_of_eq us eu e)

lookup_in_region_elsewhere_example :
    lookup_in_region (synthesize_parameter_arn us flag) eu holding.store ≡ none
lookup_in_region_elsewhere_example =
    lookup_in_region_elsewhere us eu bare holding.store bare-IsBare us_colonless
      (rw (us_normal, eu_normal) us-ne-eu)

version_three : version_at dates numbers (pos 9) flag [] us holding ≡ pos 3
version_three = rw found refl

version_at-put_all_example :
    version_at dates numbers
      (pos 9)
      flag
      []
      us
      (put_all dates numbers (pos 9) flag [] us (codes "on" ∷ codes "off" ∷ []) holding)
    ≡ pos (3 + 2)
version_at-put_all_example =
    version_at-put_all dates numbers (pos 9) flag [] us (λ v. accepted v true) us-Lacks
      (codes "on" ∷ codes "off" ∷ []) holding 3 holding-HasVersions csv_path version_three
      (omega arith)

abbrev pub request : Bool → PutParameterRequest
request overwrite = record { name = flag; value = codes "on"; kind = []; overwrite = overwrite }

pub free : is_taken (existing dates numbers (pos 9) (request true) us holding) true ≡ false
unfolding is_taken
free = ground arith

pub room : has_room (existing dates numbers (pos 9) (request true) us holding) ≡ true
room = rw found_again refl

refuses :
    (put_parameter dates numbers true (pos 9) none us holding).0
    ≡ failed 400 "InvalidRequestException"
unfolding put_parameter
refuses = refl
