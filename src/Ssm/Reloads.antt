-- ===== src/Ssm/Reloads.antt =====
-- GetParameter before and after a reload of the file that PutParameter wrote.
use twister_aws.Base.{
  zero, suc, Option-cases, arith, Text, ◌≡◌, ◌≢◌, refl, sym, subst, true, false, Option, none, some,
  [], arith, inl, inr,
}
use twister_aws.Base.Int.{ℤ, pos, negsuc, wrap_suc, is_int64, zero_time, eqb_ℤ}
use twister_aws.Base.Dates.{Dates, IsDates, is_date}
use twister_aws.Base.Strings.{trim_space, read_back}
use twister_aws.Base.Strings.Laws.{trim_space_idem}
use twister_aws.Region.{normalize_region}
use twister_aws.Region.Laws.{normalize_region_idem}
use twister_aws.ParamStore.{
  Store, get, put, fill_defaults, lookup_in_region, lookup_parsed, name_and_region_from_id,
}
use twister_aws.ParamStore.Files.{Numbers, IsNumbers, reload_from_files}
use twister_aws.ParamStore.Files.Rows.{IsStorable}
use twister_aws.ParamStore.Files.Validity.{IsValid, put-IsValid, put-ne-nil}
use twister_aws.ParamStore.Files.RoundTrip.{reload_written}
use twister_aws.ParamStore.Lookup.{HasVersions, lookup_in_region-lookup}
use twister_aws.Ssm.{
  Service, PutParameterRequest, GetParameterRequest, get_parameter, put_parameter, is_taken, stored,
  next_version,
}
use twister_aws.Ssm.Behaviour.{
  IsAccepted, IsKnownType, type_of, known_type-ne-nil, existing, new_record, put_parameter_ok,
  fill_defaults_new, next_version-is_positive, has_room,
}

-- Two stores with the same parameters.
pub record SameParameters (s t : Store) : Type 0 where
  pub same : (region name : Text) → get region name t ≡ get region name s

lookup_parsed_same :
    (s t : Store)
    → SameParameters s t
    → (at : Text × Text) (region : Text) → lookup_parsed at region t ≡ lookup_parsed at region s
unfolding lookup_parsed
lookup_parsed_same s t h at region =
    let e = h.same (normalize_region region) at.0 in ground (arith, e)

get_parameter_same :
    (s : Service) (t : Store)
    → SameParameters s.store t
    → (asked : Option GetParameterRequest) (region : Text)
    → get_parameter asked region (record s { store = t }) ≡ get_parameter asked region s
unfolding get_parameter lookup_in_region
get_parameter_same s t h none region = refl
get_parameter_same s t h (some req) region =
    rw (lookup_parsed_same s.store t h (name_and_region_from_id req.name) region) refl

-- The texts of a request that a CSV file gives back: none holds CR LF.
pub record IsKept (req : PutParameterRequest) (signed : Text) : Type 0 where
  pub region_kept : read_back (normalize_region signed) ≡ normalize_region signed
  pub name_kept : read_back (trim_space req.name) ≡ trim_space req.name
  pub value_kept : read_back req.value ≡ req.value

known_type_trimmed : (t : Text) → IsKnownType t → trim_space t ≡ t
known_type_trimmed t (inl e) = subst (λ x. trim_space x ≡ x) (sym e) (unfold trim_space in refl)
known_type_trimmed t (inr (inl e)) =
    subst (λ x. trim_space x ≡ x) (sym e) (unfold trim_space in refl)
known_type_trimmed t (inr (inr e)) =
    subst (λ x. trim_space x ≡ x) (sym e) (unfold trim_space in refl)

known_type_kept : (t : Text) → IsKnownType t → read_back t ≡ t
known_type_kept t (inl e) = subst (λ x. read_back x ≡ x) (sym e) (unfold read_back in refl)
known_type_kept t (inr (inl e)) = subst (λ x. read_back x ≡ x) (sym e) (unfold read_back in refl)
known_type_kept t (inr (inr e)) = subst (λ x. read_back x ≡ x) (sym e) (unfold read_back in refl)

valid-HasVersions : (s : Store) → IsValid s.by_key → HasVersions s
valid-HasVersions s h k r e = (h.storable k r e).numbered

wrap_suc-is_int64 : (z : ℤ) → is_int64 z ≡ true → is_int64 (wrap_suc z) ≡ true
wrap_suc-is_int64 (pos n) h = ground (arith, h)
wrap_suc-is_int64 (negsuc zero) h = refl
wrap_suc-is_int64 (negsuc (suc n)) h = ground (arith, h)

module _ (dates : Dates) (numbers : Numbers) (now : ℤ) (req : PutParameterRequest) (signed : Text)
    (s : Service) where
  next_version-is_int64 :
      IsValid s.store.by_key
      → is_int64 (next_version (existing dates numbers now req signed s)) ≡ true
  unfolding next_version
  next_version-is_int64 valid = elim (Option-cases (existing dates numbers now req signed s)) [
    | inl e ↦ rw e refl
    | inr (r, e) ↦
        let at =
          lookup_in_region-lookup (trim_space req.name) (normalize_region signed) s.store r e in
        rw e (wrap_suc-is_int64 r.version (valid.storable at.0 r at.1).sized)
  ]

  new_record-IsStorable :
      IsAccepted req
      → IsKept req signed
      → eqb_ℤ now zero_time ≡ false
      → is_date now ≡ true
      → IsValid s.store.by_key
      → has_room (existing dates numbers now req signed s) ≡ true
      → IsStorable (fill_defaults now (new_record dates numbers now req signed s))
  new_record-IsStorable accepted kept dated in_range valid room =
      let versions = valid-HasVersions s.store valid in
      subst IsStorable
        (sym (fill_defaults_new dates numbers now req signed s accepted versions room))
        (record {
          normal = normalize_region_idem signed;
          name_trimmed = trim_space_idem req.name;
          named = accepted.named;
          kind_trimmed = known_type_trimmed (type_of req) accepted.typed;
          typed = known_type-ne-nil (type_of req) accepted.typed;
          numbered = next_version-is_positive dates numbers now req signed s versions room;
          sized = next_version-is_int64 valid;
          dated = dated;
          in_range = in_range;
          region_kept = kept.region_kept;
          name_kept = kept.name_kept;
          kind_kept = known_type_kept (type_of req) accepted.typed;
          value_kept = kept.value_kept;
        })

  -- After an accepted PutParameter of a parameter that is new, or may be overwritten, with a CSV path and a file
  -- system that works, on a valid store, at a time in the years 0 to 9999 that is not the zero time, where an old version is below 2^63 - 1, and without CR LF in the region, the name or the value: the
  -- answer is the next version, the store is valid again, and a reload at any later time from the file that was
  -- written, without a JSON file, has no error and leaves the answer to every GetParameter, in any
  -- region, as it was before the reload. Dates of those years and numbers of 64 bits are read back as they were printed.
  pub get_parameter-reload_from_files :
      (later : ℤ)
      → IsDates dates
      → IsNumbers numbers
      → IsAccepted req
      → IsKept req signed
      → is_taken (existing dates numbers now req signed s) req.overwrite ≡ false
      → IsValid s.store.by_key
      → trim_space s.parameters_csv ≢ []
      → eqb_ℤ now zero_time ≡ false
      → is_date now ≡ true
      → has_room (existing dates numbers now req signed s) ≡ true
      → let (reply, s') = put_parameter dates numbers true now (some req) signed s in
        let (e, t) = reload_from_files dates numbers (some s'.file) none later in
        (reply ≡ stored (next_version (existing dates numbers now req signed s)))
        × IsValid s'.store.by_key
        × (e ≡ none)
        × ((asked : Option GetParameterRequest) (region : Text)
            → get_parameter asked region (record s' { store = t }) ≡ get_parameter asked region s')
  get_parameter-reload_from_files later dated numbered accepted kept free valid pathed timed
        in_range room =
      let rec = new_record dates numbers now req signed s in
      let st = new_record-IsStorable accepted kept timed in_range valid room in
      let valid' = put-IsValid now rec s.store st valid in
      let again =
        reload_written dates numbers dated numbered later (put now rec s.store) s.file valid'
          (put-ne-nil now rec s.store st) in
      rw (put_parameter_ok dates numbers now req signed s accepted free pathed) (
        refl,
        valid',
        again.0,
        λ asked region. get_parameter_same _ _ (record { same = again.1 }) asked region,
      )
