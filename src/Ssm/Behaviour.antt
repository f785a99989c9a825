-- ===== src/Ssm/Behaviour.antt =====
-- GetParameter after PutParameter, and what a PutParameter that fails leaves behind.
use twister_aws.Base.{
  none, Bool, false, ◌^◌, ◌-◌, Text, codes, ◌≡◌, ◌≢◌, refl, ap, ◌∙◌, ◌⊎◌, Bool, true, false, not,
  ◌&&◌, Option, some, Lacks, ◌==◌, eq_iff, eq_of_ne, eq_refl, if◌then◌else◌, arith, [],
  Option-cases, inl, inr,
}
use twister_aws.Base.Int.{ℤ, pos, negsuc, wrap_suc, eqb_ℤ, is_positive}
use twister_aws.Base.Dates.{Dates}
use twister_aws.Base.Strings.{trim_space, has_prefix}
use twister_aws.Base.Strings.Laws.{trim_space_idem}
use twister_aws.Region.{normalize_region}
use twister_aws.Region.Laws.{normalize_region_idem, normalize_region-Lacks}
use twister_aws.ParamStore.{
  ParameterRecord, Store, put, get, fill_defaults, lookup_in_region, name_and_region_from_id,
}
use twister_aws.ParamStore.Lookup.{get-put, lookup_in_region-HasVersions, HasVersions}
use twister_aws.ParamStore.Files.Validity.{upsert_persist_lem}
use twister_aws.ParamStore.Files.{Numbers, upsert_persist, write_parameters_csv}
use twister_aws.Ssm.{
  Service, PutParameterRequest, stored, put_parameter, answer_stored, is_taken, next_version,
}

-- A name that is no ARN is looked up as it is, less the blanks at its ends.
pub lookup_in_region_plain :
    (name region : Text) (s : Store)
    → trim_space name ≢ []
    → has_prefix (trim_space name) (codes "arn:") ≡ false
    → lookup_in_region name region s ≡ get (normalize_region region) (trim_space name) s
unfolding lookup_in_region name_and_region_from_id
lookup_in_region_plain name region s named plain =
    rw (plain, eq_of_ne (trim_space name) [] named, eq_refl []) refl

-- The type of a request, String where it is blank.
abbrev pub type_of : PutParameterRequest → Text
type_of req = let t = trim_space req.kind in if t == [] then codes "String" else t

abbrev pub IsKnownType : Text → Type 0
IsKnownType t = (t ≡ codes "String") ⊎ (t ≡ codes "StringList") ⊎ (t ≡ codes "SecureString")

-- The requests that PutParameter accepts where the parameter is new or may be overwritten.
pub record IsAccepted (req : PutParameterRequest) : Type 0 where
  pub named : trim_space req.name ≢ []
  pub plain : has_prefix (trim_space req.name) (codes "arn:") ≡ false
  pub typed : IsKnownType (type_of req)

pub known_type :
    (t : Text)
    → IsKnownType t
    → (not (t == codes "String")
        && (not (t == codes "StringList") && not (t == codes "SecureString")))
      ≡ false
known_type t h = ground (
  arith,
  eq_iff t (codes "String"),
  eq_iff t (codes "StringList"),
  eq_iff t (codes "SecureString"),
)

pub known_type-ne-nil : (t : Text) → IsKnownType t → t ≢ []
known_type-ne-nil t h = ground arith

-- Whether a parameter may have a next version: one that is not there, or not at the last int.
abbrev pub has_room : Option ParameterRecord → Bool
has_room none = true
has_room (some r) = not (eqb_ℤ r.version (pos (2 ^ 63 - 1)))

wrap_suc_positive :
    (z : ℤ)
    → is_positive z ≡ true
    → not (eqb_ℤ z (pos (2 ^ 63 - 1))) ≡ true
    → is_positive (wrap_suc z) ≡ true
wrap_suc_positive (pos n) h room = ground (arith, room)
wrap_suc_positive (negsuc n) h room = absurd (ground (arith, h))

module _ (dates : Dates) (numbers : Numbers) (now : ℤ) (req : PutParameterRequest) (signed : Text)
    (s : Service) where
  abbrev pub existing : Option ParameterRecord
  existing = lookup_in_region (trim_space req.name) (normalize_region signed) s.store

  -- What PutParameter stores.
  abbrev pub new_record : ParameterRecord
  new_record = record {
    region = normalize_region signed;
    name = trim_space req.name;
    kind = type_of req;
    value = req.value;
    version = next_version existing;
    last_modified = now;
  }

  put_parameter_lem :
      (ok : Bool)
      → IsAccepted req
      → is_taken existing req.overwrite ≡ false
      → put_parameter dates numbers ok now (some req) signed s
        ≡ answer_stored
            (next_version existing)
            s
            (upsert_persist dates numbers ok s.parameters_csv now new_record s.store s.file)
  unfolding put_parameter
  put_parameter_lem ok h free =
      rw (eq_of_ne (trim_space req.name) [] h.named, known_type (type_of req) h.typed, free) refl

  pub next_version-is_positive :
      HasVersions s.store → has_room existing ≡ true → is_positive (next_version existing) ≡ true
  unfolding next_version
  next_version-is_positive h room = elim (Option-cases existing) [
    | inl e ↦ rw e refl
    | inr (r, e) ↦ rw e (
        wrap_suc_positive r.version
          (lookup_in_region-HasVersions (trim_space req.name) (normalize_region signed) s.store r h
            e)
          (rw e at room))
  ]

  pub fill_defaults_new :
      IsAccepted req
      → HasVersions s.store
      → has_room existing ≡ true
      → fill_defaults now new_record ≡ new_record
  unfolding fill_defaults
  fill_defaults_new accepted h room =
      rw
        (
          normalize_region_idem signed,
          eq_of_ne (type_of req) [] (known_type-ne-nil (type_of req) accepted.typed),
          next_version-is_positive h room,
        )
        (ground arith)

  twice_named : IsAccepted req → trim_space (trim_space req.name) ≢ []
  twice_named accepted = rw trim_space_idem accepted.named

  pub put_parameter_ok :
      IsAccepted req
      → is_taken existing req.overwrite ≡ false
      → trim_space s.parameters_csv ≢ []
      → put_parameter dates numbers true now (some req) signed s ≡ (
        stored (next_version existing),
        record s {
          store = put now new_record s.store;
          file = (write_parameters_csv dates numbers true (put now new_record s.store) s.file).1;
        },
      )
  unfolding answer_stored
  put_parameter_ok accepted free pathed =
      put_parameter_lem true accepted free
      ∙ ap (answer_stored (next_version existing) s) (
          upsert_persist_lem dates numbers s.parameters_csv now new_record s.store s.file
            (twice_named accepted) pathed)

  pub get_new :
      IsAccepted req
      → HasVersions s.store
      → has_room existing ≡ true
      → Lacks 0 signed
      → get (normalize_region signed) (trim_space req.name) (put now new_record s.store)
        ≡ some new_record
  get_new accepted versions room no_nul =
      rw
        (
          get-put now new_record s.store (normalize_region signed) (trim_space req.name)
              (twice_named accepted) (normalize_region-Lacks signed no_nul)
              (normalize_region-Lacks signed no_nul),
          eq_refl (normalize_region (normalize_region signed)),
          eq_refl (trim_space req.name),
          fill_defaults_new accepted versions room,
        )
        refl
