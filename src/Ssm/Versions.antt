-- ===== src/Ssm/Versions.antt =====
-- Versions over a sequence of PutParameter calls, and the calls that are refused.
use twister_aws.Base.{
  ℕ, suc, ◌+◌, ◌-◌, ◌^◌, ◌<◌, Text, String, codes, eq_of_ne, ◌≡◌, ◌≢◌, refl, ap, sym, ◌∙◌, Bool,
  true, false, Option, none, some, Lacks, arith, [], ◌∷◌, List, length,
}
use mathlib.Core.Path.{subst}
use twister_aws.Base.Int.{ℤ, pos, wrap_suc}
use twister_aws.Base.Dates.{Dates}
use twister_aws.Base.Strings.{trim_space, has_prefix}
use twister_aws.Base.Strings.Laws.{trim_space_idem}
use twister_aws.Region.{normalize_region}
use twister_aws.Region.Laws.{normalize_region_idem}
use twister_aws.ParamStore.{ParameterRecord, Store, put, lookup_in_region}
use twister_aws.ParamStore.Lookup.{HasVersions, put-HasVersions}
use twister_aws.ParamStore.Files.{Numbers}
use twister_aws.Ssm.{
  Service, PutParameterRequest, failed, put_parameter, is_taken, next_version, answer_stored,
}
use twister_aws.Ssm.Behaviour.{
  IsAccepted, known_type, type_of, existing, has_room, new_record, put_parameter_ok, get_new,
  lookup_in_region_plain,
}

abbrev pub version_of : Option ParameterRecord → ℤ
version_of none = pos 0
version_of (some r) = r.version

next_version_lem : (o : Option ParameterRecord) → next_version o ≡ wrap_suc (version_of o)
unfolding next_version
next_version_lem none = refl
next_version_lem (some r) = refl

has_room_of :
    (o : Option ParameterRecord) (n : ℕ) → version_of o ≡ pos n → n < 2 ^ 63 - 1 → has_room o ≡ true
has_room_of none n e h = refl
has_room_of (some r) n e h = rw e (ground (arith, h))

wrap_suc_lem : (n : ℕ) → n < 2 ^ 63 - 1 → wrap_suc (pos n) ≡ pos (suc n)
wrap_suc_lem n h = ground (arith, h)

is_taken_lem : (o : Option ParameterRecord) → is_taken o true ≡ false
unfolding is_taken
is_taken_lem none = refl
is_taken_lem (some r) = refl

existing_plain :
    (name region : Text) (s : Store)
    → trim_space name ≢ []
    → has_prefix (trim_space name) (codes "arn:") ≡ false
    → lookup_in_region (trim_space name) (normalize_region region) s
      ≡ lookup_in_region name region s
existing_plain name region s named plain =
    rw
      (
        lookup_in_region_plain name region s named plain,
        lookup_in_region_plain (trim_space name) (normalize_region region) s
            (rw trim_space_idem named) (rw trim_space_idem plain),
        normalize_region_idem region,
        trim_space_idem name,
      )
      refl

module _ (dates : Dates) (numbers : Numbers) (now : ℤ) (name kind signed : Text) where
  -- A request that may overwrite.
  abbrev overwriting : Text → PutParameterRequest
  overwriting value = record { name = name; value = value; kind = kind; overwrite = true }

  -- PutParameter of each value in turn.
  abbrev pub put_all : List Text → Service → Service
  put_all [] s = s
  put_all (v ∷ vs) s =
      put_all vs (put_parameter dates numbers true now (some (overwriting v)) signed s).1

  -- The version that a client finds, 0 where there is none.
  abbrev pub version_at : Service → ℤ
  version_at s = version_of (lookup_in_region name signed s.store)

  module _ (accepted : (v : Text) → IsAccepted (overwriting v)) (no_nul : Lacks 0 signed) where
    not_taken :
        (v : Text) (s : Service)
        → is_taken (existing dates numbers now (overwriting v) signed s) true ≡ false
    not_taken v s = is_taken_lem (existing dates numbers now (overwriting v) signed s)

    put_step :
        (v : Text) (s : Service)
        → trim_space s.parameters_csv ≢ []
        → let s' = (put_parameter dates numbers true now (some (overwriting v)) signed s).1 in
          (s'.store ≡ put now (new_record dates numbers now (overwriting v) signed s) s.store)
          × (s'.parameters_csv ≡ s.parameters_csv)
    put_step v s pathed =
        rw
          (put_parameter_ok dates numbers now (overwriting v) signed s (accepted v) (not_taken v s)
            pathed)
          (refl, refl)

    has_room_at :
        (v : Text) (s : Service) (n : ℕ)
        → version_at s ≡ pos n
        → n < 2 ^ 63 - 1
        → has_room (existing dates numbers now (overwriting v) signed s) ≡ true
    has_room_at v s n e h =
        has_room_of (existing dates numbers now (overwriting v) signed s) n
          (ap version_of (existing_plain name signed s.store (accepted v).named (accepted v).plain)
            ∙ e)
          h

    found :
        (v : Text) (s : Service)
        → HasVersions s.store
        → has_room (existing dates numbers now (overwriting v) signed s) ≡ true
        → trim_space s.parameters_csv ≢ []
        → lookup_in_region name signed
            (put_parameter dates numbers true now (some (overwriting v)) signed s).1.store
          ≡ some (new_record dates numbers now (overwriting v) signed s)
    found v s h room pathed =
        rw
          (
            (put_step v s pathed).0,
            lookup_in_region_plain name signed
                (put now (new_record dates numbers now (overwriting v) signed s) s.store)
                (accepted v).named (accepted v).plain,
          )
          (get_new dates numbers now (overwriting v) signed s (accepted v) h room no_nul)

    version_step :
        (v : Text) (s : Service) (n : ℕ)
        → HasVersions s.store
        → trim_space s.parameters_csv ≢ []
        → version_at s ≡ pos n
        → n < 2 ^ 63 - 1
        → version_at (put_parameter dates numbers true now (some (overwriting v)) signed s).1
          ≡ pos (suc n)
    version_step v s n h pathed e low =
        ap version_of (found v s h (has_room_at v s n e low) pathed)
        ∙ (next_version_lem (existing dates numbers now (overwriting v) signed s)
            ∙ (ap (λ o. wrap_suc (version_of o))
                  (existing_plain name signed s.store (accepted v).named (accepted v).plain)
                ∙ (ap (λ z. wrap_suc z) e ∙ wrap_suc_lem n low)))

    -- Putting the values one after another, each overwriting the one before, adds their number to
    -- the version that a client finds. All stored versions are at least 1 before, the name is no
    -- ARN, the requests are well formed, the region holds no NUL byte, the file system works, and the
    -- last version is below 2^63.
    pub version_at-put_all :
        (vs : List Text) (s : Service) (n : ℕ)
        → HasVersions s.store
        → trim_space s.parameters_csv ≢ []
        → version_at s ≡ pos n
        → n + length vs < 2 ^ 63
        → version_at (put_all vs s) ≡ pos (n + length vs)
    version_at-put_all [] s n h pathed e low = e ∙ ap pos (omega arith)
    version_at-put_all (v ∷ vs) s n h pathed e low =
        let s' = (put_parameter dates numbers true now (some (overwriting v)) signed s).1 in
        let (store, csv) = put_step v s pathed in
        version_at-put_all vs s' (suc n)
          (subst HasVersions (sym store)
            (put-HasVersions now (new_record dates numbers now (overwriting v) signed s) s.store h))
          (rw csv pathed) (version_step v s n h pathed e (omega (arith, low))) (omega (arith, low))
        ∙ ap pos (omega arith)

-- A PutParameter that is refused with status 400, for whatever reason, changes nothing.
pub put_parameter_refused :
    (dates : Dates) (numbers : Numbers) (ok : Bool) (now : ℤ) (signed : Text) (s : Service)
    (req : Option PutParameterRequest) (type : String)
    → (put_parameter dates numbers ok now req signed s).0 ≡ failed 400 type
    → (put_parameter dates numbers ok now req signed s).1 ≡ s
unfolding put_parameter answer_stored
put_parameter_refused dates numbers ok now signed s none type h = refl
put_parameter_refused dates numbers ok now signed s (some req) type h = ground arith

-- A well-formed PutParameter that may not overwrite, of a parameter that the region has, is
-- refused as ParameterAlreadyExists and changes nothing.
put_parameter_taken :
    (dates : Dates) (numbers : Numbers) (ok : Bool) (now : ℤ) (signed : Text) (s : Service)
    (req : PutParameterRequest) (old : ParameterRecord)
    → IsAccepted req
    → req.overwrite ≡ false
    → lookup_in_region (trim_space req.name) (normalize_region signed) s.store ≡ some old
    → put_parameter dates numbers ok now (some req) signed s
      ≡ (failed 400 "ParameterAlreadyExists", s)
unfolding put_parameter is_taken
put_parameter_taken dates numbers ok now signed s req old h kept e =
    rw (eq_of_ne (trim_space req.name) [] h.named, known_type (type_of req) h.typed, e, kept) refl
