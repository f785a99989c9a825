-- ===== src/Ec2/Steps/Regions.antt =====
-- The steps of a request stay within its region, and a terminated instance stays as it is.
use mathlib.Core.Path.{subst}
use twister_aws.Base.{
  Text, Map, codes, ◌≡◌, ◌≢◌, ◌↔◌, sym, ap, ◌∙◌, none, some, ◌==◌, eq_iff, eq_of_eq, lookup, insert,
  lookup-insert, Bool-cases, inl, inr, arith, ◌++◌,
}
use twister_aws.Ec2.{KeyPair, Vpc, Subnet, SecurityGroup, Instance, DiskState}
use twister_aws.Ec2.Steps.{
  Allowed, terminate, stop, start, Step, add_pair, add_one_vpc, add_one_subnet, add_group,
  add_rules, add_one_instance, change_state, Steps, done, and_then,
}

module _ {V : Type 0} (where_is : V → Text) (region : Text) where
  -- Two maps have the same entries outside the region.
  abbrev SameOutside : Map V → Map V → Type 0
  SameOutside m m' =
      (k : Text) (x : V) → where_is x ≢ region → (lookup k m ≡ some x) ↔ (lookup k m' ≡ some x)

  -- A key that has no entry outside the region.
  abbrev IsOwn : Text → Map V → Type 0
  IsOwn k m = (x : V) → lookup k m ≡ some x → where_is x ≡ region

  IsOwn-fresh : (k : Text) (m : Map V) → lookup k m ≡ none → IsOwn k m
  IsOwn-fresh k m fresh x e = ground (arith, fresh, e)

  IsOwn-found :
      (k : Text) (y : V) (m : Map V) → lookup k m ≡ some y → where_is y ≡ region → IsOwn k m
  IsOwn-found k y m found here x e = let same : y ≡ x = cc (found, e) in cc (same, here)

  insert-SameOutside :
      (j : Text) (v : V) (m : Map V)
      → IsOwn j m
      → where_is v ≡ region
      → SameOutside m (insert j v m)
  insert-SameOutside j v m own here k x away = elim (Bool-cases (j == k)) [
    | inl same ↦
        let k_own : IsOwn k m = subst (λ i. IsOwn i m) ((eq_iff j k).0 same) own in
        rw (lookup-insert j k v m, same)
          (
            λ e. absurd (away (k_own x e)),
            λ (e : some v ≡ some x).
                let eq : v ≡ x = cc e in absurd (away (subst (λ y. where_is y ≡ region) eq here)),
          )
    | inr other ↦ rw (lookup-insert j k v m, other) (λ e. e, λ e. e)
  ]

  SameOutside-refl : (m : Map V) → SameOutside m m
  SameOutside-refl m k x away = (λ e. e, λ e. e)

-- The two states have the same resources outside the region.
pub record IsIsolated (region : Text) (st st' : DiskState) : Type 0 where
  pub key_pairs : SameOutside (λ (p : KeyPair). p.region) region st.key_pairs st'.key_pairs
  pub vpcs : SameOutside (λ (v : Vpc). v.region) region st.vpcs st'.vpcs
  pub subnets : SameOutside (λ (s : Subnet). s.region) region st.subnets st'.subnets
  pub security_groups :
      SameOutside (λ (g : SecurityGroup). g.region) region st.security_groups st'.security_groups
  pub instances : SameOutside (λ (i : Instance). i.region) region st.instances st'.instances

IsIsolated-refl : (region : Text) (st : DiskState) → IsIsolated region st st
IsIsolated-refl region st = record {
  key_pairs = SameOutside-refl _ region _;
  vpcs = SameOutside-refl _ region _;
  subnets = SameOutside-refl _ region _;
  security_groups = SameOutside-refl _ region _;
  instances = SameOutside-refl _ region _;
}

Step-IsIsolated :
    (region : Text) (st st' : DiskState) → Step region st st' → IsIsolated region st st'
Step-IsIsolated region st _ (add_pair key p fresh here) = record {
  key_pairs =
      insert-SameOutside _ region key p st.key_pairs (IsOwn-fresh _ region key st.key_pairs fresh)
        here;
  vpcs = SameOutside-refl _ region _;
  subnets = SameOutside-refl _ region _;
  security_groups = SameOutside-refl _ region _;
  instances = SameOutside-refl _ region _;
}
Step-IsIsolated region st _ (add_one_vpc v fresh here) = record {
  key_pairs = SameOutside-refl _ region _;
  vpcs = insert-SameOutside _ region v.id v st.vpcs (IsOwn-fresh _ region v.id st.vpcs fresh) here;
  subnets = SameOutside-refl _ region _;
  security_groups = SameOutside-refl _ region _;
  instances = SameOutside-refl _ region _;
}
Step-IsIsolated region st _ (add_one_subnet s v fresh here found there) = record {
  key_pairs = SameOutside-refl _ region _;
  vpcs = SameOutside-refl _ region _;
  subnets =
      insert-SameOutside _ region s.id s st.subnets (IsOwn-fresh _ region s.id st.subnets fresh)
        here;
  security_groups = SameOutside-refl _ region _;
  instances = SameOutside-refl _ region _;
}
Step-IsIsolated region st _ (add_group g v fresh here found there) = record {
  key_pairs = SameOutside-refl _ region _;
  vpcs = SameOutside-refl _ region _;
  subnets = SameOutside-refl _ region _;
  security_groups =
      insert-SameOutside _ region g.id g st.security_groups
        (IsOwn-fresh _ region g.id st.security_groups fresh) here;
  instances = SameOutside-refl _ region _;
}
Step-IsIsolated region st _ (add_rules gid g rules found here) = record {
  key_pairs = SameOutside-refl _ region _;
  vpcs = SameOutside-refl _ region _;
  subnets = SameOutside-refl _ region _;
  security_groups =
      insert-SameOutside _ region gid (record g { ingress = g.ingress ++ rules }) st.security_groups
        (IsOwn-found _ region gid g st.security_groups found here) here;
  instances = SameOutside-refl _ region _;
}
Step-IsIsolated region st _ (add_one_instance i s fresh here found there groups) = record {
  key_pairs = SameOutside-refl _ region _;
  vpcs = SameOutside-refl _ region _;
  subnets = SameOutside-refl _ region _;
  security_groups = SameOutside-refl _ region _;
  instances =
      insert-SameOutside _ region i.id i st.instances (IsOwn-fresh _ region i.id st.instances fresh)
        here;
}
Step-IsIsolated region st _ (change_state id i new found here allowed) = record {
  key_pairs = SameOutside-refl _ region _;
  vpcs = SameOutside-refl _ region _;
  subnets = SameOutside-refl _ region _;
  security_groups = SameOutside-refl _ region _;
  instances =
      insert-SameOutside _ region id (record i { state = new }) st.instances
        (IsOwn-found _ region id i st.instances found here) here;
}

stopped_not_terminated : codes "stopped" ≢ codes "terminated"
unfolding ◌==◌
stopped_not_terminated e = ground (arith, eq_of_eq (codes "stopped") (codes "terminated") e)

trans :
    {V : Type 0} (where_is : V → Text) (region : Text) (m m' m'' : Map V)
    → SameOutside where_is region m m'
    → SameOutside where_is region m' m''
    → SameOutside where_is region m m''
trans where_is region m m' m'' h h' k x away =
    (λ e. (h' k x away).0 ((h k x away).0 e), λ e. (h k x away).1 ((h' k x away).1 e))

IsIsolated-trans :
    (region : Text) {st st' st'' : DiskState}
    → IsIsolated region st st'
    → IsIsolated region st' st''
    → IsIsolated region st st''
IsIsolated-trans region a b = record {
  key_pairs = trans _ region _ _ _ a.key_pairs b.key_pairs;
  vpcs = trans _ region _ _ _ a.vpcs b.vpcs;
  subnets = trans _ region _ _ _ a.subnets b.subnets;
  security_groups = trans _ region _ _ _ a.security_groups b.security_groups;
  instances = trans _ region _ _ _ a.instances b.instances;
}

final : (old new : Text) → Allowed old new → old ≢ codes "terminated"
final old _ (terminate h) e = h e
final old _ (stop h) e = h e
final _ _ start e = stopped_not_terminated e

-- By induction on the steps.
pub Steps-IsIsolated :
    (region : Text) {st st' : DiskState} → Steps region st st' → IsIsolated region st st'
Steps-IsIsolated region {st = st} done = IsIsolated-refl region st
Steps-IsIsolated region (and_then s ss) =
    IsIsolated-trans region (Step-IsIsolated region _ _ s) (Steps-IsIsolated region ss)

-- A terminated instance keeps everything that it has.
Step-terminated :
    (region : Text) (st st' : DiskState) (k : Text) (x : Instance)
    → Step region st st'
    → lookup k st.instances ≡ some x
    → x.state ≡ codes "terminated"
    → lookup k st'.instances ≡ some x
Step-terminated region st _ k x (add_pair key p fresh here) e over = e
Step-terminated region st _ k x (add_one_vpc v fresh here) e over = e
Step-terminated region st _ k x (add_one_subnet s v fresh here found there) e over = e
Step-terminated region st _ k x (add_group g v fresh here found there) e over = e
Step-terminated region st _ k x (add_rules gid g rules found here) e over = e
Step-terminated region st _ k x (add_one_instance i s fresh here found there groups) e over =
    ground (arith, lookup-insert i.id k i st.instances, eq_iff i.id k, fresh, e)
Step-terminated region st _ k x (change_state id i new found here allowed) e over =
    elim (Bool-cases (id == k)) [
      | inl same ↦
          let found' = rw ((eq_iff id k).0 same) at found in
          let eq : x ≡ i = cc (found', e) in
          absurd (final i.state new allowed (sym (ap (λ (y : Instance). y.state) eq) ∙ over))
      | inr other ↦ rw (lookup-insert id k (record i { state = new }) st.instances, other) e
    ]

pub Steps-terminated :
    (region : Text) {st st' : DiskState} (k : Text) (x : Instance)
    → Steps region st st'
    → lookup k st.instances ≡ some x
    → x.state ≡ codes "terminated"
    → lookup k st'.instances ≡ some x
Steps-terminated region k x done e over = e
Steps-terminated region k x (and_then s ss) e over =
    Steps-terminated region k x ss (Step-terminated region _ _ k x s e over) over
