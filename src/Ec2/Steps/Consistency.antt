-- ===== src/Ec2/Steps/Consistency.antt =====
-- Referential integrity: the steps of a request keep every reference to a resource of the same
-- region, and of the same VPC.
use mathlib.Core.Path.{subst}
use twister_aws.Base.{
  Text, Map, ◌≡◌, ◌⊎◌, refl, sym, ap, ◌∙◌, some, List, [], ◌∷◌, ◌++◌, All, ◌==◌, eq_iff, lookup,
  insert, lookup-insert, Bool-cases, inl, inr,
}
use twister_aws.Ec2.{Vpc, Subnet, SecurityGroup, Instance, DiskState}
use twister_aws.Ec2.Steps.{
  GroupIn, Step, add_pair, add_one_vpc, add_one_subnet, add_group, add_rules, add_one_instance,
  change_state, Steps, done, and_then,
}
use twister_aws.Ec2.Steps.Growth.{Grows, Step-Grows}

-- A VPC of the region.
abbrev pub VpcIn : DiskState → Text → Text → Type 0
VpcIn st region vpc_id = (v : Vpc) × (lookup vpc_id st.vpcs ≡ some v) × (v.region ≡ region)

-- A subnet of the region, whose VPC has all the groups.
abbrev pub PlacedIn : DiskState → Text → Text → List Text → Type 0
PlacedIn st region subnet_id gids =
    (s : Subnet) × (lookup subnet_id st.subnets ≡ some s)
    × (s.region ≡ region)
    × All (GroupIn st region s.vpc_id) gids

-- Subnets and groups are in a VPC of their region, and instances in a subnet of their region, with
-- groups of the subnet's VPC; an instance is stored under its id.
pub record IsConsistent (st : DiskState) : Type 0 where
  pub subnet_vpc :
      (k : Text) (s : Subnet) → lookup k st.subnets ≡ some s → VpcIn st s.region s.vpc_id
  pub group_vpc :
      (k : Text) (g : SecurityGroup)
      → lookup k st.security_groups ≡ some g
      → VpcIn st g.region g.vpc_id
  pub placed :
      (k : Text) (i : Instance)
      → lookup k st.instances ≡ some i
      → PlacedIn st i.region i.subnet_id i.security_group_ids
  pub keyed : (k : Text) (i : Instance) → lookup k st.instances ≡ some i → i.id ≡ k

module _ {V : Type 0} where
  -- An entry is the new one, or it was there before.
  insert_cases :
      (j k : Text) (v x : V) (m : Map V)
      → lookup k (insert j v m) ≡ some x
      → (v ≡ x) ⊎ (lookup k m ≡ some x)
  insert_cases j k v x m e = elim (Bool-cases (j == k)) [
    | inl same ↦ let e' : some v ≡ some x = rw (lookup-insert j k v m, same) at e in inl (cc e')
    | inr other ↦ inr (rw (lookup-insert j k v m, other) at e)
  ]

module _ (region : Text) (st : DiskState) (h : IsConsistent st) where
  subnet_in :
      (st' : DiskState) (k : Text) (x : Subnet)
      → Step region st st'
      → lookup k st'.subnets ≡ some x
      → VpcIn st x.region x.vpc_id
  subnet_in _ k x (add_pair key p fresh here) e = h.subnet_vpc k x e
  subnet_in _ k x (add_one_vpc v fresh here) e = h.subnet_vpc k x e
  subnet_in _ k x (add_one_subnet s v fresh here found there) e =
      elim (insert_cases s.id k s x st.subnets e) [
        | inl eq ↦
            subst (λ (y : Subnet). VpcIn st y.region y.vpc_id) eq (v, found, there ∙ sym here)
        | inr old ↦ h.subnet_vpc k x old
      ]
  subnet_in _ k x (add_group g v fresh here found there) e = h.subnet_vpc k x e
  subnet_in _ k x (add_rules gid g rules found here) e = h.subnet_vpc k x e
  subnet_in _ k x (add_one_instance i s fresh here found there groups) e = h.subnet_vpc k x e
  subnet_in _ k x (change_state id i new found here allowed) e = h.subnet_vpc k x e

  group_in :
      (st' : DiskState) (k : Text) (x : SecurityGroup)
      → Step region st st'
      → lookup k st'.security_groups ≡ some x
      → VpcIn st x.region x.vpc_id
  group_in _ k x (add_pair key p fresh here) e = h.group_vpc k x e
  group_in _ k x (add_one_vpc v fresh here) e = h.group_vpc k x e
  group_in _ k x (add_one_subnet s v fresh here found there) e = h.group_vpc k x e
  group_in _ k x (add_group g v fresh here found there) e =
      elim (insert_cases g.id k g x st.security_groups e) [
        | inl eq ↦
            subst (λ (y : SecurityGroup). VpcIn st y.region y.vpc_id) eq
              (v, found, there ∙ sym here)
        | inr old ↦ h.group_vpc k x old
      ]
  group_in _ k x (add_rules gid g rules found here) e =
      elim (insert_cases gid k (record g { ingress = g.ingress ++ rules }) x st.security_groups e) [
        | inl eq ↦
            subst (λ (y : SecurityGroup). VpcIn st y.region y.vpc_id) eq (h.group_vpc gid g found)
        | inr old ↦ h.group_vpc k x old
      ]
  group_in _ k x (add_one_instance i s fresh here found there groups) e = h.group_vpc k x e
  group_in _ k x (change_state id i new found here allowed) e = h.group_vpc k x e

  abbrev Placed : Instance → Type 0
  Placed i = PlacedIn st i.region i.subnet_id i.security_group_ids

  Placed-in :
      (st' : DiskState) (k : Text) (x : Instance)
      → Step region st st'
      → lookup k st'.instances ≡ some x
      → Placed x
  Placed-in _ k x (add_pair key p fresh here) e = h.placed k x e
  Placed-in _ k x (add_one_vpc v fresh here) e = h.placed k x e
  Placed-in _ k x (add_one_subnet s v fresh here found there) e = h.placed k x e
  Placed-in _ k x (add_group g v fresh here found there) e = h.placed k x e
  Placed-in _ k x (add_rules gid g rules found here) e = h.placed k x e
  Placed-in _ k x (add_one_instance i s fresh here found there groups) e =
      elim (insert_cases i.id k i x st.instances e) [
        | inl eq ↦ subst Placed eq (
            subst (λ r. PlacedIn st r i.subnet_id i.security_group_ids) (sym here)
              (s, found, there, groups))
        | inr old ↦ h.placed k x old
      ]
  Placed-in _ k x (change_state id i new found here allowed) e =
      elim (insert_cases id k (record i { state = new }) x st.instances e) [
        | inl eq ↦ subst Placed eq (h.placed id i found)
        | inr old ↦ h.placed k x old
      ]

  keyed_insert :
      (j k : Text) (i x : Instance)
      → i.id ≡ j
      → lookup k (insert j i st.instances) ≡ some x
      → x.id ≡ k
  keyed_insert j k i x own e = elim (Bool-cases (j == k)) [
    | inl same ↦
        let e' : some i ≡ some x = rw (lookup-insert j k i st.instances, same) at e in
        let found : i ≡ x = cc e' in
        ap (λ (y : Instance). y.id) (sym found) ∙ (own ∙ (eq_iff j k).0 same)
    | inr other ↦ h.keyed k x (rw (lookup-insert j k i st.instances, other) at e)
  ]

  keyed_in :
      (st' : DiskState) (k : Text) (x : Instance)
      → Step region st st'
      → lookup k st'.instances ≡ some x
      → x.id ≡ k
  keyed_in _ k x (add_pair key p fresh here) e = h.keyed k x e
  keyed_in _ k x (add_one_vpc v fresh here) e = h.keyed k x e
  keyed_in _ k x (add_one_subnet s v fresh here found there) e = h.keyed k x e
  keyed_in _ k x (add_group g v fresh here found there) e = h.keyed k x e
  keyed_in _ k x (add_rules gid g rules found here) e = h.keyed k x e
  keyed_in _ k x (add_one_instance i s fresh here found there groups) e =
      keyed_insert i.id k i x refl e
  keyed_in _ k x (change_state id i new found here allowed) e =
      keyed_insert id k (record i { state = new }) x (h.keyed id i found) e

module _ (st st' : DiskState) (grows : Grows st st') where
  grow_vpc : (region vpc_id : Text) → VpcIn st region vpc_id → VpcIn st' region vpc_id
  grow_vpc region vpc_id (v, found, here) = (v, grows.vpcs vpc_id v found, here)

  grow_groups :
      (region vpc_id : Text) (gids : List Text)
      → All (GroupIn st region vpc_id) gids
      → All (GroupIn st' region vpc_id) gids
  grow_groups region vpc_id [] h = tt
  grow_groups region vpc_id (gid ∷ gids) h =
      (grows.groups gid region vpc_id h.0, grow_groups region vpc_id gids h.1)

  grow_placed :
      (region subnet_id : Text) (gids : List Text)
      → PlacedIn st region subnet_id gids
      → PlacedIn st' region subnet_id gids
  grow_placed region subnet_id gids (s, found, here, groups) =
      (s, grows.subnets subnet_id s found, here, grow_groups region s.vpc_id gids groups)

Step-IsConsistent :
    (region : Text) (st st' : DiskState) → Step region st st' → IsConsistent st → IsConsistent st'
Step-IsConsistent region st st' step h =
    let grows = Step-Grows region st st' step in
    record {
      subnet_vpc =
          λ k s e. grow_vpc st st' grows s.region s.vpc_id (subnet_in region st h st' k s step e);
      group_vpc =
          λ k g e. grow_vpc st st' grows g.region g.vpc_id (group_in region st h st' k g step e);
      placed = λ k i e.
          grow_placed st st' grows i.region i.subnet_id i.security_group_ids
            (Placed-in region st h st' k i step e);
      keyed = λ k i e. keyed_in region st h st' k i step e;
    }

pub Steps-IsConsistent :
    (region : Text) {st st' : DiskState} → Steps region st st' → IsConsistent st → IsConsistent st'
Steps-IsConsistent region done h = h
Steps-IsConsistent region (and_then s ss) h =
    Steps-IsConsistent region ss (Step-IsConsistent region _ _ s h)
