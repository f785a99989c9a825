-- ===== src/Ec2/Steps/Growth.antt =====
-- What a step keeps: no VPC, subnet or group is lost, and a group stays in its region and its VPC.
use twister_aws.Base.{
  Text, Map, ◌≡◌, refl, none, some, ◌++◌, ◌==◌, eq_iff, lookup, insert, lookup-insert, Bool-cases,
  inl, inr, arith,
}
use twister_aws.Ec2.{Vpc, Subnet, SecurityGroup, DiskState}
use twister_aws.Ec2.Steps.{
  GroupIn, Step, add_pair, add_one_vpc, add_one_subnet, add_group, add_rules, add_one_instance,
  change_state,
}

-- What a state has, a later one has as well, up to the rules of its groups.
pub record Grows (st st' : DiskState) : Type 0 where
  pub vpcs : (k : Text) (v : Vpc) → lookup k st.vpcs ≡ some v → lookup k st'.vpcs ≡ some v
  pub subnets :
      (k : Text) (s : Subnet) → lookup k st.subnets ≡ some s → lookup k st'.subnets ≡ some s
  pub groups : (k region vpc_id : Text) → GroupIn st region vpc_id k → GroupIn st' region vpc_id k

module _ {V : Type 0} where
  lookup-insert_fresh :
      (j k : Text) (v x : V) (m : Map V)
      → lookup j m ≡ none
      → lookup k m ≡ some x
      → lookup k (insert j v m) ≡ some x
  lookup-insert_fresh j k v x m fresh e =
      ground (arith, lookup-insert j k v m, eq_iff j k, fresh, e)

rules_kept :
    (gid : Text) (g g' : SecurityGroup) (m : Map SecurityGroup) (k region vpc_id : Text)
    (sg : SecurityGroup)
    → lookup gid m ≡ some g
    → g'.region ≡ g.region
    → g'.vpc_id ≡ g.vpc_id
    → lookup k m ≡ some sg
    → sg.region ≡ region
    → sg.vpc_id ≡ vpc_id
    → (h : SecurityGroup) × (lookup k (insert gid g' m) ≡ some h)
      × (h.region ≡ region)
      × (h.vpc_id ≡ vpc_id)
rules_kept gid g g' m k region vpc_id sg found sr sv e er ev = elim (Bool-cases (gid == k)) [
  | inl same ↦
      let found' = rw ((eq_iff gid k).0 same) at found in
      let eq : g ≡ sg = cc (found', e) in
      (g', rw (lookup-insert gid k g' m, same) refl, cc (sr, eq, er), cc (sv, eq, ev))
  | inr other ↦ (sg, rw (lookup-insert gid k g' m, other) e, er, ev)
]

pub Step-Grows : (region : Text) (st st' : DiskState) → Step region st st' → Grows st st'
Step-Grows region st _ (add_pair key p fresh here) = record {
  vpcs = λ k v e. e;
  subnets = λ k s e. e;
  groups = λ k r v e. e;
}
Step-Grows region st _ (add_one_vpc v fresh here) = record {
  vpcs = λ k x e. lookup-insert_fresh v.id k v x st.vpcs fresh e;
  subnets = λ k s e. e;
  groups = λ k r v e. e;
}
Step-Grows region st _ (add_one_subnet s v fresh here found there) = record {
  vpcs = λ k v e. e;
  subnets = λ k x e. lookup-insert_fresh s.id k s x st.subnets fresh e;
  groups = λ k r v e. e;
}
Step-Grows region st _ (add_group g v fresh here found there) = record {
  vpcs = λ k v e. e;
  subnets = λ k s e. e;
  groups =
      λ k r v h. (h.0, lookup-insert_fresh g.id k g h.0 st.security_groups fresh h.1, h.2, h.3);
}
Step-Grows region st _ (add_rules gid g rules found here) = record {
  vpcs = λ k v e. e;
  subnets = λ k s e. e;
  groups = λ k r v h.
      rules_kept gid g (record g { ingress = g.ingress ++ rules }) st.security_groups k r v h.0
        found refl refl h.1 h.2 h.3;
}
Step-Grows region st _ (add_one_instance i s fresh here found there groups) = record {
  vpcs = λ k v e. e;
  subnets = λ k s e. e;
  groups = λ k r v e. e;
}
Step-Grows region st _ (change_state id i new found here allowed) = record {
  vpcs = λ k v e. e;
  subnets = λ k s e. e;
  groups = λ k r v e. e;
}
