-- ===== src/Ec2/Steps.antt =====
-- The specification of the state: what a request may do to it, step by step.
pub mod Regions
pub mod Growth
pub mod Consistency
use twister_aws.Base.{Text, codes, ◌≡◌, ◌≢◌, none, some, List, [], ◌∷◌, ◌++◌, All, lookup, insert}
use twister_aws.Ec2.{KeyPair, Vpc, Subnet, IngressRule, SecurityGroup, Instance, DiskState}

-- The changes of an instance's state: termination is final, and only a stopped instance starts.
pub data Allowed : Text → Text → Type 0 where
  terminate : {s : Text} → s ≢ codes "terminated" → Allowed s (codes "terminated")
  stop : {s : Text} → s ≢ codes "terminated" → Allowed s (codes "stopped")
  start : Allowed (codes "stopped") (codes "running")

-- A security group of the region and the VPC.
abbrev pub GroupIn : DiskState → Text → Text → Text → Type 0
GroupIn st region vpc_id gid =
    (sg : SecurityGroup) × (lookup gid st.security_groups ≡ some sg)
    × (sg.region ≡ region)
    × (sg.vpc_id ≡ vpc_id)

-- One step of a request in a region: new resources have new ids and refer to resources that are
-- there, in the same region, and what is there is only given rules or another state.
pub data Step (region : Text) : DiskState → DiskState → Type 0 where
  add_pair :
      {st : DiskState} (key : Text) (p : KeyPair)
      → lookup key st.key_pairs ≡ none
      → p.region ≡ region
      → Step region st (record st { key_pairs = insert key p st.key_pairs })
  add_one_vpc :
      {st : DiskState} (v : Vpc)
      → lookup v.id st.vpcs ≡ none
      → v.region ≡ region
      → Step region st (record st { vpcs = insert v.id v st.vpcs })
  add_one_subnet :
      {st : DiskState} (s : Subnet) (v : Vpc)
      → lookup s.id st.subnets ≡ none
      → s.region ≡ region
      → lookup s.vpc_id st.vpcs ≡ some v
      → v.region ≡ region
      → Step region st (record st { subnets = insert s.id s st.subnets })
  add_group :
      {st : DiskState} (g : SecurityGroup) (v : Vpc)
      → lookup g.id st.security_groups ≡ none
      → g.region ≡ region
      → lookup g.vpc_id st.vpcs ≡ some v
      → v.region ≡ region
      → Step region st (record st { security_groups = insert g.id g st.security_groups })
  add_rules :
      {st : DiskState} (gid : Text) (g : SecurityGroup) (rules : List IngressRule)
      → lookup gid st.security_groups ≡ some g
      → g.region ≡ region
      → Step region st (record st {
        security_groups = insert gid (record g { ingress = g.ingress ++ rules }) st.security_groups;
      })
  add_one_instance :
      {st : DiskState} (i : Instance) (s : Subnet)
      → lookup i.id st.instances ≡ none
      → i.region ≡ region
      → lookup i.subnet_id st.subnets ≡ some s
      → s.region ≡ region
      → All (GroupIn st region s.vpc_id) i.security_group_ids
      → Step region st (record st { instances = insert i.id i st.instances })
  change_state :
      {st : DiskState} (id : Text) (i : Instance) (new : Text)
      → lookup id st.instances ≡ some i
      → i.region ≡ region
      → Allowed i.state new
      → Step region st (record st { instances = insert id (record i { state = new }) st.instances })

pub data Steps (region : Text) : DiskState → DiskState → Type 0 where
  done : {st : DiskState} → Steps region st st
  and_then :
      {st st' st'' : DiskState} → Step region st st' → Steps region st' st'' → Steps region st st''

abbrev pub one : {region : Text} {st st' : DiskState} → Step region st st' → Steps region st st'
one s = and_then s done

pub Steps-append :
    {region : Text} {st st' st'' : DiskState}
    → Steps region st st'
    → Steps region st' st''
    → Steps region st st''
Steps-append done t = t
Steps-append (and_then s ss) t = and_then s (Steps-append ss t)

-- The ids that a request makes from its random bytes are new.
pub record IsFresh (ids : Text → Text) (st : DiskState) : Type 0 where
  pub vpc : lookup (ids (codes "vpc-")) st.vpcs ≡ none
  pub subnet : lookup (ids (codes "subnet-")) st.subnets ≡ none
  pub group : lookup (ids (codes "sg-")) st.security_groups ≡ none
  pub machine : lookup (ids (codes "i-")) st.instances ≡ none
