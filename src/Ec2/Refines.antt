-- ===== src/Ec2/Refines.antt =====
-- The handlers take the steps of the specification. Here: Update, and the handlers that make key
-- pairs, VPCs, subnets and security groups; the modules below have the other handlers.
pub mod Machines
pub mod Loops
pub mod Requests
use mathlib.Core.Path.{subst}
use twister_aws.Base.{
  Text, codes, ◌≡◌, refl, sym, ap, ◌∙◌, Bool, true, false, not, ◌||◌, Option, none, some, List, [],
  ◌==◌, eq_iff, lookup, if_lem, option_lem, is_nil, Option-cases, Bool-cases, inl, inr, arith,
}
use twister_aws.Base.Strings.{trim_space}
use twister_aws.Ec2.{
  KeyPair, Vpc, IngressRule, SecurityGroup, DiskState, kp_key, World, Env, UpdateError, Change,
  fails, becomes, save, update, new_resource_id,
}
use twister_aws.Ec2.Query.{Form, parse_ip_permissions}
use twister_aws.Ec2.Reply.{Reply}
use twister_aws.Ec2.Network.{
  NewKey, answered, add_key_pair, create_key_pair, add_vpc, add_security_group, create_vpc, has_vpc,
  add_subnet, create_subnet, create_security_group, add_ingress, authorize_security_group_ingress,
}
use twister_aws.Ec2.Steps.{
  Step, add_pair, add_one_vpc, add_one_subnet, add_group, add_rules, Steps, done, one, IsFresh,
}

save_st : (env : Env) (w : World) → (save env w).1.st ≡ w.st
unfolding save
save_st env w = ground arith

-- Update takes the steps of the function that it applies, whether or not the file is written.
pub update-Steps :
    (region : Text) (env : Env) (f : DiskState → Change) (w : World)
    → ((st' : DiskState) → f w.st ≡ becomes st' → Steps region w.st st')
    → Steps region w.st (update env f w).1.st
unfolding update
update-Steps region env f w h = go (f w.st) h
  where
    go :
        (c : Change)
        → ((st' : DiskState) → c ≡ becomes st' → Steps region w.st st')
        → Steps region w.st
            (elim c as (λ x. Option UpdateError × World) [
              | fails e ↦ (some e, w)
              | becomes st' ↦ save env (record w { st = st' })
            ]).1.st
    go (fails e) k = done
    go (becomes st') k =
        subst (Steps region w.st) (sym (save_st env (record w { st = st' }))) (k st' refl)

pub record Ends (region : Text) (w : World) (r : Reply × World) : Type 0 where
  pub steps : Steps region w.st r.1.st

pub stays : {region : Text} {w : World} {reply : Reply} → Ends region w (reply, w)
stays = record { steps = done }

answered-Ends :
    (region : Text) (env : Env) (f : DiskState → Change) (w : World) (reply : Reply)
    → ((st' : DiskState) → f w.st ≡ becomes st' → Steps region w.st st')
    → Ends region w (answered reply (update env f w))
unfolding answered
answered-Ends region env f w reply h = record { steps = update-Steps region env f w h }

abbrev pub Fresh : Env → World → Type 0
Fresh env w = IsFresh (λ prefix. new_resource_id prefix env.bytes) w.st

-- The end of a handler, as the state that it leaves.
add_key_pair-Steps :
    (region key : Text) (p : KeyPair) (st st' : DiskState)
    → p.region ≡ region
    → add_key_pair key p st ≡ becomes st'
    → Steps region st st'
unfolding add_key_pair
add_key_pair-Steps region key p st st' here e = elim (Option-cases (lookup key st.key_pairs)) [
  | inl absent ↦
      subst (Steps region st) (ground (arith, absent, e)) (one (add_pair key p absent here))
  | inr (old, found) ↦ absurd (ground (arith, found, e))
]

pub create_key_pair-Ends :
    (env : Env) (generated : Option NewKey) (q : Form) (region : Text) (w : World)
    → Ends region w (create_key_pair env generated q region w)
unfolding create_key_pair
create_key_pair-Ends env generated q region w =
    if_lem (Ends region w) (trim_space (q (codes "KeyName")) == []) (λ _. stays)
      (λ _.
        option_lem (Ends region w) generated (λ _. stays)
          (λ new _.
            answered-Ends region env _ w _
              (λ st' e. add_key_pair-Steps region _ _ w.st st' refl e)))

add_vpc-Steps :
    (region : Text) (v : Vpc) (st st' : DiskState)
    → lookup v.id st.vpcs ≡ none
    → v.region ≡ region
    → add_vpc v st ≡ becomes st'
    → Steps region st st'
unfolding add_vpc
add_vpc-Steps region v st st' fresh here e =
    subst (Steps region st) (ground (arith, e)) (one (add_one_vpc v fresh here))

pub create_vpc-Ends :
    (env : Env) (q : Form) (region : Text) (w : World)
    → Fresh env w
    → Ends region w (create_vpc env q region w)
unfolding create_vpc
create_vpc-Ends env q region w fresh =
    answered-Ends region env _ w _ (λ st' e. add_vpc-Steps region _ w.st st' fresh.vpc refl e)

-- The VPC that a handler finds in the region.
abbrev VpcIn : Text → Text → DiskState → Type 0
VpcIn vpc_id region st = (v : Vpc) × (lookup vpc_id st.vpcs ≡ some v) × (v.region ≡ region)

has_vpc-VpcIn :
    (vpc_id region : Text) (st : DiskState)
    → not (has_vpc vpc_id region st) ≡ false
    → VpcIn vpc_id region st
unfolding has_vpc
has_vpc-VpcIn vpc_id region st h = elim (Option-cases (lookup vpc_id st.vpcs)) [
  | inl e ↦ absurd (ground (arith, e))
  | inr (v, e) ↦ (v, e, ground (arith, e, eq_iff v.region region))
]

add_subnet-Steps :
    (sid region vpc_id cidr : Text) (st st' : DiskState)
    → lookup sid st.subnets ≡ none
    → VpcIn vpc_id region st
    → add_subnet sid region vpc_id cidr st ≡ becomes st'
    → Steps region st st'
unfolding add_subnet
add_subnet-Steps sid region vpc_id cidr st st' fresh (v, found, here) e =
    subst (Steps region st) (ground (arith, found, e)) (
      one (
        add_one_subnet (record { id = sid; region = region; vpc_id = vpc_id; cidr_block = cidr }) v
          fresh refl found here))

pub create_subnet-Ends :
    (env : Env) (q : Form) (region : Text) (w : World)
    → Fresh env w
    → Ends region w (create_subnet env q region w)
unfolding create_subnet
create_subnet-Ends env q region w fresh =
    let vpc_id = trim_space (q (codes "VpcId")) in
    if_lem (Ends region w) (vpc_id == [] || trim_space (q (codes "CidrBlock")) == []) (λ _. stays)
      (λ _.
        if_lem (Ends region w) (not (has_vpc vpc_id region w.st)) (λ _. stays)
          (λ there. answered-Ends region env _ w _ (λ st' e.
            add_subnet-Steps _ region _ _ w.st st' fresh.subnet
              (has_vpc-VpcIn vpc_id region w.st there) e)))

add_security_group-Steps :
    (region : Text) (g : SecurityGroup) (st st' : DiskState)
    → lookup g.id st.security_groups ≡ none
    → g.region ≡ region
    → VpcIn g.vpc_id region st
    → add_security_group g st ≡ becomes st'
    → Steps region st st'
unfolding add_security_group
add_security_group-Steps region g st st' fresh here (v, found, there) e =
    subst (Steps region st) (ground (arith, e)) (one (add_group g v fresh here found there))

pub create_security_group-Ends :
    (env : Env) (q : Form) (region : Text) (w : World)
    → Fresh env w
    → Ends region w (create_security_group env q region w)
unfolding create_security_group
create_security_group-Ends env q region w fresh =
    let vpc_id = trim_space (q (codes "VpcId")) in
    if_lem (Ends region w) (trim_space (q (codes "GroupName")) == [] || vpc_id == []) (λ _. stays)
      (λ _.
        if_lem (Ends region w) (not (has_vpc vpc_id region w.st)) (λ _. stays)
          (λ there. answered-Ends region env _ w _ (λ st' e.
            add_security_group-Steps region _ w.st st' fresh.group refl
              (has_vpc-VpcIn vpc_id region w.st there) e)))

add_ingress-Steps :
    (sgid region : Text) (rules : List IngressRule) (st st' : DiskState)
    → add_ingress sgid region rules st ≡ becomes st'
    → Steps region st st'
unfolding add_ingress
add_ingress-Steps sgid region rules st st' e =
    elim (Option-cases (lookup sgid st.security_groups)) [
      | inl absent ↦ absurd (ground (arith, absent, e))
      | inr (sg, found) ↦ elim (Bool-cases (sg.region == region)) [
        | inl here ↦
            subst (Steps region st) (ground (arith, found, here, e))
              (one (add_rules sgid sg rules found ((eq_iff sg.region region).0 here)))
        | inr there ↦ absurd (ground (arith, found, there, e))
      ]
    ]

pub authorize_security_group_ingress-Ends :
    (env : Env) (q : Form) (region : Text) (w : World)
    → Ends region w (authorize_security_group_ingress env q region w)
unfolding authorize_security_group_ingress
authorize_security_group_ingress-Ends env q region w =
    if_lem (Ends region w) (trim_space (q (codes "GroupId")) == []) (λ _. stays)
      (λ _.
        option_lem (Ends region w) (parse_ip_permissions q) (λ _. stays)
          (λ rules _.
            if_lem (Ends region w) (is_nil rules) (λ _. stays)
              (λ _.
                answered-Ends region env _ w _
                  (λ st' e. add_ingress-Steps _ region rules w.st st' e))))
