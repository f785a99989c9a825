-- ===== src/Ec2/Items.antt =====
-- internal/ec2/service_actions.go: instances as the responses show them, and the ports that their
-- security groups open.
use twister_aws.Base.{
  ℕ, Text, codes, not, ◌||◌, none, some, List, [], ◌∷◌, ◌++◌, map, ◌==◌, lookup, if◌then◌else◌,
}
use twister_aws.Base.Int.{is_positive, eqb_ℤ}
use twister_aws.Base.Numbers.{decimal_ℤ}
use twister_aws.Base.Sort.{sort, sort_by, elem}
use twister_aws.Base.Strings.{to_lower, trim_space}
use twister_aws.Ec2.{IngressRule, Instance, DiskState}
use twister_aws.Ec2.Reply.{InstanceXml}

unfoldable pub state_code : Text → ℕ
state_code name =
    let s = to_lower (trim_space name) in
    if s == codes "pending"
    then 0
    else if s == codes "running"
    then 16
    else if s == codes "shutting-down"
    then 32
    else if s == codes "terminated"
    then 48
    else if s == codes "stopping"
    then 64
    else if s == codes "stopped"
    then 80
    else 16

-- The group ids, each with the name of the group, or "default" if there is none.
unfoldable pub group_names : DiskState → List Text → List (Text × Text)
group_names st [] = []
group_names st (gid ∷ gids) =
    let rest = group_names st gids in
    elim (lookup gid st.security_groups) [
      | none ↦ (gid, codes "default") ∷ rest
      | some sg ↦ (gid, sg.name) ∷ rest
    ]

unfoldable pub instance_item : DiskState → Instance → InstanceXml
unfolding group_names state_code
instance_item st i = record {
  instance_id = i.id;
  image_id = i.ami;
  subnet_id = i.subnet_id;
  instance_state = record { code = state_code i.state; name = i.state };
  private_ip_address = i.private_ip_address;
  public_ip_address = i.public_ip_address;
  security_groups = group_names st i.security_group_ids;
  tags = sort_by (λ (t : Text × Text). t.0) i.tags;
}

unfoldable pub build_instance_item_list : List Instance → DiskState → List InstanceXml
unfolding instance_item
build_instance_item_list insts st = map (instance_item st) insts

-- The inner loop of tcpDockerPortPublish; the ports seen are those in `out`.
unfoldable pub publish_rules : List IngressRule → List Text → List Text
publish_rules [] out = out
publish_rules (r ∷ rs) out =
    let p = decimal_ℤ r.from_port ++ b':' ∷ decimal_ℤ r.from_port in
    publish_rules rs (
      if not (to_lower r.protocol == codes "tcp")
        || (not (eqb_ℤ r.from_port r.to_port) || not (is_positive r.from_port))
      then out
      else if elem p out
      then out
      else out ++ p ∷ [])

unfoldable pub publish_groups : DiskState → Text → List Text → List Text → List Text
unfolding publish_rules
publish_groups st region [] out = out
publish_groups st region (sgid ∷ sgids) out =
    publish_groups st region sgids (elim (lookup sgid st.security_groups) [
      | none ↦ out
      | some sg ↦ if sg.region == region then publish_rules sg.ingress out else out
    ])

unfoldable pub tcp_docker_port_publish : DiskState → Text → List Text → List Text
unfolding publish_groups
tcp_docker_port_publish st region sg_ids = sort (publish_groups st region sg_ids [])
