-- ===== src/Ec2/Describe.antt =====
-- internal/ec2/service_actions.go: the Describe handlers. A map is walked in the order of its
-- entries here; the items are sorted by id in the end.
pub mod Listed
use twister_aws.Base.{
  Text, codes, Bool, true, false, not, ◌||◌, List, [], ◌∷◌, map, values, ◌==◌, lookup, none, some,
  is_nil, if◌then◌else◌,
}
use twister_aws.Base.Sort.{sort_by, elem}
use twister_aws.Base.Strings.{to_lower, trim_space, equal_fold}
use twister_aws.Ec2.{
  Vpc, Subnet, IngressRule, SecurityGroup, Instance, DiskState, Env, new_resource_id,
}
use twister_aws.Ec2.Query.{Form, Filter, list_indexed, parse_filters, contains_fold}
use twister_aws.Ec2.Reply.{
  Reply, VpcXml, SubnetXml, SgInfoXml, IpPermXml, vpc_set, subnet_set, security_group_info,
  reservation,
}
use twister_aws.Ec2.Items.{build_instance_item_list}

-- Whether an id is asked for: any id is where none is given.
unfoldable pub is_wanted : List Text → Text → Bool
is_wanted want id = is_nil want || contains_fold want id

unfoldable pub vpc_items : Text → List Text → List Vpc → List VpcXml
vpc_items region want [] = []
vpc_items region want (v ∷ vs) =
    let rest = vpc_items region want vs in
    if not (v.region == region)
    then rest
    else if not (is_wanted want v.id)
    then rest
    else record { vpc_id = v.id; cidr_block = v.cidr_block } ∷ rest

unfoldable pub describe_vpcs : Form → Text → DiskState → Reply
unfolding vpc_items
describe_vpcs q region st =
    let want = list_indexed q (codes "VpcId") in
    vpc_set (sort_by (λ (v : VpcXml). v.vpc_id) (vpc_items region want (values st.vpcs)))

unfoldable pub subnet_items : Text → List Text → List Subnet → List SubnetXml
subnet_items region want [] = []
subnet_items region want (sb ∷ sbs) =
    let rest = subnet_items region want sbs in
    if not (sb.region == region)
    then rest
    else if not (is_wanted want sb.id)
    then rest
    else record { subnet_id = sb.id; vpc_id = sb.vpc_id; cidr_block = sb.cidr_block } ∷ rest

unfoldable pub describe_subnets : Form → Text → DiskState → Reply
unfolding subnet_items
describe_subnets q region st =
    let want = list_indexed q (codes "SubnetId") in
    subnet_set
      (sort_by (λ (s : SubnetXml). s.subnet_id) (subnet_items region want (values st.subnets)))

unfoldable pub perm_item : IngressRule → IpPermXml
perm_item r = record {
  ip_protocol = r.protocol;
  from_port = r.from_port;
  to_port = r.to_port;
  cidr_ip = r.cidr_ipv4;
}

unfoldable pub security_group_items : Text → List Text → List SecurityGroup → List SgInfoXml
unfolding perm_item
security_group_items region want [] = []
security_group_items region want (sg ∷ sgs) =
    let rest = security_group_items region want sgs in
    if not (sg.region == region)
    then rest
    else if not (is_wanted want sg.id)
    then rest
    else record {
      group_id = sg.id;
      group_name = sg.name;
      vpc_id = sg.vpc_id;
      description = sg.description;
      ip_permissions = map perm_item sg.ingress;
    }
      ∷ rest

unfoldable pub describe_security_groups : Form → Text → DiskState → Reply
unfolding security_group_items
describe_security_groups q region st =
    let want = list_indexed q (codes "GroupId") in
    security_group_info (
      sort_by (λ (g : SgInfoXml). g.group_id)
        (security_group_items region want (values st.security_groups)))

unfoldable pub any_fold : Text → List Text → Bool
any_fold s [] = false
any_fold s (v ∷ vs) = equal_fold v s || any_fold s vs

unfoldable pub instance_matches_filter : Instance → Filter → Bool
unfolding any_fold
instance_matches_filter inst f =
    if is_nil f.values
    then true
    else if f.name == codes "instance-state-name"
    then any_fold inst.state f.values
    else if f.name == codes "tag:Name"
    then elem (elim (lookup (codes "Name") inst.tags) [ none ↦ [] | some t ↦ t ]) f.values
    else if f.name == codes "resource-id"
    then any_fold inst.id f.values
    else true

unfoldable pub keep_matching : Filter → List Instance → List Instance
unfolding instance_matches_filter
keep_matching f [] = []
keep_matching f (inst ∷ insts) =
    let rest = keep_matching f insts in if instance_matches_filter inst f then inst ∷ rest else rest

unfoldable pub filter_by_filters : List Instance → List Filter → List Instance
unfolding keep_matching
filter_by_filters out [] = out
filter_by_filters out (f ∷ fs) = filter_by_filters (keep_matching f out) fs

unfoldable pub instances_in : Text → List Instance → List Instance
instances_in region [] = []
instances_in region (i ∷ is) =
    let rest = instances_in region is in if not (i.region == region) then rest else i ∷ rest

-- The instances whose id is among `want`, in lower case.
unfoldable pub narrowed : List Text → List Instance → List Instance
narrowed want [] = []
narrowed want (i ∷ is) =
    let rest = narrowed want is in if elem (to_lower i.id) want then i ∷ rest else rest

unfoldable pub candidates : Form → Text → DiskState → List Instance
unfolding narrowed instances_in filter_by_filters
candidates q region st =
    let ids = list_indexed q (codes "InstanceId") in
    let here = instances_in region (values st.instances) in
    let asked =
      if is_nil ids then here else narrowed (map (λ id. to_lower (trim_space id)) ids) here in
    sort_by (λ (i : Instance). i.id) (filter_by_filters asked (parse_filters q))

unfoldable pub describe_instances : Env → Form → Text → DiskState → Reply
unfolding candidates
describe_instances env q region st =
    reservation (new_resource_id (codes "r-") env.reservation_bytes)
      (build_instance_item_list (candidates q region st) st)
