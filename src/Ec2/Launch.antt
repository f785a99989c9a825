-- ===== src/Ec2/Launch.antt =====
-- internal/ec2/service_actions.go: RunInstances.
use twister_aws.Base.{
  Text, Map, codes, Bool, true, false, not, ◌&&◌, ◌||◌, Option, none, some, List, [], ◌∷◌, ◌++◌,
  map, ◌==◌, lookup, insert, is_nil, eqb, if◌then◌else◌,
}
use twister_aws.Base.Files.{File}
use twister_aws.Base.Strings.{trim_space}
use twister_aws.Ec2.{
  Instance, DiskState, kp_key, World, Env, UpdateError, Change, becomes, update, new_resource_id,
}
use twister_aws.Ec2.Query.{Form, list_indexed, parse_tag_specifications, is_single_count}
use twister_aws.Ec2.Catalog.{AmiEntry, read_catalog, resolve}
use twister_aws.Ec2.Docker.{docker_pull, docker_run_detached, docker_stop_remove}
use twister_aws.Ec2.Reply.{Reply, failed, started_instances, internal_error}
use twister_aws.Ec2.Items.{build_instance_item_list, tcp_docker_port_publish}

-- Service, but for the store: the file at catalogPath, and publicHost.
pub record Service : Type 0 where
  pub catalog : File (Map AmiEntry)
  pub public_host : Text

-- What a RunInstances asks for.
pub record Launch : Type 0 where
  pub image_id : Text
  pub subnet_id : Text
  pub sg_ids : List Text
  pub key_name : Text
  pub tags : Map Text

unfoldable pub group_ids : Form → List Text
group_ids q =
    let listed = list_indexed q (codes "SecurityGroupId") in
    let g = trim_space (q (codes "SecurityGroupId")) in
    if not (is_nil listed) then listed else if g == [] then [] else g ∷ []

unfoldable pub read_launch : Form → Launch
unfolding group_ids
read_launch q = record {
  image_id = trim_space (q (codes "ImageId"));
  subnet_id = trim_space (q (codes "SubnetId"));
  sg_ids = group_ids q;
  key_name = trim_space (q (codes "KeyName"));
  tags = parse_tag_specifications q;
}

-- Whether all groups are there, in the region and the VPC.
unfoldable pub has_groups : DiskState → Text → Text → List Text → Bool
has_groups st region vpc_id [] = true
has_groups st region vpc_id (sgid ∷ sgids) =
    let rest = has_groups st region vpc_id sgids in
    elim (lookup sgid st.security_groups) [
      | none ↦ false
      | some sg ↦ if sg.region == region && sg.vpc_id == vpc_id then rest else false
    ]

unfoldable pub has_key_pair : DiskState → Text → Text → Bool
has_key_pair st region key_name =
    if key_name == []
    then true
    else elim (lookup (kp_key region key_name) st.key_pairs) [ none ↦ false | some k ↦ true ]

-- The replies to a launch that the state does not allow.
unfoldable pub check_launch : DiskState → Text → Launch → Option Reply
unfolding has_groups has_key_pair
check_launch st region l = elim (lookup l.subnet_id st.subnets) [
  | none ↦ some (failed 400 "InvalidSubnetID.NotFound")
  | some sub ↦
      if not (sub.region == region)
      then some (failed 400 "InvalidSubnetID.NotFound")
      else if not (has_groups st region sub.vpc_id l.sg_ids)
      then some (failed 400 "InvalidGroup.NotFound")
      else if not (has_key_pair st region l.key_name)
      then some (failed 400 "InvalidKeyPair.NotFound")
      else none
]

unfoldable pub new_instance : Service → Text → Text → AmiEntry → Launch → Instance
new_instance svc region iid ami l = record {
  id = iid;
  region = region;
  ami = l.image_id;
  subnet_id = l.subnet_id;
  security_group_ids = l.sg_ids;
  state = codes "running";
  private_ip_address = codes "10.0.1.10";
  public_ip_address = svc.public_host;
  docker_image = ami.docker_image;
  docker_command = ami.command;
  container_name = codes "twister-ec2-" ++ map (λ c. if eqb c b':' then b'-' else c) iid;
  user = ami.default_user;
  tags = l.tags;
}

unfoldable pub add_instance : Instance → DiskState → Change
add_instance inst st = becomes (record st { instances = insert inst.id inst st.instances })

-- The container runs: the instance is stored, or else the container is removed again.
unfoldable pub record_instance :
    Env → DiskState → Instance → Option UpdateError × World → Reply × World
record_instance env st inst (some e, w) =
    (internal_error, docker_stop_remove env inst.container_name w)
record_instance env st inst (none, w) = (
  started_instances (new_resource_id (codes "r-") env.reservation_bytes)
      (build_instance_item_list (inst ∷ []) st),
  w,
)

-- `st` is the snapshot.
unfoldable pub launch : Env → DiskState → List Text → Instance → World → Reply × World
unfolding record_instance
launch env st ports inst w =
    let (pulled, w₁) = docker_pull env inst.docker_image w in
    if not pulled
    then (internal_error, w₁)
    else let (started, w₂) =
        docker_run_detached env inst.container_name inst.docker_image inst.docker_command ports
          w₁ in
      if not started
      then (internal_error, w₂)
      else record_instance env st inst (update env (add_instance inst) w₂)

unfoldable pub run_instances : Env → Service → Form → Text → World → Reply × World
run_instances env svc q region w =
    let l = read_launch q in
    if l.image_id == [] || (l.subnet_id == [] || is_nil l.sg_ids)
    then (failed 400 "MissingParameter", w)
    else if not (is_single_count q)
    then (failed 400 "InvalidParameter", w)
    else elim (read_catalog svc.catalog) [
      | none ↦ (internal_error, w)
      | some amis ↦ elim (resolve amis l.image_id) [
        | none ↦ (failed 400 "InvalidAMIID.NotFound", w)
        | some ami ↦ elim (check_launch w.st region l) [
          | some reply ↦ (reply, w)
          | none ↦
              launch env w.st (tcp_docker_port_publish w.st region l.sg_ids)
                (new_instance svc region (new_resource_id (codes "i-") env.bytes) ami l) w
        ]
      ]
    ]
