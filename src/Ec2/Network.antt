-- ===== src/Ec2/Network.antt =====
-- internal/ec2/service_actions.go, the handlers that make key pairs, VPCs, subnets and security
-- groups. The snapshot that a handler takes is the state, since requests come one after another.
use twister_aws.Base.{
  Text, codes, Bool, not, ◌||◌, Option, none, some, List, [], ◌++◌, ◌==◌, lookup, insert, is_nil,
  if◌then◌else◌,
}
use twister_aws.Base.Strings.{trim_space}
use twister_aws.Ec2.{
  KeyPair, Vpc, IngressRule, SecurityGroup, DiskState, kp_key, World, Env, UpdateError,
  duplicate_key_pair, vpc_gone, group_not_found, instance_not_found, not_saved, Change, fails,
  becomes, update, new_resource_id,
}
use twister_aws.Ec2.Query.{Form, parse_ip_permissions}
use twister_aws.Ec2.Reply.{
  Reply, failed, key_pair_created, vpc_created, subnet_created, security_group_created, authorized,
  internal_error,
}

-- The reply where Update gives no error, or else that for the error.
unfoldable pub answer : Reply → Option UpdateError → Reply
answer reply none = reply
answer reply (some duplicate_key_pair) = failed 400 "InvalidKeyPair.Duplicate"
answer reply (some group_not_found) = failed 400 "InvalidGroup.NotFound"
answer reply (some instance_not_found) = failed 400 "InvalidInstanceID.NotFound"
answer reply (some vpc_gone) = internal_error
answer reply (some not_saved) = internal_error

unfoldable pub answered : Reply → Option UpdateError × World → Reply × World
answered reply (e, w) = (answer reply e, w)

-- A new RSA key: its fingerprint and its private part in PEM.
pub record NewKey : Type 0 where
  pub fingerprint : Text
  pub material : Text

unfoldable pub add_key_pair : Text → KeyPair → DiskState → Change
add_key_pair key pair st = elim (lookup key st.key_pairs) [
  | some old ↦ fails duplicate_key_pair
  | none ↦ becomes (record st { key_pairs = insert key pair st.key_pairs })
]

-- `none` where the key cannot be generated or marshalled.
unfoldable pub create_key_pair : Env → Option NewKey → Form → Text → World → Reply × World
create_key_pair env generated q region w =
    let name = trim_space (q (codes "KeyName")) in
    if name == [] then (failed 400 "MissingParameter", w) else elim generated [
      | none ↦ (internal_error, w)
      | some new ↦
          let kid = new_resource_id (codes "key-") env.bytes in
          let pair : KeyPair = record {
            region = region;
            name = name;
            key_pair_id = kid;
            fingerprint = new.fingerprint;
          } in
          answered (key_pair_created name new.fingerprint new.material kid)
            (update env (add_key_pair (kp_key region name) pair) w)
    ]

unfoldable pub add_vpc : Vpc → DiskState → Change
add_vpc vpc st = becomes (record st { vpcs = insert vpc.id vpc st.vpcs })

unfoldable pub create_vpc : Env → Form → Text → World → Reply × World
create_vpc env q region w =
    let given = trim_space (q (codes "CidrBlock")) in
    let cidr = if given == [] then codes "10.0.0.0/16" else given in
    let id = new_resource_id (codes "vpc-") env.bytes in
    answered (vpc_created (record { vpc_id = id; cidr_block = cidr }))
      (update env (add_vpc (record { id = id; region = region; cidr_block = cidr })) w)

-- Whether the state has the VPC, in the region.
unfoldable pub has_vpc : Text → Text → DiskState → Bool
has_vpc vpc_id region st = elim (lookup vpc_id st.vpcs) [
  | none ↦ Bool.false
  | some vpc ↦ vpc.region == region
]

unfoldable pub add_subnet : Text → Text → Text → Text → DiskState → Change
add_subnet sid region vpc_id cidr st = elim (lookup vpc_id st.vpcs) [
  | none ↦ fails vpc_gone
  | some vpc ↦ becomes (record st {
    subnets =
        insert sid (record { id = sid; region = region; vpc_id = vpc_id; cidr_block = cidr })
          st.subnets;
  })
]

unfoldable pub create_subnet : Env → Form → Text → World → Reply × World
create_subnet env q region w =
    let vpc_id = trim_space (q (codes "VpcId")) in
    let cidr = trim_space (q (codes "CidrBlock")) in
    if vpc_id == [] || cidr == []
    then (failed 400 "MissingParameter", w)
    else if not (has_vpc vpc_id region w.st)
    then (failed 400 "InvalidVpcID.NotFound", w)
    else let sid = new_resource_id (codes "subnet-") env.bytes in
      answered (subnet_created (record { subnet_id = sid; vpc_id = vpc_id; cidr_block = cidr }))
        (update env (add_subnet sid region vpc_id cidr) w)

unfoldable pub add_security_group : SecurityGroup → DiskState → Change
add_security_group sg st =
    becomes (record st { security_groups = insert sg.id sg st.security_groups })

unfoldable pub create_security_group : Env → Form → Text → World → Reply × World
create_security_group env q region w =
    let name = trim_space (q (codes "GroupName")) in
    let desc = trim_space (q (codes "GroupDescription")) in
    let vpc_id = trim_space (q (codes "VpcId")) in
    if name == [] || vpc_id == []
    then (failed 400 "MissingParameter", w)
    else if not (has_vpc vpc_id region w.st)
    then (failed 400 "InvalidVpcID.NotFound", w)
    else let sgid = new_resource_id (codes "sg-") env.bytes in
      let sg : SecurityGroup = record {
        id = sgid;
        region = region;
        vpc_id = vpc_id;
        name = name;
        description = desc;
        ingress = [];
      } in
      answered (security_group_created sgid name) (update env (add_security_group sg) w)

unfoldable pub add_ingress : Text → Text → List IngressRule → DiskState → Change
add_ingress sgid region rules st = elim (lookup sgid st.security_groups) [
  | none ↦ fails group_not_found
  | some sg ↦
      if sg.region == region
      then becomes (record st {
        security_groups =
            insert sgid (record sg { ingress = sg.ingress ++ rules }) st.security_groups;
      })
      else fails group_not_found
]

unfoldable pub authorize_security_group_ingress : Env → Form → Text → World → Reply × World
authorize_security_group_ingress env q region w =
    let sgid = trim_space (q (codes "GroupId")) in
    if sgid == [] then (failed 400 "MissingParameter", w) else elim (parse_ip_permissions q) [
      | none ↦ (failed 400 "InvalidParameter", w)
      | some rules ↦
          if is_nil rules
          then (failed 400 "InvalidParameter", w)
          else answered authorized (update env (add_ingress sgid region rules) w)
    ]
