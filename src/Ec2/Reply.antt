-- ===== src/Ec2/Reply.antt =====
-- The responses of internal/ec2/service_actions.go, without the fields that are the same in all.
use twister_aws.Base.{ℕ, Text, String, List}
use twister_aws.Base.Int.{ℤ}

pub record VpcXml : Type 0 where
  pub vpc_id : Text
  pub cidr_block : Text

pub record SubnetXml : Type 0 where
  pub subnet_id : Text
  pub vpc_id : Text
  pub cidr_block : Text

-- the address is that of the single range
pub record IpPermXml : Type 0 where
  pub ip_protocol : Text
  pub from_port : ℤ
  pub to_port : ℤ
  pub cidr_ip : Text

pub record SgInfoXml : Type 0 where
  pub group_id : Text
  pub group_name : Text
  pub vpc_id : Text
  pub description : Text
  pub ip_permissions : List IpPermXml

pub record StateXml : Type 0 where
  pub code : ℕ
  pub name : Text

pub record InstanceXml : Type 0 where
  pub instance_id : Text
  pub image_id : Text
  pub subnet_id : Text
  pub instance_state : StateXml
  pub private_ip_address : Text
  pub public_ip_address : Text
  -- group ids and names
  pub security_groups : List (Text × Text)
  -- keys and values
  pub tags : List (Text × Text)

pub record StateChange : Type 0 where
  pub instance_id : Text
  pub previous_state : StateXml
  pub current_state : StateXml

pub data Reply : Type 0 where
  -- status and code
  failed : ℕ → String → Reply
  -- name, fingerprint, key material and id
  key_pair_created : Text → Text → Text → Text → Reply
  vpc_created : VpcXml → Reply
  subnet_created : SubnetXml → Reply
  -- id and name
  security_group_created : Text → Text → Reply
  authorized : Reply
  vpc_set : List VpcXml → Reply
  subnet_set : List SubnetXml → Reply
  security_group_info : List SgInfoXml → Reply
  -- reservation id
  started_instances : Text → List InstanceXml → Reply
  reservation : Text → List InstanceXml → Reply
  state_changes : List StateChange → Reply

abbrev pub internal_error : Reply
internal_error = failed 500 "InternalError"
