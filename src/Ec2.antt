-- ===== src/Ec2.antt =====
-- EC2: internal/ec2/store.go, the state that the other modules work on. What the handlers share is
-- here: the state in memory, the state file, the docker commands that were run, and the replies.
pub mod Query
pub mod Catalog
pub mod Docker
pub mod Reply
pub mod Network
pub mod Items
pub mod Launch
pub mod States
pub mod Start
pub mod Describe
pub mod Handle
pub mod Steps
pub mod Refines
pub mod Guarantees
pub mod Described
pub mod Durable
pub mod Termination
use twister_aws.Base.{
  ℕ, Text, Map, String, codes, Bool, Option, none, some, List, [], ◌∷◌, ◌++◌, map, take,
  if◌then◌else◌,
}
use twister_aws.Base.Int.{ℤ}
use twister_aws.Base.Files.{File, missing, broken, holds}
use twister_aws.Base.Json.{json_text, json_map}
use twister_aws.Base.Strings.{hex_encode}

pub record KeyPair : Type 0 where
  pub region : Text
  pub name : Text
  pub key_pair_id : Text
  pub fingerprint : Text

pub record Vpc : Type 0 where
  pub id : Text
  pub region : Text
  pub cidr_block : Text

pub record Subnet : Type 0 where
  pub id : Text
  pub region : Text
  pub vpc_id : Text
  pub cidr_block : Text

pub record IngressRule : Type 0 where
  pub protocol : Text
  pub from_port : ℤ
  pub to_port : ℤ
  pub cidr_ipv4 : Text

pub record SecurityGroup : Type 0 where
  pub id : Text
  pub region : Text
  pub vpc_id : Text
  pub name : Text
  pub description : Text
  pub ingress : List IngressRule

pub record Instance : Type 0 where
  pub id : Text
  pub region : Text
  pub ami : Text
  pub subnet_id : Text
  pub security_group_ids : List Text
  pub state : Text
  pub private_ip_address : Text
  pub public_ip_address : Text
  pub docker_image : Text
  pub docker_command : List Text
  pub container_name : Text
  pub user : Text
  pub tags : Map Text

pub record DiskState : Type 0 where
  pub key_pairs : Map KeyPair
  pub vpcs : Map Vpc
  pub subnets : Map Subnet
  pub security_groups : Map SecurityGroup
  pub instances : Map Instance

abbrev pub empty_state : DiskState
empty_state = record {
  key_pairs = [];
  vpcs = [];
  subnets = [];
  security_groups = [];
  instances = [];
}

unfoldable pub kp_key : Text → Text → Text
kp_key region name = region ++ 0 ∷ name

-- Store, with the file at its path, and the docker commands run so far, the latest first.
pub record World : Type 0 where
  pub st : DiskState
  pub file : File DiskState
  pub commands : List (List Text)

-- What a docker command gives: whether it succeeds, its output, and the text of its error.
pub record Ran : Type 0 where
  pub succeeded : Bool
  pub output : Text
  pub error : Text

-- What the handlers meet outside: whether the state file can be replaced, what docker answers to a
-- command after the commands before it, and the random bytes of the ids that a request makes.
pub record Env : Type 0 where
  pub writable : DiskState → Bool
  pub docker : List (List Text) → List Text → Ran
  pub bytes : Text
  pub reservation_bytes : Text

pub data UpdateError : Type 0 where
  duplicate_key_pair vpc_gone group_not_found instance_not_found not_saved : UpdateError

-- The function that Update applies: it fails before it changes the state, or changes it.
pub data Change : Type 0 where
  fails : UpdateError → Change
  becomes : DiskState → Change

-- What encoding/json reads back of the records that it wrote.
unfoldable pub json_key_pair : KeyPair → KeyPair
json_key_pair k = record {
  region = json_text k.region;
  name = json_text k.name;
  key_pair_id = json_text k.key_pair_id;
  fingerprint = json_text k.fingerprint;
}

unfoldable pub json_vpc : Vpc → Vpc
json_vpc v = record {
  id = json_text v.id;
  region = json_text v.region;
  cidr_block = json_text v.cidr_block;
}

unfoldable pub json_subnet : Subnet → Subnet
json_subnet s = record {
  id = json_text s.id;
  region = json_text s.region;
  vpc_id = json_text s.vpc_id;
  cidr_block = json_text s.cidr_block;
}

unfoldable pub json_rule : IngressRule → IngressRule
json_rule r = record r { protocol = json_text r.protocol; cidr_ipv4 = json_text r.cidr_ipv4 }

unfoldable pub json_group : SecurityGroup → SecurityGroup
json_group g = record {
  id = json_text g.id;
  region = json_text g.region;
  vpc_id = json_text g.vpc_id;
  name = json_text g.name;
  description = json_text g.description;
  ingress = map json_rule g.ingress;
}

unfoldable pub json_instance : Instance → Instance
json_instance i = record {
  id = json_text i.id;
  region = json_text i.region;
  ami = json_text i.ami;
  subnet_id = json_text i.subnet_id;
  security_group_ids = map json_text i.security_group_ids;
  state = json_text i.state;
  private_ip_address = json_text i.private_ip_address;
  public_ip_address = json_text i.public_ip_address;
  docker_image = json_text i.docker_image;
  docker_command = map json_text i.docker_command;
  container_name = json_text i.container_name;
  user = json_text i.user;
  tags = json_map json_text i.tags;
}

unfoldable pub json_state : DiskState → DiskState
json_state st = record {
  key_pairs = json_map json_key_pair st.key_pairs;
  vpcs = json_map json_vpc st.vpcs;
  subnets = json_map json_subnet st.subnets;
  security_groups = json_map json_group st.security_groups;
  instances = json_map json_instance st.instances;
}

-- A file stands for the state that it is read as.
unfoldable pub save : Env → World → Option UpdateError × World
save env w =
    if env.writable w.st
    then (none, record w { file = holds (json_state w.st) })
    else (some not_saved, w)

-- Where the file cannot be written, the state in memory is the new one all the same.
unfoldable pub update : Env → (DiskState → Change) → World → Option UpdateError × World
update env f w = elim (f w.st) [
  | fails e ↦ (some e, w)
  | becomes st' ↦ save env (record w { st = st' })
]

-- load, where the decoder gives nil maps as empty ones
unfoldable pub load : World → Bool × World
load w = elim w.file [
  | missing ↦ (Bool.false, w)
  | broken ↦ (Bool.false, w)
  | holds st' ↦ (Bool.true, record w { st = st' })
]

-- NewStore: the file is read, or made if there is none; `none` for an error.
unfoldable pub new_store : Env → World → Option World
new_store env w = elim w.file [
  | holds st' ↦ some (record w { st = st' })
  | broken ↦ none
  | missing ↦ elim (save env (record w { st = empty_state })).0 [
    | none ↦ some (save env (record w { st = empty_state })).1
    | some e ↦ none
  ]
]

-- nine random bytes in hexadecimal, the first seventeen digits
unfoldable pub new_resource_id : Text → Text → Text
new_resource_id prefix bytes = prefix ++ take 17 (hex_encode bytes)
