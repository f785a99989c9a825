-- ===== src/Tests/Machines.antt =====
-- Runs on EC2: a region with one VPC, one subnet, one security group and one instance.
use mathlib.Core.Path.{subst}
use twister_aws.Base.{
  eq_iff, ◌∙◌, Text, Map, codes, ◌≡◌, ◌≢◌, refl, true, none, some, [], ◌∷◌, ◌==◌, lookup, arith,
}
use twister_aws.Base.Files.{missing, holds}
use twister_aws.Base.Strings.{hex_encode, has_prefix, to_lower, trim_space}
use twister_aws.Base.{insert}
use twister_aws.Base.Sort.{sort}
use twister_aws.Base.Json.{json_text, json_map}
use twister_aws.Ec2.{json_state, json_vpc, json_subnet, json_group, json_instance}
use twister_aws.Ec2.{
  Vpc, Subnet, SecurityGroup, Instance, DiskState, World, Env, save, update, new_resource_id,
}
use twister_aws.Ec2.Query.{Form}
use twister_aws.Ec2.Launch.{Service}
use twister_aws.Ec2.Handle.{act, region_of, handle}
use twister_aws.Ec2.Reply.{vpc_created, internal_error}
use twister_aws.Ec2.Network.{create_vpc, add_vpc, answered, answer}
use twister_aws.Ec2.Durable.{IsSaved}
use twister_aws.Ec2.Durable.Requests.{handle-IsSaved}
use twister_aws.Ec2.Steps.{Steps}
use twister_aws.Ec2.Steps.Regions.{IsIsolated}
use twister_aws.Ec2.Steps.Consistency.{VpcIn, PlacedIn, IsConsistent}
use twister_aws.Ec2.Refines.{Fresh}
use twister_aws.Ec2.Refines.Requests.{handle-Steps}
use twister_aws.Ec2.Guarantees.{
  Requests, start, request, Requests-IsConsistent, Requests-terminated, handle-IsIsolated,
}
use twister_aws.Tests.Data.{bytes, us}

abbrev vpc : Vpc
vpc = record { id = codes "vpc-1"; region = us; cidr_block = codes "10.0.0.0/16" }

abbrev subnet : Subnet
subnet = record {
  id = codes "subnet-1";
  region = us;
  vpc_id = codes "vpc-1";
  cidr_block = codes "10.0.1.0/24";
}

abbrev group : SecurityGroup
group = record {
  id = codes "sg-1";
  region = us;
  vpc_id = codes "vpc-1";
  name = codes "web";
  description = [];
  ingress = [];
}

abbrev pub machine : Instance
machine = record {
  id = codes "i-1";
  region = us;
  ami = codes "ami-1";
  subnet_id = codes "subnet-1";
  security_group_ids = codes "sg-1" ∷ [];
  state = codes "terminated";
  private_ip_address = codes "10.0.1.10";
  public_ip_address = codes "127.0.0.1";
  docker_image = codes "alpine";
  docker_command = [];
  container_name = codes "twister-ec2-i-1";
  user = codes "root";
  tags = [];
}

abbrev pub state : DiskState
state = record {
  key_pairs = [];
  vpcs = (codes "vpc-1", vpc) ∷ [];
  subnets = (codes "subnet-1", subnet) ∷ [];
  security_groups = (codes "sg-1", group) ∷ [];
  instances = (codes "i-1", machine) ∷ [];
}

abbrev pub world : World
world = record { st = state; file = holds state; commands = [] }

abbrev pub env : Env
env = record {
  writable = λ st. true;
  docker = λ before args. record { succeeded = true; output = []; error = [] };
  bytes = bytes 9;
  reservation_bytes = bytes 9;
}

abbrev service : Service
service = record { catalog = missing; public_host = codes "127.0.0.1" }

-- A form with these fields.
abbrev pub form_of : Map Text → Form
form_of fields key = elim (lookup key fields) [ none ↦ [] | some v ↦ v ]

abbrev start_form : Form
start_form =
    form_of ((codes "Action", codes "StartInstances") ∷ (codes "InstanceId.1", codes "i-1") ∷ [])

abbrev content_type : Text
content_type = codes "application/x-www-form-urlencoded"

fresh : Fresh env world
unfolding new_resource_id hex_encode bytes lookup ◌==◌
fresh = record { vpc = refl; subnet = refl; group = refl; machine = refl }

pub single : {V : Type 0} (j k : Text) (v x : V) → lookup k ((j, v) ∷ []) ≡ some x → v ≡ x
unfolding lookup
single j k v x e = ground arith

pub owns :
    (v : Instance) (j k : Text) (x : Instance)
    → v.id ≡ j
    → lookup k ((j, v) ∷ []) ≡ some x
    → x.id ≡ k
unfolding lookup
owns v j k x own e =
    let same : v ≡ x = ground (arith, e) in
    let key = (eq_iff j k).0 (ground (arith, e)) in
    subst (λ (y : Instance). y.id ≡ k) same (own ∙ key)

the_vpc : VpcIn state us (codes "vpc-1")
unfolding lookup ◌==◌
the_vpc = (vpc, refl, refl)

pub the_place : PlacedIn state us (codes "subnet-1") (codes "sg-1" ∷ [])
unfolding lookup ◌==◌
the_place = (subnet, refl, refl, ((group, refl, refl, refl), tt))

pub state-IsConsistent : IsConsistent state
state-IsConsistent = record {
  subnet_vpc = λ k s e.
      subst (λ (x : Subnet). VpcIn state x.region x.vpc_id) (single (codes "subnet-1") k subnet s e)
        the_vpc;
  group_vpc = λ k g e.
      subst (λ (x : SecurityGroup). VpcIn state x.region x.vpc_id)
        (single (codes "sg-1") k group g e) the_vpc;
  placed = λ k i e.
      subst (λ (x : Instance). PlacedIn state x.region x.subnet_id x.security_group_ids)
        (single (codes "i-1") k machine i e) the_place;
  keyed = λ k i e. owns machine (codes "i-1") k i refl e;
}

abbrev after : World
after = (handle env service none content_type (some start_form) us world).1

a_request : Requests world after
a_request = request env service none content_type (some start_form) us start fresh

handle-Steps_example : Steps (region_of us) state after.st
handle-Steps_example = handle-Steps env service none content_type (some start_form) us world fresh

Requests-IsConsistent_example : IsConsistent after.st
Requests-IsConsistent_example = Requests-IsConsistent a_request state-IsConsistent

there : lookup (codes "i-1") world.st.instances ≡ some machine
unfolding lookup ◌==◌
there = refl

Requests-terminated_example : lookup (codes "i-1") after.st.instances ≡ some machine
Requests-terminated_example = Requests-terminated (codes "i-1") machine a_request there refl

handle-IsIsolated_example : IsIsolated (region_of us) state after.st
handle-IsIsolated_example =
    handle-IsIsolated env service none content_type (some start_form) us world fresh

abbrev vpc_form : Form
vpc_form = form_of ((codes "Action", codes "CreateVpc") ∷ [])

vpc_made :
    (handle env service none content_type (some vpc_form) us world).0
    ≡ vpc_created (record {
      vpc_id = new_resource_id (codes "vpc-") (bytes 9);
      cidr_block = codes "10.0.0.0/16";
    })
unfolding handle act create_vpc add_vpc update save answered answer has_prefix to_lower trim_space
    lookup ◌==◌
vpc_made = refl

not_internal : (handle env service none content_type (some vpc_form) us world).0 ≢ internal_error
not_internal = rw vpc_made (cc)

world-IsSaved : IsSaved world
unfolding json_state json_map sort lookup ◌==◌ insert json_text json_vpc json_subnet json_group
    json_instance
world-IsSaved = refl

handle-IsSaved_example : IsSaved (handle env service none content_type (some vpc_form) us world).1
handle-IsSaved_example =
    handle-IsSaved env service none content_type (some vpc_form) us world world-IsSaved not_internal
