-- ===== src/Ec2/Handle.antt =====
-- internal/ec2/service.go: the dispatch of a request.
use twister_aws.Base.{Text, codes, not, ◌&&◌, Option, none, some, [], ◌==◌, if◌then◌else◌}
use twister_aws.Base.Strings.{to_lower, trim_space, has_prefix}
use twister_aws.Ec2.{World, Env}
use twister_aws.Ec2.Query.{Form}
use twister_aws.Ec2.Reply.{Reply, failed}
use twister_aws.Ec2.Network.{
  NewKey, create_key_pair, create_vpc, create_subnet, create_security_group,
  authorize_security_group_ingress,
}
use twister_aws.Ec2.Launch.{Service, run_instances}
use twister_aws.Ec2.States.{terminate_instances, stop_instances}
use twister_aws.Ec2.Start.{start_instances}
use twister_aws.Ec2.Describe.{
  describe_vpcs, describe_subnets, describe_security_groups, describe_instances,
}

-- The switch on the action.
unfoldable pub act : Env → Service → Option NewKey → Form → Text → Text → World → Reply × World
act env svc generated q action region w =
    if action == codes "CreateKeyPair"
    then create_key_pair env generated q region w
    else if action == codes "CreateVpc"
    then create_vpc env q region w
    else if action == codes "CreateSubnet"
    then create_subnet env q region w
    else if action == codes "DescribeVpcs"
    then (describe_vpcs q region w.st, w)
    else if action == codes "DescribeSubnets"
    then (describe_subnets q region w.st, w)
    else if action == codes "CreateSecurityGroup"
    then create_security_group env q region w
    else if action == codes "AuthorizeSecurityGroupIngress"
    then authorize_security_group_ingress env q region w
    else if action == codes "DescribeSecurityGroups"
    then (describe_security_groups q region w.st, w)
    else if action == codes "RunInstances"
    then run_instances env svc q region w
    else if action == codes "DescribeInstances"
    then (describe_instances env q region w.st, w)
    else if action == codes "TerminateInstances"
    then terminate_instances env q region w
    else if action == codes "StopInstances"
    then stop_instances env q region w
    else if action == codes "StartInstances"
    then start_instances env svc q region w
    else (failed 400 "InvalidAction", w)

abbrev pub region_of : Text → Text
region_of signed = let r = trim_space signed in if r == [] then codes "us-east-1" else r

-- The form is `none` where url.ParseQuery fails.
unfoldable pub handle :
    Env → Service → Option NewKey → Text → Option Form → Text → World → Reply × World
unfolding act
handle env svc generated content_type form signed w =
    if not
      (has_prefix (to_lower (trim_space content_type)) (codes "application/x-www-form-urlencoded"))
    then (failed 400 "InvalidParameterValue", w)
    else elim form [
      | none ↦ (failed 400 "MalformedQueryString", w)
      | some q ↦
          if not (q (codes "Version") == []) && not (q (codes "Version") == codes "2016-11-15")
          then (failed 400 "InvalidParameter", w)
          else let action = trim_space (q (codes "Action")) in
            if action == []
            then (failed 400 "MissingAction", w)
            else act env svc generated q action (region_of signed) w
    ]
