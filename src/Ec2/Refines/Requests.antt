-- ===== src/Ec2/Refines/Requests.antt =====
-- Every request to EC2 takes steps of the specification, in its own region.
use twister_aws.Base.{Text, codes, not, ◌&&◌, Option, [], ◌==◌, if_lem, option_lem}
use twister_aws.Base.Strings.{to_lower, trim_space, has_prefix}
use twister_aws.Ec2.{World, Env}
use twister_aws.Ec2.Query.{Form}
use twister_aws.Ec2.Network.{NewKey}
use twister_aws.Ec2.Launch.{Service}
use twister_aws.Ec2.Handle.{act, region_of, handle}
use twister_aws.Ec2.Steps.{Steps}
use twister_aws.Ec2.Refines.{
  Ends, stays, Fresh, create_key_pair-Ends, create_vpc-Ends, create_subnet-Ends,
  create_security_group-Ends, authorize_security_group_ingress-Ends,
}
use twister_aws.Ec2.Refines.Machines.{run_instances-Ends}
use twister_aws.Ec2.Refines.Loops.{
  terminate_instances-Ends, stop_instances-Ends, start_instances-Ends,
}

module _ (env : Env) (svc : Service) (generated : Option NewKey) where
  act-Ends :
      (q : Form) (action region : Text) (w : World)
      → Fresh env w
      → Ends region w (act env svc generated q action region w)
  unfolding act
  act-Ends q action region w fresh =
      let P = Ends region w in
      if_lem P (action == codes "CreateKeyPair")
        (λ _. create_key_pair-Ends env generated q region w)
        (λ _.
          if_lem P (action == codes "CreateVpc") (λ _. create_vpc-Ends env q region w fresh)
            (λ _.
              if_lem P (action == codes "CreateSubnet")
                (λ _. create_subnet-Ends env q region w fresh)
                (λ _.
                  if_lem P (action == codes "DescribeVpcs") (λ _. stays)
                    (λ _.
                      if_lem P (action == codes "DescribeSubnets") (λ _. stays)
                        (λ _.
                          if_lem P (action == codes "CreateSecurityGroup")
                            (λ _. create_security_group-Ends env q region w fresh)
                            (λ _.
                              if_lem P (action == codes "AuthorizeSecurityGroupIngress")
                                (λ _. authorize_security_group_ingress-Ends env q region w)
                                (λ _.
                                  if_lem P (action == codes "DescribeSecurityGroups") (λ _. stays)
                                    (λ _.
                                      if_lem P (action == codes "RunInstances")
                                        (λ _. run_instances-Ends env svc q region w fresh)
                                        (λ _.
                                          if_lem P (action == codes "DescribeInstances")
                                            (λ _. stays)
                                            (λ _.
                                              if_lem P (action == codes "TerminateInstances")
                                                (λ _. terminate_instances-Ends env region q w)
                                                (λ _.
                                                  if_lem P (action == codes "StopInstances")
                                                    (λ _. stop_instances-Ends env region q w)
                                                    (λ _.
                                                      if_lem P (action == codes "StartInstances")
                                                        (λ _.
                                                          start_instances-Ends env svc region q w)
                                                        (λ _. stays)))))))))))))

  handle-Ends :
      (content_type : Text) (form : Option Form) (signed : Text) (w : World)
      → Fresh env w
      → Ends (region_of signed) w (handle env svc generated content_type form signed w)
  unfolding handle
  handle-Ends content_type form signed w fresh =
      let P = Ends (region_of signed) w in
      if_lem P
        (not (
          has_prefix (to_lower (trim_space content_type))
            (codes "application/x-www-form-urlencoded")))
        (λ _. stays)
        (λ _.
          option_lem P form (λ _. stays)
            (λ q _.
              if_lem P
                (not (q (codes "Version") == []) && not (q (codes "Version") == codes "2016-11-15"))
                (λ _. stays)
                (λ _.
                  if_lem P (trim_space (q (codes "Action")) == []) (λ _. stays)
                    (λ _.
                      act-Ends q (trim_space (q (codes "Action"))) (region_of signed) w fresh))))

  -- Any request to EC2, with new random ids, changes the state by steps of the specification only,
  -- whatever the form holds, whether docker and the disk work, and also where it fails half-way:
  -- resources are added with new ids and refer to resources of the same region and VPC, instances
  -- change state as the lifecycle allows, and nothing else changes or is removed.
  pub handle-Steps :
      (content_type : Text) (form : Option Form) (signed : Text) (w : World)
      → Fresh env w
      → Steps (region_of signed) w.st (handle env svc generated content_type form signed w).1.st
  handle-Steps content_type form signed w fresh =
      (handle-Ends content_type form signed w fresh).steps
