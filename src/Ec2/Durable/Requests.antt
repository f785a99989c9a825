-- ===== src/Ec2/Durable/Requests.antt =====
-- Requests as a whole keep the state file current.
use twister_aws.Base.{Text, codes, ◌≢◌, not, ◌&&◌, Option, [], ◌==◌, if_lem, option_lem}
use twister_aws.Base.Strings.{to_lower, trim_space, has_prefix}
use twister_aws.Ec2.{World, Env}
use twister_aws.Ec2.Query.{Form}
use twister_aws.Ec2.Reply.{internal_error}
use twister_aws.Ec2.Network.{NewKey}
use twister_aws.Ec2.Launch.{Service}
use twister_aws.Ec2.Handle.{act, region_of, handle}
use twister_aws.Ec2.Durable.{
  IsSaved, IsDurable, keeps, create_key_pair-IsDurable, create_vpc-IsDurable,
  create_subnet-IsDurable, create_security_group-IsDurable,
  authorize_security_group_ingress-IsDurable, run_instances-IsDurable,
}
use twister_aws.Ec2.Durable.Loops.{
  terminate_instances-IsDurable, stop_instances-IsDurable, start_instances-IsDurable,
}

module _ (env : Env) (svc : Service) (generated : Option NewKey) where
  act-IsDurable :
      (q : Form) (action region : Text) (w : World)
      → IsDurable w (act env svc generated q action region w)
  unfolding act
  act-IsDurable q action region w =
      let P = IsDurable w in
      if_lem P (action == codes "CreateKeyPair")
        (λ _. create_key_pair-IsDurable env q region w generated)
        (λ _.
          if_lem P (action == codes "CreateVpc") (λ _. create_vpc-IsDurable env q region w)
            (λ _.
              if_lem P (action == codes "CreateSubnet")
                (λ _. create_subnet-IsDurable env q region w)
                (λ _.
                  if_lem P (action == codes "DescribeVpcs") (λ _. keeps)
                    (λ _.
                      if_lem P (action == codes "DescribeSubnets") (λ _. keeps)
                        (λ _.
                          if_lem P (action == codes "CreateSecurityGroup")
                            (λ _. create_security_group-IsDurable env q region w)
                            (λ _.
                              if_lem P (action == codes "AuthorizeSecurityGroupIngress")
                                (λ _. authorize_security_group_ingress-IsDurable env q region w)
                                (λ _.
                                  if_lem P (action == codes "DescribeSecurityGroups") (λ _. keeps)
                                    (λ _.
                                      if_lem P (action == codes "RunInstances")
                                        (λ _. run_instances-IsDurable env svc q region w)
                                        (λ _.
                                          if_lem P (action == codes "DescribeInstances")
                                            (λ _. keeps)
                                            (λ _.
                                              if_lem P (action == codes "TerminateInstances")
                                                (λ _. terminate_instances-IsDurable env region q w)
                                                (λ _.
                                                  if_lem P (action == codes "StopInstances")
                                                    (λ _. stop_instances-IsDurable env region q w)
                                                    (λ _.
                                                      if_lem P (action == codes "StartInstances")
                                                        (λ _.
                                                          start_instances-IsDurable env svc region q
                                                            w)
                                                        (λ _. keeps)))))))))))))

  handle-IsDurable :
      (content_type : Text) (form : Option Form) (signed : Text) (w : World)
      → IsDurable w (handle env svc generated content_type form signed w)
  unfolding handle
  handle-IsDurable content_type form signed w =
      let P = IsDurable w in
      if_lem P
        (not (
          has_prefix (to_lower (trim_space content_type))
            (codes "application/x-www-form-urlencoded")))
        (λ _. keeps)
        (λ _.
          option_lem P form (λ _. keeps)
            (λ q _.
              if_lem P
                (not (q (codes "Version") == []) && not (q (codes "Version") == codes "2016-11-15"))
                (λ _. keeps)
                (λ _.
                  if_lem P (trim_space (q (codes "Action")) == []) (λ _. keeps)
                    (λ _. act-IsDurable q (trim_space (q (codes "Action"))) (region_of signed) w))))

  -- A request that starts with a state file that is read as what JSON keeps of the state in memory, and is not
  -- answered with InternalError, ends with such a file again: whatever it changed is on disk, in handlers
  -- that change several instances too. JSON keeps all but the bytes that are no UTF-8, which become U+FFFD.
  pub handle-IsSaved :
      (content_type : Text) (form : Option Form) (signed : Text) (w : World)
      → IsSaved w
      → (handle env svc generated content_type form signed w).0 ≢ internal_error
      → IsSaved (handle env svc generated content_type form signed w).1
  handle-IsSaved content_type form signed w h ok =
      (handle-IsDurable content_type form signed w).saved h ok
