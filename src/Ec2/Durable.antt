-- ===== src/Ec2/Durable.antt =====
-- The state file against the state in memory: a request that does not answer with InternalError
-- leaves the file current. Here: Update, and the handlers without a loop.
pub mod Loops
pub mod Requests
use twister_aws.Base.{
  Text, codes, ◌≡◌, ◌≢◌, refl, ap, Bool, true, false, not, ◌||◌, Option, none, some, List, [], ◌==◌,
  is_nil, if_lem, option_lem, Bool-cases, inl, inr, arith,
}
use twister_aws.Base.Files.{holds}
use twister_aws.Base.Strings.{trim_space}
use twister_aws.Ec2.{
  Instance, DiskState, World, Env, json_state, UpdateError, not_saved, Change, fails, becomes, save,
  update,
}
use twister_aws.Ec2.Query.{Form, parse_ip_permissions, is_single_count}
use twister_aws.Ec2.Catalog.{read_catalog, resolve}
use twister_aws.Ec2.Docker.{docker_exec, docker_pull, docker_run_detached}
use twister_aws.Ec2.Reply.{Reply, internal_error}
use twister_aws.Ec2.Network.{
  NewKey, answer, answered, create_key_pair, create_vpc, has_vpc, create_subnet,
  create_security_group, authorize_security_group_ingress,
}
use twister_aws.Ec2.Launch.{
  Service, read_launch, check_launch, add_instance, record_instance, launch, run_instances,
}

-- The file holds the state in memory, as it is read back.
abbrev pub IsSaved : World → Type 0
IsSaved w = w.file ≡ holds (json_state w.st)

-- A handler that starts with a current file ends with one, or with an internal error.
pub record IsDurable (w : World) (r : Reply × World) : Type 0 where
  pub saved : IsSaved w → r.0 ≢ internal_error → IsSaved r.1

pub keeps : {w : World} {reply : Reply} → IsDurable w (reply, w)
keeps = record { saved = λ h ok. h }

pub gives_up : {w w' : World} → IsDurable w (internal_error, w')
gives_up = record { saved = λ h ok. absurd (ok refl) }

pub update-IsSaved :
    (env : Env) (f : DiskState → Change) (w : World)
    → IsSaved w
    → (update env f w).0 ≢ some not_saved
    → IsSaved (update env f w).1
unfolding update save
update-IsSaved env f w h = go (f w.st)
  where
    go :
        (c : Change)
        → (elim c as (λ x. Option UpdateError × World) [
          | fails e ↦ (some e, w)
          | becomes st' ↦ save env (record w { st = st' })
        ]).0
          ≢ some not_saved
        → IsSaved
            (elim c as (λ x. Option UpdateError × World) [
              | fails e ↦ (some e, w)
              | becomes st' ↦ save env (record w { st = st' })
            ]).1
    go (fails e) k = h
    go (becomes st') k = elim (Bool-cases (env.writable st')) [
      | inl b ↦ rw b refl
      | inr b ↦ absurd (k (rw b refl))
    ]

pub answer_saved :
    (reply : Reply) (e : Option UpdateError) → answer reply e ≢ internal_error → e ≢ some not_saved
unfolding answer
answer_saved reply none h same = cc
answer_saved reply (some e) h same = h (ap (answer reply) same)

answered-IsDurable :
    (env : Env) (f : DiskState → Change) (w : World) (reply : Reply)
    → IsDurable w (answered reply (update env f w))
unfolding answered
answered-IsDurable env f w reply = record {
  saved = λ h ok. update-IsSaved env f w h (answer_saved reply (update env f w).0 ok);
}

module _ (env : Env) (q : Form) (region : Text) (w : World) where
  pub create_key_pair-IsDurable :
      (generated : Option NewKey) → IsDurable w (create_key_pair env generated q region w)
  unfolding create_key_pair
  create_key_pair-IsDurable generated =
      if_lem (IsDurable w) (trim_space (q (codes "KeyName")) == []) (λ _. keeps)
        (λ _.
          option_lem (IsDurable w) generated (λ _. keeps) (λ new _. answered-IsDurable env _ w _))

  pub create_vpc-IsDurable : IsDurable w (create_vpc env q region w)
  unfolding create_vpc
  create_vpc-IsDurable = answered-IsDurable env _ w _

  pub create_subnet-IsDurable : IsDurable w (create_subnet env q region w)
  unfolding create_subnet
  create_subnet-IsDurable =
      let vpc_id = trim_space (q (codes "VpcId")) in
      if_lem (IsDurable w) (vpc_id == [] || trim_space (q (codes "CidrBlock")) == []) (λ _. keeps)
        (λ _.
          if_lem (IsDurable w) (not (has_vpc vpc_id region w.st)) (λ _. keeps)
            (λ _. answered-IsDurable env _ w _))

  pub create_security_group-IsDurable : IsDurable w (create_security_group env q region w)
  unfolding create_security_group
  create_security_group-IsDurable =
      let vpc_id = trim_space (q (codes "VpcId")) in
      if_lem (IsDurable w) (trim_space (q (codes "GroupName")) == [] || vpc_id == []) (λ _. keeps)
        (λ _.
          if_lem (IsDurable w) (not (has_vpc vpc_id region w.st)) (λ _. keeps)
            (λ _. answered-IsDurable env _ w _))

  pub authorize_security_group_ingress-IsDurable :
      IsDurable w (authorize_security_group_ingress env q region w)
  unfolding authorize_security_group_ingress
  authorize_security_group_ingress-IsDurable =
      if_lem (IsDurable w) (trim_space (q (codes "GroupId")) == []) (λ _. keeps)
        (λ _.
          option_lem (IsDurable w) (parse_ip_permissions q) (λ _. keeps)
            (λ rules _.
              if_lem (IsDurable w) (is_nil rules) (λ _. keeps) (λ _. answered-IsDurable env _ w _)))

record_instance-IsSaved :
    (env : Env) (snap : DiskState) (i : Instance) (r : Option UpdateError × World)
    → (r.0 ≢ some not_saved → IsSaved r.1)
    → (record_instance env snap i r).0 ≢ internal_error
    → IsSaved (record_instance env snap i r).1
unfolding record_instance
record_instance-IsSaved env snap i (some e, w) h ok = absurd (ok refl)
record_instance-IsSaved env snap i (none, w) h ok = h (cc)

launch-IsDurable :
    (env : Env) (snap : DiskState) (ports : List Text) (i : Instance) (w : World)
    → IsDurable w (launch env snap ports i w)
unfolding launch docker_pull docker_run_detached docker_exec
launch-IsDurable env snap ports i w =
    let (pulled, w₁) = docker_pull env i.docker_image w in
    let (started, w₂) =
      docker_run_detached env i.container_name i.docker_image i.docker_command ports w₁ in
    if_lem (IsDurable w) (not pulled) (λ _. gives_up)
      (λ _.
        if_lem (IsDurable w) (not started) (λ _. gives_up)
          (λ _. record {
            saved = λ h.
                record_instance-IsSaved env snap i (update env (add_instance i) w₂)
                  (update-IsSaved env (add_instance i) w₂ h);
          }))

pub run_instances-IsDurable :
    (env : Env) (svc : Service) (q : Form) (region : Text) (w : World)
    → IsDurable w (run_instances env svc q region w)
unfolding run_instances
run_instances-IsDurable env svc q region w =
    let l = read_launch q in
    if_lem (IsDurable w) (l.image_id == [] || (l.subnet_id == [] || is_nil l.sg_ids)) (λ _. keeps)
      (λ _.
        if_lem (IsDurable w) (not (is_single_count q)) (λ _. keeps)
          (λ _.
            option_lem (IsDurable w) (read_catalog svc.catalog) (λ _. keeps)
              (λ amis _.
                option_lem (IsDurable w) (resolve amis l.image_id) (λ _. keeps)
                  (λ ami _.
                    option_lem (IsDurable w) (check_launch w.st region l)
                      (λ allowed. launch-IsDurable env w.st _ _ w) (λ reply _. keeps)))))
