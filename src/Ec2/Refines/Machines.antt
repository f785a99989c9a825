-- ===== src/Ec2/Refines/Machines.antt =====
-- RunInstances takes a step of the specification, and so do the loops over instances.
use mathlib.Core.Path.{subst}
use twister_aws.Base.{
  Text, ◌≡◌, refl, sym, true, not, ◌||◌, Option, none, some, List, [], ◌∷◌, All, ◌==◌, eq_iff,
  lookup, if_lem, option_lem, Option-cases, inl, inr, is_nil, arith,
}
use twister_aws.Ec2.{Subnet, Instance, DiskState, World, Env, UpdateError, becomes, update}
use twister_aws.Ec2.Query.{Form, is_single_count}
use twister_aws.Ec2.Catalog.{read_catalog, resolve}
use twister_aws.Ec2.Docker.{docker_exec, docker_pull, docker_run_detached, docker_stop_remove}
use twister_aws.Ec2.Launch.{
  Service, Launch, read_launch, has_groups, check_launch, new_instance, add_instance,
  record_instance, launch, run_instances,
}
use twister_aws.Ec2.Steps.{GroupIn, add_one_instance, Steps, done, one}
use twister_aws.Ec2.Refines.{update-Steps, Ends, stays, Fresh}

add_instance-Steps :
    (region : Text) (i : Instance) (s : Subnet) (st st' : DiskState)
    → lookup i.id st.instances ≡ none
    → i.region ≡ region
    → lookup i.subnet_id st.subnets ≡ some s
    → s.region ≡ region
    → All (GroupIn st region s.vpc_id) i.security_group_ids
    → add_instance i st ≡ becomes st'
    → Steps region st st'
unfolding add_instance
add_instance-Steps region i s st st' fresh here found there groups e =
    subst (Steps region st) (ground (arith, e))
      (one (add_one_instance i s fresh here found there groups))

has_groups-All :
    (st : DiskState) (region vpc_id : Text) (gids : List Text)
    → has_groups st region vpc_id gids ≡ true
    → All (GroupIn st region vpc_id) gids
unfolding has_groups
has_groups-All st region vpc_id [] h = tt
has_groups-All st region vpc_id (gid ∷ gids) h =
    elim (Option-cases (lookup gid st.security_groups)) [
      | inl e ↦ absurd (ground (arith, e, h))
      | inr (sg, e) ↦ (
        (
          sg,
          e,
          ground (arith, e, h, eq_iff sg.region region),
          ground (arith, e, h, eq_iff sg.vpc_id vpc_id),
        ),
        has_groups-All st region vpc_id gids (ground (arith, e, h)),
      )
    ]

check_launch-none :
    (st : DiskState) (region : Text) (l : Launch)
    → check_launch st region l ≡ none
    → (s : Subnet) × (lookup l.subnet_id st.subnets ≡ some s)
      × (s.region ≡ region)
      × All (GroupIn st region s.vpc_id) l.sg_ids
unfolding check_launch
check_launch-none st region l h = elim (Option-cases (lookup l.subnet_id st.subnets)) [
  | inl e ↦ absurd (ground (arith, e, h))
  | inr (s, e) ↦ (
    s,
    e,
    ground (arith, e, h, eq_iff s.region region),
    has_groups-All st region s.vpc_id l.sg_ids (ground (arith, e, h)),
  )
]

record_instance_st :
    (env : Env) (snap : DiskState) (i : Instance) (r : Option UpdateError × World)
    → (record_instance env snap i r).1.st ≡ r.1.st
unfolding record_instance docker_stop_remove docker_exec
record_instance_st env snap i (some e, w) = refl
record_instance_st env snap i (none, w) = refl

launch-Ends :
    (env : Env) (snap : DiskState) (ports : List Text) (i : Instance) (region : Text) (w : World)
    → ((st' : DiskState) → add_instance i w.st ≡ becomes st' → Steps region w.st st')
    → Ends region w (launch env snap ports i w)
unfolding launch docker_pull docker_run_detached docker_exec
launch-Ends env snap ports i region w h =
    let (pulled, w₁) = docker_pull env i.docker_image w in
    let (started, w₂) =
      docker_run_detached env i.container_name i.docker_image i.docker_command ports w₁ in
    if_lem (Ends region w) (not pulled) (λ _. record { steps = done })
      (λ _.
        if_lem (Ends region w) (not started) (λ _. record { steps = done })
          (λ _. record {
            steps =
                subst (Steps region w.st)
                  (sym (record_instance_st env snap i (update env (add_instance i) w₂)))
                  (update-Steps region env (add_instance i) w₂ h);
          }))

pub run_instances-Ends :
    (env : Env) (svc : Service) (q : Form) (region : Text) (w : World)
    → Fresh env w
    → Ends region w (run_instances env svc q region w)
unfolding run_instances new_instance
run_instances-Ends env svc q region w fresh =
    let l = read_launch q in
    if_lem (Ends region w) (l.image_id == [] || (l.subnet_id == [] || is_nil l.sg_ids)) (λ _. stays)
      (λ _.
        if_lem (Ends region w) (not (is_single_count q)) (λ _. stays)
          (λ _.
            option_lem (Ends region w) (read_catalog svc.catalog) (λ _. stays)
              (λ amis _.
                option_lem (Ends region w) (resolve amis l.image_id) (λ _. stays)
                  (λ ami _.
                    option_lem (Ends region w) (check_launch w.st region l)
                      (λ allowed.
                        let (sub, found, here, groups) = check_launch-none w.st region l allowed in
                        launch-Ends env w.st _ _ region w (λ st' e.
                          add_instance-Steps region _ sub w.st st' fresh.machine refl found here
                            groups e))
                      (λ reply _. stays)))))
