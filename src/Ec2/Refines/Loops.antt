-- ===== src/Ec2/Refines/Loops.antt =====
-- TerminateInstances, StopInstances and StartInstances take the steps of the specification, also
-- where a loop ends early, and so does every request.
use mathlib.Core.Path.{subst}
use twister_aws.Base.{
  Text, codes, ◌≡◌, refl, sym, Bool, true, Option, none, some, List, [], ◌∷◌, ◌==◌, eq_iff, lookup,
  if_lem, bool_lem, option_lem, Option-cases, Bool-cases, inl, inr, is_nil, arith,
}
use twister_aws.Ec2.{Instance, DiskState, World, Env, becomes, update}
use twister_aws.Ec2.Query.{Form, list_indexed}
use twister_aws.Ec2.Docker.{
  docker_exec, docker_pull, docker_run_detached, docker_stop_only, docker_stop_remove, docker_start,
  says_no_such_container,
}
use twister_aws.Ec2.Reply.{Reply, StateChange}
use twister_aws.Ec2.Launch.{Service}
use twister_aws.Ec2.States.{
  state_of, container_of, mark, not_terminated, not_halted, is_stopped, check_ids, remove_container,
  terminate_each, refuse_none, terminate_instances, refuse_stop, stop_each, stop_instances,
}
use twister_aws.Ec2.Start.{
  resolve_instance_docker_command, run_again, ensure_instance_container_running, ensure_running,
  refuse_start, start_each, start_instances,
}
use twister_aws.Ec2.Steps.{
  Allowed, terminate, stop, start, change_state, Steps, done, one, Steps-append,
}
use twister_aws.Ec2.Refines.{update-Steps, Ends, stays}

-- The transitions that a test on the old state lets through are all allowed.
abbrev Lets : (Text → Bool) → Text → Type 0
Lets may new = (s : Text) → may s ≡ true → Allowed s new

Lets-terminate : Lets not_terminated (codes "terminated")
Lets-terminate s h = terminate (ground (arith, h, eq_iff s (codes "terminated")))

Lets-stop : Lets not_halted (codes "stopped")
Lets-stop s h = stop (ground (arith, h, eq_iff s (codes "terminated")))

Lets-start : Lets is_stopped (codes "running")
Lets-start s h =
    subst (λ t. Allowed t (codes "running")) (sym ((eq_iff s (codes "stopped")).0 h)) start

mark-Steps :
    (may : Text → Bool) (new id region : Text) (st st' : DiskState)
    → Lets may new
    → mark may new id region st ≡ becomes st'
    → Steps region st st'
unfolding mark
mark-Steps may new id region st st' lets e = elim (Option-cases (lookup id st.instances)) [
  | inl absent ↦ absurd (ground (arith, absent, e))
  | inr (i, found) ↦ elim (Bool-cases (i.region == region)) [
    | inr there ↦ absurd (ground (arith, found, there, e))
    | inl here ↦ elim (Bool-cases (may i.state)) [
      | inr b ↦ subst (Steps region st) (ground (arith, found, here, b, e)) done
      | inl b ↦
          subst (Steps region st) (ground (arith, found, here, b, e))
            (one (change_state id i new found ((eq_iff i.region region).0 here) (lets i.state b)))
    ]
  ]
]

module _ (env : Env) (region : Text) where
  marked-Steps :
      (may : Text → Bool) (new id : Text) (w : World)
      → Lets may new
      → Steps region w.st (update env (mark may new id region) w).1.st
  marked-Steps may new id w lets =
      update-Steps region env (mark may new id region) w
        (λ st' e. mark-Steps may new id region w.st st' lets e)

  -- Where a world is reached by steps, what follows may go on from there.
  continue :
      {w w' : World} {r : Reply × World}
      → Steps region w.st w'.st
      → Ends region w' r
      → Ends region w r
  continue s e = record { steps = Steps-append s e.steps }

  pub remove_container_st :
      (previous name : Text) (w : World) → (remove_container env previous name w).st ≡ w.st
  unfolding remove_container docker_stop_remove docker_exec
  remove_container_st previous name w = ground arith

  pub terminate_each-Ends :
      (ids : List Text) (out : List StateChange) (w : World)
      → Ends region w (terminate_each env region ids out w)
  unfolding terminate_each
  terminate_each-Ends [] out w = stays
  terminate_each-Ends (id ∷ ids) out w =
      let inst = lookup id w.st.instances in
      let (e, w') = update env (mark not_terminated (codes "terminated") id region) w in
      let marked = marked-Steps not_terminated (codes "terminated") id w Lets-terminate in
      let w'' = remove_container env (state_of inst) (container_of inst) w' in
      option_lem (Ends region w) e
        (λ _.
          continue
            (subst (Steps region w.st)
              (sym (remove_container_st (state_of inst) (container_of inst) w')) marked)
            (terminate_each-Ends ids _ w''))
        (λ error _. record { steps = marked })

  pub terminate_instances-Ends :
      (q : Form) (w : World) → Ends region w (terminate_instances env q region w)
  unfolding terminate_instances
  terminate_instances-Ends q w =
      let ids = list_indexed q (codes "InstanceId") in
      if_lem (Ends region w) (is_nil ids) (λ _. stays)
        (λ _.
          option_lem (Ends region w) (check_ids refuse_none w.st region ids)
            (λ _. terminate_each-Ends ids [] w) (λ reply _. stays))

  stop_each-Ends :
      (snap : DiskState) (ids : List Text) (out : List StateChange) (w : World)
      → Ends region w (stop_each env snap region ids out w)
  unfolding stop_each docker_stop_only docker_exec
  stop_each-Ends snap [] out w = stays
  stop_each-Ends snap (id ∷ ids) out w =
      let inst = lookup id snap.instances in
      let (halted, w₁) = docker_stop_only env (container_of inst) w in
      let (e, w₂) = update env (mark not_halted (codes "stopped") id region) w₁ in
      let marked = marked-Steps not_halted (codes "stopped") id w₁ Lets-stop in
      bool_lem (Ends region w) (state_of inst == codes "stopped") (λ _. stop_each-Ends snap ids _ w)
        (λ _.
          bool_lem (Ends region w) halted
            (λ _.
              option_lem (Ends region w) e (λ _. continue marked (stop_each-Ends snap ids _ w₂))
                (λ error _. record { steps = marked }))
            (λ _. record { steps = done }))

  pub stop_instances-Ends : (q : Form) (w : World) → Ends region w (stop_instances env q region w)
  unfolding stop_instances
  stop_instances-Ends q w =
      let ids = list_indexed q (codes "InstanceId") in
      if_lem (Ends region w) (is_nil ids) (λ _. stays)
        (λ _.
          option_lem (Ends region w) (check_ids refuse_stop w.st region ids)
            (λ _. stop_each-Ends w.st ids [] w) (λ reply _. stays))

-- Docker leaves the state alone.
record Keeps (w : World) (r : Bool × World) : Type 0 where
  st : r.1.st ≡ w.st

run_again-Keeps :
    (env : Env) (svc : Service) (i : Instance) (st : DiskState) (w : World)
    → Keeps w (run_again env svc i st w)
unfolding run_again docker_pull docker_run_detached docker_exec
run_again-Keeps env svc i st w =
    option_lem (Keeps w) (resolve_instance_docker_command svc i) (λ _. record { st = refl })
      (λ cmd _.
        if_lem (Keeps w) (docker_pull env i.docker_image w).0 (λ _. record { st = refl })
          (λ _. record { st = refl }))

ensure_running-Keeps :
    (env : Env) (svc : Service) (i : Option Instance) (st : DiskState) (w : World)
    → Keeps w (ensure_running env svc i st w)
unfolding ensure_running ensure_instance_container_running docker_start docker_exec
ensure_running-Keeps env svc none st w = record { st = refl }
ensure_running-Keeps env svc (some i) st w =
    let (e, w') = docker_start env i.container_name w in
    option_lem (Keeps w) e (λ _. record { st = refl })
      (λ message _.
        if_lem (Keeps w) (says_no_such_container message)
          (λ _. record { st = (run_again-Keeps env svc i st w').st }) (λ _. record { st = refl }))

module _ (env : Env) (svc : Service) (region : Text) where
  start_each-Ends :
      (snap : DiskState) (ids : List Text) (out : List StateChange) (w : World)
      → Ends region w (start_each env svc snap region ids out w)
  unfolding start_each
  start_each-Ends snap [] out w = stays
  start_each-Ends snap (id ∷ ids) out w =
      let i = lookup id snap.instances in
      let (started, w₁) = ensure_running env svc i w.st w in
      let (e, w₂) = update env (mark is_stopped (codes "running") id region) w₁ in
      let kept : Steps region w.st w₁.st =
        subst (Steps region w.st) (sym (ensure_running-Keeps env svc i w.st w).st) done in
      let marked =
        Steps-append kept (marked-Steps env region is_stopped (codes "running") id w₁ Lets-start) in
      bool_lem (Ends region w) started
        (λ _.
          option_lem (Ends region w) e
            (λ _. continue env region marked (start_each-Ends snap ids _ w₂))
            (λ error _. record { steps = marked }))
        (λ _. record { steps = kept })

  pub start_instances-Ends :
      (q : Form) (w : World) → Ends region w (start_instances env svc q region w)
  unfolding start_instances
  start_instances-Ends q w =
      let ids = list_indexed q (codes "InstanceId") in
      if_lem (Ends region w) (is_nil ids) (λ _. stays)
        (λ _.
          option_lem (Ends region w) (check_ids refuse_start w.st region ids)
            (λ _. start_each-Ends w.st ids [] w) (λ reply _. stays))
