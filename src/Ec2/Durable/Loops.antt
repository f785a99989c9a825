-- ===== src/Ec2/Durable/Loops.antt =====
-- The loops over instances, and requests as a whole.
use twister_aws.Base.{
  Text, codes, ◌≡◌, ◌≢◌, Bool, Option, none, some, List, [], ◌∷◌, ◌==◌, lookup, is_nil, if_lem,
  bool_lem, option_lem, arith,
}
use twister_aws.Ec2.{Instance, DiskState, World, Env, UpdateError, update}
use twister_aws.Ec2.Query.{Form, list_indexed}
use twister_aws.Ec2.Docker.{
  docker_exec, docker_pull, docker_run_detached, docker_stop_only, docker_stop_remove, docker_start,
  says_no_such_container,
}
use twister_aws.Ec2.Reply.{Reply, StateChange, state_changes, internal_error}
use twister_aws.Ec2.Network.{answer}
use twister_aws.Ec2.Launch.{Service}
use twister_aws.Ec2.States.{
  state_of, container_of, mark, not_terminated, not_halted, is_stopped, check_ids, remove_container,
  terminate_each, refuse_none, terminate_instances, refuse_stop, stop_each, stop_instances,
}
use twister_aws.Ec2.Start.{
  resolve_instance_docker_command, run_again, ensure_instance_container_running, ensure_running,
  refuse_start, start_each, start_instances,
}
use twister_aws.Ec2.Durable.{IsSaved, IsDurable, keeps, gives_up, update-IsSaved, answer_saved}

-- What a step on the way does to a current file: it stays current where the step succeeds.
continue :
    {w w' : World} {r : Reply × World} → (IsSaved w → IsSaved w') → IsDurable w' r → IsDurable w r
continue h d = record { saved = λ s ok. d.saved (h s) ok }

module _ (env : Env) (region : Text) where
  remove_container-IsSaved :
      (previous name : Text) (w : World)
      → IsSaved w
      → IsSaved (remove_container env previous name w)
  unfolding remove_container docker_stop_remove docker_exec
  remove_container-IsSaved previous name w h = ground (arith, h)

  module _ (may : Text → Bool) (new id : Text) (w : World) where
    marked :
        (update env (mark may new id region) w).0 ≡ none
        → IsSaved w
        → IsSaved (update env (mark may new id region) w).1
    marked e h = update-IsSaved env (mark may new id region) w h (rw e (cc))

    refused :
        (error : UpdateError)
        → (update env (mark may new id region) w).0 ≡ some error
        → IsSaved w
        → answer (state_changes []) (some error) ≢ internal_error
        → IsSaved (update env (mark may new id region) w).1
    refused error e h ok =
        update-IsSaved env (mark may new id region) w h
          (rw e (answer_saved (state_changes []) (some error) ok))

  terminate_each-IsDurable :
      (ids : List Text) (out : List StateChange) (w : World)
      → IsDurable w (terminate_each env region ids out w)
  unfolding terminate_each
  terminate_each-IsDurable [] out w = keeps
  terminate_each-IsDurable (id ∷ ids) out w =
      let inst = lookup id w.st.instances in
      let (e, w') = update env (mark not_terminated (codes "terminated") id region) w in
      let w'' = remove_container env (state_of inst) (container_of inst) w' in
      option_lem (IsDurable w) e
        (λ fine.
          continue
            (λ h.
              remove_container-IsSaved (state_of inst) (container_of inst) w'
                (marked not_terminated (codes "terminated") id w fine h))
            (terminate_each-IsDurable ids _ w''))
        (λ error bad. record { saved = refused not_terminated (codes "terminated") id w error bad })

  pub terminate_instances-IsDurable :
      (q : Form) (w : World) → IsDurable w (terminate_instances env q region w)
  unfolding terminate_instances
  terminate_instances-IsDurable q w =
      let ids = list_indexed q (codes "InstanceId") in
      if_lem (IsDurable w) (is_nil ids) (λ _. keeps)
        (λ _.
          option_lem (IsDurable w) (check_ids refuse_none w.st region ids)
            (λ _. terminate_each-IsDurable ids [] w) (λ reply _. keeps))

  stop_each-IsDurable :
      (snap : DiskState) (ids : List Text) (out : List StateChange) (w : World)
      → IsDurable w (stop_each env snap region ids out w)
  unfolding stop_each docker_stop_only docker_exec
  stop_each-IsDurable snap [] out w = keeps
  stop_each-IsDurable snap (id ∷ ids) out w =
      let inst = lookup id snap.instances in
      let (halted, w₁) = docker_stop_only env (container_of inst) w in
      let (e, w₂) = update env (mark not_halted (codes "stopped") id region) w₁ in
      bool_lem (IsDurable w) (state_of inst == codes "stopped")
        (λ _. stop_each-IsDurable snap ids _ w)
        (λ _.
          bool_lem (IsDurable w) halted
            (λ _.
              option_lem (IsDurable w) e
                (λ fine.
                  continue (marked not_halted (codes "stopped") id w₁ fine)
                    (stop_each-IsDurable snap ids _ w₂))
                (λ error bad. record {
                  saved = refused not_halted (codes "stopped") id w₁ error bad;
                }))
            (λ _. gives_up))

  pub stop_instances-IsDurable :
      (q : Form) (w : World) → IsDurable w (stop_instances env q region w)
  unfolding stop_instances
  stop_instances-IsDurable q w =
      let ids = list_indexed q (codes "InstanceId") in
      if_lem (IsDurable w) (is_nil ids) (λ _. keeps)
        (λ _.
          option_lem (IsDurable w) (check_ids refuse_stop w.st region ids)
            (λ _. stop_each-IsDurable w.st ids [] w) (λ reply _. keeps))

-- Docker leaves the state and its file alone.
record Leaves (w : World) (r : Bool × World) : Type 0 where
  saved : IsSaved w → IsSaved r.1

run_again-Leaves :
    (env : Env) (svc : Service) (i : Instance) (st : DiskState) (w : World)
    → Leaves w (run_again env svc i st w)
unfolding run_again docker_pull docker_run_detached docker_exec
run_again-Leaves env svc i st w =
    option_lem (Leaves w) (resolve_instance_docker_command svc i) (λ _. record { saved = λ h. h })
      (λ cmd _.
        if_lem (Leaves w) (docker_pull env i.docker_image w).0 (λ _. record { saved = λ h. h })
          (λ _. record { saved = λ h. h }))

ensure_running-Leaves :
    (env : Env) (svc : Service) (i : Option Instance) (st : DiskState) (w : World)
    → Leaves w (ensure_running env svc i st w)
unfolding ensure_running ensure_instance_container_running docker_start docker_exec
ensure_running-Leaves env svc none st w = record { saved = λ h. h }
ensure_running-Leaves env svc (some i) st w =
    let (e, w') = docker_start env i.container_name w in
    option_lem (Leaves w) e (λ _. record { saved = λ h. h })
      (λ message _.
        if_lem (Leaves w) (says_no_such_container message)
          (λ _. record { saved = λ h. (run_again-Leaves env svc i st w').saved h })
          (λ _. record { saved = λ h. h }))

module _ (env : Env) (svc : Service) (region : Text) where
  start_each-IsDurable :
      (snap : DiskState) (ids : List Text) (out : List StateChange) (w : World)
      → IsDurable w (start_each env svc snap region ids out w)
  unfolding start_each
  start_each-IsDurable snap [] out w = keeps
  start_each-IsDurable snap (id ∷ ids) out w =
      let i = lookup id snap.instances in
      let (started, w₁) = ensure_running env svc i w.st w in
      let (e, w₂) = update env (mark is_stopped (codes "running") id region) w₁ in
      let left = (ensure_running-Leaves env svc i w.st w).saved in
      bool_lem (IsDurable w) started
        (λ _.
          option_lem (IsDurable w) e
            (λ fine.
              continue (λ h. marked env region is_stopped (codes "running") id w₁ fine (left h))
                (start_each-IsDurable snap ids _ w₂))
            (λ error bad. record {
              saved = λ h. refused env region is_stopped (codes "running") id w₁ error bad (left h);
            }))
        (λ _. gives_up)

  pub start_instances-IsDurable :
      (q : Form) (w : World) → IsDurable w (start_instances env svc q region w)
  unfolding start_instances
  start_instances-IsDurable q w =
      let ids = list_indexed q (codes "InstanceId") in
      if_lem (IsDurable w) (is_nil ids) (λ _. keeps)
        (λ _.
          option_lem (IsDurable w) (check_ids refuse_start w.st region ids)
            (λ _. start_each-IsDurable w.st ids [] w) (λ reply _. keeps))
