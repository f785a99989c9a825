-- ===== src/Ec2/Start.antt =====
-- internal/ec2/service_actions.go: StartInstances.
use twister_aws.Base.{
  Text, codes, Bool, true, false, not, Option, none, some, List, [], ◌∷◌, ◌++◌, ◌==◌, lookup,
  is_nil, if◌then◌else◌,
}
use twister_aws.Ec2.{Instance, DiskState, World, Env, update}
use twister_aws.Ec2.Query.{Form, list_indexed}
use twister_aws.Ec2.Catalog.{read_catalog, resolve, sleep_forever}
use twister_aws.Ec2.Docker.{docker_start, docker_pull, docker_run_detached, says_no_such_container}
use twister_aws.Ec2.Reply.{Reply, StateChange, failed, state_changes, internal_error}
use twister_aws.Ec2.Network.{answer}
use twister_aws.Ec2.Items.{tcp_docker_port_publish}
use twister_aws.Ec2.Launch.{Service}
use twister_aws.Ec2.States.{mark, is_stopped, stopped, running, check_ids}

unfoldable pub resolve_instance_docker_command : Service → Instance → Option (List Text)
resolve_instance_docker_command svc inst =
    if not (is_nil inst.docker_command)
    then some inst.docker_command
    else elim (read_catalog svc.catalog) [
      | none ↦ none
      | some amis ↦ elim (resolve amis inst.ami) [
        | none ↦ some sleep_forever
        | some ent ↦ some ent.command
      ]
    ]

-- The container is gone: it is made again. The result tells whether there was no error.
unfoldable pub run_again : Env → Service → Instance → DiskState → World → Bool × World
unfolding resolve_instance_docker_command
run_again env svc inst st w = elim (resolve_instance_docker_command svc inst) [
  | none ↦ (false, w)
  | some cmd ↦
      let (pulled, w') = docker_pull env inst.docker_image w in
      if pulled
      then docker_run_detached env inst.container_name inst.docker_image cmd
          (tcp_docker_port_publish st inst.region inst.security_group_ids) w'
      else (false, w')
]

unfoldable pub ensure_instance_container_running :
    Env → Service → Instance → DiskState → World → Bool × World
unfolding run_again
ensure_instance_container_running env svc inst st w =
    let (e, w') = docker_start env inst.container_name w in
    elim e [
      | none ↦ (true, w')
      | some message ↦
          if says_no_such_container message then run_again env svc inst st w' else (false, w')
    ]

unfoldable pub refuse_start : Text → Option Reply
refuse_start s = if s == codes "stopped" then none else some (failed 400 "IncorrectInstanceState")

-- An id of the list that the snapshot does not have has no instance to start.
unfoldable pub ensure_running : Env → Service → Option Instance → DiskState → World → Bool × World
unfolding ensure_instance_container_running
ensure_running env svc none st w = (false, w)
ensure_running env svc (some inst) st w = ensure_instance_container_running env svc inst st w

unfoldable pub start_each :
    Env → Service → DiskState → Text → List Text → List StateChange → World → Reply × World
start_each env svc snap region [] out w = (state_changes out, w)
start_each env svc snap region (id ∷ ids) out w =
    let (started, w₁) = ensure_running env svc (lookup id snap.instances) w.st w in
    let (e, w₂) = update env (mark is_stopped (codes "running") id region) w₁ in
    elim started [
      | false ↦ (internal_error, w₁)
      | true ↦ elim e [
        | some e ↦ (answer (state_changes []) (some e), w₂)
        | none ↦
            start_each env svc snap region ids
              (out
                ++ record { instance_id = id; previous_state = stopped; current_state = running }
                  ∷ [])
              w₂
      ]
    ]

unfoldable pub start_instances : Env → Service → Form → Text → World → Reply × World
unfolding start_each
start_instances env svc q region w =
    let ids = list_indexed q (codes "InstanceId") in
    if is_nil ids
    then (failed 400 "MissingParameter", w)
    else elim (check_ids refuse_start w.st region ids) [
      | some reply ↦ (reply, w)
      | none ↦ start_each env svc w.st region ids [] w
    ]
