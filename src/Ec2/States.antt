-- ===== src/Ec2/States.antt =====
-- internal/ec2/service_actions.go: TerminateInstances and StopInstances, and what
-- StartInstances shares with them.
use twister_aws.Base.{
  Text, codes, Bool, true, false, not, ◌&&◌, Option, none, some, List, [], ◌∷◌, ◌++◌, ◌==◌, lookup,
  insert, is_nil, if◌then◌else◌,
}
use twister_aws.Ec2.{
  Instance, DiskState, World, Env, instance_not_found, Change, fails, becomes, update,
}
use twister_aws.Ec2.Query.{Form, list_indexed}
use twister_aws.Ec2.Docker.{docker_stop_only, docker_stop_remove}
use twister_aws.Ec2.Reply.{Reply, StateXml, StateChange, failed, state_changes, internal_error}
use twister_aws.Ec2.Network.{answer}
use twister_aws.Ec2.Items.{state_code}

-- in.State and in.ContainerName of an instance that may not be there
unfoldable pub state_of : Option Instance → Text
state_of none = []
state_of (some inst) = inst.state

unfoldable pub container_of : Option Instance → Text
container_of none = []
container_of (some inst) = inst.container_name

abbrev pub stopped : StateXml
stopped = record { code = 80; name = codes "stopped" }

abbrev pub running : StateXml
running = record { code = 16; name = codes "running" }

abbrev pub terminated : StateXml
terminated = record { code = 48; name = codes "terminated" }

-- The state of an instance in the region is replaced where `may` holds of the old one.
unfoldable pub mark : (Text → Bool) → Text → Text → Text → DiskState → Change
mark may new id region st = elim (lookup id st.instances) [
  | none ↦ fails instance_not_found
  | some inst ↦
      if inst.region == region
      then becomes (
          if may inst.state
          then record st { instances = insert id (record inst { state = new }) st.instances }
          else st)
      else fails instance_not_found
]

abbrev pub not_terminated : Text → Bool
not_terminated s = not (s == codes "terminated")

abbrev pub not_halted : Text → Bool
not_halted s = not (s == codes "stopped") && not (s == codes "terminated")

abbrev pub is_stopped : Text → Bool
is_stopped s = s == codes "stopped"

-- The loops that look at all instances before any is changed: the reply where one does not pass.
unfoldable pub check_ids : (Text → Option Reply) → DiskState → Text → List Text → Option Reply
check_ids refuse st region [] = none
check_ids refuse st region (id ∷ ids) =
    let rest = check_ids refuse st region ids in
    elim (lookup id st.instances) [
      | none ↦ some (failed 400 "InvalidInstanceID.NotFound")
      | some inst ↦
          if not (inst.region == region)
          then some (failed 400 "InvalidInstanceID.NotFound")
          else elim (refuse inst.state) [ some reply ↦ some reply | none ↦ rest ]
    ]

-- terminateInstances

unfoldable pub remove_container : Env → Text → Text → World → World
remove_container env previous name w =
    if not (name == []) && not (previous == codes "terminated")
    then docker_stop_remove env name w
    else w

unfoldable pub terminate_each : Env → Text → List Text → List StateChange → World → Reply × World
terminate_each env region [] out w = (state_changes out, w)
terminate_each env region (id ∷ ids) out w =
    let inst = lookup id w.st.instances in
    let change : StateChange = record {
      instance_id = id;
      previous_state = record { code = state_code (state_of inst); name = state_of inst };
      current_state = terminated;
    } in
    let (e, w') = update env (mark not_terminated (codes "terminated") id region) w in
    elim e [
      | some e ↦ (answer (state_changes []) (some e), w')
      | none ↦
          terminate_each env region ids (out ++ change ∷ [])
            (remove_container env (state_of inst) (container_of inst) w')
    ]

abbrev pub refuse_none : Text → Option Reply
refuse_none s = none

unfoldable pub terminate_instances : Env → Form → Text → World → Reply × World
unfolding terminate_each
terminate_instances env q region w =
    let ids = list_indexed q (codes "InstanceId") in
    if is_nil ids
    then (failed 400 "MissingParameter", w)
    else elim (check_ids refuse_none w.st region ids) [
      | some reply ↦ (reply, w)
      | none ↦ terminate_each env region ids [] w
    ]

-- stopInstances

unfoldable pub refuse_stop : Text → Option Reply
refuse_stop s = if s == codes "terminated" then some (failed 400 "IncorrectInstanceState") else none

-- `snap` is the snapshot from before the loop.
unfoldable pub stop_each :
    Env → DiskState → Text → List Text → List StateChange → World → Reply × World
stop_each env snap region [] out w = (state_changes out, w)
stop_each env snap region (id ∷ ids) out w =
    let inst = lookup id snap.instances in
    let previous : StateXml = record { code = state_code (state_of inst); name = state_of inst } in
    let (halted, w₁) = docker_stop_only env (container_of inst) w in
    let (e, w₂) = update env (mark not_halted (codes "stopped") id region) w₁ in
    elim (state_of inst == codes "stopped") [
      | true ↦
          stop_each env snap region ids
            (out
              ++ record { instance_id = id; previous_state = stopped; current_state = stopped }
                ∷ [])
            w
      | false ↦ elim halted [
        | false ↦ (internal_error, w₁)
        | true ↦ elim e [
          | some e ↦ (answer (state_changes []) (some e), w₂)
          | none ↦
              stop_each env snap region ids
                (out
                  ++ record { instance_id = id; previous_state = previous; current_state = stopped }
                    ∷ [])
                w₂
        ]
      ]
    ]

unfoldable pub stop_instances : Env → Form → Text → World → Reply × World
unfolding stop_each
stop_instances env q region w =
    let ids = list_indexed q (codes "InstanceId") in
    if is_nil ids
    then (failed 400 "MissingParameter", w)
    else elim (check_ids refuse_stop w.st region ids) [
      | some reply ↦ (reply, w)
      | none ↦ stop_each env w.st region ids [] w
    ]
