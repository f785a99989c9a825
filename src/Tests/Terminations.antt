-- ===== src/Tests/Terminations.antt =====
-- The termination of an instance, and its listing.
use mathlib.Core.Path.{subst}
use twister_aws.Base.{codes, ◌≡◌, List, All, refl, [], ◌∷◌, ◌==◌, lookup}
use twister_aws.Base.Strings.{to_lower, trim_space}
use twister_aws.Ec2.{Instance, World, save, update, new_resource_id}
use twister_aws.Ec2.Query.{Form}
use twister_aws.Ec2.Reply.{StateChange, state_changes}
use twister_aws.Ec2.Query.{list_indexed}
use twister_aws.Base.Numbers.{decimal}
use twister_aws.Ec2.Items.{state_code}
use twister_aws.Ec2.Describe.{describe_instances}
use twister_aws.Ec2.Reply.{InstanceXml, reservation}
use twister_aws.Ec2.Query.{parse_filters}
use twister_aws.Ec2.Described.{ShowsTerminated, describe_instances-terminate_instances}
use twister_aws.Ec2.Describe.Listed.{IsListing, describe_instances-IsListing}
use twister_aws.Ec2.States.{running, terminated, terminate_instances, check_ids, mark, state_of}
use twister_aws.Ec2.Termination.{ids_of, IsTerminated, terminate_instances_lem}
use twister_aws.Ec2.Steps.Consistency.{PlacedIn, IsConsistent}
use twister_aws.Ec2.Guarantees.{start}
use twister_aws.Tests.Data.{us}
use twister_aws.Tests.Machines.{
  machine, state, world, env, form_of, single, owns, the_place, state-IsConsistent,
}

abbrev busy : World
busy = record world {
  st = record state { instances = (codes "i-1", record machine { state = codes "running" }) ∷ [] };
}

abbrev list_form : Form
list_form = form_of ((codes "InstanceId.1", codes "i-1") ∷ [])

abbrev ended : List StateChange
ended =
    record { instance_id = codes "i-1"; previous_state = running; current_state = terminated } ∷ []

listed : list_indexed list_form (codes "InstanceId") ≡ codes "i-1" ∷ []
unfolding list_indexed decimal trim_space lookup ◌==◌
listed = refl

ends : (terminate_instances env list_form us busy).0 ≡ state_changes ended
unfolding terminate_instances list_indexed decimal trim_space lookup ◌==◌ check_ids mark update save
    state_of state_code to_lower
ends = refl

terminate_instances_lem_example :
    (ids_of ended ≡ list_indexed list_form (codes "InstanceId"))
    × All
        (IsTerminated us (terminate_instances env list_form us busy).1.st)
        (list_indexed list_form (codes "InstanceId"))
terminate_instances_lem_example = terminate_instances_lem env us list_form busy ended ends

describe_instances-IsListing_example :
    IsListing env list_form us busy.st (describe_instances env list_form us busy.st)
describe_instances-IsListing_example = describe_instances-IsListing env list_form us busy.st

busy-IsConsistent : IsConsistent busy.st
busy-IsConsistent = record {
  subnet_vpc = state-IsConsistent.subnet_vpc;
  group_vpc = state-IsConsistent.group_vpc;
  placed = λ k i e.
      subst (λ (x : Instance). PlacedIn state x.region x.subnet_id x.security_group_ids)
        (single (codes "i-1") k (record machine { state = codes "running" }) i e) the_place;
  keyed = λ k i e. owns (record machine { state = codes "running" }) (codes "i-1") k i refl e;
}

abbrev no_form : Form
no_form = form_of []

no_ids : list_indexed no_form (codes "InstanceId") ≡ []
unfolding list_indexed decimal trim_space lookup ◌==◌
no_ids = refl

no_filters : parse_filters no_form ≡ []
unfolding parse_filters decimal trim_space lookup ◌==◌
no_filters = refl

describe_instances-terminate_instances_example :
    (items : List InstanceXml) × (describe_instances env no_form us
        (terminate_instances env list_form us busy).1.st
      ≡ reservation (new_resource_id (codes "r-") env.reservation_bytes) items)
    × All (ShowsTerminated items) (list_indexed list_form (codes "InstanceId"))
describe_instances-terminate_instances_example =
    describe_instances-terminate_instances env us no_form no_ids no_filters env list_form busy
      (terminate_instances env list_form us busy).1 ended busy-IsConsistent ends start
