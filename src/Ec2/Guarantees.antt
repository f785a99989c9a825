-- ===== src/Ec2/Guarantees.antt =====
-- What requests to EC2 keep, one after another, from the steps that they take.
use twister_aws.Base.{Text, codes, ◌≡◌, Option, some, lookup}
use twister_aws.Ec2.{Instance, World, Env}
use twister_aws.Ec2.Query.{Form}
use twister_aws.Ec2.Network.{NewKey}
use twister_aws.Ec2.Launch.{Service}
use twister_aws.Ec2.Handle.{region_of, handle}
use twister_aws.Ec2.Steps.Regions.{IsIsolated, Steps-IsIsolated, Steps-terminated}
use twister_aws.Ec2.Steps.Consistency.{IsConsistent, Steps-IsConsistent}
use twister_aws.Ec2.Refines.{Fresh}
use twister_aws.Ec2.Refines.Requests.{handle-Steps}

-- Requests one after another, each with its own surroundings, form and region, and new ids.
pub data Requests : World → World → Type 0 where
  start : {w : World} → Requests w w
  request :
      {w w' : World} (env : Env) (svc : Service) (generated : Option NewKey) (content_type : Text)
      (form : Option Form) (signed : Text)
      → Requests w w'
      → Fresh env w'
      → Requests w (handle env svc generated content_type form signed w').1

-- Any sequence of requests, each with new random ids, keeps every reference intact: subnets and security groups are in a VPC
-- of their region, instances are in a subnet of their region, and their groups are groups of that
-- subnet's VPC; and every instance is stored under its own id. The state from which the sequence starts has to be so, as the empty state is.
pub Requests-IsConsistent : {w w' : World} → Requests w w' → IsConsistent w.st → IsConsistent w'.st
Requests-IsConsistent start h = h
Requests-IsConsistent (request {w' = w'} env svc generated content_type form signed rs fresh) h =
    Steps-IsConsistent (region_of signed)
      (handle-Steps env svc generated content_type form signed w' fresh)
      (Requests-IsConsistent rs h)

-- An instance that is terminated stays terminated, with all its data, through any sequence of
-- requests, each with new random ids: it is neither started nor stopped again, nor is its id used for another.
pub Requests-terminated :
    (id : Text) (i : Instance) {w w' : World}
    → Requests w w'
    → lookup id w.st.instances ≡ some i
    → i.state ≡ codes "terminated"
    → lookup id w'.st.instances ≡ some i
Requests-terminated id i start e over = e
Requests-terminated id i (request {w' = w'} env svc generated content_type form signed rs fresh) e
      over =
    Steps-terminated (region_of signed) id i
      (handle-Steps env svc generated content_type form signed w' fresh)
      (Requests-terminated id i rs e over) over

-- A request, with new random ids, changes nothing outside the region that it is signed for: key pairs, VPCs, subnets,
-- security groups and instances of other regions are neither added nor changed nor removed.
pub handle-IsIsolated :
    (env : Env) (svc : Service) (generated : Option NewKey) (content_type : Text)
    (form : Option Form) (signed : Text) (w : World)
    → Fresh env w
    → IsIsolated (region_of signed) w.st (handle env svc generated content_type form signed w).1.st
handle-IsIsolated env svc generated content_type form signed w fresh =
    Steps-IsIsolated (region_of signed)
      (handle-Steps env svc generated content_type form signed w fresh)
