-- ===== src/Ec2/Described.antt =====
-- Termination as a client sees it: TerminateInstances, any later requests, and DescribeInstances.
use mathlib.Core.List.{Memᴰ}
use twister_aws.Base.{
  Text, Map, codes, ◌≡◌, refl, sym, subst, ◌↔◌, inl, inr, some, List, [], ◌∷◌, All, values, true,
  lookup, Bool-cases, arith, ◌==◌,
}
use twister_aws.Base.Strings.{to_lower, trim_space}
use twister_aws.Ec2.{Instance, DiskState, World, Env, new_resource_id}
use twister_aws.Ec2.Query.{Form, list_indexed, parse_filters}
use twister_aws.Ec2.Reply.{Reply, InstanceXml, StateChange, state_changes, reservation}
use twister_aws.Ec2.Items.{instance_item, state_code}
use twister_aws.Ec2.States.{terminated, terminate_instances}
use twister_aws.Ec2.Describe.{describe_instances, instance_matches_filter}
use twister_aws.Ec2.Describe.Listed.{IsShown, IsListing, listing, describe_instances-IsListing}
use twister_aws.Ec2.Steps.Consistency.{IsConsistent, Steps-IsConsistent}
use twister_aws.Ec2.Refines.Loops.{terminate_instances-Ends}
use twister_aws.Ec2.Termination.{IsTerminated, terminate_instances_lem}
use twister_aws.Ec2.Guarantees.{Requests, Requests-IsConsistent, Requests-terminated}

lookup-Memᴰ {ℓ} :
    {V : Type ℓ} (k : Text) (v : V) (m : Map V) → lookup k m ≡ some v → Memᴰ v (values m)
unfolding lookup
lookup-Memᴰ k v [] e = absurd (ground (arith, e))
lookup-Memᴰ k v ((j, w) ∷ m) e = elim (Bool-cases (j == k)) [
  | inl t ↦ Memᴰ.head (ground (arith, e, t))
  | inr f ↦ Memᴰ.tail (lookup-Memᴰ k v m (ground (arith, e, f)))
]

-- The items show an instance as terminated.
abbrev pub ShowsTerminated : List InstanceXml → Text → Type 0
ShowsTerminated items id =
    (item : InstanceXml) × Memᴰ item items
    × (item.instance_id ≡ id)
    × (item.instance_state ≡ terminated)

terminated_state :
    (s : Text) → s ≡ codes "terminated" → (record { code = state_code s; name = s }) ≡ terminated
unfolding state_code to_lower trim_space ◌==◌
terminated_state s e =
    subst (λ s. (record { code = state_code s; name = s }) ≡ terminated) (sym e) refl

item_shown :
    (st : DiskState) (i : Instance) (id : Text)
    → i.id ≡ id
    → i.state ≡ codes "terminated"
    → ((instance_item st i).instance_id ≡ id) × ((instance_item st i).instance_state ≡ terminated)
unfolding instance_item
item_shown st i id own over = (own, terminated_state i.state over)

module _ (later : Env) (region : Text) (all : Form)
    (whole : list_indexed all (codes "InstanceId") ≡ []) (unfiltered : parse_filters all ≡ []) where
  -- A listing of everything shows an instance of the region that is there.
  show_one :
      (st : DiskState) (id : Text) (i : Instance) (items : List InstanceXml)
      → ((item : InstanceXml)
          → Memᴰ item items
            ↔ ((inst : Instance) × IsShown all region st inst × (instance_item st inst ≡ item)))
      → lookup id st.instances ≡ some i
      → i.region ≡ region
      → i.id ≡ id
      → i.state ≡ codes "terminated"
      → ShowsTerminated items id
  show_one st id i items holds found here own over =
      let shown : IsShown all region st i = record {
        there = lookup-Memᴰ id i st.instances found;
        here = here;
        asked = inl whole;
        matching = subst (All (λ f. instance_matches_filter i f ≡ true)) (sym unfiltered) tt;
      } in
      let s = item_shown st i id own over in
      (instance_item st i, (holds (instance_item st i)).1 (i, shown, refl), s.0, s.1)

  show_all :
      (ids : List Text) (w' : World) (rest : World) (items : List InstanceXml)
      → Requests rest w'
      → IsConsistent w'.st
      → ((item : InstanceXml)
          → Memᴰ item items ↔ (
              (inst : Instance) × IsShown all region w'.st inst
              × (instance_item w'.st inst ≡ item)))
      → All (IsTerminated region rest.st) ids
      → All (ShowsTerminated items) ids
  show_all [] w' rest items rs valid holds h = tt
  show_all (id ∷ ids) w' rest items rs valid holds h =
      let (i, found, here, over) = h.0 in
      let still = Requests-terminated id i rs found over in
      (
        show_one w'.st id i items holds still here (valid.keyed id i still) over,
        show_all ids w' rest items rs valid holds h.1,
      )

  listing_shows :
      (ids : List Text) (rest w' : World) (reply : Reply)
      → Requests rest w'
      → IsConsistent w'.st
      → All (IsTerminated region rest.st) ids
      → IsListing later all region w'.st reply
      → (items : List InstanceXml) × (reply
          ≡ reservation (new_resource_id (codes "r-") later.reservation_bytes) items)
        × All (ShowsTerminated items) ids
  listing_shows ids rest w' _ rs valid h (listing items sorted holds) =
      (items, refl, show_all ids w' rest items rs valid holds h)

  -- Once a TerminateInstances has answered with a list of state changes, then, after any further requests, each
  -- with new random ids, a DescribeInstances in its region with no ids and no filters lists every instance
  -- that was to be terminated, under its id and as terminated. The state was consistent before.
  pub describe_instances-terminate_instances :
      (env : Env) (q : Form) (w w' : World) (out : List StateChange)
      → IsConsistent w.st
      → (terminate_instances env q region w).0 ≡ state_changes out
      → Requests (terminate_instances env q region w).1 w'
      → (items : List InstanceXml) × (describe_instances later all region w'.st
          ≡ reservation (new_resource_id (codes "r-") later.reservation_bytes) items)
        × All (ShowsTerminated items) (list_indexed q (codes "InstanceId"))
  describe_instances-terminate_instances env q w w' out valid same rs =
      let kept =
        Requests-IsConsistent rs
          (Steps-IsConsistent region (terminate_instances-Ends env region q w).steps valid) in
      listing_shows (list_indexed q (codes "InstanceId")) (terminate_instances env q region w).1 w'
        (describe_instances later all region w'.st) rs kept
        (terminate_instances_lem env region q w out same).1
        (describe_instances-IsListing later all region w'.st)
