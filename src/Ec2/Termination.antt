-- ===== src/Ec2/Termination.antt =====
-- TerminateInstances: what a reply that lists the state changes says of the instances.
use mathlib.Core.Path.{subst}
use twister_aws.Base.{
  Text, codes, ◌≡◌, ◌≢◌, refl, sym, ap, ◌∙◌, map, append-nil, append_assoc, Option, none, some,
  List, [], ◌∷◌, ◌++◌, All, ◌==◌, eq_iff, eq_refl, lookup, insert, lookup-insert, if_lem,
  option_lem, Option-cases, Bool-cases, inl, inr, is_nil, arith,
}
use twister_aws.Ec2.{
  Instance, DiskState, World, Env, UpdateError, duplicate_key_pair, vpc_gone, group_not_found,
  instance_not_found, not_saved, Change, fails, becomes, save, update,
}
use twister_aws.Ec2.Query.{Form, list_indexed}
use twister_aws.Ec2.Reply.{Reply, StateChange, state_changes}
use twister_aws.Ec2.Network.{answer}
use twister_aws.Ec2.Items.{state_code}
use twister_aws.Ec2.States.{
  state_of, container_of, mark, not_terminated, check_ids, remove_container, terminate_each,
  terminated, refuse_none, terminate_instances,
}
use twister_aws.Ec2.Steps.Regions.{Steps-terminated}
use twister_aws.Ec2.Refines.Loops.{remove_container_st, terminate_each-Ends}

-- The instance is there, in the region, and terminated.
abbrev pub IsTerminated : Text → DiskState → Text → Type 0
IsTerminated region st id =
    (i : Instance) × (lookup id st.instances ≡ some i)
    × (i.region ≡ region)
    × (i.state ≡ codes "terminated")

mark-IsTerminated :
    (id region : Text) (st st' : DiskState)
    → mark not_terminated (codes "terminated") id region st ≡ becomes st'
    → IsTerminated region st' id
unfolding mark
mark-IsTerminated id region st st' e = elim (Option-cases (lookup id st.instances)) [
  | inl absent ↦ absurd (ground (arith, absent, e))
  | inr (i, found) ↦ elim (Bool-cases (i.region == region)) [
    | inr there ↦ absurd (ground (arith, found, there, e))
    | inl here ↦ elim (Bool-cases (i.state == codes "terminated")) [
      | inl over ↦
          let same : st ≡ st' = ground (arith, found, here, over, e) in
          subst (λ s. IsTerminated region s id) same
            (
              i,
              found,
              (eq_iff i.region region).0 here,
              (eq_iff i.state (codes "terminated")).0 over,
            )
      | inr alive ↦
          let i' : Instance = record i { state = codes "terminated" } in
          let same : record st { instances = insert id i' st.instances } ≡ st' =
            ground (arith, found, here, alive, e) in
          subst (λ s. IsTerminated region s id) same
            (ended st i i' ((eq_iff i.region region).0 here) refl)
    ]
  ]
]
  where
    ended :
        (s : DiskState) (i i' : Instance)
        → i'.region ≡ region
        → i'.state ≡ codes "terminated"
        → IsTerminated region (record s { instances = insert id i' s.instances }) id
    ended s i i' here over =
        (i', rw (lookup-insert id id i' s.instances, eq_refl id) refl, here, over)

-- Where Update gives no error, the state is what the function made of it.
update-none :
    (P : DiskState → Type 0) (env : Env) (f : DiskState → Change) (w : World)
    → ((st' : DiskState) → f w.st ≡ becomes st' → P st')
    → (update env f w).0 ≡ none
    → P (update env f w).1.st
unfolding update save
update-none P env f w h = go (f w.st) h
  where
    go :
        (c : Change)
        → ((st' : DiskState) → c ≡ becomes st' → P st')
        → (elim c as (λ x. Option UpdateError × World) [
          | fails e ↦ (some e, w)
          | becomes st' ↦ save env (record w { st = st' })
        ]).0
          ≡ none
        → P
            (elim c as (λ x. Option UpdateError × World) [
              | fails e ↦ (some e, w)
              | becomes st' ↦ save env (record w { st = st' })
            ]).1.st
    go (fails e) k n = absurd (ground arith)
    go (becomes st') k n = elim (Bool-cases (env.writable st')) [
      | inl b ↦ rw b (k st' refl)
      | inr b ↦ rw b (k st' refl)
    ]

-- The instances of a list of changes.
abbrev pub ids_of : List StateChange → List Text
ids_of = map (λ (c : StateChange). c.instance_id)

-- Where the reply lists changes, it lists the instances behind those of `before`, and they are
-- terminated.
record Ended (region : Text) (before ids : List Text) (r : Reply × World) : Type 0 where
  listed : (out : List StateChange) → r.0 ≡ state_changes out → ids_of out ≡ before ++ ids
  all : (out : List StateChange) → r.0 ≡ state_changes out → All (IsTerminated region r.1.st) ids

ids_of-append :
    (out : List StateChange) (c : StateChange)
    → ids_of (out ++ c ∷ []) ≡ ids_of out ++ c.instance_id ∷ []
ids_of-append [] c = refl
ids_of-append (o ∷ out) c = ap (λ t. o.instance_id ∷ t) (ids_of-append out c)

changes_inj : (a b : List StateChange) → state_changes a ≡ state_changes b → a ≡ b
changes_inj a b e = cc e

no_changes :
    (error : UpdateError) (out : List StateChange)
    → answer (state_changes []) (some error) ≢ state_changes out
unfolding answer
no_changes duplicate_key_pair out = cc
no_changes vpc_gone out = cc
no_changes group_not_found out = cc
no_changes instance_not_found out = cc
no_changes not_saved out = cc

module _ (env : Env) (region : Text) where
  refused-ids :
      (st : DiskState) (ids : List Text) (reply : Reply) (out : List StateChange)
      → check_ids refuse_none st region ids ≡ some reply
      → reply ≢ state_changes out
  unfolding check_ids
  refused-ids st [] reply out e same = absurd (ground arith)
  refused-ids st (id ∷ ids) reply out e same = elim (Option-cases (lookup id st.instances)) [
    | inl absent ↦ absurd (ground (arith, absent, e, same))
    | inr (i, found) ↦ elim (Bool-cases (i.region == region)) [
      | inl here ↦ refused-ids st ids reply out (ground (arith, found, here, e)) same
      | inr there ↦ absurd (ground (arith, found, there, e, same))
    ]
  ]

  terminate_each-Ended :
      (ids : List Text) (out : List StateChange) (w : World)
      → Ended region (ids_of out) ids (terminate_each env region ids out w)
  unfolding terminate_each
  terminate_each-Ended [] out w = record {
    listed = λ out' e. ap ids_of (sym (changes_inj out out' e)) ∙ sym (append-nil (ids_of out));
    all = λ out' e. tt;
  }
  terminate_each-Ended (id ∷ ids) out w =
      let inst = lookup id w.st.instances in
      let change : StateChange = record {
        instance_id = id;
        previous_state = record { code = state_code (state_of inst); name = state_of inst };
        current_state = terminated;
      } in
      let f = mark not_terminated (codes "terminated") id region in
      let (e, w') = update env f w in
      let w'' = remove_container env (state_of inst) (container_of inst) w' in
      option_lem (Ended region (ids_of out) (id ∷ ids)) e
        (λ fine.
          let there : IsTerminated region w'.st id =
            update-none (λ s. IsTerminated region s id) env f w
              (λ st' m. mark-IsTerminated id region w.st st' m) fine in
          let (i, found, here, over) =
            subst (λ s. IsTerminated region s id)
              (sym (remove_container_st env region (state_of inst) (container_of inst) w')) there in
          let rest = terminate_each-Ended ids (out ++ change ∷ []) w'' in
          record {
            listed = λ out' same.
                rest.listed out' same
                ∙ (ap (λ t. t ++ ids) (ids_of-append out change)
                    ∙ append_assoc (ids_of out) (id ∷ []) ids);
            all = λ out' same. (
              (
                i,
                Steps-terminated region id i (terminate_each-Ends env region ids _ w'').steps found
                    over,
                here,
                over,
              ),
              rest.all out' same,
            );
          })
        (λ error bad. record {
          listed = λ out' same. absurd (no_changes error out' same);
          all = λ out' same. absurd (no_changes error out' same);
        })

  terminate_instances-Ended :
      (q : Form) (w : World)
      → Ended region [] (list_indexed q (codes "InstanceId")) (terminate_instances env q region w)
  unfolding terminate_instances
  terminate_instances-Ended q w =
      let ids = list_indexed q (codes "InstanceId") in
      if_lem (Ended region [] ids) (is_nil ids)
        (λ _. record {
          listed = λ out same. absurd (ground arith);
          all = λ out same. absurd (ground arith);
        })
        (λ _.
          option_lem (Ended region [] ids) (check_ids refuse_none w.st region ids)
            (λ _. terminate_each-Ended ids [] w)
            (λ reply found. record {
              listed = λ out same. absurd (refused-ids w.st ids reply out found same);
              all = λ out same. absurd (refused-ids w.st ids reply out found same);
            }))

  -- A TerminateInstances that answers with a list of state changes lists the instances of the form
  -- in their order, and all of them are there, in the region, and terminated in the state that it leaves.
  pub terminate_instances_lem :
      (q : Form) (w : World) (out : List StateChange)
      → (terminate_instances env q region w).0 ≡ state_changes out
      → (ids_of out ≡ list_indexed q (codes "InstanceId"))
        × All
            (IsTerminated region (terminate_instances env q region w).1.st)
            (list_indexed q (codes "InstanceId"))
  terminate_instances_lem q w out same =
      let ended = terminate_instances-Ended q w in (ended.listed out same, ended.all out same)
