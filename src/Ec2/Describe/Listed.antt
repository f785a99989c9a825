-- ===== src/Ec2/Describe/Listed.antt =====
-- Which instances DescribeInstances lists: internal/ec2/service_actions.go.
use mathlib.Core.List.{Memᴰ}
use mathlib.Core.List.Memᴰ
use twister_aws.Base.{
  Text, codes, ◌≡◌, refl, sym, subst, ◌↔◌, ◌⊎◌, inl, inr, true, false, List, [], ◌∷◌, map, values,
  ◌==◌, eq_iff, is_nil, if◌then◌else◌, arith, lt_text, All,
}
use twister_aws.Base.Sort.{elem}
use twister_aws.Base.Sort.By.{keep, Memᴰ-keep, Memᴰ-sort_by, IsSortedBy, sort_by-IsSortedBy}
use twister_aws.Base.Strings.{to_lower, trim_space}
use twister_aws.Ec2.{Instance, DiskState, Env, new_resource_id}
use twister_aws.Ec2.Query.{Form, Filter, list_indexed, parse_filters}
use twister_aws.Ec2.Reply.{Reply, InstanceXml, reservation}
use twister_aws.Ec2.Items.{instance_item, build_instance_item_list}
use twister_aws.Ec2.Describe.{
  instance_matches_filter, keep_matching, filter_by_filters, instances_in, narrowed, candidates,
  describe_instances,
}

-- The instances that a request is shown.
pub record IsShown (q : Form) (region : Text) (st : DiskState) (inst : Instance) : Type 0 where
  pub there : Memᴰ inst (values st.instances)
  pub here : inst.region ≡ region
  pub asked :
      (list_indexed q (codes "InstanceId") ≡ [])
      ⊎ (elem
            (to_lower inst.id)
            (map (λ id. to_lower (trim_space id)) (list_indexed q (codes "InstanceId")))
          ≡ true)
  pub matching : All (λ f. instance_matches_filter inst f ≡ true) (parse_filters q)

instances_in-keep :
    (region : Text) (is : List Instance)
    → instances_in region is ≡ keep (λ i. i.region == region) is
unfolding instances_in keep
instances_in-keep region [] = refl
instances_in-keep region (i ∷ is) = let rest = instances_in-keep region is in ground (arith, rest)

narrowed-keep :
    (want : List Text) (is : List Instance)
    → narrowed want is ≡ keep (λ i. elem (to_lower i.id) want) is
unfolding narrowed keep
narrowed-keep want [] = refl
narrowed-keep want (i ∷ is) = let rest = narrowed-keep want is in ground (arith, rest)

keep_matching-keep :
    (f : Filter) (is : List Instance)
    → keep_matching f is ≡ keep (λ i. instance_matches_filter i f) is
unfolding keep_matching keep
keep_matching-keep f [] = refl
keep_matching-keep f (i ∷ is) = let rest = keep_matching-keep f is in ground (arith, rest)

Memᴰ-filter_by_filters :
    (i : Instance) (is : List Instance) (fs : List Filter)
    → Memᴰ i (filter_by_filters is fs)
      ↔ (Memᴰ i is × All (λ f. instance_matches_filter i f ≡ true) fs)
unfolding filter_by_filters
Memᴰ-filter_by_filters i is [] = (λ m. (m, tt), λ m. m.0)
Memᴰ-filter_by_filters i is (f ∷ fs) =
    let rest = Memᴰ-filter_by_filters i (keep_matching f is) fs in
    let one =
      subst (λ l. Memᴰ i l ↔ (Memᴰ i is × (instance_matches_filter i f ≡ true)))
        (sym (keep_matching-keep f is)) (Memᴰ-keep (λ i. instance_matches_filter i f) i is) in
    (
      λ m. let r = rest.0 m in let o = one.0 r.0 in (o.0, (o.1, r.1)),
      λ m. rest.1 (one.1 (m.0, m.1.0), m.1.1),
    )

Memᴰ-asked :
    (i : Instance) (ids : List Text) (is : List Instance)
    → Memᴰ i (if is_nil ids then is else narrowed (map (λ id. to_lower (trim_space id)) ids) is) ↔ (
        Memᴰ i is
        × ((ids ≡ []) ⊎ (elem (to_lower i.id) (map (λ id. to_lower (trim_space id)) ids) ≡ true)))
Memᴰ-asked i [] is = (λ m. (m, inl refl), λ m. m.0)
Memᴰ-asked i (id ∷ ids) is =
    let want = map (λ id. to_lower (trim_space id)) (id ∷ ids) in
    let one =
      subst (λ l. Memᴰ i l ↔ (Memᴰ i is × (elem (to_lower i.id) want ≡ true)))
        (sym (narrowed-keep want is)) (Memᴰ-keep (λ i. elem (to_lower i.id) want) i is) in
    (
      λ m. let r = one.0 m in (r.0, inr r.1),
      λ m. elim m.1 [ inl none_asked ↦ absurd (cc) | inr e ↦ one.1 (m.0, e) ],
    )

Memᴰ-candidates :
    (q : Form) (region : Text) (st : DiskState) (i : Instance)
    → Memᴰ i (candidates q region st) ↔ IsShown q region st i
unfolding candidates
Memᴰ-candidates q region st i =
    let ids = list_indexed q (codes "InstanceId") in
    let here = instances_in region (values st.instances) in
    let sorted = Memᴰ-sort_by (λ (i : Instance). i.id) i _ in
    let filtered = Memᴰ-filter_by_filters i _ (parse_filters q) in
    let asked = Memᴰ-asked i ids here in
    let of_region =
      subst (λ l. Memᴰ i l ↔ (Memᴰ i (values st.instances) × ((i.region == region) ≡ true)))
        (sym (instances_in-keep region (values st.instances)))
        (Memᴰ-keep (λ i. i.region == region) i (values st.instances)) in
    (
      λ m.
          let f = filtered.0 (sorted.0 m) in
          let a = asked.0 f.0 in
          let r = of_region.0 a.0 in
          record {
            there = r.0;
            here = (eq_iff i.region region).0 r.1;
            asked = a.1;
            matching = f.1;
          },
      λ s. sorted.1 (
          filtered.1 (
            asked.1 (of_region.1 (s.there, (eq_iff i.region region).1 s.here), s.asked),
            s.matching,
          )),
    )

item_ids :
    (st : DiskState) (x : Instance) (is : List Instance)
    → All (λ (i : Instance). lt_text i.id x.id ≡ false) is
    → All
        (λ (item : InstanceXml). lt_text item.instance_id x.id ≡ false)
        (map (instance_item st) is)
unfolding instance_item
item_ids st x [] h = tt
item_ids st x (i ∷ is) h = (h.0, item_ids st x is h.1)

items-IsSortedBy :
    (st : DiskState) (is : List Instance)
    → IsSortedBy (λ (i : Instance). i.id) is
    → IsSortedBy (λ (item : InstanceXml). item.instance_id) (map (instance_item st) is)
unfolding instance_item
items-IsSortedBy st [] h = tt
items-IsSortedBy st (i ∷ is) h = (item_ids st i is h.0, items-IsSortedBy st is h.1)

-- A reply that lists, in the order of their ids, the items of the instances that are shown and no others.
pub data IsListing (env : Env) (q : Form) (region : Text) (st : DiskState) : Reply → Type 0 where
  listing :
      (items : List InstanceXml)
      → IsSortedBy (λ (item : InstanceXml). item.instance_id) items
      → ((item : InstanceXml)
          → Memᴰ item items
            ↔ ((inst : Instance) × IsShown q region st inst × (instance_item st inst ≡ item)))
      → IsListing env q region st
          (reservation (new_resource_id (codes "r-") env.reservation_bytes) items)

-- DescribeInstances lists, sorted by id, exactly the instances of the region whose id is among those of the
-- form, in any case, where it has any, and that pass every filter of the form.
pub describe_instances-IsListing :
    (env : Env) (q : Form) (region : Text) (st : DiskState)
    → IsListing env q region st (describe_instances env q region st)
unfolding describe_instances build_instance_item_list
describe_instances-IsListing env q region st =
    let shown = candidates q region st in
    let sorted : IsSortedBy (λ (i : Instance). i.id) shown =
      unfold candidates in sort_by-IsSortedBy (λ (i : Instance). i.id) _ in
    listing (map (instance_item st) shown) (items-IsSortedBy st shown sorted) λ item. (
      λ m.
          let r = Memᴰ.of_map (instance_item st) shown m in
          (r.0, (Memᴰ-candidates q region st r.0).0 r.1, r.2),
      λ r.
          subst (λ x. Memᴰ x (map (instance_item st) shown)) r.2
            (Memᴰ.map (instance_item st) ((Memᴰ-candidates q region st r.0).1 r.1)),
    )
