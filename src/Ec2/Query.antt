-- ===== src/Ec2/Query.antt =====
-- internal/ec2/parse.go: reading the form of a request. A form is the function q.Get, which gives
-- the empty text for a key that is not there.
use mathlib.Core.Option
use twister_aws.Base.{
  ℕ, zero, suc, Text, Map, codes, Bool, false, not, ◌&&◌, ◌||◌, Option, none, some, List, [], ◌∷◌,
  ◌++◌, ◌==◌, eqb, insert, if◌then◌else◌,
}
use twister_aws.Base.Int.{ℤ, pos}
use twister_aws.Base.Options.{◌>>=◌}
use twister_aws.Base.Numbers.{atoi, decimal}
use twister_aws.Base.Strings.{trim_space, equal_fold}
use twister_aws.Ec2.{IngressRule}

abbrev pub Form : Type 0
Form = Text → Text

-- base.i
abbrev indexed : Text → ℕ → Text
indexed base i = base ++ b'.' ∷ decimal i

-- The values at base.i, base.(i+1) and on, up to the first blank one, `k` at most.
unfoldable pub values_from : Form → Text → ℕ → ℕ → List Text
values_from q base zero i = []
values_from q base (suc k) i =
    let rest = values_from q base k (suc i) in
    let v = trim_space (q (indexed base i)) in if v == [] then [] else v ∷ rest

unfoldable pub list_indexed : Form → Text → List Text
unfolding values_from
list_indexed q base = values_from q base 99 1

pub record Filter : Type 0 where
  pub name : Text
  pub values : List Text

unfoldable pub filters_from : Form → ℕ → ℕ → List Filter
filters_from q zero i = []
filters_from q (suc k) i =
    let rest = filters_from q k (suc i) in
    let name = trim_space (q (indexed (codes "Filters") i ++ codes ".Name")) in
    if name == []
    then []
    else record {
      name = name;
      values = list_indexed q (indexed (codes "Filters") i ++ codes ".Values");
    }
      ∷ rest

unfoldable pub parse_filters : Form → List Filter
unfolding filters_from
parse_filters q = filters_from q 99 1

-- The inner loop: the tags of one specification.
unfoldable pub tags_from : Form → Text → ℕ → ℕ → Map Text → Map Text
tags_from q spec zero m tags = tags
tags_from q spec (suc k) m tags =
    let tag = indexed (spec ++ codes ".Tags") m in
    let key = trim_space (q (tag ++ codes ".Key")) in
    let rest =
      tags_from q spec k (suc m) (insert key (trim_space (q (tag ++ codes ".Value"))) tags) in
    if key == [] then tags else rest

unfoldable pub specifications_from : Form → ℕ → ℕ → Map Text → Map Text
unfolding tags_from
specifications_from q zero n tags = tags
specifications_from q (suc k) n tags =
    let spec = indexed (codes "TagSpecification") n in
    specifications_from q k (suc n) (
      if trim_space (q (spec ++ codes ".ResourceType")) == []
      then tags
      else tags_from q spec 49 1 tags)

unfoldable pub parse_tag_specifications : Form → Map Text
unfolding specifications_from
parse_tag_specifications q = specifications_from q 49 1 []

-- An empty port is 0; `none` where it is no number.
unfoldable pub port_of : Text → Option ℤ
port_of s = if s == [] then some (pos 0) else atoi s

abbrev pub any_address : Text
any_address = codes "0.0.0.0/0"

unfoldable pub rule_of : Text → Text → Text → Text → Option IngressRule
unfolding port_of
rule_of proto from to cidr = do
  from_port ← port_of from
  to_port ← port_of to
  some (record {
    protocol = proto;
    from_port = from_port;
    to_port = to_port;
    cidr_ipv4 = if cidr == [] then any_address else cidr;
  })

-- onePermissionFromPrefix, which is called with the empty prefix only
unfoldable pub one_permission : Form → Option IngressRule
one_permission q =
    let proto = trim_space (q (codes "IpProtocol")) in
    if proto == []
    then none
    else rule_of proto (trim_space (q (codes "FromPort"))) (trim_space (q (codes "ToPort")))
        (trim_space (q (codes "CidrIp")))

-- The last address range that is given before the first blank one.
unfoldable pub last_cidr : Form → Text → ℕ → ℕ → Text → Text
last_cidr q prefix zero m cidr = cidr
last_cidr q prefix (suc k) m cidr =
    let c = trim_space (q (indexed (prefix ++ codes ".IpRanges") m ++ codes ".CidrIp")) in
    let rest = last_cidr q prefix k (suc m) c in if c == [] then cidr else rest

unfoldable pub permissions_from : Form → ℕ → ℕ → Option (List IngressRule)
unfolding last_cidr
permissions_from q zero n = some []
permissions_from q (suc k) n =
    let rest = permissions_from q k (suc n) in
    let prefix = indexed (codes "IpPermissions") n in
    let proto = trim_space (q (prefix ++ codes ".IpProtocol")) in
    if proto == [] then some [] else do
      rule ←
          rule_of proto (trim_space (q (prefix ++ codes ".FromPort")))
            (trim_space (q (prefix ++ codes ".ToPort"))) (last_cidr q prefix 49 1 [])
      rules ← rest
      some (rule ∷ rules)

-- Without a first block the flat form of one permission is tried.
unfoldable pub parse_ip_permissions : Form → Option (List IngressRule)
unfolding one_permission permissions_from
parse_ip_permissions q =
    if trim_space (q (codes "IpPermissions.1.IpProtocol")) == []
      && not (trim_space (q (codes "IpProtocol")) == [])
    then Option.map (λ rule. rule ∷ []) (one_permission q)
    else permissions_from q 49 1

-- An empty count is 1; `none` where it is no number, or below 1.
unfoldable pub count_of : Text → Option ℕ
count_of s =
    if s == [] then some 1 else elim (atoi s) [ some (pos (suc n)) ↦ some (suc n) | _ ↦ none ]

-- parseMinMaxCount, whose counts are not used: whether it gives no error.
unfoldable pub is_single_count : Form → Bool
unfolding count_of
is_single_count q =
    let min = count_of (trim_space (q (codes "MinCount"))) in
    let max = count_of (trim_space (q (codes "MaxCount"))) in
    elim min [ none ↦ false | some m ↦ elim max [ none ↦ false | some n ↦ eqb m 1 && eqb n 1 ] ]

unfoldable pub contains_fold : List Text → Text → Bool
contains_fold [] s = false
contains_fold (x ∷ xs) s = equal_fold x s || contains_fold xs s
