-- ===== src/Sigv4/Query/Order.antt =====
-- The order of the map of parameters: canonicalQueryV4 of internal/sigv4/canonical_query.go.
use mathlib.Core.List.{Perm, Permᴰ}
use mathlib.Core.Logic.{∥∥₁_elim}
use twister_aws.Base.{Text, Map, is_nil, ◌≡◌, refl, ◌∙◌, true, false, List, arith, eq_iff}
use twister_aws.Base.Sort.{sort_with}
use twister_aws.Base.Sort.Perm.{
  IsStrictTotal, lt_text-IsStrictTotal, sort_with-append_comm, sort_with-append_cong,
}
use twister_aws.Sigv4.Query.{Pair, pairs_of, pairs, lt_pair, canonical_query}

lt_pair_asym : (p q : Pair) → lt_pair p q ≡ true → lt_pair q p ≡ false
unfolding lt_pair
lt_pair_asym p q h = ground (
  arith,
  eq_iff p.k q.k,
  eq_iff q.k p.k,
  lt_text-IsStrictTotal.asym p.k q.k,
  lt_text-IsStrictTotal.asym p.v q.v,
)

lt_pair_trans : (p q r : Pair) → lt_pair p q ≡ true → lt_pair q r ≡ true → lt_pair p r ≡ true
unfolding lt_pair
lt_pair_trans p q r h k = ground (
  arith,
  eq_iff p.k q.k,
  eq_iff q.k r.k,
  eq_iff p.k r.k,
  lt_text-IsStrictTotal.trans p.k q.k r.k,
  lt_text-IsStrictTotal.trans p.v q.v r.v,
  lt_text-IsStrictTotal.asym p.k q.k,
)

lt_pair_connex : (p q : Pair) → lt_pair p q ≡ false → lt_pair q p ≡ false → p ≡ q
unfolding lt_pair
lt_pair_connex p q h k =
    let same_k : p.k ≡ q.k =
      ground (arith, eq_iff p.k q.k, eq_iff q.k p.k, lt_text-IsStrictTotal.connex p.k q.k) in
    let same_v : p.v ≡ q.v =
      ground (arith, eq_iff p.k q.k, eq_iff q.k p.k, lt_text-IsStrictTotal.connex p.v q.v) in
    λ i. record { k = same_k i; v = same_v i }

pub lt_pair-IsStrictTotal : IsStrictTotal lt_pair
lt_pair-IsStrictTotal = record {
  asym = lt_pair_asym;
  trans = lt_pair_trans;
  connex = lt_pair_connex;
}

-- The map with its entries in another order has its pairs in another order, sorted alike.
sort_with-pairs :
    {v w : Map (List Text)} → Permᴰ v w → sort_with lt_pair (pairs v) ≡ sort_with lt_pair (pairs w)
unfolding pairs
sort_with-pairs Permᴰ.nil = refl
sort_with-pairs (Permᴰ.cons {a} {b} {l₁} {l₂} e p) =
    let lt_pairs = lt_pair-IsStrictTotal in
    rw e (
      sort_with-append_cong lt_pair lt_pairs (pairs_of b.0 b.1) (pairs l₁) (pairs l₂)
        (sort_with-pairs p))
sort_with-pairs (Permᴰ.swap {a} {b} {a'} {b'} {l} e f) =
    rw (e, f)
      (sort_with-append_comm lt_pair lt_pair-IsStrictTotal (pairs_of b'.0 b'.1) (pairs_of a'.0 a'.1)
        (pairs l))
sort_with-pairs (Permᴰ.trans p q) = sort_with-pairs p ∙ sort_with-pairs q

is_nil-Perm : {v w : Map (List Text)} → Permᴰ v w → is_nil v ≡ is_nil w
is_nil-Perm Permᴰ.nil = refl
is_nil-Perm (Permᴰ.cons e p) = refl
is_nil-Perm (Permᴰ.swap e f) = refl
is_nil-Perm (Permᴰ.trans p q) = is_nil-Perm p ∙ is_nil-Perm q

-- The canonical query does not depend on the order in which Go ranges over the map of parameters:
-- two maps with the same entries in any two orders have the same canonical query.
pub canonical_query-Perm :
    (v w : Map (List Text)) → Perm v w → canonical_query v ≡ canonical_query w
unfolding canonical_query
canonical_query-Perm v w p = ∥∥₁_elim p (hlevel) (λ d. rw (sort_with-pairs d, is_nil-Perm d) refl)
