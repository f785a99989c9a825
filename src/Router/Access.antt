-- ===== src/Router/Access.antt =====
-- Who reaches a service: internal/awsserver/router.go.
use twister_aws.Base.{
  ℕ, ◌≤◌, Text, Map, codes, ◌≡◌, refl, none, true, not, ◌&&◌, ◌||◌, Option, some, List, [], ◌==◌,
  get_first, eq_iff, if_lem, option_lem, arith, ltb, length,
}
use twister_aws.Base.Results.{ok, err, result_lem}
use twister_aws.Base.Sort.{elem}
use twister_aws.Base.Strings.{trim_space, has_prefix, cut_byte}
use twister_aws.Sigv4.{Request, Crypto, Refusal}
use twister_aws.Credentials.{is_empty, verify_request}
use twister_aws.Iam.{is_bootstrap_create_access_key}
use twister_aws.Router.{
  Router, Route, stopped, forbidden, to_iam, to_sqs, to_ec2, to_service,
  canonical_json_service_name, route_target, route_json, route_signed, is_bootstrap, max_body_bytes,
  route,
}

-- The routes that a verified request may take: to the service that it is signed for, in the region that
-- it is signed for, if the router has that service.
pub data IsFor (rt : Router) (region service : Text) : Route → Type 0 where
  no_call : (status : ℕ) → 400 ≤ status → IsFor rt region service (stopped status)
  for_iam : service ≡ codes "iam" → rt.iam ≡ true → IsFor rt region service (to_iam region)
  for_sqs : service ≡ codes "sqs" → rt.sqs ≡ true → IsFor rt region service (to_sqs region)
  for_ec2 : service ≡ codes "ec2" → rt.ec2 ≡ true → IsFor rt region service (to_ec2 region)
  for_json :
      (name operation : Text)
      → canonical_json_service_name service ≡ name
      → elem name rt.services ≡ true
      → IsFor rt region service (to_service name operation region)

-- The routes that any request may take.
pub data IsAllowed (crypto : Crypto) (rt : Router) (r : Request) (body : Option Text)
    (form : Option (Map (List Text))) (now : ℕ) : Route → Type 0 where
  unanswered : (status : ℕ) → 400 ≤ status → IsAllowed crypto rt r body form now (stopped status)
  unverified :
      (b : Text) (e : Refusal)
      → body ≡ some b
      → verify_request crypto r b now rt.provider ≡ err e
      → IsAllowed crypto rt r body form now (forbidden e)
  first_key :
      (q : Map (List Text))
      → r.method ≡ codes "POST"
      → is_empty rt.provider ≡ true
      → rt.iam ≡ true
      → form ≡ some q
      → trim_space (get_first (codes "Action") q) ≡ codes "CreateAccessKey"
      → IsAllowed crypto rt r body form now (to_iam (codes "us-east-1"))
  verified :
      (b region service : Text) {to : Route}
      → body ≡ some b
      → verify_request crypto r b now rt.provider ≡ ok (region, service)
      → IsFor rt region service to
      → IsAllowed crypto rt r body form now to

route_target-IsFor :
    (rt : Router) (region service name operation : Text)
    → IsFor rt region service (route_target rt region service name operation)
unfolding route_target
route_target-IsFor rt region service name operation =
    let sign = canonical_json_service_name service in
    let to = canonical_json_service_name name in
    if_lem (IsFor rt region service) (not (sign == to)) (λ t. no_call 400 (omega arith))
      λ f.
        if_lem (IsFor rt region service)
          (not (sign == codes "secretsmanager")
            && not (sign == codes "ssm")
            && not (sign == codes "lambda"))
          (λ t. no_call 400 (omega arith))
          λ g.
            if_lem (IsFor rt region service) (not (elem to rt.services))
              (λ t. no_call 400 (omega arith))
              λ h. for_json to operation (ground (arith, f, eq_iff sign to)) (ground (arith, h))

route_json-IsFor :
    (rt : Router) (r : Request) (region service : Text)
    → IsFor rt region service (route_json rt r region service)
unfolding route_json
route_json-IsFor rt r region service =
    let target = get_first (codes "X-Amz-Target") r.header in
    if_lem (IsFor rt region service)
      (not (
        has_prefix (get_first (codes "Content-Type") r.header)
          (codes "application/x-amz-json-1.1")))
      (λ t. no_call 400 (omega arith))
      λ f.
        if_lem (IsFor rt region service) (trim_space target == []) (λ t. no_call 400 (omega arith))
          λ g.
            option_lem (IsFor rt region service) (cut_byte b'.' target)
              (λ e. no_call 400 (omega arith))
              λ p e.
                if_lem (IsFor rt region service) ((p.0 == []) || (p.1 == []))
                  (λ t. no_call 400 (omega arith)) λ h. route_target-IsFor rt region service p.0 p.1

route_signed-IsFor :
    (rt : Router) (r : Request) (region service : Text)
    → IsFor rt region service (route_signed rt r region service)
unfolding route_signed
route_signed-IsFor rt r region service =
    if_lem (IsFor rt region service) (service == codes "iam")
      (λ t.
        if_lem (IsFor rt region service) rt.iam (for_iam ((eq_iff service (codes "iam")).0 t))
          (λ e. no_call 503 (omega arith)))
      λ f.
        if_lem (IsFor rt region service) (service == codes "sqs")
          (λ t.
            if_lem (IsFor rt region service) rt.sqs (for_sqs ((eq_iff service (codes "sqs")).0 t))
              (λ e. no_call 503 (omega arith)))
          λ g.
            if_lem (IsFor rt region service) (service == codes "ec2")
              (λ t.
                if_lem (IsFor rt region service) rt.ec2
                  (for_ec2 ((eq_iff service (codes "ec2")).0 t)) (λ e. no_call 503 (omega arith)))
              λ h. route_json-IsFor rt r region service

-- The first key is asked for, by a form, while there is none.
record IsFirst (rt : Router) (form : Option (Map (List Text))) : Type 0 where
  q : Map (List Text)
  keyless : is_empty rt.provider ≡ true
  has_iam : rt.iam ≡ true
  is_form : form ≡ some q
  asks : trim_space (get_first (codes "Action") q) ≡ codes "CreateAccessKey"

is_bootstrap-IsFirst :
    (rt : Router) (r : Request) (form : Option (Map (List Text)))
    → is_bootstrap rt r form ≡ true
    → IsFirst rt form
unfolding is_bootstrap is_bootstrap_create_access_key
is_bootstrap-IsFirst rt r none h = absurd (ground (arith, h))
is_bootstrap-IsFirst rt r (some q) h = record {
  q = q;
  keyless = ground (arith, h);
  has_iam = ground (arith, h);
  is_form = refl;
  asks =
      (eq_iff (trim_space (get_first (codes "Action") q)) (codes "CreateAccessKey")).0
        (ground (arith, h));
}

pub route-IsAllowed :
    (crypto : Crypto) (rt : Router) (r : Request) (body : Option Text)
    (form : Option (Map (List Text))) (now : ℕ)
    → IsAllowed crypto rt r body form now (route crypto rt r body form now)
unfolding route
route-IsAllowed crypto rt r body form now =
    let P : Route → Type 0 = IsAllowed crypto rt r body form now in
    if_lem P (not (r.method == codes "POST")) (λ t. unanswered 405 (omega arith))
      λ f.
        option_lem P body (λ e. unanswered 400 (omega arith))
          λ b e.
            if_lem P (ltb max_body_bytes (length b)) (λ t. unanswered 400 (omega arith))
              λ g.
                if_lem P (is_bootstrap rt r form)
                  (λ t.
                    let one = is_bootstrap-IsFirst rt r form t in
                    first_key one.q ((eq_iff r.method (codes "POST")).0 (ground (arith, f)))
                      one.keyless one.has_iam one.is_form one.asks)
                  λ h.
                    result_lem P (verify_request crypto r b now rt.provider)
                      (λ to v. verified b to.0 to.1 e v (route_signed-IsFor rt r to.0 to.1))
                      (λ x v. unverified b x e v)
