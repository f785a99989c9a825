-- ===== src/Router/Primary.antt =====
-- The entry of all requests, and who reaches S3: internal/awsserver/primary.go. `serve` is ServeHTTP up to
-- the call of the handler that it chooses. A body is none where it cannot be read.
use mathlib.Core.List.{Memᴰ}
use twister_aws.Base.{
  ℕ, ◌≤◌, ◌≢◌, refl, ap, Bool-cases, inl, inr, Text, Map, codes, ◌≡◌, ◌*◌, ◌^◌, Bool, true, false,
  not, ◌&&◌, ◌||◌, Option, none, some, List, [], ◌∷◌, ◌==◌, eqb, ltb, length, eq_iff, if_lem,
  option_lem, subst, arith, if◌then◌else◌,
}
use twister_aws.Base.Int.{ℤ, pos, negsuc}
use twister_aws.Base.Results.{ok, err, result_lem}
use twister_aws.Sigv4.{Request, Crypto, Refusal}
use twister_aws.Credentials.{Provider, verify_request}
use twister_aws.Router.{Router, Route, route}
use twister_aws.Router.Access.{IsAllowed, route-IsAllowed}

-- PrimaryHandler, with whether its S3 is set.
pub record Primary : Type 0 where
  pub provider : Provider
  pub has_s3 : Bool
  pub api : Router
  pub max_put : ℤ

pub data Served : Type 0 where
  rejected : (status : ℕ) → Served
  denied : Refusal → Served
  to_s3 : (region put_body : Text) → Served
  to_api : Route → Served

unfoldable pub max_put_body_bytes : Primary → ℕ
max_put_body_bytes h = elim h.max_put [
  | negsuc n ↦ 16 * 2 ^ 20
  | pos n ↦ if eqb n 0 then 16 * 2 ^ 20 else n
]

unfoldable pub is_s3_method : Text → Bool
is_s3_method m =
    (m == codes "GET") || ((m == codes "HEAD") || ((m == codes "PUT") || (m == codes "DELETE")))

-- strings.Trim(p, "/") leaves something.
unfoldable pub is_beyond_slashes : Text → Bool
is_beyond_slashes [] = false
is_beyond_slashes (c ∷ s) = not (eqb c b'/') || is_beyond_slashes s

unfoldable pub is_rooted : Text → Bool
is_rooted [] = false
is_rooted (c ∷ s) = eqb c b'/'

unfoldable pub is_s3_rest_path : Text → Bool
is_s3_rest_path p =
    if (p == codes "/health") || (p == codes "/refresh")
    then false
    else if ltb (length p) 2 || not (is_rooted p)
    then false
    else is_beyond_slashes p

-- From the check of the signature on.
unfoldable pub serve_s3 : Crypto → Primary → Request → (put_body : Text) → ℕ → Served
serve_s3 crypto h r put_body now = elim (verify_request crypto r put_body now h.provider) [
  | err e ↦ denied e
  | ok (region, signing_service) ↦
      if not (signing_service == codes "s3") then rejected 403 else to_s3 region put_body
]

-- The body of a PUT that is not too long; the other methods of S3 have none.
unfoldable pub serve_bucket : Crypto → Primary → Request → Option Text → ℕ → Served
serve_bucket crypto h r body now =
    if r.method == codes "PUT"
    then elim body [
      | none ↦ rejected 400
      | some b ↦
          if ltb (max_put_body_bytes h) (length b) then rejected 400 else serve_s3 crypto h r b now
    ]
    else serve_s3 crypto h r [] now

unfoldable pub serve :
    Crypto → Primary → Request → (path : Text) → Option Text → Option (Map (List Text)) → ℕ → Served
serve crypto h r path body form now =
    if h.has_s3 && (is_s3_method r.method && is_s3_rest_path path)
    then serve_bucket crypto h r body now
    else if (r.method == codes "POST") && ((path == codes "/") || (path == []))
    then to_api (route crypto h.api r body form now)
    else if r.method == codes "POST"
    then rejected 404
    else rejected 405

-- A slash and then something other than slashes, and neither of the server's own paths.
pub record IsBucketPath (path : Text) : Type 0 where
  pub rest : Text
  pub rooted : path ≡ b'/' ∷ rest
  pub names : (c : ℕ) × Memᴰ c rest × (c ≢ b'/')
  pub not_health : path ≢ codes "/health"
  pub not_refresh : path ≢ codes "/refresh"

beyond_slashes : (s : Text) → is_beyond_slashes s ≡ true → (c : ℕ) × Memᴰ c s × (c ≢ b'/')
unfolding is_beyond_slashes
beyond_slashes [] h = absurd (ground (arith, h))
beyond_slashes (c ∷ s) h = elim (Bool-cases (eqb c b'/')) [
  | inl t ↦ let r = beyond_slashes s (ground (arith, h, t)) in (r.0, Memᴰ.tail r.1, r.2)
  | inr f ↦ (c, Memᴰ.head refl, λ e. ground (arith, f, e))
]

is_s3_rest_path-IsBucketPath : (path : Text) → is_s3_rest_path path ≡ true → IsBucketPath path
unfolding is_s3_rest_path is_rooted is_beyond_slashes
is_s3_rest_path-IsBucketPath [] h = absurd (ground (arith, h))
is_s3_rest_path-IsBucketPath (c ∷ s) h =
    let own = eq_iff (c ∷ s) (codes "/health") in
    let own' = eq_iff (c ∷ s) (codes "/refresh") in
    let slash : c ≡ b'/' = ground (arith, h) in
    record {
      rest = s;
      rooted = ap (λ x. x ∷ s) slash;
      names = beyond_slashes s (ground (arith, h, slash));
      not_health = λ e. ground (arith, h, own.1 e);
      not_refresh = λ e. ground (arith, h, own'.1 e);
    }

-- The body that S3 is handed and that the signature is checked with: that of a PUT, as it was read, and none else.
pub data IsBody (r : Request) (body : Option Text) : Text → Type 0 where
  of_put : (b : Text) → r.method ≡ codes "PUT" → body ≡ some b → IsBody r body b
  of_others : r.method ≢ codes "PUT" → IsBody r body []

-- What a request may reach.
pub data IsServed (crypto : Crypto) (h : Primary) (r : Request) (path : Text) (body : Option Text)
    (form : Option (Map (List Text))) (now : ℕ) : Served → Type 0 where
  unserved : (status : ℕ) → 400 ≤ status → IsServed crypto h r path body form now (rejected status)
  unsigned :
      (put_body : Text) (e : Refusal)
      → IsBody r body put_body
      → verify_request crypto r put_body now h.provider ≡ err e
      → IsServed crypto h r path body form now (denied e)
  for_s3 :
      (region put_body : Text)
      → h.has_s3 ≡ true
      → IsBucketPath path
      → IsBody r body put_body
      → verify_request crypto r put_body now h.provider ≡ ok (region, codes "s3")
      → IsServed crypto h r path body form now (to_s3 region put_body)
  for_api :
      (to : Route)
      → r.method ≡ codes "POST"
      → IsAllowed crypto h.api r body form now to
      → IsServed crypto h r path body form now (to_api to)

serve_s3-IsServed :
    (crypto : Crypto) (h : Primary) (r : Request) (path put_body : Text) (body : Option Text)
    (form : Option (Map (List Text))) (now : ℕ)
    → h.has_s3 ≡ true
    → is_s3_rest_path path ≡ true
    → IsBody r body put_body
    → IsServed crypto h r path body form now (serve_s3 crypto h r put_body now)
unfolding serve_s3
serve_s3-IsServed crypto h r path put_body body form now s3 p sent =
    let P : Served → Type 0 = IsServed crypto h r path body form now in
    result_lem P (verify_request crypto r put_body now h.provider)
      (λ to v.
        if_lem P (not (to.1 == codes "s3")) (λ t. unserved 403 (omega arith))
          λ f.
            let service : to.1 ≡ codes "s3" = (eq_iff to.1 (codes "s3")).0 (ground (arith, f)) in
            for_s3 to.0 put_body s3 (is_s3_rest_path-IsBucketPath path p) sent (
              subst (λ s. verify_request crypto r put_body now h.provider ≡ ok (to.0, s)) service
                v))
      (λ e v. unsigned put_body e sent v)

serve_bucket-IsServed :
    (crypto : Crypto) (h : Primary) (r : Request) (path : Text) (body : Option Text)
    (form : Option (Map (List Text))) (now : ℕ)
    → h.has_s3 ≡ true
    → is_s3_rest_path path ≡ true
    → IsServed crypto h r path body form now (serve_bucket crypto h r body now)
unfolding serve_bucket
serve_bucket-IsServed crypto h r path body form now s3 p =
    let P : Served → Type 0 = IsServed crypto h r path body form now in
    if_lem P (r.method == codes "PUT")
      (λ t.
        option_lem P body (λ n. unserved 400 (omega arith))
          λ b e.
            if_lem P (ltb (max_put_body_bytes h) (length b)) (λ u. unserved 400 (omega arith))
              λ f.
                serve_s3-IsServed crypto h r path b body form now s3 p
                  (of_put b ((eq_iff r.method (codes "PUT")).0 t) e))
      (λ f.
        serve_s3-IsServed crypto h r path [] body form now s3 p
          (of_others (λ e. ground (arith, f, (eq_iff r.method (codes "PUT")).1 e))))

-- Of the requests that the server's mux passes on, which are all but those to /health and /refresh, one reaches S3
-- only if its path is a slash with more than slashes behind it and its signature, checked with the body that
-- S3 is handed, is accepted for the service s3, in the region that it is signed for; this body is that of a
-- PUT, and empty else. One reaches another service only if it is a POST, and either the server has no key yet
-- and has IAM, and the request is a form with the action CreateAccessKey, which goes to IAM, or its signature
-- is accepted and it goes to the service that it is signed for, in the region that it is signed for, and
-- the server has that service. All others are answered with a status of 400 or more, or with the reason for
-- which their signature was refused.
pub serve-IsServed :
    (crypto : Crypto) (h : Primary) (r : Request) (path : Text) (body : Option Text)
    (form : Option (Map (List Text))) (now : ℕ)
    → IsServed crypto h r path body form now (serve crypto h r path body form now)
unfolding serve
serve-IsServed crypto h r path body form now =
    let P : Served → Type 0 = IsServed crypto h r path body form now in
    if_lem P (h.has_s3 && (is_s3_method r.method && is_s3_rest_path path))
      (λ t.
        serve_bucket-IsServed crypto h r path body form now (ground (arith, t)) (ground (arith, t)))
      λ f.
        if_lem P ((r.method == codes "POST") && ((path == codes "/") || (path == [])))
          (λ t.
            for_api _ ((eq_iff r.method (codes "POST")).0 (ground (arith, t)))
              (route-IsAllowed crypto h.api r body form now))
          λ g.
            if_lem P (r.method == codes "POST") (λ t. unserved 404 (omega arith))
              (λ t. unserved 405 (omega arith))
