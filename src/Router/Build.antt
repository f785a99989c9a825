-- ===== src/Router/Build.antt =====
-- The constructor: NewRouter of internal/awsserver/router.go. A service is its name, none if it is nil.
use twister_aws.Base.{
  Text, Bool, false, Option, none, some, List, [], ◌∷◌, ◌++◌, ◌==◌, if◌then◌else◌,
}
use twister_aws.Base.Results.{Result, ok, err, ◌>>=◌}
use twister_aws.Base.Sort.{elem}
use twister_aws.Credentials.{Provider}
use twister_aws.Router.{Router}

pub data BuildError : Type 0 where
  nil_service empty_name : BuildError
  duplicate : Text → BuildError

-- The loop over the services, after those of `known`.
unfoldable pub register : (known : List Text) → List (Option Text) → Result BuildError (List Text)
register known [] = ok known
register known (none ∷ services) = err nil_service
register known (some name ∷ services) =
    let rest = register (known ++ name ∷ []) services in
    if name == [] then err empty_name else if elem name known then err (duplicate name) else rest

-- The query services of SQS and EC2 are set later.
unfoldable pub new_router : Provider → (iam : Bool) → List (Option Text) → Result BuildError Router
new_router provider iam services = do
  names ← register [] services
  ok (record { provider = provider; iam = iam; sqs = false; ec2 = false; services = names })
