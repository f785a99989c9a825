-- ===== src/Lambda/Docker.antt =====
-- One run of a container: internal/lambda/docker.go. What the docker program does with its arguments and
-- its input until its time is over is an argument. A stored timeout is at most 900, so that no number wraps.
use twister_aws.Base.{
  Text, Map, codes, Bool, true, false, Option, none, some, List, [], ◌∷◌, ◌++◌, ◌+◌, ◌-◌, eqb,
  if◌then◌else◌,
}
use twister_aws.Base.Int.{ℤ, pos, negsuc}
use twister_aws.Base.Numbers.{decimal}

-- strconv.Itoa
unfoldable pub decimal_of_int : ℤ → Text
decimal_of_int (pos n) = decimal n
decimal_of_int (negsuc n) = b'-' ∷ decimal (n + 1)

-- The error of cmd.Run.
pub data RunError : Type 0 where
  exit_error : (code : ℤ) → RunError
  not_started : RunError

pub record Ran : Type 0 where
  pub out : Text
  pub err_out : Text
  pub failure : Option RunError

pub record InvokeResult : Type 0 where
  pub stdout : Text
  pub stderr : Text
  pub exit_code : ℤ
  pub failure : Option RunError

unfoldable pub is_positive : ℤ → Bool
is_positive (pos n) = if eqb n 0 then false else true
is_positive (negsuc n) = false

-- The loop over the environment, in the order in which it is given.
unfoldable pub env_args : Map Text → List Text
env_args [] = []
env_args (entry ∷ env) = codes "-e" ∷ (entry.0 ++ b'=' ∷ entry.1) ∷ env_args env

unfoldable pub timeout_or_default : ℤ → ℤ
timeout_or_default t = if is_positive t then t else pos 30

unfoldable pub add_one : ℤ → ℤ
add_one (pos n) = pos (n + 1)
add_one (negsuc n) = if eqb n 0 then pos 0 else negsuc (n - 1)

unfoldable pub docker_args : (image_uri : Text) → Map Text → (memory timeout : ℤ) → List Text
docker_args image_uri env memory timeout =
    codes "run"
    ∷ codes "--rm"
    ∷ codes "-i"
    ∷ codes "--read-only"
    ∷ codes "--stop-timeout"
    ∷ decimal_of_int (add_one (timeout_or_default timeout))
    ∷ ((if is_positive memory
          then codes "--memory" ∷ (decimal_of_int memory ++ codes "m") ∷ []
          else [])
        ++ (env_args env ++ image_uri ∷ []))

unfoldable pub exit_code_of : Option RunError → ℤ
exit_code_of none = pos 0
exit_code_of (some (exit_error code)) = code
exit_code_of (some not_started) = negsuc 0

unfoldable pub run :
    ((args : List Text) (input : Text) → Ran)
    → (image_uri event : Text) → Map Text
    → (memory timeout : ℤ) → InvokeResult
run docker image_uri event env memory timeout =
    let ran = docker (docker_args image_uri env memory timeout) event in
    record {
      stdout = ran.out;
      stderr = ran.err_out;
      exit_code = exit_code_of ran.failure;
      failure = ran.failure;
    }
