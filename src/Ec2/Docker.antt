-- ===== src/Ec2/Docker.antt =====
-- internal/ec2/docker.go: the docker commands. A call gives what it returns and the world with the
-- command in the list of those that were run.
use twister_aws.Base.{
  Text, codes, Bool, true, false, ◌||◌, Option, none, some, List, [], ◌∷◌, ◌++◌, if◌then◌else◌,
}
use twister_aws.Base.Strings.{to_lower, trim_space, after_first}
use twister_aws.Ec2.{World, Env, Ran}

unfoldable pub docker_exec : Env → List Text → World → Ran × World
docker_exec env args w = (env.docker w.commands args, record w { commands = args ∷ w.commands })

-- strings.Contains(strings.ToLower(s), "no such container")
unfoldable pub says_no_such_container : Text → Bool
says_no_such_container s = elim (after_first (codes "no such container") (to_lower s)) [
  | none ↦ false
  | some t ↦ true
]

unfoldable pub publish_args : List Text → List Text
publish_args [] = []
publish_args (p ∷ ps) = codes "-p" ∷ p ∷ publish_args ps

-- The result tells whether there was no error, here and in the next two.
unfoldable pub docker_run_detached :
    Env → Text → Text → List Text → List Text → World → Bool × World
unfolding publish_args
docker_run_detached env name image cmd publish w =
    let (ran, w') =
      docker_exec env
        (codes "run" ∷ codes "-d" ∷ codes "--name" ∷ name ∷ (publish_args publish ++ image ∷ cmd))
        w in
    (ran.succeeded, w')

unfoldable pub docker_pull : Env → Text → World → Bool × World
docker_pull env image w =
    let (ran, w') = docker_exec env (codes "pull" ∷ image ∷ []) w in (ran.succeeded, w')

-- A container that is not there counts as stopped.
unfoldable pub docker_stop_only : Env → Text → World → Bool × World
docker_stop_only env name w =
    let (ran, w') = docker_exec env (codes "stop" ∷ name ∷ []) w in
    (ran.succeeded || says_no_such_container ran.output, w')

-- The callers ignore what it returns.
unfoldable pub docker_stop_remove : Env → Text → World → World
docker_stop_remove env name w =
    let (_, w') = docker_exec env (codes "stop" ∷ name ∷ []) w in
    let (_, w'') = docker_exec env (codes "rm" ∷ name ∷ []) w' in w''

-- The text of the error, if there is one.
unfoldable pub docker_start : Env → Text → World → Option Text × World
docker_start env name w =
    let (ran, w') = docker_exec env (codes "start" ∷ name ∷ []) w in
    (
      if ran.succeeded
          then none
          else some (
              codes "docker start "
              ++ (name
                  ++ (codes ": "
                      ++ (ran.error ++ (codes " (" ++ (trim_space ran.output ++ codes ")")))))),
      w',
    )
