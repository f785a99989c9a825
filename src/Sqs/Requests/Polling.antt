-- ===== src/Sqs/Requests/Polling.antt =====
-- The loop of receiveMessage of internal/sqs/handler.go and of jsonReceiveMessage of json.go: it asks
-- the manager until there are messages, an error, or no time left.
use twister_aws.Base.{
  ℕ, zero, suc, ◌+◌, ◌*◌, Text, Bool, Option, none, some, [], ◌||◌, eqb, ltb, length, if◌then◌else◌,
}
use twister_aws.Base.Int.{ℤ, pos, negsuc}
use twister_aws.Sqs.{Manager, Error, ok, err, receive_message}
use twister_aws.Sqs.Requests.{Env, Waiting, Reply, received, Answer, answer}

-- The arguments of ReceiveMessage, and the seconds to wait.
pub record Asked : Type 0 where
  pub region : Text
  pub name : Text
  pub max : ℤ
  pub visibility : Option ℤ
  pub wait : ℕ

-- time.Now().After(deadline) after the attempt `i`
unfoldable pub is_over : Waiting → Asked → ℕ → Bool
is_over w a i = eqb a.wait 0 || ltb (w.start + a.wait * 1000) (w.after i)

-- The attempts from `i` on, which finds `m`; `fuel` at most. None where the loop goes on after them.
unfoldable pub poll :
    Env → Waiting → (Error → Reply) → Asked → (fuel i : ℕ) → Manager → Option Answer
poll env w fault a zero i m = none
poll env w fault a (suc fuel) i m =
    let next = poll env w fault a fuel (suc i) (w.found (suc i)) in
    elim (receive_message env.md5 env.handles env.written env.hook a.region a.name a.max
      a.visibility m) [
        | err e ↦ some (answer (fault e) m)
        | ok r ↦
            if ltb 0 (length r.out)
            then some (record { reply = received r.out; manager = r.manager; hooked = r.hooked })
            else if is_over w a i
            then some (answer (received []) r.manager)
            else next
      ]

-- Each attempt but the last is followed by a sleep of 200 milliseconds, and the wait is 20 seconds at
-- most.
abbrev pub attempts : ℕ
attempts = 102

-- maxN
unfoldable pub max_of : Option ℤ → ℤ
max_of none = pos 1
max_of (some (negsuc n)) = pos 1
max_of (some (pos n)) = if ltb 0 n then pos n else pos 1

-- waitSec
unfoldable pub wait_of : Option ℤ → ℕ
wait_of none = 0
wait_of (some (negsuc n)) = 0
wait_of (some (pos n)) = if ltb 20 n then 20 else n
