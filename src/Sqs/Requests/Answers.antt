-- ===== src/Sqs/Requests/Answers.antt =====
-- Every request is answered: the loops of internal/sqs/handler.go and json.go end.
pub mod FormReplies
pub mod JsonReplies
pub mod All
use twister_aws.Base.{
  ℕ, zero, suc, ◌+◌, ◌*◌, ◌≤◌, Text, codes, ◌≡◌, refl, Bool, true, false, Option, none, some, List,
  [], ◌∷◌, length, ltb, Bool-cases, inl, inr, if_lem, bool_lem, option_lem, arith, if◌then◌else◌,
  ◌==◌,
}
use twister_aws.Base.Int.{ℤ, pos, negsuc}
use twister_aws.Sqs.{
  Message, Manager, Error, Result, ok, err, receive_message, Received, result_lem,
}
use twister_aws.Sqs.Bounds.{receive_message_few}
use twister_aws.Sqs.Requests.{
  Env, Waiting, Reply, received, queue_url, queue_urls, sent, empty, failed, Answer, answer,
}
use twister_aws.Base.{get_first, not}
use twister_aws.Sqs.{is_valid_queue_name}
use twister_aws.Sqs.Requests.{map_manager_err, map_queue_err}
use twister_aws.Sqs.Requests.Urls.{parse_queue_name_from_queue_url, unescaped}
use twister_aws.Sqs.Requests.Forms.{
  Form, form_create_queue, form_send_message, form_receive_message, form_queue_err, number_at,
}
use twister_aws.Sqs.Requests.Polling.{Asked, is_over, poll, attempts, wait_of}

-- The clock does not go back, and a sleep of 200 milliseconds takes at least as long.
pub record IsClock (w : Waiting) : Type 0 where
  pub slept : (i : ℕ) → w.start + 200 * i ≤ w.after i

abbrev pub count_of : Reply → ℕ
count_of (received ms) = length ms
count_of _ = 0

-- There is an answer, with ten messages at most.
pub record IsAnswered (o : Option Answer) : Type 0 where
  pub given : Answer
  pub is_given : o ≡ some given
  pub few : count_of given.reply ≤ 10

pub answered : (a : Answer) → count_of a.reply ≤ 10 → IsAnswered (some a)
answered a h = record { given = a; is_given = refl; few = h }

pub poll-IsAnswered :
    (env : Env) (w : Waiting) (fault : Error → Reply) (a : Asked) (fuel i : ℕ) (m : Manager)
    → ((e : Error) → count_of (fault e) ≤ 10)
    → IsClock w
    → a.wait ≤ 20
    → i ≤ 101
    → 102 ≤ fuel + i
    → IsAnswered (poll env w fault a fuel i m)
unfolding poll is_over
poll-IsAnswered env w fault a zero i m plain clock short early enough = absurd (omega arith)
poll-IsAnswered env w fault a (suc fuel) i m plain clock short early enough =
    result_lem IsAnswered
      (receive_message env.md5 env.handles env.written env.hook a.region a.name a.max a.visibility
        m)
      (λ r e.
        if_lem IsAnswered (ltb 0 (length r.out))
          (λ t. answered _ (
            receive_message_few env.md5 env.handles env.written env.hook a.region a.name a.max
              a.visibility m r e))
          λ f.
            if_lem IsAnswered (is_over w a i) (λ t. answered _ (omega arith))
              λ g.
                poll-IsAnswered env w fault a fuel (suc i) (w.found (suc i)) plain clock short
                  (later g) (omega arith))
      (λ e h. answered _ (plain e))
  where
    later : is_over w a i ≡ false → suc i ≤ 101
    later g = ground (arith, clock.slept i)

pub wait_of_short : (o : Option ℤ) → wait_of o ≤ 20
unfolding wait_of
wait_of_short none = omega arith
wait_of_short (some (negsuc n)) = omega arith
wait_of_short (some (pos n)) = ground arith

pub record IsFew (a : Answer) : Type 0 where
  pub few : count_of a.reply ≤ 10

pub map_manager_err_few :
    (parameter failure : Text) (e : Error) → count_of (map_manager_err parameter failure e) ≤ 10
unfolding map_manager_err
map_manager_err_few parameter failure e = ground arith

pub map_queue_err_few :
    (missing parameter failure : Text) (e : Error)
    → count_of (map_queue_err missing parameter failure e) ≤ 10
unfolding map_queue_err
map_queue_err_few missing parameter failure e =
    ground (arith, map_manager_err_few parameter failure e)

pub plain : (a : Answer) → count_of a.reply ≡ 0 → IsFew a
plain a h = record { few = omega (arith, h) }
