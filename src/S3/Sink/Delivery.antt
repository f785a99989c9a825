-- ===== src/S3/Sink/Delivery.antt =====
-- What a queue holds after the events of S3 were handed over: cmd/twister/main.go.
use twister_aws.Base.{
  ℕ, suc, Text, ◌≡◌, ◌≢◌, refl, ◌∙◌, ap, subst, Bool, true, false, some, List, [], ◌∷◌, ◌++◌,
  append-nil, append_assoc, ◌==◌, eq_iff, lookup, insert, lookup-insert, eq_refl, ◌↔◌, Bool-cases,
  inl, inr, arith, if◌then◌else◌,
}
use twister_aws.Base.Results.{ok, err, bind_ok, then_ok, Result-cases}
use twister_aws.Base.Strings.{hex_encode}
use twister_aws.S3.Notify.{Event}
use twister_aws.S3.Sink.{enqueue_s3_event, deliver}
use twister_aws.Sqs
use twister_aws.Base.Json.{json_text}
use twister_aws.Sqs.{StoredMsg, messages, queue_path, read_file, write_file, send_message}
use twister_aws.Sqs.Queues.{read_file_found, write_file_lem}

queue_path_root :
    (region name : Text) (q q' : Sqs.Manager)
    → q'.root ≡ q.root
    → queue_path region name q' ≡ queue_path region name q
unfolding queue_path
queue_path_root region name q q' e = rw e refl

-- Whether a path that queue_path gives is this one.
unfoldable pub is_ok_of : (p : Text) → Sqs.Result Text → Bool
is_ok_of p (ok o) = o == p
is_ok_of p (err e) = false

is_ok_of_iff : (p : Text) (r : Sqs.Result Text) → (is_ok_of p r ≡ true) ↔ (r ≡ ok p)
unfolding is_ok_of
is_ok_of_iff p (ok o) = (λ t. ap (λ y. ok y) ((eq_iff o p).0 t), λ k. ground (arith, k, eq_refl p))
is_ok_of_iff p (err e) = (λ t. ground (arith, t), λ k. ground (arith, k))

module _ (md5 : Text → Text) (ids : ℕ → Text) (to_json : Event → Text) where
  enqueue_of_send :
      (written : Bool) (id region name body a d : Text) (q q' : Sqs.Manager)
      → send_message md5 written id region name body q ≡ ok (a, d, q')
      → enqueue_s3_event md5 written id region name body q ≡ ok q'
  unfolding enqueue_s3_event
  enqueue_of_send written id region name body a d q q' h = then_ok _ _ h refl

  send_there :
      (id region name body p : Text) (ms : List StoredMsg) (q : Sqs.Manager)
      → queue_path region name q ≡ ok p
      → lookup p q.files ≡ some (messages ms)
      → send_message md5 true id region name body q
        ≡ ok (
          id,
          hex_encode (md5 body),
          record q {
            files =
                insert p (messages (ms ++ record { id = id; body = json_text body } ∷ [])) q.files;
          },
        )
  unfolding send_message write_file
  send_there id region name body p ms q path there =
      then_ok _ _ path (then_ok _ _ (read_file_found p ms q there) refl)

  -- An event for a queue that is there.
  enqueue_there :
      (id region name body p : Text) (ms : List StoredMsg) (q : Sqs.Manager)
      → queue_path region name q ≡ ok p
      → lookup p q.files ≡ some (messages ms)
      → (q' : Sqs.Manager) × (enqueue_s3_event md5 true id region name body q ≡ ok q')
        × (lookup p q'.files
            ≡ some (messages (ms ++ record { id = id; body = json_text body } ∷ [])))
        × (q'.root ≡ q.root)
  enqueue_there id region name body p ms q path there =
      let new = messages (ms ++ record { id = id; body = json_text body } ∷ []) in
      let after : Sqs.Manager = record q { files = insert p new q.files } in
      (
        after,
        enqueue_of_send true id region name body id (hex_encode (md5 body)) q after
            (send_there id region name body p ms q path there),
        rw (lookup-insert p p new q.files, eq_refl p) refl,
        refl,
      )

  -- An event for another queue, or for none.
  enqueue_elsewhere :
      (id region name body p : Text) (q q' : Sqs.Manager)
      → queue_path region name q ≢ ok p
      → enqueue_s3_event md5 true id region name body q ≡ ok q'
      → (lookup p q'.files ≡ lookup p q.files) × (q'.root ≡ q.root)
  unfolding enqueue_s3_event send_message
  enqueue_elsewhere id region name body p q q' apart h =
      bind_ok (send_message md5 true id region name body q) _ h λ sent sends same.
        bind_ok (queue_path region name q) _ sends λ o path sends'.
          bind_ok (read_file o q) _ sends' λ ms read sends''.
            bind_ok (write_file true o (ms ++ record { id = id; body = json_text body } ∷ []) q) _
              sends''
              λ after wrote end.
                let others =
                  (write_file_lem o (ms ++ record { id = id; body = json_text body } ∷ []) q after
                    true wrote).1 in
                let one : (id, hex_encode (md5 body), after) ≡ sent = cc in
                let two : sent.2 ≡ q' = cc in
                let e : after ≡ q' = ap (λ (t : Text × Text × Sqs.Manager). t.2) one ∙ two in
                let other : o ≢ p = λ x. apart (path ∙ ap (λ t. ok t) x) in
                (
                  subst (λ x. lookup p x.files ≡ lookup p q.files) e (others.files p other),
                  subst (λ x. x.root ≡ q.root) e others.root,
                )

  -- The events for the queue whose file is at a path, as the messages that carry them.
  unfoldable pub sent_to : (p : Text) → ℕ → List Event → Sqs.Manager → List StoredMsg
  sent_to p i [] q = []
  sent_to p i (e ∷ es) q =
      let rest = sent_to p (suc i) es q in
      if is_ok_of p (queue_path e.sqs_region e.queue_name q)
      then record { id = ids i; body = json_text (to_json e) } ∷ rest
      else rest

  sent_to_root :
      (p : Text) (i : ℕ) (es : List Event) (q q' : Sqs.Manager)
      → q'.root ≡ q.root
      → sent_to p i es q' ≡ sent_to p i es q
  unfolding sent_to
  sent_to_root p i [] q q' h = refl
  sent_to_root p i (e ∷ es) q q' h =
      rw (queue_path_root e.sqs_region e.queue_name q q' h, sent_to_root p (suc i) es q q' h) refl

  sent_here :
      (p : Text) (i : ℕ) (e : Event) (es : List Event) (q : Sqs.Manager)
      → is_ok_of p (queue_path e.sqs_region e.queue_name q) ≡ true
      → sent_to p i (e ∷ es) q
        ≡ record { id = ids i; body = json_text (to_json e) } ∷ sent_to p (suc i) es q
  unfolding sent_to
  sent_here p i e es q t = rw t refl

  sent_elsewhere :
      (p : Text) (i : ℕ) (e : Event) (es : List Event) (q : Sqs.Manager)
      → is_ok_of p (queue_path e.sqs_region e.queue_name q) ≡ false
      → sent_to p i (e ∷ es) q ≡ sent_to p (suc i) es q
  unfolding sent_to
  sent_elsewhere p i e es q f = rw f refl

  deliver_none : (i : ℕ) (q : Sqs.Manager) → deliver md5 true ids to_json i [] q ≡ q
  unfolding deliver
  deliver_none i q = refl

  sent_none : (p : Text) (i : ℕ) (q : Sqs.Manager) → sent_to p i [] q ≡ []
  unfolding sent_to
  sent_none p i q = refl

  deliver_ok :
      (i : ℕ) (e : Event) (es : List Event) (q after : Sqs.Manager)
      → enqueue_s3_event md5 true (ids i) e.sqs_region e.queue_name (to_json e) q ≡ ok after
      → deliver md5 true ids to_json i (e ∷ es) q ≡ deliver md5 true ids to_json (suc i) es after
  unfolding deliver
  deliver_ok i e es q after h = rw (h, deliver) refl

  deliver_err :
      (i : ℕ) (e : Event) (es : List Event) (q : Sqs.Manager) (x : Sqs.Error)
      → enqueue_s3_event md5 true (ids i) e.sqs_region e.queue_name (to_json e) q ≡ err x
      → deliver md5 true ids to_json i (e ∷ es) q ≡ deliver md5 true ids to_json (suc i) es q
  unfolding deliver
  deliver_err i e es q x h = rw (h, deliver) refl

  -- The events of a PUT, handed to SQS one after another where its files can be written: a queue that is
  -- there holds its old messages, and then one message for each event whose ARN names that queue, in the order
  -- of the events; its body is the event's text, in which what is no UTF-8 is U+FFFD. Events for other queues, or for none, change nothing in it.
  pub deliver_lem :
      (p : Text) (ms : List StoredMsg) (i : ℕ) (es : List Event) (q : Sqs.Manager)
      → lookup p q.files ≡ some (messages ms)
      → lookup p (deliver md5 true ids to_json i es q).files
        ≡ some (messages (ms ++ sent_to p i es q))
  deliver_lem p ms i [] q there = rw (deliver_none i q, sent_none p i q, append-nil ms) there
  deliver_lem p ms i (e ∷ es) q there =
      elim (Bool-cases (is_ok_of p (queue_path e.sqs_region e.queue_name q))) [
        | inl t ↦
            let path = (is_ok_of_iff p (queue_path e.sqs_region e.queue_name q)).0 t in
            let (after, sends, now, root) =
              enqueue_there (ids i) e.sqs_region e.queue_name (to_json e) p ms q path there in
            let new : List StoredMsg = record { id = ids i; body = json_text (to_json e) } ∷ [] in
            let rest = deliver_lem p (ms ++ new) (suc i) es after now in
            rw
              (
                deliver_ok i e es q after sends,
                rest,
                sent_here p i e es q t,
                sent_to_root p (suc i) es q after root,
                append_assoc ms new (sent_to p (suc i) es q),
              )
              refl
        | inr f ↦
            let apart : queue_path e.sqs_region e.queue_name q ≢ ok p = λ k.
              ground (arith, f, (is_ok_of_iff p (queue_path e.sqs_region e.queue_name q)).1 k) in
            elim (Result-cases
              (enqueue_s3_event md5 true (ids i) e.sqs_region e.queue_name (to_json e) q)) [
                | inl (after, sends) ↦
                    let (same, root) =
                      enqueue_elsewhere (ids i) e.sqs_region e.queue_name (to_json e) p q after
                        apart sends in
                    let rest = deliver_lem p ms (suc i) es after (same ∙ there) in
                    rw
                      (
                        deliver_ok i e es q after sends,
                        rest,
                        sent_elsewhere p i e es q f,
                        sent_to_root p (suc i) es q after root,
                      )
                      refl
                | inr (x, fails) ↦
                    rw
                      (
                        deliver_err i e es q x fails,
                        deliver_lem p ms (suc i) es q there,
                        sent_elsewhere p i e es q f,
                      )
                      refl
              ]
      ]
