-- ===== src/Api/Client/Judged.antt =====
-- Where the results of `PushWait` come from in a session with a verifier.
use p2pmq.Base.{
  ℕ, zero, suc, ◌≡◌, refl, String, true, List, [], ◌∷◌, ◌++◌, some, Option-cases, ◌⊎◌, inl, inr,
  arith, ap, string_key, nat_key, IsIn, IsIn-append, IsIn-snoc, IsIn-map,
}
use mathlib.Core.Path.{subst}
use p2pmq.Router.Queue.{pick}
use p2pmq.Proto.{ValidationResult}
use p2pmq.Api.Outbox.{Message, Outbox}
use p2pmq.Api.ValRouter.{
  Verdicts, ValRouter, new_val_router, find, Op, pushing, enqueuing, awaiting, expiring,
  leaving_call, finding, resolving_at, taking, listening, hanging_up, sending_at, step,
}
use p2pmq.Api.Moves.{result}
use p2pmq.Api.Linked.{mid_of}
use p2pmq.Api.Answers.{Means, Answered, sent_in, IsTold, new-IsTold, find-IsTold, step-IsTold}
use p2pmq.Api.Client.Verifier as V
use p2pmq.Api.Client.Verifying.{IsVerifying, verifier-IsVerifying, with_result}
use p2pmq.Api.Client.Session.{
  Session, Runs, rest, served, worked, heard, answered, new_session, by_server, by_client,
  runs-client,
}
use p2pmq.Api.Client.Delivered.{IsGrown, step-IsGrown}

IsIn-pick :
    {A : Type 0} (i : ℕ) (x : A) (xs others : List A) → pick i xs ≡ some (x, others) → IsIn x xs
unfolding pick
IsIn-pick i x [] others e = absurd (ground arith)
IsIn-pick zero x (y ∷ ys) others e = inl (ground arith)
IsIn-pick (suc i) x (y ∷ ys) others e = elim (Option-cases (pick i ys)) [
  | inl z ↦ absurd (ground arith)
  | inr ((w, ws), z) ↦ inr (IsIn-pick i x ys ws (ground arith))
]

module _ (v : Verdicts) (validator : Message → ValidationResult) where
  sent_in-server :
      (o : Op v) (answers : List (String × ValidationResult))
      → by_server v validator o ≡ true
      → sent_in v o answers ≡ answers
  sent_in-server (finding mid res) answers b = absurd (ground arith)
  sent_in-server (pushing m) answers b = refl
  sent_in-server (enqueuing n) answers b = refl
  sent_in-server (awaiting n) answers b = refl
  sent_in-server (expiring n) answers b = refl
  sent_in-server (leaving_call n) answers b = refl
  sent_in-server (resolving_at i) answers b = refl
  sent_in-server taking answers b = refl
  sent_in-server listening answers b = refl
  sent_in-server hanging_up answers b = refl
  sent_in-server (sending_at i works) answers b = refl

  -- The results that get through in a session, with their message ids.
  abbrev answers_in :
      {r s : Session v validator} → Runs v validator r s → List (String × ValidationResult)
  answers_in rest = []
  answers_in (served k o b e) = answers_in k
  answers_in (worked k o b e) = answers_in k
  answers_in (heard k i d e) = answers_in k
  answers_in (answered {res = res} {m = m} k i d) = (m.message_id, res) ∷ answers_in k

  -- What is known of the messages and results in a session.
  record IsHonest (answers : List (String × ValidationResult)) (s : Session v validator)
      : Type 0 where
    traced : IsTold v answers s.server
    genuine : (m : Message) → IsIn m s.client.received → IsIn m s.server.outbox.delivered
    judged :
        (mid : String) (x : v.Verdict)
        → Answered v mid x answers
        → (m : Message) × (m.message_id ≡ mid)
          × Means v (validator m) x
          × IsIn m s.server.outbox.delivered

  grown-IsIn :
      (m : Message) (a b : Outbox) → IsGrown v a b → IsIn m a.delivered → IsIn m b.delivered
  grown-IsIn m a b (inl e) h = rw e h
  grown-IsIn m a b (inr (x, e)) h = rw e (IsIn-append m a.delivered (x ∷ []) h)

  -- A result that the verifier sent is the validator's, for a message that it received.
  sent-IsIn :
      (c : V.ClientVerifier Message ValidationResult) (res : ValidationResult) (m : Message)
      → IsVerifying validator c
      → IsIn (res, m) c.sent
      → (res ≡ validator m) × IsIn m c.received
  sent-IsIn c res m h k =
      let (x, e, l) =
        IsIn-map (with_result validator) (res, m) c.taken (subst (IsIn (res, m)) h.verdicts k) in
      (
        ground arith,
        subst (IsIn m) h.order (
            IsIn-append m (c.taken ++ c.val_q) h.ahead
              (IsIn-append m c.taken c.val_q (subst (λ y. IsIn y c.taken) (ap (λ y. y.1) e) l))),
      )

  served-IsHonest :
      {answers : List (String × ValidationResult)} (s : Session v validator) (o : Op v)
      (t : ValRouter v)
      → by_server v validator o ≡ true
      → step v o s.server ≡ some t
      → IsHonest answers s
      → IsHonest answers (record s { server = t })
  served-IsHonest {answers} s o t b e h =
      let grown : (m : Message) → IsIn m s.server.outbox.delivered → IsIn m t.outbox.delivered =
        λ m. grown-IsIn m s.server.outbox t.outbox (step-IsGrown v o s.server t e) in
      record {
        traced =
            subst (λ l. IsTold v l t) (sent_in-server o answers b)
              (step-IsTold v o s.server t e h.traced);
        genuine = λ m k. grown m (h.genuine m k);
        judged = λ mid x k.
            let (m, same, judged, from) = h.judged mid x k in (m, same, judged, grown m from);
      }

  -- A client's step adds nothing to what it received but a message that gets through.
  worked-IsHonest :
      {answers : List (String × ValidationResult)} (s : Session v validator) (o : V.Op Message)
      (c : V.ClientVerifier Message ValidationResult)
      → by_client v validator o ≡ true
      → V.step validator o s.client ≡ some c
      → IsHonest answers s
      → IsHonest answers (record s { client = c })
  unfolding V.step V.enqueue V.close V.process_next V.done
  worked-IsHonest s o c b e h = record {
    traced = h.traced;
    genuine = λ m k. h.genuine m (subst (IsIn m) (same o b e) k);
    judged = h.judged;
  }
    where
      same :
          (o : V.Op Message)
          → by_client v validator o ≡ true
          → V.step validator o s.client ≡ some c
          → c.received ≡ s.client.received
      same (V.receives m) b e = absurd (ground arith)
      same V.enqueues b e = ground arith
      same V.closes b e = ground arith
      same V.processes b e = ground arith
      same V.stops b e = ground arith

  heard-IsHonest :
      {answers : List (String × ValidationResult)} (s : Session v validator) (m : Message)
      (c : V.ClientVerifier Message ValidationResult)
      → IsIn m s.server.outbox.delivered
      → V.step validator (V.receives m) s.client ≡ some c
      → IsHonest answers s
      → IsHonest answers (record s { client = c })
  unfolding V.step V.recv
  heard-IsHonest s m c d e h = record {
    traced = h.traced;
    genuine = λ x k. elim (IsIn-snoc x m s.client.received (subst (IsIn x) more k)) [
      | inl f ↦ subst (λ y. IsIn y s.server.outbox.delivered) f d
      | inr l ↦ h.genuine x l
    ];
    judged = h.judged;
  }
    where
      more : c.received ≡ s.client.received ++ (m ∷ [])
      more = ground arith

  answered-IsHonest :
      {answers : List (String × ValidationResult)} (s : Session v validator)
      (res : ValidationResult) (m : Message)
      → (res ≡ validator m) × IsIn m s.client.received
      → IsHonest answers s
      → IsHonest
          ((m.message_id, res) ∷ answers)
          (record s { server = find v m.message_id res s.server })
  unfolding find
  answered-IsHonest s res m (valid, got) h = record {
    traced = find-IsTold v m.message_id res s.server h.traced;
    genuine = λ x k. rw same_outbox (h.genuine x k);
    judged = λ mid x k. elim k [
      | inl (same, means) ↦
          (m, same, subst (λ a. Means v a x) valid means, rw same_outbox (h.genuine m got))
      | inr old ↦
          let (y, same, judged, from) = h.judged mid x old in (y, same, judged, rw same_outbox from)
    ];
  }
    where
      same_outbox : (find v m.message_id res s.server).outbox ≡ s.server.outbox
      same_outbox = ground arith

  Runs-IsHonest :
      (q_size : ℕ) {s : Session v validator}
      (k : Runs v validator (new_session v validator q_size) s)
      → IsHonest (answers_in k) s
  unfolding new_session new_val_router V.start
  Runs-IsHonest q_size rest = record {
    traced = new-IsTold v q_size;
    genuine = λ m k. absurd k;
    judged = λ mid x k. absurd k;
  }
  Runs-IsHonest q_size (served {s = s} {t = t} k o b e) =
      served-IsHonest s o t b e (Runs-IsHonest q_size k)
  Runs-IsHonest q_size (worked {s = s} {c = c} k o b e) =
      worked-IsHonest s o c b e (Runs-IsHonest q_size k)
  Runs-IsHonest q_size (heard {s = s} {c = c} {m = m} {others = others} k i d e) =
      heard-IsHonest s m c (IsIn-pick i m s.server.outbox.delivered others d) e
        (Runs-IsHonest q_size k)
  Runs-IsHonest q_size (answered {s = s} {res = res} {m = m} {others = others} k i d) =
      answered-IsHonest s res m
        (sent-IsIn s.client res m
          (verifier-IsVerifying validator (runs-client v validator q_size k))
          (IsIn-pick i (res, m) s.client.sent others d))
        (Runs-IsHonest q_size k)

  -- In any order of steps of a validation router and of a verifier that is its client, where gRPC
  -- makes up no message and no result, a result of a call of PushWait is ignore, or there is a
  -- message with the id of that call which the router delivered and of which the verifier's
  -- validator says accept, where the result is accept, or reject, where it is reject; where the
  -- validator says ignore or nil the result is ignore.
  pub push_wait-judged :
      (q_size n : ℕ) (mid : String) (res : v.Verdict) {s : Session v validator}
      → Runs v validator (new_session v validator q_size) s
      → mid_of v n s.server ≡ some mid
      → result v n s.server ≡ some res
      → (res ≡ v.validation_ignore)
        ⊎ ((m : Message) × (m.message_id ≡ mid)
            × Means v (validator m) res
            × IsIn m s.server.outbox.delivered)
  push_wait-judged q_size n mid res k mine e =
      let h = Runs-IsHonest q_size k in
      elim (h.traced.told n mid res mine e) [
        | inl i ↦ inl i
        | inr sent ↦ inr (h.judged mid res sent)
      ]
