-- ===== src/Api/Client/Tests.antt =====
-- A consumer and a verifier that receive two messages, and a session in which one call is answered.
use p2pmq.Base.{ℕ, ◌≡◌, refl, true, [], ◌∷◌, none, some, string_key, nat_key, ◌⊎◌, IsIn}
use p2pmq.Base.Dict.{lookup, insert}
use p2pmq.Router.Queue.{pick}
use p2pmq.Proto.{ValidationResult, accept}
use p2pmq.Api.Outbox.{Message, new_outbox, take_next, try_send, send_next, listen, hang_up}
use p2pmq.Api.ValRouter.{
  Verdicts, leaving, new_val_router, push_wait, enqueue, await, expire, cancel, leave, find,
  resolve_to, resolve, stream, convert_result, pushing, enqueuing, awaiting, taking, listening,
  sending_at, resolving_at, step,
}
use p2pmq.Api.Client.Consumer as C
use p2pmq.Api.Client.Verifier as V
use p2pmq.Api.Client.Flow.{IsFlowing, consumer-IsFlowing}
use p2pmq.Api.Client.Verifying.{IsVerifying, verifier-IsVerifying}
use p2pmq.Api.Client.Session.{Session, Runs, rest, served, worked, heard, answered, new_session}
use p2pmq.Api.Answers.{Means}
use p2pmq.Api.Client.Judged.{push_wait-judged}

program : Unit {0}
unfolding lookup insert pick new_outbox take_next try_send send_next listen hang_up new_val_router
    push_wait enqueue await expire cancel leave find resolve_to resolve stream convert_result step
    C.start C.recv C.close C.take_msg C.handled C.done C.step V.start V.recv V.enqueue V.close
    V.process_next V.done V.step new_session
program = tt

abbrev consumed : C.MsgConsumer ℕ
consumed = record {
  msg_q = 8 ∷ [];
  receiving = true;
  looping = true;
  handling = some 7;
  received = 7 ∷ 8 ∷ [];
  queued = 7 ∷ 8 ∷ [];
  dropped = [];
  handed = 7 ∷ [];
}

run_to_consumed : C.Reach C.start consumed
unfolding program
run_to_consumed =
    C.next (C.next (C.next C.here (C.receives 7) refl) (C.receives 8) refl) C.takes refl

consumer-IsFlowing_example : IsFlowing consumed
consumer-IsFlowing_example = consumer-IsFlowing run_to_consumed

abbrev checked : V.ClientVerifier ℕ ℕ
checked = record {
  val_q = [];
  receiving = true;
  looping = true;
  held = some 8;
  received = 7 ∷ 8 ∷ [];
  taken = 7 ∷ [];
  sent = (7, 7) ∷ [];
}

run_to_checked : V.Reach (λ m. m) V.start checked
unfolding program
run_to_checked =
    V.next (V.next (V.next (V.next V.here (V.receives 7) refl) V.enqueues refl) V.processes refl)
      (V.receives 8) refl

verifier-IsVerifying_example : IsVerifying (λ m. m) checked
verifier-IsVerifying_example = verifier-IsVerifying (λ m. m) run_to_checked

abbrev a : Message
a = record { message_id = "a"; topic = "t"; bytes = [] }

abbrev toy : Verdicts
toy = record { Verdict = ℕ; validation_accept = 0; validation_reject = 1; validation_ignore = 2 }

abbrev all_fine : Message → ValidationResult
all_fine m = accept

abbrev judged_one : Session toy all_fine
judged_one = record {
  server = record {
    outbox = record {
      q_size = 2;
      q = [];
      idle = 1;
      sending = [];
      accepted = a ∷ [];
      taken = a ∷ [];
      delivered = a ∷ [];
    };
    results = ("a", some 0) ∷ [];
    resolving = [];
    waiters = (0, record { message = a; phase = leaving 0 }) ∷ [];
    calls = 1;
  };
  client = record {
    val_q = [];
    receiving = true;
    looping = true;
    held = none;
    received = a ∷ [];
    taken = a ∷ [];
    sent = (accept, a) ∷ [];
  };
}

run_to_judged : Runs toy all_fine (new_session toy all_fine 2) judged_one
unfolding program
run_to_judged =
    let called =
      served
        (served (served (served rest listening refl refl) (pushing a) refl refl) (enqueuing 0) refl
          refl)
        (awaiting 0) refl refl in
    let given = served (served called taking refl refl) (sending_at 0 true) refl refl in
    let validated =
      worked (worked (heard given 0 refl refl) V.enqueues refl refl) V.processes refl refl in
    served (answered validated 0 refl) (resolving_at 0) refl refl

-- What `all_fine` comes to.
abbrev verdict : ℕ
verdict = 0

push_wait-judged_example :
    (verdict ≡ 2)
    ⊎ ((m : Message) × (m.message_id ≡ "a") × Means toy (all_fine m) verdict × IsIn m (a ∷ []))
unfolding lookup
push_wait-judged_example = push_wait-judged toy all_fine 2 0 "a" 0 run_to_judged refl refl
