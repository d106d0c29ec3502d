-- ===== src/Api/Tests.antt =====
-- Outboxes and validation routers with room for two messages, and the theorems at their states.
use p2pmq.Base.{ℕ, ◌≡◌, ◌≢◌, refl, true, [], ◌∷◌, none, some, arith, string_key, nat_key, ◌⊎◌}
use p2pmq.Base.Dict.{lookup, insert}
use p2pmq.Router.Queue.{pick}
use p2pmq.Proto.{accept}
use p2pmq.Api.Outbox.{
  Message, Outbox, new_outbox, take_next, try_send, push, send_next, listen, hang_up,
}
use p2pmq.Api.Order.{IsOrdered, Reach-IsOrdered}
use p2pmq.Api.ValRouter.{
  Verdicts, added, leaving, returned, ValRouter, new_val_router, push_wait, enqueue, await, expire,
  cancel, leave, find, resolve_to, resolve, stream, convert_result, pushing, enqueuing, awaiting,
  expiring, finding, resolving_at, step, Reach, here, next,
}
use p2pmq.Api.Moves.{result}
use p2pmq.Api.Answers.{Answered, push_wait-Answered}
use p2pmq.Api.Duplicates.{duplicate_unanswered}
use p2pmq.Api.Outbox as O

abbrev a : Message
a = record { message_id = "a"; topic = "t"; bytes = [] }

abbrev b : Message
b = record { message_id = "b"; topic = "t"; bytes = [] }

program : Unit {0}
unfolding lookup insert pick new_outbox take_next try_send push send_next listen hang_up
    new_val_router push_wait enqueue await expire cancel leave find resolve_to resolve stream
    convert_result step O.step
program = tt

-- Of two messages one was sent, and one waits.
abbrev one_sent : Outbox
one_sent = record {
  q_size = 2;
  q = b ∷ [];
  idle = 1;
  sending = [];
  accepted = a ∷ b ∷ [];
  taken = a ∷ [];
  delivered = a ∷ [];
}

run_to_one_sent : O.Reach (new_outbox 2) one_sent
unfolding program
run_to_one_sent =
    O.next
      (O.next (O.next (O.next (O.next O.here (O.pushing a) refl) (O.pushing b) refl) O.listens refl)
        O.takes refl)
      (O.sends 0 true) refl

Reach-IsOrdered_example : IsOrdered 2 one_sent
Reach-IsOrdered_example = Reach-IsOrdered 2 run_to_one_sent

abbrev toy : Verdicts
toy = record { Verdict = ℕ; validation_accept = 0; validation_reject = 1; validation_ignore = 2 }

-- What a client accepts with.
abbrev verdict : ℕ
verdict = 0

verdict_counts : verdict ≢ 2
verdict_counts e = omega arith

abbrev Net : Type 0
Net = ValRouter toy

abbrev with_a : Outbox
with_a = record {
  q_size = 2;
  q = a ∷ [];
  idle = 0;
  sending = [];
  accepted = a ∷ [];
  taken = [];
  delivered = [];
}

-- A call that a client's answer has reached.
abbrev accepted_one : Net
accepted_one = record {
  outbox = with_a;
  results = ("a", some 0) ∷ [];
  resolving = [];
  waiters = (0, record { message = a; phase = leaving 0 }) ∷ [];
  calls = 1;
}

run_to_accepted : Reach toy (new_val_router toy 2) accepted_one
unfolding program
run_to_accepted =
    next
      (next (next (next (next here (pushing a) refl) (enqueuing 0) refl) (awaiting 0) refl)
        (finding "a" accept) refl)
      (resolving_at 0) refl

push_wait-Answered_example :
    (verdict ≡ toy.validation_ignore) ⊎ Answered toy "a" verdict (("a", accept) ∷ [])
unfolding lookup run_to_accepted
push_wait-Answered_example = push_wait-Answered toy 2 0 "a" verdict run_to_accepted refl refl

-- A call, and then a second one with its message id.
abbrev open_one : Net
open_one = record {
  outbox = new_outbox 2;
  results = ("a", some 0) ∷ [];
  resolving = [];
  waiters = (0, record { message = a; phase = added }) ∷ [];
  calls = 1;
}

run_to_open : Reach toy (new_val_router toy 2) open_one
unfolding program
run_to_open = next here (pushing a) refl

abbrev expired : Net
expired = record {
  outbox = with_a;
  results = ("a", some 1) ∷ [];
  resolving = [];
  waiters =
      (0, record { message = a; phase = leaving 2 })
      ∷ (1, record { message = a; phase = added })
      ∷ [];
  calls = 2;
}

run_to_expired : Reach toy (push_wait toy a open_one) expired
unfolding program
run_to_expired = next (next (next here (enqueuing 0) refl) (awaiting 0) refl) (expiring 0) refl

duplicate_unanswered_example : result toy 0 expired ≢ some verdict
unfolding lookup
duplicate_unanswered_example =
    duplicate_unanswered toy 2 0 a run_to_open refl refl refl run_to_expired verdict verdict_counts

run_to_both : Reach toy (new_val_router toy 2) expired
unfolding program
run_to_both =
    next
      (next (next (next (next here (pushing a) refl) (pushing a) refl) (enqueuing 0) refl)
        (awaiting 0) refl)
      (expiring 0) refl

-- The first call has left, and a client's answer for the second comes to nothing.
abbrev left : Net
left = record expired {
  results = ("a", none) ∷ [];
  waiters =
      (0, record { message = a; phase = returned 2 })
      ∷ (1, record { message = a; phase = added })
      ∷ [];
}

leave_first : leave toy 0 expired ≡ some left
unfolding program
leave_first = refl

abbrev both_expired : Net
both_expired = record left {
  outbox = record with_a { q = a ∷ a ∷ []; accepted = a ∷ a ∷ [] };
  waiters =
      (0, record { message = a; phase = returned 2 })
      ∷ (1, record { message = a; phase = leaving 2 })
      ∷ [];
}

run_to_both_expired : Reach toy left both_expired
unfolding program
run_to_both_expired =
    next
      (next (next (next (next here (enqueuing 1) refl) (awaiting 1) refl) (finding "a" accept) refl)
        (resolving_at 0) refl)
      (expiring 1) refl
