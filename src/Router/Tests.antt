-- ===== src/Router/Tests.antt =====
-- A router with one worker and room for two, and the theorems at its states.
use p2pmq.Base.{ℕ, ◌+◌, ◌<◌, ◌≤◌, arith, ◌≡◌, ◌≢◌, refl, String, true, [], ◌∷◌, some, nat_key}
use p2pmq.Base.Dict.{lookup, insert}
use p2pmq.Router.Queue.{
  MsgWrapper, MsgRouter, calling, receiving, got, handle, handle_wait, await, expire, receive, send,
  pick, callback, dispatch_msg, finish, start, stop, refresh, refreshed, new_msg_router, queue_full,
}
use p2pmq.Router.Steps.{
  handling_wait, awaiting, dispatching, finishing, receives, starts, step, Reach, here, next,
}
use p2pmq.Router.Bounds.{IsBounded, Reach-IsBounded}
use p2pmq.Router.Work.{Works, work, Works-le-work}
use p2pmq.Router.Drain.{handled_eventually}
use p2pmq.Router.Accounts.{places, occurs_handled, Reach-IsAccounted}
use p2pmq.Router.Callers.{Answered, handle_wait-Answered}
use p2pmq.Router.Lost.{early_answer_lost}

abbrev Net : Type 0
Net = MsgRouter String ℕ

program : Unit {0}
unfolding new_msg_router receive send handle handle_wait await expire callback pick dispatch_msg
    finish start stop refresh refreshed step lookup insert
program = tt

abbrev w0 : MsgWrapper String
w0 = record { number = 0; msg = "a"; has_callback = true }

-- One call of `HandleWait`, received and dispatched.
abbrev running : Net
running = record {
  q_size = 2;
  workers = 1;
  q = [];
  idle = 1;
  held = [];
  busy = w0 ∷ [];
  callers = (0, calling) ∷ [];
  handled = [];
  submitted = 1;
}

run_to_running : Reach (new_msg_router {M = String} {T = ℕ} 2 1) running
unfolding program
run_to_running =
    next (next (next (next here starts refl) (handling_wait "a") refl) receives refl)
      (dispatching 0) refl

abbrev waited : Net
waited = record running { callers = (0, receiving) ∷ [] }

run_to_waited : Reach (new_msg_router {M = String} {T = ℕ} 2 1) waited
unfolding program
run_to_waited = next run_to_running (awaiting 0) refl

abbrev answered : Net
answered = record running { busy = []; callers = (0, got 7) ∷ []; handled = (0, 7) ∷ [] }

run_to_answered : Reach (new_msg_router {M = String} {T = ℕ} 2 1) answered
unfolding program
run_to_answered = next run_to_waited (finishing 0 7) refl

-- The third message of three does not fit in a queue of two.
third_dropped :
    (handle "c" (handle "b" (handle "a" (new_msg_router {M = String} {T = ℕ} 2 1)).0).0).1
    ≡ some queue_full
unfolding program
third_dropped = refl

Reach-IsBounded_example : IsBounded 2 1 running
Reach-IsBounded_example = Reach-IsBounded 2 1 run_to_running

Reach-IsAccounted_example : places 0 answered ≡ 1
Reach-IsAccounted_example = Reach-IsAccounted 2 1 run_to_answered 0

handle_wait-Answered_example : Answered 0 7 answered.handled
unfolding lookup
handle_wait-Answered_example = handle_wait-Answered 2 1 run_to_answered 0 7 refl

abbrev dropped : Net
dropped = record running { busy = []; handled = (0, 7) ∷ [] }

early_answer_lost_example :
    lookup 0 (record dropped { callers = (0, receiving) ∷ [] }).callers ≢ some (got 7)
unfolding program
early_answer_lost_example =
    early_answer_lost 2 1 0 7 running dropped (record dropped { callers = (0, receiving) ∷ [] }) w0
      [] run_to_running refl refl refl (next here (awaiting 0) refl) 7

-- A message is queued, and a loop has started.
abbrev queued : Net
queued = record {
  q_size = 2;
  workers = 1;
  q = some w0 ∷ [];
  idle = 1;
  held = [];
  busy = [];
  callers = (0, calling) ∷ [];
  handled = [];
  submitted = 1;
}

run_to_queued : Reach (new_msg_router {M = String} {T = ℕ} 2 1) queued
unfolding program
run_to_queued = next (next here starts refl) (handling_wait "a") refl

handled_eventually_example :
    (s : Net) × Reach queued s × ((n : ℕ) → n < 1 → occurs_handled n s.handled ≡ 1)
handled_eventually_example = handled_eventually 2 1 7 run_to_queued (omega arith) (omega arith) refl

abbrev answered' : Net
answered' = record queued { q = []; handled = (0, 7) ∷ [] }

worked_off : Works queued 3 answered'
unfolding program
worked_off = Works.finished (Works.dispatched (Works.received Works.rest refl) 0 refl) 0 7 refl

Works-le-work_example : 3 + work answered' ≤ work queued
Works-le-work_example = Works-le-work worked_off
