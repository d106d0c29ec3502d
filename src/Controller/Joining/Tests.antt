-- ===== src/Controller/Joining/Tests.antt =====
-- Calls of `tryJoin` at concrete inputs, over a pubsub that lets a topic be joined once.
use p2pmq.Base.{
  ℕ, suc, String, [], ◌∷◌, none, some, ok, err, false, ◌≡◌, refl, if◌then◌else◌, string_key,
  nat_key, arith, eqb,
}
use p2pmq.Base.Dict.{lookup, insert}
use p2pmq.Commons.Pubsub.{PubsubConfig, get_topic_config}
use p2pmq.Controller.Libp2p.{Libp2p, IsNaming}
use p2pmq.Controller.Topics.{joining_wrapper, topic_state_joined}
use p2pmq.Controller.Pubsub.{Controller, topic_opts, validator_opts, already_joining, try_join}
use p2pmq.Controller.Joining.{
  here, next, looking, registering, finished, move, run, look, mark, ask_join, swap_state,
  set_topic, ask_validator, load_state, load_topic, System, Reach, Shared,
}
use p2pmq.Controller.Joining.Represents.{Represents, resolve}
use p2pmq.Controller.Joining.Alone.{run-try_join}
use p2pmq.Controller.Joining.Handles.{new_system, handle_named}
use p2pmq.Controller.Joining.Races.{early_look_nil, late_mark_sticks}

abbrev once : Libp2p
once = record {
  World = ℕ;
  Topic = String;
  Subscription = String;
  RelayCancelFunc = String;
  topic_name = λ t. t;
  join = λ name opts w. (suc w, if eqb w 0 then ok name else err "topic already exists");
  publish = λ t bytes w. (w, none);
  close = λ t w. (w, none);
  subscribe = λ t opts w. (w, ok t);
  relay = λ t w. (w, ok t);
  cancel = λ s w. w;
  cancel_relay = λ f w. w;
  register_topic_validator = λ name opts w. (w, none);
}

once-IsNaming : IsNaming once
once-IsNaming = record { named = λ name opts w t e. ground arith }

abbrev cfg : PubsubConfig
cfg = record { topics = []; msg_validator = none }

program : Unit {0}
unfolding move run look mark ask_join swap_state set_topic ask_validator load_state load_topic
    lookup insert topic_opts validator_opts get_topic_config resolve
program = tt

-- One topic is joined.
abbrev shared : Shared once
shared = record {
  names = ("news", 0) ∷ [];
  heap =
      (0, record (joining_wrapper once) { state = topic_state_joined; topic = some "news" }) ∷ [];
  fresh = 1;
  locked = false;
  world = 0;
}

abbrev controller : Controller once
controller = record {
  topics =
      ("news", record (joining_wrapper once) { state = topic_state_joined; topic = some "news" })
      ∷ [];
  listeners = [];
  world = 0;
}

shared-Represents : Represents once shared controller
unfolding program
shared-Represents = record {
  free = refl;
  world = refl;
  entries = λ j. ground arith;
  present = λ j a e. ground arith;
  below = λ j a e. ground arith;
  apart = λ j k a e f. ground (arith, string_key.same_iff "news" j, string_key.same_iff "news" k);
}

run-try_join_example :
    ((run once cfg 6 "sport" shared looking).1
      ≡ finished (try_join once cfg "sport" controller).1 (try_join once cfg "sport" controller).2)
    × Represents once
        (run once cfg 6 "sport" shared looking).0
        (try_join once cfg "sport" controller).0
run-try_join_example = run-try_join once cfg "sport" shared controller shared-Represents

early_look_nil_example :
    (q : System once) × Reach once cfg (λ i. "news") (new_system once 0) q
    × (q.calls 1 ≡ finished none none)
unfolding program
early_look_nil_example =
    early_look_nil once cfg (λ i. "news") (new_system once 0) 0 1 (omega arith) "news" refl refl
      "news" refl refl refl refl refl

late_mark_sticks_example :
    (q : System once) × Reach once cfg (λ i. "news") (new_system once 0) q
    × (q.calls 0 ≡ registering "news")
    × (q.calls 1 ≡ finished none (some "topic already exists"))
    × (run once cfg 6 "news" q.shared looking
        ≡ (q.shared, finished none (some (already_joining "news"))))
unfolding program
late_mark_sticks_example =
    late_mark_sticks once cfg (λ i. "news") (new_system once 0) 0 1 (omega arith) "news" refl refl
      "news" refl refl refl refl refl "topic already exists" refl

-- A call that runs from its start to its return.
whole_call :
    (q : System once) × Reach once cfg (λ i. "news") (new_system once 0) q
    × (q.calls 0 ≡ finished (some "news") none)
unfolding program
whole_call = (
  _,
  next (next (next (next (next (next here 0 refl) 0 refl) 0 refl) 0 refl) 0 refl) 0 refl,
  refl,
)

handle_named_example : once.topic_name "news" ≡ "news"
handle_named_example =
    handle_named once cfg once-IsNaming (λ i. "news") 0 whole_call.0 0 "news" none whole_call.1
      whole_call.2
