-- ===== src/Controller/Tests.antt =====
-- The controller over a small pubsub: runs, and the theorems at concrete inputs.
use p2pmq.Base.{
  ℕ, suc, List, Bool, false, String, [], ◌∷◌, none, some, ok, err, ◌≡◌, refl, ◌↔◌, string_key, ◌==◌,
  if◌then◌else◌, arith,
}
use p2pmq.Base.Dict.{lookup, insert}
use p2pmq.Base.Int.{pos, negsuc, second}
use p2pmq.Commons.Pubsub.{PubsubConfig, get_topic_config, msg_validation_defaults}
use p2pmq.Controller.Pubsub.{validator_opts}
use p2pmq.Router.Queue.{new_msg_router}
use p2pmq.Controller.Listening.{Next, next_msg, next_failed, listen_subscription}
use p2pmq.Controller.Heard.{handle_all, listen_subscription-handle_all}
use p2pmq.Controller.Libp2p.{Libp2p, IsNaming}
use p2pmq.Controller.Topics.{
  TopicWrapper, topic_state_joined, joining_wrapper, get_sub, get_topic_wrapper, joining_topic,
  upgrade_topic, add_sub, set_topic_relay_cancel_fn,
}
use p2pmq.Controller.Pubsub.{
  Controller, returns, panic, publish, subscribe, relay, leave, unsubscribe, unrelay, try_join,
  join_new, register_validator, try_subscribe, try_subscribe_named, publish_on, listen,
  subscribe_on, relay_on, close_topic, topic_opts, sub_opts, validator_opts, already_joining,
}
use p2pmq.Controller.Calls.{
  publishing, subscribing, relaying, unsubscribing, unrelaying, call, here, next,
}
use p2pmq.Controller.Invariant.{IsValid, listener_count}
use p2pmq.Controller.Steps.{Reach-IsValid}
use p2pmq.Controller.Frame.{lookup-call}
use p2pmq.Controller.Lifecycle.{failed_join_sticks}
use p2pmq.Controller.Unset.{any_call}
use p2pmq.Controller.Panics.{Panics, any_call-panic_iff}
use p2pmq.Controller.Subscriptions.{resubscribe_lost, subscribe_listens, leave-publish}

-- It counts its calls, and refuses to join the topic "bad".
abbrev counting : Libp2p
counting = record {
  World = ℕ;
  Topic = String;
  Subscription = String;
  RelayCancelFunc = String;
  topic_name = λ t. t;
  join = λ name opts w. (suc w, if name == "bad" then err "refused" else ok name);
  publish = λ t bytes w. (suc w, none);
  close = λ t w. (suc w, none);
  subscribe = λ t opts w. (suc w, ok t);
  relay = λ t w. (suc w, ok t);
  cancel = λ s w. suc w;
  cancel_relay = λ f w. suc w;
  register_topic_validator = λ name opts w. (suc w, none);
}

counting-IsNaming : IsNaming counting
counting-IsNaming = record { named = λ name opts w t e. ground arith }

abbrev cfg : PubsubConfig
cfg = record { topics = []; msg_validator = none }

abbrev empty : Controller counting
empty = record { topics = []; listeners = []; world = 0 }

program : Unit {0}
unfolding call publish subscribe relay leave unsubscribe unrelay try_join join_new
    register_validator try_subscribe try_subscribe_named publish_on listen subscribe_on relay_on
    close_topic topic_opts sub_opts validator_opts get_topic_config get_sub get_topic_wrapper
    joining_topic upgrade_topic add_sub set_topic_relay_cancel_fn lookup insert
program = tt

abbrev wrapped : TopicWrapper counting
wrapped = record {
  state = topic_state_joined;
  topic = some "news";
  sub = some "news";
  relay_cancel_fn = none;
}

-- After one `Subscribe`: a join and a subscription.
abbrev subscribed : Controller counting
subscribed = record {
  topics = ("news", wrapped) ∷ [];
  listeners = ("news", "news") ∷ [];
  world = 2;
}

subscribe_once : call counting cfg (subscribing "news") empty ≡ (subscribed, returns none)
unfolding program
subscribe_once = refl

-- `Unsubscribe` of a topic that was only published on goes through a nil subscription.
publish-unsubscribe_panics :
    (call counting cfg
      (unsubscribing "news")
      (call counting cfg (publishing "news" (1 ∷ [])) empty).0).1
    ≡ panic
unfolding program
publish-unsubscribe_panics = refl

relay-unrelay :
    (call counting cfg (unrelaying "news") (call counting cfg (relaying "news") empty).0).1
    ≡ returns none
unfolding program
relay-unrelay = refl

empty-IsValid : IsValid counting empty
unfolding get_sub lookup
empty-IsValid = record { entries = λ name tw e. ground arith; listening = λ name. refl }

Reach-IsValid_example : IsValid counting subscribed
unfolding program
Reach-IsValid_example =
    Reach-IsValid counting cfg counting-IsNaming empty-IsValid
      (next here (subscribing "news") none subscribe_once)

lookup-call_example :
    lookup "news" (call counting cfg (relaying "other") subscribed).0.topics ≡ some wrapped
unfolding lookup
lookup-call_example =
    lookup-call counting cfg counting-IsNaming (relaying "other") subscribed "news"
      Reach-IsValid_example (ground (arith, string_key.same_iff "other" "news"))

-- With pubsub and without: Publish of a topic that is not known.
any_call-panic_iff_example :
    ((any_call counting none (publishing "news" []) empty).1 ≡ panic)
    ↔ Panics counting none (publishing "news" []) empty
any_call-panic_iff_example =
    any_call-panic_iff counting counting-IsNaming none (publishing "news" []) empty empty-IsValid

abbrev refused : Controller counting
refused = record { topics = ("bad", joining_wrapper counting) ∷ []; listeners = []; world = 1 }

failed_join_sticks_example :
    ((call counting cfg (subscribing "bad") empty).1 ≡ returns (some "refused"))
    × (call counting cfg (publishing "bad" []) refused
        ≡ (refused, returns (some (already_joining "bad"))))
unfolding program
failed_join_sticks_example =
    failed_join_sticks counting cfg counting-IsNaming (subscribing "bad") (publishing "bad" [])
      empty "refused" empty-IsValid refl refl refl refl refl here

resubscribe_lost_example :
    (unsubscribe counting "news" subscribed ≡ (record subscribed { world = 3 }, returns none))
    × (subscribe counting cfg "news" (unsubscribe counting "news" subscribed).0
        ≡ (record subscribed { world = 3 }, returns none))
unfolding lookup
resubscribe_lost_example =
    resubscribe_lost counting cfg "news" subscribed wrapped "news" Reach-IsValid_example refl
      (λ e. omega arith) refl

subscribe_listens_example :
    listener_count counting "news" (subscribe counting cfg "news" empty).0.listeners ≡ 1
unfolding program
subscribe_listens_example =
    subscribe_listens counting cfg counting-IsNaming "news" empty empty-IsValid refl

leave-publish_example :
    let d = (leave counting "news" subscribed).0 in
    ((leave counting "news" subscribed).1 ≡ returns none)
    × (d.world ≡ 3)
    × (publish counting cfg "news" (7 ∷ []) d ≡ (record d { world = suc d.world }, returns none))
unfolding lookup
leave-publish_example =
    leave-publish counting cfg "news" (7 ∷ []) subscribed wrapped "news" refl refl refl refl

-- A topic whose own configuration sets a concurrency of 3, over a common timeout of one second.
abbrev limited : PubsubConfig
limited = record {
  topics =
      record {
        name = "news";
        buffer_size = pos 0;
        msg_validator = some (record { timeout = pos 0; concurrency = pos 3 });
        msg_id_fn_config = none;
      }
      ∷ [];
  msg_validator = some (record { timeout = pos second; concurrency = negsuc 4 });
}

limited_opts :
    validator_opts limited "news" ≡ some (record { timeout = pos second; concurrency = pos 3 })
unfolding validator_opts get_topic_config msg_validation_defaults
limited_opts = refl

-- A queue of one takes the first of two messages; the stream fails in between.
abbrev two_heard : List (Bool × Bool × Next String)
two_heard =
    (false, false, next_msg "a") ∷ (false, false, next_failed) ∷ (false, false, next_msg "b") ∷ []

listen_subscription-handle_all_example :
    listen_subscription two_heard (new_msg_router {M = String} {T = ℕ} 1 1)
    ≡ handle_all ("a" ∷ "b" ∷ []) (new_msg_router {M = String} {T = ℕ} 1 1)
listen_subscription-handle_all_example =
    listen_subscription-handle_all two_heard (new_msg_router {M = String} {T = ℕ} 1 1) (
      (refl, refl, λ e. ground arith),
      ((refl, refl, λ e. ground arith), ((refl, refl, λ e. ground arith), tt)),
    )
