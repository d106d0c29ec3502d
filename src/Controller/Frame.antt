-- ===== src/Controller/Frame.antt =====
-- A call on one topic leaves the other topics alone.
use p2pmq.Base.{
  ℕ, ◌||◌, String, List, Option, none, some, Result, ok, err, ◌≡◌, refl, ◌≢◌, inl, inr, ◌∙◌, eqb,
  string_key, Bool-cases, Option-cases,
}
use p2pmq.Base.Dict.{lookup, insert, lookup-insert_ne}
use p2pmq.Commons.Pubsub.{PubsubConfig}
use p2pmq.Controller.Libp2p.{Libp2p, IsNaming}
use p2pmq.Controller.Topics.{
  TopicWrapper, Topics, topic_state_joining, topic_state_joined, topic_state_err, get_topic_wrapper,
  set_topic_relay_cancel_fn, add_sub, get_sub, upgrade_topic, joining_topic,
}
use p2pmq.Controller.Pubsub.{
  Controller, Outcome, sub_opts, topic_opts, validator_opts, register_validator, join_new, try_join,
  try_subscribe, try_subscribe_named, publish_on, listen, subscribe_on, relay_on, or_return,
  publish, subscribe, relay, close_topic, leave,
}
use p2pmq.Controller.Calls.{
  Call, publishing, subscribing, relaying, leaving, unsubscribing, unrelaying, call, topic_of,
}
use p2pmq.Controller.Invariant.{IsValid}
use p2pmq.Controller.Join.{try_join_result}
use p2pmq.Controller.Steps.{unsubscribe_frame, unrelay_frame}

module _ (p : Libp2p) where
  -- The second map is the first after writes to one name.
  pub data Writes (name : String) (topics : Topics p) : Topics p → Type 0 where
    unwritten : Writes name topics topics
    written :
        {after : Topics p} (tw : TopicWrapper p)
        → Writes name topics after
        → Writes name topics (insert name tw after)

  pub Writes-lookup :
      {name : String} (j : String) {topics after : Topics p}
      → Writes name topics after
      → name ≢ j
      → lookup j after ≡ lookup j topics
  Writes-lookup j unwritten h = refl
  Writes-lookup {name} j (written tw w) h = lookup-insert_ne name j tw _ h ∙ Writes-lookup j w h

  module _ (cfg : PubsubConfig) where
    register_validator-Writes :
        {topics : Topics p} (name : String) (t : p.Topic) (c : Controller p)
        → Writes name topics c.topics
        → Writes name topics (register_validator p cfg name t c).0.topics
    unfolding register_validator
    register_validator-Writes name t c w = elim (Option-cases (validator_opts cfg name)) [
      | inl e ↦ rw (e, register_validator) w
      | inr (o, e) ↦ rw (e, register_validator) w
    ]

    upgrade_topic-Writes :
        {topics : Topics p} (name : String) (t : p.Topic) (after : Topics p)
        → Writes name topics after
        → Writes name topics (upgrade_topic p name t after).0
    unfolding upgrade_topic
    upgrade_topic-Writes name t after w = elim (Option-cases (lookup name after)) [
      | inl e ↦ rw (e, upgrade_topic) w
      | inr (tw, e) ↦ elim (Bool-cases (eqb tw.state topic_state_joining)) [
        | inl b ↦ rw (e, upgrade_topic, b) (written _ w)
        | inr b ↦ rw (e, upgrade_topic, b) w
      ]
    ]

    try_join-Writes :
        (name : String) (c : Controller p) → Writes name c.topics (try_join p cfg name c).0.topics
    unfolding try_join join_new get_topic_wrapper joining_topic
    try_join-Writes name c = elim (Option-cases (lookup name c.topics)) [
      | inr (tw, e) ↦ elim (Bool-cases (eqb tw.state topic_state_joining)) [
        | inl b ↦ rw (e, try_join, b) unwritten
        | inr b ↦ rw (e, try_join, b) unwritten
      ]
      | inl e ↦ rw (e, try_join) (go (p.join name (topic_opts cfg name) c.world).1 refl)
    ]
      where
        go :
            (r : Result p.Topic)
            → (p.join name (topic_opts cfg name) c.world).1 ≡ r
            → Writes name c.topics (join_new p cfg name c).0.topics
        go (err x) e = rw (e, join_new) (written _ unwritten)
        go (ok t) e =
            rw (e, join_new)
              (register_validator-Writes name t _
                (upgrade_topic-Writes name t _ (written _ unwritten)))

    add_sub-Writes :
        {topics : Topics p} (name : String) (s : p.Subscription) (after : Topics p)
        → Writes name topics after
        → Writes name topics (add_sub p name s after).0
    unfolding add_sub
    add_sub-Writes name s after w = elim (Option-cases (lookup name after)) [
      | inl e ↦ rw (e, add_sub) w
      | inr (tw, e) ↦ rw (e, add_sub) (written _ w)
    ]

    set_relay-Writes :
        {topics : Topics p} (name : String) (fn : p.RelayCancelFunc) (after : Topics p)
        → Writes name topics after
        → Writes name topics (set_topic_relay_cancel_fn p name fn after).0
    unfolding set_topic_relay_cancel_fn
    set_relay-Writes name fn after w = elim (Option-cases (lookup name after)) [
      | inl e ↦ rw (e, set_topic_relay_cancel_fn) w
      | inr (tw, e) ↦ rw (e, set_topic_relay_cancel_fn) (written _ w)
    ]

    publish_on-Writes :
        {topics : Topics p} {name : String} (bytes : List ℕ) (t : Option p.Topic) (c : Controller p)
        → Writes name topics c.topics
        → Writes name topics (publish_on p bytes t c).0.topics
    unfolding publish_on
    publish_on-Writes bytes none c w = w
    publish_on-Writes bytes (some t) c w = w

    relay_on-Writes :
        {topics : Topics p} (name : String) (t : Option p.Topic) (c : Controller p)
        → Writes name topics c.topics
        → Writes name topics (relay_on p name t c).0.topics
    unfolding relay_on
    relay_on-Writes name none c w = w
    relay_on-Writes {topics} name (some t) c w = go (p.relay t c.world).1 refl
      where
        go :
            (r : Result p.RelayCancelFunc)
            → (p.relay t c.world).1 ≡ r
            → Writes name topics (relay_on p name (some t) c).0.topics
        go (err x) e = rw (e, relay_on) w
        go (ok fn) e = rw (e, relay_on) (set_relay-Writes name fn c.topics w)

    listen_topics :
        (name : String) (r : Result (Option p.Subscription)) (c : Controller p)
        → (listen p name r c).0.topics ≡ c.topics
    unfolding listen
    listen_topics name (err e) c = refl
    listen_topics name (ok none) c = refl
    listen_topics name (ok (some s)) c = refl

    try_subscribe-Writes :
        {topics : Topics p} (name : String) (t : p.Topic) (c : Controller p)
        → p.topic_name t ≡ name
        → Writes name topics c.topics
        → Writes name topics (try_subscribe p cfg t c).0.topics
    unfolding try_subscribe try_subscribe_named
    try_subscribe-Writes {topics} name t c n w =
        rw n (elim (Option-cases (get_sub p name c.topics)) [
          | inr (s, e) ↦ rw (e, try_subscribe_named) w
          | inl e ↦ go e (p.subscribe t (sub_opts cfg name) c.world).1 refl
        ])
      where
        go :
            get_sub p name c.topics ≡ none
            → (r : Result p.Subscription) → (p.subscribe t (sub_opts cfg name) c.world).1 ≡ r
            → Writes name topics (try_subscribe_named p cfg name t c).0.topics
        go e (err x) er = rw (e, try_subscribe_named) (rw er w)
        go e (ok s) er = rw (e, try_subscribe_named) (rw er (add_sub-Writes name s c.topics w))

    subscribe_on-Writes :
        {topics : Topics p} (name : String) (t : p.Topic) (c : Controller p)
        → p.topic_name t ≡ name
        → Writes name topics c.topics
        → Writes name topics (subscribe_on p cfg name (some t) c).0.topics
    unfolding subscribe_on
    subscribe_on-Writes name t c n w =
        rw (listen_topics name _ _) (try_subscribe-Writes name t c n w)

    or_return-Writes :
        {topics : Topics p} {name : String} (r : Controller p × Option p.Topic × Option String)
        (k : Option p.Topic → Controller p → Controller p × Outcome)
        → Writes name topics r.0.topics
        → (r.2 ≡ none → Writes name topics (k r.1 r.0).0.topics)
        → Writes name topics (or_return p cfg r k).0.topics
    or_return-Writes (c, t, none) k w hk = hk refl
    or_return-Writes (c, t, some x) k w hk = w

    leave-Writes :
        (name : String) (c : Controller p) → Writes name c.topics (leave p name c).0.topics
    unfolding leave close_topic get_topic_wrapper
    leave-Writes name c = elim (Option-cases (lookup name c.topics)) [
      | inl e ↦ rw (e, leave) unwritten
      | inr (tw, e) ↦
          elim (Bool-cases (eqb tw.state topic_state_joined || eqb tw.state topic_state_err)) [
            | inr b ↦ rw (e, leave, b) unwritten
            | inl b ↦ rw (e, leave, b) (closing tw)
          ]
    ]
      where
        closing : (tw : TopicWrapper p) → Writes name c.topics (close_topic p name tw c).0.topics
        closing tw = elim (Option-cases tw.topic) [
          | inl e ↦ rw (e, close_topic) unwritten
          | inr (t, e) ↦ elim (Option-cases (p.close t c.world).1) [
            | inl done ↦ rw (e, close_topic) (rw (done, close_topic) (written _ unwritten))
            | inr (x, failed) ↦ rw (e, close_topic) (rw (failed, close_topic) (written _ unwritten))
          ]
        ]

    pub call-Writes :
        (naming : IsNaming p) (k : Call) (c : Controller p)
        → IsValid p c
        → Writes (topic_of k) c.topics (call p cfg k c).0.topics
    unfolding call publish subscribe relay
    call-Writes naming (publishing name bytes) c h =
        or_return-Writes (try_join p cfg name c) (publish_on p bytes) (try_join-Writes name c)
          (λ _. publish_on-Writes bytes _ _ (try_join-Writes name c))
    call-Writes naming (subscribing name) c h =
        or_return-Writes (try_join p cfg name c) (subscribe_on p cfg name) (try_join-Writes name c)
          (λ done.
            let (t, e, j) = try_join_result p cfg naming name c h done in
            rw e (subscribe_on-Writes name t _ j.naming (try_join-Writes name c)))
    call-Writes naming (relaying name) c h =
        or_return-Writes (try_join p cfg name c) (relay_on p name) (try_join-Writes name c)
          (λ _. relay_on-Writes name _ _ (try_join-Writes name c))
    call-Writes naming (leaving name) c h = leave-Writes name c
    call-Writes naming (unsubscribing name) c h = rw ((unsubscribe_frame p cfg name c).0) unwritten
    call-Writes naming (unrelaying name) c h = rw ((unrelay_frame p cfg name c).0) unwritten

    -- On a valid controller, a call on one topic leaves the entry of every other topic as it is.
    pub lookup-call :
        (naming : IsNaming p) (k : Call) (c : Controller p) (j : String)
        → IsValid p c
        → topic_of k ≢ j
        → lookup j (call p cfg k c).0.topics ≡ lookup j c.topics
    lookup-call naming k c j h ne = Writes-lookup j (call-Writes naming k c h) ne
