-- ===== src/Controller/Steps.antt =====
-- Each operation of core/pubsub.go, and every run of them, keeps the invariant.
use p2pmq.Base.{
  ℕ, ◌||◌, String, List, ◌∷◌, Option, none, some, Result, ok, err, ◌≡◌, refl, ◌≢◌, ◌⊎◌, inl, inr,
  ◌∙◌, ap, sym, eqb, string_key, Bool-cases, arith, Option-cases,
}
use mathlib.Core.Path.{subst}
use p2pmq.Base.Dict.{lookup, insert}
use p2pmq.Commons.Pubsub.{PubsubConfig}
use p2pmq.Controller.Libp2p.{Libp2p, IsNaming}
use p2pmq.Controller.Topics.{
  TopicWrapper, Topics, topic_state_joining, topic_state_joined, topic_state_unknown,
  topic_state_err, get_topic_wrapper, set_topic_relay_cancel_fn, add_sub, get_sub,
}
use p2pmq.Controller.Pubsub.{
  Controller, Outcome, returns, sub_opts, try_join, try_subscribe, try_subscribe_named, publish_on,
  listen, subscribe_on, relay_on, or_return, publish, subscribe, relay, close_topic, leave,
  unsubscribe, unrelay,
}
use p2pmq.Controller.Calls.{
  Call, publishing, subscribing, relaying, leaving, unsubscribing, unrelaying, call, Reach, here,
  next,
}
use p2pmq.Controller.Invariant.{
  IsEntry, AreEntries, IsJoined, IsValid, IsValid-world, IsValid-write, IsValid-listener,
}
use p2pmq.Controller.Join.{try_join-IsValid, try_join_result}

module _ (p : Libp2p) (cfg : PubsubConfig) where
  or_return-IsValid :
      (r : Controller p × Option p.Topic × Option String)
      (k : Option p.Topic → Controller p → Controller p × Outcome)
      → IsValid p r.0
      → (r.2 ≡ none → IsValid p (k r.1 r.0).0)
      → IsValid p (or_return p cfg r k).0
  or_return-IsValid (c, t, none) k h hk = hk refl
  or_return-IsValid (c, t, some x) k h hk = h

  -- An entry whose subscription or relay changes, and an entry that goes to another settled state.
  IsEntry-settled :
      (name : String) (tw u : TopicWrapper p)
      → IsEntry p name tw
      → tw.state ≢ topic_state_joining
      → u.topic ≡ tw.topic
      → (u.state ≡ tw.state) ⊎ ((u.state ≡ topic_state_unknown) ⊎ (u.state ≡ topic_state_err))
      → IsEntry p name u
  IsEntry-settled name tw u h settled same st = record {
    known = ground arith;
    blank = λ e. absurd (ground arith);
    held = λ _. let (t, e, n) = h.held settled in (t, same ∙ e, n);
  }

  pub get_sub_found :
      (name : String) (tw : TopicWrapper p) (topics : Topics p)
      → lookup name topics ≡ some tw
      → get_sub p name topics ≡ tw.sub
  unfolding get_sub
  get_sub_found name tw topics e = rw (e, get_sub)

  publish_on-IsValid :
      (bytes : List ℕ) (t : Option p.Topic) (c : Controller p)
      → IsValid p c
      → IsValid p (publish_on p bytes t c).0
  unfolding publish_on
  publish_on-IsValid bytes none c h = h
  publish_on-IsValid bytes (some t) c h = IsValid-world p c _ h

  pub subscribe_on_known :
      (name : String) (t : p.Topic) (c : Controller p) (sub : p.Subscription)
      → IsJoined p name c t
      → get_sub p name c.topics ≡ some sub
      → subscribe_on p cfg name (some t) c ≡ (c, returns none)
  unfolding subscribe_on try_subscribe try_subscribe_named listen
  subscribe_on_known name t c sub j e = rw j.naming (rw (e, try_subscribe_named) refl)

  pub subscribe_on_err :
      (name : String) (t : p.Topic) (c : Controller p) (x : String)
      → IsJoined p name c t
      → get_sub p name c.topics ≡ none
      → (p.subscribe t (sub_opts cfg name) c.world).1 ≡ err x
      → subscribe_on p cfg name (some t) c
        ≡ (record c { world = (p.subscribe t (sub_opts cfg name) c.world).0 }, returns (some x))
  unfolding subscribe_on try_subscribe try_subscribe_named listen
  subscribe_on_err name t c x j e er = rw j.naming (rw (e, try_subscribe_named) (rw er))

  pub subscribe_on_ok :
      (name : String) (t : p.Topic) (c : Controller p) (sub : p.Subscription)
      (j : IsJoined p name c t)
      → get_sub p name c.topics ≡ none
      → (p.subscribe t (sub_opts cfg name) c.world).1 ≡ ok sub
      → subscribe_on p cfg name (some t) c ≡ (
        record {
          topics = insert name (record (j.wrapper) { sub = some sub }) c.topics;
          listeners = (name, sub) ∷ c.listeners;
          world = (p.subscribe t (sub_opts cfg name) c.world).0;
        },
        returns none,
      )
  unfolding subscribe_on try_subscribe try_subscribe_named listen add_sub
  subscribe_on_ok name t c sub j e er =
      rw j.naming (rw (e, try_subscribe_named) (rw er (rw (j.found, add_sub))))

  subscribe_on-IsValid :
      (name : String) (t : p.Topic) (c : Controller p)
      → IsJoined p name c t
      → IsValid p c
      → IsValid p (subscribe_on p cfg name (some t) c).0
  subscribe_on-IsValid name t c j h = elim (Option-cases (get_sub p name c.topics)) [
    | inr (sub, e) ↦ rw (subscribe_on_known name t c sub j e) h
    | inl e ↦ fresh e (p.subscribe t (sub_opts cfg name) c.world).1 refl
  ]
    where
      fresh :
          get_sub p name c.topics ≡ none
          → (r : Result p.Subscription) → (p.subscribe t (sub_opts cfg name) c.world).1 ≡ r
          → IsValid p (subscribe_on p cfg name (some t) c).0
      fresh e (err x) er = rw (subscribe_on_err name t c x j e er) (IsValid-world p c _ h)
      fresh e (ok sub) er = rw (subscribe_on_ok name t c sub j e er) (
          IsValid-listener p c _ name (record (j.wrapper) { sub = some sub }) sub
            (IsEntry-settled name j.wrapper _ (h.entries name j.wrapper j.found) j.settled refl
              (inl refl))
            refl e h)

  relay_on-IsValid :
      (name : String) (t : p.Topic) (c : Controller p)
      → IsJoined p name c t
      → IsValid p c
      → IsValid p (relay_on p name (some t) c).0
  unfolding relay_on set_topic_relay_cancel_fn
  relay_on-IsValid name t c j h = go (p.relay t c.world).1 refl
    where
      go :
          (r : Result p.RelayCancelFunc)
          → (p.relay t c.world).1 ≡ r
          → IsValid p (relay_on p name (some t) c).0
      go (err x) er = rw (er, relay_on) (IsValid-world p c _ h)
      go (ok fn) er =
          rw (er, relay_on)
            (rw (j.found, set_topic_relay_cancel_fn)
              (IsValid-write p c _ name (record (j.wrapper) { relay_cancel_fn = some fn })
                (IsEntry-settled name j.wrapper _ (h.entries name j.wrapper j.found) j.settled refl
                  (inl refl))
                (sym (get_sub_found name j.wrapper c.topics j.found)) h))

  close_topic-IsValid :
      (name : String) (tw : TopicWrapper p) (c : Controller p)
      → lookup name c.topics ≡ some tw
      → tw.state ≢ topic_state_joining
      → IsValid p c
      → IsValid p (close_topic p name tw c).0
  unfolding close_topic
  close_topic-IsValid name tw c found settled h = elim (Option-cases tw.topic) [
    | inl e ↦ rw (e, close_topic) h
    | inr (t, e) ↦ elim (Option-cases (p.close t c.world).1) [
      | inl done ↦
          rw (e, close_topic) (rw (done, close_topic) (stored topic_state_unknown (inl refl)))
      | inr (x, failed) ↦
          rw (e, close_topic) (rw (failed, close_topic) (stored topic_state_err (inr refl)))
    ]
  ]
    where
      stored :
          {w : p.World} (v : ℕ)
          → (v ≡ topic_state_unknown) ⊎ (v ≡ topic_state_err)
          → IsValid p
              (record c { topics = insert name (record tw { state = v }) c.topics; world = w })
      stored {w} v hv =
          IsValid-write p c w name (record tw { state = v })
            (IsEntry-settled name tw _ (h.entries name tw found) settled refl (inr hv))
            (sym (get_sub_found name tw c.topics found)) h

  leave-IsValid : (name : String) (c : Controller p) → IsValid p c → IsValid p (leave p name c).0
  unfolding leave get_topic_wrapper
  leave-IsValid name c h = elim (Option-cases (lookup name c.topics)) [
    | inl e ↦ rw (e, leave) h
    | inr (tw, e) ↦
        elim (Bool-cases (eqb tw.state topic_state_joined || eqb tw.state topic_state_err)) [
          | inl b ↦ rw (e, leave, b) (close_topic-IsValid name tw c e (λ s. ground arith) h)
          | inr b ↦ rw (e, leave, b) h
        ]
  ]

  IsValid-of_same :
      (c d : Controller p)
      → d.topics ≡ c.topics
      → d.listeners ≡ c.listeners
      → IsValid p c
      → IsValid p d
  IsValid-of_same c d topics listeners h = record {
    entries = subst (AreEntries p) (sym topics) h.entries;
    listening = λ name. rw (topics, listeners) (h.listening name);
  }

  -- `Unsubscribe` and `Unrelay` write nothing to the manager.
  pub unsubscribe_frame :
      (name : String) (c : Controller p)
      → ((unsubscribe p name c).0.topics ≡ c.topics)
        × ((unsubscribe p name c).0.listeners ≡ c.listeners)
  unfolding unsubscribe
  unsubscribe_frame name c = (ground arith, ground arith)

  pub unrelay_frame :
      (name : String) (c : Controller p)
      → ((unrelay p name c).0.topics ≡ c.topics) × ((unrelay p name c).0.listeners ≡ c.listeners)
  unfolding unrelay
  unrelay_frame name c = (ground arith, ground arith)

  unsubscribe-IsValid :
      (name : String) (c : Controller p) → IsValid p c → IsValid p (unsubscribe p name c).0
  unsubscribe-IsValid name c h =
      let (topics, listeners) = unsubscribe_frame name c in
      IsValid-of_same c (unsubscribe p name c).0 topics listeners h

  unrelay-IsValid :
      (name : String) (c : Controller p) → IsValid p c → IsValid p (unrelay p name c).0
  unrelay-IsValid name c h =
      let (topics, listeners) = unrelay_frame name c in
      IsValid-of_same c (unrelay p name c).0 topics listeners h

  module _ (naming : IsNaming p) where
    subscribe-IsValid :
        (name : String) (c : Controller p) → IsValid p c → IsValid p (subscribe p cfg name c).0
    unfolding subscribe
    subscribe-IsValid name c h =
        or_return-IsValid (try_join p cfg name c) (subscribe_on p cfg name)
          (try_join-IsValid p cfg naming name c h)
          (λ done.
            let (t, e, j) = try_join_result p cfg naming name c h done in
            rw e (subscribe_on-IsValid name t _ j (try_join-IsValid p cfg naming name c h)))

    relay-IsValid :
        (name : String) (c : Controller p) → IsValid p c → IsValid p (relay p cfg name c).0
    unfolding relay
    relay-IsValid name c h =
        or_return-IsValid (try_join p cfg name c) (relay_on p name)
          (try_join-IsValid p cfg naming name c h)
          (λ done.
            let (t, e, j) = try_join_result p cfg naming name c h done in
            rw e (relay_on-IsValid name t _ j (try_join-IsValid p cfg naming name c h)))

    -- Every call on a controller keeps the invariant.
    pub call-IsValid : (k : Call) (c : Controller p) → IsValid p c → IsValid p (call p cfg k c).0
    unfolding call publish
    call-IsValid (publishing name bytes) c h =
        or_return-IsValid (try_join p cfg name c) (publish_on p bytes)
          (try_join-IsValid p cfg naming name c h)
          (λ _. publish_on-IsValid bytes _ _ (try_join-IsValid p cfg naming name c h))
    call-IsValid (subscribing name) c h = subscribe-IsValid name c h
    call-IsValid (relaying name) c h = relay-IsValid name c h
    call-IsValid (leaving name) c h = leave-IsValid name c h
    call-IsValid (unsubscribing name) c h = unsubscribe-IsValid name c h
    call-IsValid (unrelaying name) c h = unrelay-IsValid name c h

    -- Over a libp2p whose handles carry the name they were joined with, every controller that
    -- calls reach from a valid one, each returning with or without an error, is valid: the state
    -- of each known topic is one of the four, a topic that is being joined has no handle,
    -- subscription or relay, any other has a handle of its own name, and for every name Subscribe
    -- has started exactly as many goroutines as the manager holds subscriptions (none or one).
    pub Reach-IsValid : {c d : Controller p} → IsValid p c → Reach p cfg c d → IsValid p d
    Reach-IsValid h here = h
    Reach-IsValid h (next {d = d} r k o e) =
        rw (ap (λ (x : Controller p × Outcome). x.0) e) at (call-IsValid k d (Reach-IsValid h r))
